-- ===== src/Common/Table.antt =====
-- Tables of rows with a key, as the handlers use the database: rows are found, updated and ordered.
-- A generated identifier is a number here, since the program only compares identifiers.
pub mod Keys
pub mod Snapshot
use mathlib.Core.Option
use workforce_app_backend.Common.{
  ℕ, ◌≡◌, refl, Bool, true, false, Option, none, some, List, [], ◌∷◌, arith, ◌==◌, leb, ltb, ==_iff,
  if◌then◌else◌, find, any, All, update_where, filter, sum_by, inl, inr, Bool-cases, ◌+◌, sym,
}

module _ {ℓ} {A : Type ℓ} (key : A → ℕ) where
  -- `findUnique({ where: { key: k } })`
  abbrev pub find_by : ℕ → List A → Option A
  find_by k rows = find (λ r. key r == k) rows

  abbrev pub has_key : ℕ → List A → Bool
  has_key k rows = any (λ r. key r == k) rows

  -- `update({ where: { key: k }, data })`
  abbrev pub update_by : ℕ → (A → A) → List A → List A
  update_by k f rows = update_where (λ r. key r == k) f rows

  -- The key is unique in the table.
  abbrev pub HasDistinctKeys : List A → Type 0
  HasDistinctKeys [] = Unit
  HasDistinctKeys (r ∷ rows) = (has_key (key r) rows ≡ false) × HasDistinctKeys rows

  pub find_by-update_by :
      (j k : ℕ) (f : A → A) (rows : List A)
      → ((r : A) → key (f r) ≡ key r)
      → find_by j (update_by k f rows)
        ≡ (if k == j then Option.map f (find_by j rows) else find_by j rows)
  find_by-update_by j k f [] keeps = ground arith
  find_by-update_by j k f (r ∷ rows) keeps =
      ground (arith, keeps r, find_by-update_by j k f rows keeps)

  pub find_by-none : (k : ℕ) (rows : List A) → has_key k rows ≡ false → find_by k rows ≡ none
  find_by-none k [] h = refl
  find_by-none k (r ∷ rows) h = ground (arith, find_by-none k rows)

  pub find_by-some :
      (k : ℕ) (rows : List A) → has_key k rows ≡ true → (r : A) × (find_by k rows ≡ some r)
  find_by-some k [] h = absurd (ground arith)
  find_by-some k (r ∷ rows) h = elim (Bool-cases (key r == k)) [
    | inl e ↦ (r, rw e)
    | inr e ↦ let (s, found) = find_by-some k rows (ground arith) in (s, rw e found)
  ]

module _ {ℓ} {A : Type ℓ} where
  -- `orderBy: { rank: "asc" }`: a stable sort.
  unfoldable pub insert_by : (A → ℕ) → A → List A → List A
  insert_by rank x [] = x ∷ []
  insert_by rank x (y ∷ ys) = if leb (rank x) (rank y) then x ∷ y ∷ ys else y ∷ insert_by rank x ys

  unfoldable pub order_by : (A → ℕ) → List A → List A
  order_by rank [] = []
  order_by rank (x ∷ xs) = insert_by rank x (order_by rank xs)
