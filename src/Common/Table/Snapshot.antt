-- ===== src/Common/Table/Snapshot.antt =====
-- A loop that updates rows by what was read of them before the loop.
use mathlib.Core.Option
use native.Mathlib.Nat.{zero-add}
use workforce_app_backend.Common.{
  ℕ, ◌+◌, ◌≡◌, ap, ◌∙◌, sym, Bool, true, false, Option, none, some, List, [], ◌∷◌, arith, ◌==◌,
  sum_by, if◌then◌else◌, All, All-weaken, All-both, inl, inr, Option-cases,
}
use workforce_app_backend.Common.Table.{
  find_by, has_key, update_by, HasDistinctKeys, find_by-update_by,
}
use workforce_app_backend.Common.Table.Keys.{find_by-key}

-- An entry of such a loop: a key, and the days to add or to take.
abbrev pub Entry : Type 0
Entry = ℕ × ℕ

abbrev pub entry_key : Entry → ℕ
entry_key e = e.0

abbrev pub days_for : ℕ → List Entry → ℕ
days_for k entries = sum_by (λ e. if e.0 == k then e.1 else 0) entries

pub All-ne_key {ℓ} :
    {A : Type ℓ} (key : A → ℕ) (k : ℕ) (rows : List A)
    → has_key key k rows ≡ false
    → All (λ r. (key r == k) ≡ false) rows
All-ne_key key k [] h = tt
All-ne_key key k (r ∷ rows) h = (ground arith, All-ne_key key k rows (ground arith))

module _ {ℓ} {A : Type ℓ} (key : A → ℕ) (upd : ℕ → A → A → A) (snapshot : List A) where
  abbrev pub snapshot_step : Entry → List A → List A
  snapshot_step e rows = elim (find_by key e.0 snapshot) [
    | none ↦ rows
    | some row ↦ update_by key (key row) (upd e.1 row) rows
  ]

  unfoldable pub snapshot_loop : List Entry → List A → List A
  snapshot_loop [] rows = rows
  snapshot_loop (e ∷ entries) rows = snapshot_loop entries (snapshot_step e rows)

  module _ (keeps : (n : ℕ) (row r : A) → key (upd n row r) ≡ key r) where
    find_by-snapshot_step :
        (j : ℕ) (e : Entry) (rows : List A)
        → find_by key e.0 snapshot ≡ find_by key e.0 rows
        → find_by key j (snapshot_step e rows) ≡ (
            if e.0 == j
            then Option.map (λ r. upd e.1 r r) (find_by key j rows)
            else find_by key j rows)
    find_by-snapshot_step j e rows same = elim (Option-cases (find_by key e.0 snapshot)) [
      | inl missing ↦ ground arith
      | inr (row, found) ↦ ground (
        arith,
        find_by-key key e.0 snapshot found,
        find_by-update_by key j (key row) (upd e.1 row) rows (keeps e.1 row),
      )
    ]

    module _ (zero_law : (r : A) → upd 0 r r ≡ r)
        (add_law : (m n : ℕ) (r : A) → upd n (upd m r r) (upd m r r) ≡ upd (m + n) r r) where
      combine :
          (o : Option A) (b : Bool) (m n : ℕ) (o' : Option A)
          → o' ≡ (if b then Option.map (λ r. upd m r r) o else o)
          → Option.map (λ r. upd n r r) o' ≡ Option.map (λ r. upd ((if b then m else 0) + n) r r) o
      combine none true m n o' e = rw e
      combine none false m n o' e = rw e
      combine (some r) true m n o' e = rw e (ap some (add_law m n r))
      combine (some r) false m n o' e = rw (e, zero-add)

      -- Every row gets what the entries have for its key, all together.
      pub find_by-snapshot_loop :
          (j : ℕ) (entries : List Entry) (rows : List A)
          → HasDistinctKeys entry_key entries
          → All (λ e. find_by key e.0 snapshot ≡ find_by key e.0 rows) entries
          → find_by key j (snapshot_loop entries rows)
            ≡ Option.map (λ r. upd (days_for j entries) r r) (find_by key j rows)
      unfolding snapshot_loop
      find_by-snapshot_loop j [] rows d same = elim (Option-cases (find_by key j rows)) [
        | inl e ↦ rw e
        | inr (r, e) ↦ rw (e, zero_law r)
      ]
      find_by-snapshot_loop j (e ∷ entries) rows d same =
          let step = find_by-snapshot_step j e rows same.0 in
          let others =
            All-weaken
              (λ x p. p.0 ∙ sym (ground (arith, find_by-snapshot_step x.0 e rows same.0, p.1)))
              entries (All-both _ _ entries same.1 (All-ne_key entry_key e.0 entries d.0)) in
          let ih = find_by-snapshot_loop j entries (snapshot_step e rows) d.1 others in
          ih ∙ combine (find_by key j rows) (e.0 == j) e.1 (days_for j entries) _ step
