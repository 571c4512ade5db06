-- ===== src/Common/Table/Keys.antt =====
-- Distinct keys, and what filtering and ordering keep.
use workforce_app_backend.Common.{
  ℕ, ◌≡◌, refl, Bool, true, false, some, List, [], ◌∷◌, arith, ◌==◌, leb, find, All, filter, sum_by,
  ◌+◌, ◌||◌, inl, inr, Bool-cases, All-weaken, find-passes, ==_iff, ◌&&◌, ◌++◌, ◌<◌, any-append,
}
use workforce_app_backend.Common.Table.{
  find_by, find_by-none, has_key, HasDistinctKeys, insert_by, order_by, update_by,
}

module _ {ℓ κ} {A : Type ℓ} (P : A → Type κ) where
  pub All-filter : (p : A → Bool) (xs : List A) → All P xs → All P (filter p xs)
  All-filter p [] h = tt
  All-filter p (x ∷ xs) h = elim (Bool-cases (p x)) [
    | inl e ↦ rw e (h.0, All-filter p xs h.1)
    | inr e ↦ rw e (All-filter p xs h.1)
  ]

  pub All-insert_by :
      (rank : A → ℕ) (x : A) (xs : List A) → P x → All P xs → All P (insert_by rank x xs)
  unfolding insert_by
  All-insert_by rank x [] h k = (h, tt)
  All-insert_by rank x (y ∷ ys) h k = elim (Bool-cases (leb (rank x) (rank y))) [
    | inl e ↦ rw e (h, k)
    | inr e ↦ rw e (k.0, All-insert_by rank x ys h k.1)
  ]

  pub All-order_by : (rank : A → ℕ) (xs : List A) → All P xs → All P (order_by rank xs)
  unfolding order_by
  All-order_by rank [] h = tt
  All-order_by rank (x ∷ xs) h =
      All-insert_by rank x (order_by rank xs) h.0 (All-order_by rank xs h.1)

  pub All-find : (p : A → Bool) (xs : List A) {x : A} → All P xs → find p xs ≡ some x → P x
  All-find p [] h e = absurd (ground arith)
  All-find p (y ∷ xs) {x} h e = elim (Bool-cases (p y)) [
    | inl t ↦ let same : y ≡ x = ground (arith, t) in rw same at h.0
    | inr t ↦ All-find p xs h.1 (ground arith)
  ]

module _ {ℓ} {A : Type ℓ} where
  pub sum_by-insert_by :
      (f rank : A → ℕ) (x : A) (xs : List A) → sum_by f (insert_by rank x xs) ≡ f x + sum_by f xs
  unfolding insert_by
  sum_by-insert_by f rank x [] = refl
  sum_by-insert_by f rank x (y ∷ ys) = ground (arith, sum_by-insert_by f rank x ys)

  pub sum_by-order_by : (f rank : A → ℕ) (xs : List A) → sum_by f (order_by rank xs) ≡ sum_by f xs
  unfolding order_by
  sum_by-order_by f rank [] = refl
  sum_by-order_by f rank (x ∷ xs) =
      omega (arith, sum_by-insert_by f rank x (order_by rank xs), sum_by-order_by f rank xs)

module _ {ℓ} {A : Type ℓ} (key : A → ℕ) where
  has_key-insert_by :
      (k : ℕ) (rank : A → ℕ) (x : A) (xs : List A)
      → has_key key k (insert_by rank x xs) ≡ (key x == k || has_key key k xs)
  unfolding insert_by
  has_key-insert_by k rank x [] = refl
  has_key-insert_by k rank x (y ∷ ys) = ground (arith, has_key-insert_by k rank x ys)

  pub has_key-order_by :
      (k : ℕ) (rank : A → ℕ) (xs : List A) → has_key key k (order_by rank xs) ≡ has_key key k xs
  unfolding order_by
  has_key-order_by k rank [] = refl
  has_key-order_by k rank (x ∷ xs) =
      ground (arith, has_key-insert_by k rank x (order_by rank xs), has_key-order_by k rank xs)

  HasDistinctKeys-insert_by :
      (rank : A → ℕ) (x : A) (xs : List A)
      → has_key key (key x) xs ≡ false
      → HasDistinctKeys key xs
      → HasDistinctKeys key (insert_by rank x xs)
  unfolding insert_by
  HasDistinctKeys-insert_by rank x [] h d = (refl, tt)
  HasDistinctKeys-insert_by rank x (y ∷ ys) h d = ground (
    arith,
    has_key-insert_by (key y) rank x ys,
    HasDistinctKeys-insert_by rank x ys (ground arith) d.1,
  )

  pub HasDistinctKeys-order_by :
      (rank : A → ℕ) (xs : List A) → HasDistinctKeys key xs → HasDistinctKeys key (order_by rank xs)
  unfolding order_by
  HasDistinctKeys-order_by rank [] d = tt
  HasDistinctKeys-order_by rank (x ∷ xs) d =
      HasDistinctKeys-insert_by rank x (order_by rank xs)
        (ground (arith, has_key-order_by (key x) rank xs)) (HasDistinctKeys-order_by rank xs d.1)

  pub has_key-filter :
      (k : ℕ) (p : A → Bool) (xs : List A)
      → has_key key k xs ≡ false
      → has_key key k (filter p xs) ≡ false
  has_key-filter k p [] h = refl
  has_key-filter k p (x ∷ xs) h = ground (arith, has_key-filter k p xs)

  pub HasDistinctKeys-filter :
      (p : A → Bool) (xs : List A) → HasDistinctKeys key xs → HasDistinctKeys key (filter p xs)
  HasDistinctKeys-filter p [] d = tt
  HasDistinctKeys-filter p (x ∷ xs) d =
      ground (arith, has_key-filter (key x) p xs d.0, HasDistinctKeys-filter p xs d.1)

  -- With distinct keys every row is the one that its key finds.
  pub All-find_by_self :
      (rows : List A) → HasDistinctKeys key rows → All (λ r. find_by key (key r) rows ≡ some r) rows
  All-find_by_self [] d = tt
  All-find_by_self (x ∷ xs) d = (
    ground arith,
    All-weaken (λ r e. ground (arith, find_by-none key (key x) xs d.0, e)) xs
        (All-find_by_self xs d.1),
  )

  pub find_by-key : (k : ℕ) (rows : List A) {r : A} → find_by key k rows ≡ some r → key r ≡ k
  find_by-key k rows e = (==_iff _ _).0 (find-passes (λ r. key r == k) rows e)

  pub All-has_key_self : (rows : List A) → All (λ r. has_key key (key r) rows ≡ true) rows
  All-has_key_self [] = tt
  All-has_key_self (x ∷ xs) =
      (ground arith, All-weaken (λ r e. ground (arith, e)) xs (All-has_key_self xs))

  -- A further condition on the row of a key.
  pub find_by-find_both :
      (k : ℕ) (p : A → Bool) (rows : List A) {r : A}
      → HasDistinctKeys key rows
      → find (λ x. (key x == k) && p x) rows ≡ some r
      → find_by key k rows ≡ some r
  find_by-find_both k p [] d e = absurd (ground arith)
  find_by-find_both k p (x ∷ rows) {r} d e = elim (Bool-cases (key x == k)) [
    | inr other ↦ ground (arith, other, find_by-find_both k p rows {r = r} d.1)
    | inl same ↦ elim (Bool-cases (p x)) [
      | inl passes ↦ ground (arith, same, passes)
      | inr fails ↦
          let later = find_by-find_both k p rows {r = r} d.1 (ground (arith, same, fails)) in
          let absent = find_by-none key (key x) rows d.0 in
          absurd (ground (arith, same, later, absent))
    ]
  ]

  pub find_by-append :
      (k : ℕ) (rows more : List A) {r : A}
      → find_by key k rows ≡ some r
      → find_by key k (rows ++ more) ≡ some r
  find_by-append k [] more found = absurd (ground arith)
  find_by-append k (x ∷ rows) more {r} found =
      ground (arith, find_by-append k rows more {r = r}, found)

  pub update_by-absent :
      (k : ℕ) (f : A → A) (rows : List A)
      → has_key key k rows ≡ false
      → update_by key k f rows ≡ rows
  update_by-absent k f [] h = refl
  update_by-absent k f (x ∷ rows) h = ground (arith, update_by-absent k f rows)

  has_key-update_by :
      (j k : ℕ) (f : A → A) (rows : List A)
      → ((r : A) → key (f r) ≡ key r)
      → has_key key j (update_by key k f rows) ≡ has_key key j rows
  has_key-update_by j k f [] keeps = refl
  has_key-update_by j k f (x ∷ rows) keeps =
      ground (arith, keeps x, has_key-update_by j k f rows keeps)

  pub HasDistinctKeys-update_by :
      (k : ℕ) (f : A → A) (rows : List A)
      → ((r : A) → key (f r) ≡ key r)
      → HasDistinctKeys key rows
      → HasDistinctKeys key (update_by key k f rows)
  HasDistinctKeys-update_by k f [] keeps d = tt
  HasDistinctKeys-update_by k f (x ∷ rows) keeps d = ground (
    arith,
    keeps x,
    has_key-update_by (key x) k f rows keeps,
    HasDistinctKeys-update_by k f rows keeps d.1,
  )

  pub HasDistinctKeys-append :
      (rows : List A) (x : A)
      → has_key key (key x) rows ≡ false
      → HasDistinctKeys key rows
      → HasDistinctKeys key (rows ++ x ∷ [])
  HasDistinctKeys-append [] x h d = (refl, tt)
  HasDistinctKeys-append (y ∷ rows) x h d = ground (
    arith,
    any-append (λ r. key r == key y) rows (x ∷ []),
    HasDistinctKeys-append rows x (ground arith) d.1,
  )

  -- The keys that are below the next one do not hold it.
  pub has_key-next :
      (n : ℕ) (rows : List A) → All (λ r. key r < n) rows → has_key key n rows ≡ false
  has_key-next n [] h = refl
  has_key-next n (x ∷ rows) h = ground (arith, has_key-next n rows h.1)

module _ {ℓ κ} {A : Type ℓ} (P : A → Type κ) where
  pub All-update_by :
      (key : A → ℕ) (k : ℕ) (f : A → A) (rows : List A)
      → ((r : A) → P r → P (f r))
      → All P rows
      → All P (update_by key k f rows)
  All-update_by key k f [] keeps h = tt
  All-update_by key k f (x ∷ rows) keeps h = elim (Bool-cases (key x == k)) [
    | inl e ↦ rw e (keeps x h.0, All-update_by key k f rows keeps h.1)
    | inr e ↦ rw e (h.0, All-update_by key k f rows keeps h.1)
  ]

module _ {ℓ} {A : Type ℓ} (key : A → ℕ) where
  -- The row of a key is the only one that has it.
  pub All-same_key :
      (k : ℕ) (rows : List A) {current : A}
      → HasDistinctKeys key rows
      → find_by key k rows ≡ some current
      → All (λ r. (key r == k) ≡ true → r ≡ current) rows
  All-same_key k rows {current} d found =
      All-weaken (λ r self same. ground (arith, self, same, found)) rows
        (All-find_by_self key rows d)

-- The row of a key is changed, and what holds of the others is kept.
pub All-update_current {ℓ κ ι} :
    {A : Type ℓ} (P : A → Type κ) (Q : A → Type ι) (key : A → ℕ) (k : ℕ) (f : A → A) (rows : List A)
    → ((r : A) → (k == key r) ≡ false → P r → Q r)
    → All (λ r. (key r == k) ≡ true → P r → Q (f r)) rows
    → All P rows
    → All Q (update_by key k f rows)
All-update_current P Q key k f [] others now h = tt
All-update_current P Q key k f (x ∷ rows) others now h = elim (Bool-cases (key x == k)) [
  | inl same ↦ rw same (now.0 same h.0, All-update_current P Q key k f rows others now.1 h.1)
  | inr apart ↦
      rw apart
        (others x (ground (arith, apart)) h.0, All-update_current P Q key k f rows others now.1 h.1)
]
