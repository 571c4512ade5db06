-- ===== src/Common/Pairwise.antt =====
-- Lists in which every two elements stand in a relation, the earlier one first.
use workforce_app_backend.Common.{
  ℕ, ◌≡◌, true, List, [], ◌∷◌, ◌++◌, ◌==◌, All, All-append, inl, inr, Bool-cases,
}
use workforce_app_backend.Common.Table.{update_by}

abbrev pub Pairwise {ℓ κ} : {A : Type ℓ} → (A → A → Type κ) → List A → Type κ
Pairwise P [] = Unit
Pairwise P (x ∷ xs) = All (P x) xs × Pairwise P xs

module _ {ℓ κ} {A : Type ℓ} (P : A → A → Type κ) where
  pub Pairwise-append :
      (xs : List A) (x : A) → All (λ y. P y x) xs → Pairwise P xs → Pairwise P (xs ++ x ∷ [])
  Pairwise-append [] x h k = (tt, tt)
  Pairwise-append (y ∷ xs) x h k =
      (All-append (P y) xs (x ∷ []) k.0 (h.0, tt), Pairwise-append xs x h.1 k.1)

  -- The rows of a key change, and may do so.
  module _ {ι} (key : A → ℕ) (k : ℕ) (f : A → A) (May : A → Type ι)
      (after : (a b : A) → May b → P a b → P a (f b))
      (before : (a b : A) → May a → P a b → P (f a) b) where
    All-update :
        (a : A) (xs : List A)
        → All (λ r. (key r == k) ≡ true → May r) xs
        → All (P a) xs
        → All (P a) (update_by key k f xs)
    All-update a [] m h = tt
    All-update a (x ∷ xs) m h = elim (Bool-cases (key x == k)) [
      | inl e ↦ rw e (after a x (m.0 e) h.0, All-update a xs m.1 h.1)
      | inr e ↦ rw e (h.0, All-update a xs m.1 h.1)
    ]

    All-before : (a : A) (xs : List A) → May a → All (P a) xs → All (P (f a)) xs
    All-before a [] m h = tt
    All-before a (x ∷ xs) m h = (before a x m h.0, All-before a xs m h.1)

    pub Pairwise-update_by :
        (xs : List A)
        → All (λ r. (key r == k) ≡ true → May r) xs
        → Pairwise P xs
        → Pairwise P (update_by key k f xs)
    Pairwise-update_by [] m h = tt
    Pairwise-update_by (x ∷ xs) m h =
        let rest = Pairwise-update_by xs m.1 h.1 in
        let later = All-update x xs m.1 h.0 in
        elim (Bool-cases (key x == k)) [
          | inl e ↦ rw e (All-before x (update_by key k f xs) (m.0 e) later, rest)
          | inr e ↦ rw e (later, rest)
        ]
