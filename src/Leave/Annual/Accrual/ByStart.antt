-- ===== src/Leave/Annual/Accrual/ByStart.antt =====
-- The map `byStart` of `ensureAccrual` (src/modules/leave/annual-leave.service.ts) beside the table.
use workforce_app_backend.Common.{
  ℕ, ◌≤◌, ◌≡◌, refl, sym, ap, ◌∙◌, true, false, none, some, List, [], ◌∷◌, ◌++◌, arith, ◌==◌, All,
  inl, inr, Bool-cases, if◌then◌else◌,
}
use workforce_app_backend.Common.Table.{
  find_by, has_key, update_by, HasDistinctKeys, find_by-update_by, find_by-none,
}
use workforce_app_backend.Calendar.{Date, date_eq}
use workforce_app_backend.Leave.Policy.{leave_year_period, annual_entitlement}
use workforce_app_backend.Leave.Annual.{Bucket, Employee, Store, bucket_id_of}
use workforce_app_backend.Leave.Annual.Accrual.{ByStart, start_get, start_set}
use workforce_app_backend.Leave.Annual.Accrual.Sound.{IsSound}

pub date_eq→eq : (a b : Date) → date_eq a b ≡ true → a ≡ b
date_eq→eq a b h = ground arith

abbrev pub entry_id : Date × Bucket → ℕ
entry_id e = e.1.id

-- An entry of the map `byStart` is the stored row of the employee that starts on its date.
abbrev pub IsEntry : Store → ℕ → Date × Bucket → Type 0
IsEntry db employee_id e =
    (find_by bucket_id_of e.1.id db.buckets ≡ some e.1)
    × (e.1.employee_id ≡ employee_id)
    × (e.1.period_start ≡ e.0)

start_get-has_key :
    (key : Date) (m : ByStart) {found : Bucket}
    → start_get key m ≡ some found
    → has_key entry_id found.id m ≡ true
unfolding start_get
start_get-has_key key [] h = absurd (ground arith)
start_get-has_key key ((k, old) ∷ m) {found} h = elim (Bool-cases (date_eq k key)) [
  | inl same ↦ ground (arith, same)
  | inr other ↦
      let later = start_get-has_key key m {found = found} (ground (arith, other)) in ground arith
]

pub start_get-start_set :
    (key other : Date) (row : Bucket) (m : ByStart)
    → start_get other (start_set key row m)
      ≡ (if date_eq key other then some row else start_get other m)
unfolding start_get start_set
start_get-start_set key other row [] = refl
start_get-start_set key other row ((k, old) ∷ m) = elim (Bool-cases (date_eq k key)) [
  | inr apart ↦ ground (arith, apart, start_get-start_set key other row m)
  | inl same ↦ let e : k ≡ key = date_eq→eq k key same in ground (arith, same, e)
]

module _ (before after : Store) (employee_id : ℕ) (found new : Bucket)
    (there : find_by bucket_id_of found.id after.buckets ≡ some new) (named : new.id ≡ found.id)
    (others : (j : ℕ)
      → (found.id == j) ≡ false
      → find_by bucket_id_of j after.buckets ≡ find_by bucket_id_of j before.buckets)
    (own : new.employee_id ≡ found.employee_id)
    (starts : new.period_start ≡ found.period_start) where
  untouched :
      (m : ByStart)
      → has_key entry_id found.id m ≡ false
      → All (IsEntry before employee_id) m
      → All (IsEntry after employee_id) m
  untouched [] absent h = tt
  untouched (e ∷ m) absent h =
      let same = others e.1.id (ground arith) in
      ((same ∙ h.0.0, h.0.1, h.0.2), untouched m (ground arith) h.1)

  raised_ids :
      (key : Date) (j : ℕ) (m : ByStart)
      → start_get key m ≡ some found
      → has_key entry_id j (start_set key new m) ≡ has_key entry_id j m
  unfolding start_get start_set
  raised_ids key j [] h = absurd (ground arith)
  raised_ids key j ((k, old) ∷ m) h = elim (Bool-cases (date_eq k key)) [
    | inl same ↦ ground (arith, same, named)
    | inr other ↦ ground (arith, other, raised_ids key j m (ground (arith, other)))
  ]

  pub raised_distinct :
      (key : Date) (m : ByStart)
      → start_get key m ≡ some found
      → HasDistinctKeys entry_id m
      → HasDistinctKeys entry_id (start_set key new m)
  unfolding start_get start_set
  raised_distinct key [] h d = absurd (ground arith)
  raised_distinct key ((k, old) ∷ m) h d = elim (Bool-cases (date_eq k key)) [
    | inl same ↦
        rw same (let e : old ≡ found = ground (arith, same) in ground (arith, d.0, named, e), d.1)
    | inr other ↦
        let deeper : start_get key m ≡ some found = ground (arith, other) in
        rw other (raised_ids key old.id m deeper ∙ d.0, raised_distinct key m deeper d.1)
  ]

  pub raised :
      (key : Date) (m : ByStart)
      → start_get key m ≡ some found
      → HasDistinctKeys entry_id m
      → All (IsEntry before employee_id) m
      → All (IsEntry after employee_id) (start_set key new m)
  unfolding start_get start_set
  raised key [] h d entries = absurd (ground arith)
  raised key ((k, old) ∷ m) h d entries = elim (Bool-cases (date_eq k key)) [
    | inl same ↦
        let is_found : old ≡ found = ground (arith, same) in
        let here : k ≡ key = date_eq→eq k key same in
        let absent : has_key entry_id found.id m ≡ false = rw is_found at d.0 in
        let mine = rw is_found at entries.0 in
        rw same (
          (
            ap (λ j. find_by bucket_id_of j after.buckets) named ∙ there,
            own ∙ mine.1,
            starts ∙ mine.2 ∙ here,
          ),
          untouched m absent entries.1,
        )
    | inr other ↦
        let deeper : start_get key m ≡ some found = ground (arith, other) in
        let kept =
          others old.id (ground (arith, start_get-has_key key m {found = found} deeper, d.0)) in
        rw other ((kept ∙ entries.0.0, entries.0.1, entries.0.2), raised key m deeper d.1 entries.1)
  ]

-- The map and the table during the loop over the leave years.
pub record IsSynced (db : Store) (employee_id : ℕ) (m : ByStart) : Type 0 where
  pub entries : All (IsEntry db employee_id) m
  pub distinct : HasDistinctKeys entry_id m
  pub sound : IsSound db

-- The leave year has an entry with at least its entitlement.
abbrev pub IsGranted : Employee → Date → ℕ → ByStart → Type 0
IsGranted employee as_of n m =
    let hire = employee.employment_start_date in
    let period = leave_year_period hire n in
    (row : Bucket) × (start_get period.start m ≡ some row)
    × (annual_entitlement n hire as_of period.stop ≤ row.granted_days)

pub appended_entries :
    (before after : Store) (employee_id : ℕ) (key : Date) (row : Bucket) (m : ByStart)
    → ((j : ℕ) (r : Bucket)
        → find_by bucket_id_of j before.buckets ≡ some r
        → find_by bucket_id_of j after.buckets ≡ some r)
    → IsEntry after employee_id (key, row)
    → start_get key m ≡ none
    → All (IsEntry before employee_id) m
    → All (IsEntry after employee_id) (start_set key row m)
unfolding start_get start_set
appended_entries before after employee_id key row [] keeps new absent h = (new, tt)
appended_entries before after employee_id key row ((k, old) ∷ m) keeps new absent h =
    elim (Bool-cases (date_eq k key)) [
      | inl same ↦ absurd (ground (arith, same))
      | inr other ↦ rw other (
        (keeps old.id old h.0.0, h.0.1, h.0.2),
        appended_entries before after employee_id key row m keeps new (ground (arith, other)) h.1,
      )
    ]

pub has_key-start_set :
    (key : Date) (row : Bucket) (j : ℕ) (m : ByStart)
    → has_key entry_id j m ≡ false
    → (row.id == j) ≡ false
    → has_key entry_id j (start_set key row m) ≡ false
unfolding start_set
has_key-start_set key row j [] h other = ground arith
has_key-start_set key row j ((k, old) ∷ m) h other =
    ground (arith, has_key-start_set key row j m (ground arith) other)

pub HasDistinctKeys-start_set :
    (key : Date) (row : Bucket) (m : ByStart)
    → has_key entry_id row.id m ≡ false
    → HasDistinctKeys entry_id m
    → HasDistinctKeys entry_id (start_set key row m)
unfolding start_set
HasDistinctKeys-start_set key row [] h d = (refl, tt)
HasDistinctKeys-start_set key row ((k, old) ∷ m) h d = elim (Bool-cases (date_eq k key)) [
  | inl same ↦ rw same (ground arith, d.1)
  | inr other ↦ rw other (
    has_key-start_set key row old.id m d.0 (ground arith),
    HasDistinctKeys-start_set key row m (ground arith) d.1,
  )
]

pub entries_are_old :
    (db : Store) (employee_id j : ℕ) (m : ByStart)
    → has_key bucket_id_of j db.buckets ≡ false
    → All (IsEntry db employee_id) m
    → has_key entry_id j m ≡ false
entries_are_old db employee_id j [] absent h = refl
entries_are_old db employee_id j (e ∷ m) absent h = elim (Bool-cases (e.1.id == j)) [
  | inl same ↦
      let missing = find_by-none bucket_id_of j db.buckets absent in
      absurd (ground (arith, same, missing, h.0.0))
  | inr other ↦ ground (arith, other, entries_are_old db employee_id j m absent h.1)
]

pub find_by-new :
    (rows : List Bucket) (b : Bucket)
    → has_key bucket_id_of b.id rows ≡ false
    → find_by bucket_id_of b.id (rows ++ b ∷ []) ≡ some b
find_by-new [] b h = ground arith
find_by-new (r ∷ rows) b h = ground (arith, find_by-new rows b (ground arith))

-- A map whose entries at the date of a row are granted no more than the row keeps what is granted.
pub IsGranted-start_set :
    (employee : Employee) (as_of : Date) (n : ℕ) (key : Date) (row : Bucket) (m : ByStart)
    → ((old : Bucket) → start_get key m ≡ some old → old.granted_days ≤ row.granted_days)
    → IsGranted employee as_of n m
    → IsGranted employee as_of n (start_set key row m)
IsGranted-start_set employee as_of n key row m more (old, there, enough) =
    let start = (leave_year_period employee.employment_start_date n).start in
    let looked = start_get-start_set key start row m in
    elim (Bool-cases (date_eq key start)) [
      | inl same ↦
          let e = date_eq→eq key start same in
          let at_most = more old (rw (sym e) at there) in (row, looked ∙ rw same refl, omega arith)
      | inr other ↦ (old, looked ∙ rw other there, enough)
    ]

pub find_by-updated :
    (k : ℕ) (f : Bucket → Bucket) (rows : List Bucket) (found : Bucket)
    → ((b : Bucket) → (f b).id ≡ b.id)
    → find_by bucket_id_of k rows ≡ some found
    → find_by bucket_id_of k (update_by bucket_id_of k f rows) ≡ some (f found)
find_by-updated k f rows found keeps stored =
    ground (arith, find_by-update_by bucket_id_of k k f rows keeps, stored)

pub find_by-not_updated :
    (j k : ℕ) (f : Bucket → Bucket) (rows : List Bucket)
    → ((b : Bucket) → (f b).id ≡ b.id)
    → (k == j) ≡ false
    → find_by bucket_id_of j (update_by bucket_id_of k f rows) ≡ find_by bucket_id_of j rows
find_by-not_updated j k f rows keeps other =
    ground (arith, find_by-update_by bucket_id_of j k f rows keeps, other)
