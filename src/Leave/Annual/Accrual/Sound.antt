-- ===== src/Leave/Annual/Accrual/Sound.antt =====
-- The identifiers of the leave years, through `ensureAccrual`.
use Prim.Native.String.{String}
use workforce_app_backend.Common.{
  ℕ, zero, suc, ◌+◌, ◌<◌, ◌≡◌, refl, ◌∙◌, false, Option, List, [], ◌∷◌, ◌++◌, arith, ◌==◌, ltb,
  get_or, All, All-weaken, All-append, inl, inr, Bool-cases, Option-cases, any-append,
}
use workforce_app_backend.Common.Int.{pos_part}
use workforce_app_backend.Common.Result.{ok, first_step-eq-ok}
use workforce_app_backend.Common.Table.{has_key, update_by, HasDistinctKeys}
use workforce_app_backend.Calendar.{Date, before}
use workforce_app_backend.Leave.Policy.{leave_year_period, annual_entitlement}
use workforce_app_backend.Leave.Annual.{
  LedgerRow, Bucket, Employee, Store, bucket_id_of, load_employee, write_ledger, update_bucket,
  remaining_of,
}
use workforce_app_backend.Leave.Annual.Accrual.{
  ByStart, start_get, accrue_year, accrue_years, expire_row, expire_rows, accrue, Accrued,
  ensure_accrual, as_of_for_employee, expire_bucket,
}

-- The identifiers are distinct, and those to come are new.
pub record IsSound (db : Store) : Type 0 where
  pub distinct : HasDistinctKeys bucket_id_of db.buckets
  pub below : All (λ (b : Bucket). b.id < db.next_id) db.buckets

module _ (k : ℕ) (f : Bucket → Bucket) (keeps : (b : Bucket) → (f b).id ≡ b.id) where
  has_key-update :
      (j : ℕ) (rows : List Bucket)
      → has_key bucket_id_of j (update_by bucket_id_of k f rows) ≡ has_key bucket_id_of j rows
  has_key-update j [] = refl
  has_key-update j (b ∷ rows) = ground (arith, keeps b, has_key-update j rows)

  HasDistinctKeys-update :
      (rows : List Bucket)
      → HasDistinctKeys bucket_id_of rows
      → HasDistinctKeys bucket_id_of (update_by bucket_id_of k f rows)
  HasDistinctKeys-update [] d = tt
  HasDistinctKeys-update (b ∷ rows) d =
      ground (arith, keeps b, has_key-update b.id rows, HasDistinctKeys-update rows d.1)

  All-below-update :
      (n : ℕ) (rows : List Bucket)
      → All (λ (b : Bucket). b.id < n) rows
      → All (λ (b : Bucket). b.id < n) (update_by bucket_id_of k f rows)
  All-below-update n [] h = tt
  All-below-update n (b ∷ rows) h = ground (arith, keeps b, All-below-update n rows h.1)

  pub update_bucket-IsSound : (db : Store) → IsSound db → IsSound (update_bucket db k f)
  update_bucket-IsSound db s = record {
    distinct = HasDistinctKeys-update db.buckets s.distinct;
    below = All-below-update db.next_id db.buckets s.below;
  }

below_has_no_key :
    (n : ℕ) (rows : List Bucket)
    → All (λ (b : Bucket). b.id < n) rows
    → has_key bucket_id_of n rows ≡ false
below_has_no_key n [] h = refl
below_has_no_key n (b ∷ rows) h = ground (arith, below_has_no_key n rows h.1)

HasDistinctKeys-concat :
    (b : Bucket) (rows : List Bucket)
    → HasDistinctKeys bucket_id_of rows
    → has_key bucket_id_of b.id rows ≡ false
    → HasDistinctKeys bucket_id_of (rows ++ b ∷ [])
HasDistinctKeys-concat b [] d h = (refl, tt)
HasDistinctKeys-concat b (r ∷ rows) d h = ground (
  arith,
  HasDistinctKeys-concat b rows d.1,
  any-append (λ (x : Bucket). x.id == r.id) rows (b ∷ []),
)

create-IsSound :
    (db : Store) (b : Bucket)
    → IsSound db
    → b.id ≡ db.next_id
    → IsSound (record db { buckets = db.buckets ++ b ∷ []; next_id = db.next_id + 1 })
create-IsSound db b s e = record {
  distinct =
      HasDistinctKeys-concat b db.buckets s.distinct
        (rw e (below_has_no_key db.next_id db.buckets s.below));
  below =
      All-append _ db.buckets (b ∷ [])
        (All-weaken (λ (x : Bucket) (h : x.id < db.next_id). omega arith) db.buckets s.below)
        (omega arith, tt);
}

-- What accrual keeps of the store.
abbrev Keeps : Store → Store → Type 0
Keeps db db' = IsSound db' × (db'.allocations ≡ db.allocations) × (db'.requests ≡ db.requests)

ledger-Keeps : (db' db : Store) (row : LedgerRow) → Keeps db db' → Keeps db (write_ledger db' row)
unfolding write_ledger
ledger-Keeps db' db row (s, a, r) = (record { distinct = s.distinct; below = s.below }, a, r)

pub accrue_year-Keeps :
    (employee : Employee) (as_of : Date) (n : ℕ) (db : Store) (by_start : ByStart)
    → IsSound db
    → Keeps db (accrue_year employee as_of n (db, by_start)).0
unfolding accrue_year
accrue_year-Keeps employee as_of n db by_start s =
    elim (Option-cases
      (start_get (leave_year_period employee.employment_start_date n).start by_start)) [
        | inl new ↦
            rw (new, accrue_year) (ledger-Keeps _ db _ (create-IsSound db _ s refl, refl, refl))
        | inr (found, old) ↦
            elim (Bool-cases (
              ltb found.granted_days (
                annual_entitlement n employee.employment_start_date as_of
                  (leave_year_period employee.employment_start_date n).stop))) [
                    | inl more ↦
                        rw (old, accrue_year)
                          (rw more (
                            ledger-Keeps _ db _
                              (update_bucket-IsSound _ _ (λ b. refl) db s, refl, refl)))
                    | inr enough ↦ rw (old, accrue_year) (rw enough (s, refl, refl))
                  ]
      ]

Keeps-trans : (a b c : Store) → Keeps a b → Keeps b c → Keeps a c
Keeps-trans a b c h k = (k.0, k.1 ∙ h.1, k.2 ∙ h.2)

pub accrue_years-Keeps :
    (rounds : ℕ) (employee : Employee) (as_of : Date) (n : ℕ) (db : Store) (by_start : ByStart)
    → IsSound db
    → Keeps db (accrue_years rounds employee as_of n (db, by_start)).0
unfolding accrue_years
accrue_years-Keeps zero employee as_of n db by_start s = (s, refl, refl)
accrue_years-Keeps (suc rounds) employee as_of n db by_start s =
    let next = accrue_year employee as_of n (db, by_start) in
    let kept = accrue_year-Keeps employee as_of n db by_start s in
    Keeps-trans db next.0 _ kept
      (accrue_years-Keeps rounds employee as_of (n + 1) next.0 next.1 kept.0)

expire_row-Keeps :
    (as_of : Date) (row : Bucket) (db : Store) → IsSound db → Keeps db (expire_row as_of row db)
unfolding expire_row
expire_row-Keeps as_of row db s = elim (Bool-cases (before as_of row.expires_on)) [
  | inl early ↦ rw early (s, refl, refl)
  | inr due ↦
      let kept : Keeps db
          (update_bucket db row.id (expire_bucket row.expired_days (pos_part (remaining_of row)))) =
        (
          update_bucket-IsSound row.id
              (expire_bucket row.expired_days (pos_part (remaining_of row))) (λ b. refl) db s,
          refl,
          refl,
        ) in
      elim (Bool-cases (ltb 0 (pos_part (remaining_of row)))) [
        | inl more ↦ rw due (rw more (ledger-Keeps _ db _ kept))
        | inr none_left ↦ rw due (rw none_left kept)
      ]
]

expire_rows-Keeps :
    (as_of : Date) (rows : List Bucket) (db : Store)
    → IsSound db
    → Keeps db (expire_rows as_of rows db)
unfolding expire_rows
expire_rows-Keeps as_of [] db s = (s, refl, refl)
expire_rows-Keeps as_of (row ∷ rows) db s =
    let kept = expire_row-Keeps as_of row db s in
    Keeps-trans db (expire_row as_of row db) _ kept (expire_rows-Keeps as_of rows _ kept.0)

accrue-Keeps :
    (employee : Employee) (as_of : Date) (db : Store)
    → IsSound db
    → Keeps db (accrue employee as_of db)
unfolding accrue
accrue-Keeps employee as_of db s =
    let kept = accrue_years-Keeps _ employee as_of 0 db _ s in
    Keeps-trans db _ _ kept (expire_rows-Keeps as_of _ _ kept.0)

-- A successful accrual keeps the identifiers of the leave years distinct, and those to come new, if
-- they were, and leaves the allocations and the requests as they are.
pub ensure_accrual-IsSound :
    (today_in_zone : String → Date) (db : Store) (employee_id : ℕ) (as_of_input : Option Date)
    {db' : Store} {accrued : Accrued}
    → IsSound db
    → ensure_accrual today_in_zone db employee_id as_of_input ≡ ok (db', accrued)
    → IsSound db' × (db'.allocations ≡ db.allocations) × (db'.requests ≡ db.requests)
unfolding ensure_accrual
ensure_accrual-IsSound today_in_zone db employee_id as_of_input {db'} {accrued} s e =
    let (employee, loaded, rest) = first_step-eq-ok (load_employee db employee_id) _ e in
    let as_of = get_or as_of_input (as_of_for_employee today_in_zone employee) in
    elim (Bool-cases (before as_of employee.employment_start_date)) [
      | inl early ↦ let same : db ≡ db' = ground (arith, rest, early) in rw (← same) (s, refl, refl)
      | inr late ↦
          let same : accrue employee as_of db ≡ db' = ground (arith, rest, late) in
          rw (← same) (accrue-Keeps employee as_of db s)
    ]
