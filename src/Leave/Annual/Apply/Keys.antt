-- ===== src/Leave/Annual/Apply/Keys.antt =====
-- Which leave years the allocations of a request name.
use workforce_app_backend.Common.{
  ℕ, ◌-◌, min, ◌≡◌, refl, sym, Bool, true, false, Option, none, some, List, [], ◌∷◌, ◌++◌, arith,
  ◌==◌, map, inl, inr, Option-cases, any-append, get_last?,
}
use workforce_app_backend.Common.Int.{pos_part, pos}
use workforce_app_backend.Common.Result.{ok}
use workforce_app_backend.Common.Table.{find_by, has_key, update_by, HasDistinctKeys, find_by-some}
use workforce_app_backend.Common.Table.Keys.{
  All-filter, All-order_by, All-find, All-find_by_self, find_by-key, HasDistinctKeys-filter,
  HasDistinctKeys-order_by,
}
use workforce_app_backend.Leave.Fifo.{
  FifoBucket, FifoAllocation, FifoResult, enough, short, fifo_loop, allocate_fifo, allocations_of,
}
use workforce_app_backend.Leave.Annual.{Bucket, Store, bucket_id_of, open_buckets_oldest_first}
use workforce_app_backend.Leave.Annual.Apply.{
  allocation_bucket, to_fifo, overdraw, choose_allocations, add_days,
}

abbrev fifo_id : FifoBucket → ℕ
fifo_id b = b.id

has_key-fifo_loop :
    (k : ℕ) (buckets : List FifoBucket) (need : ℕ)
    → has_key fifo_id k buckets ≡ false
    → has_key allocation_bucket k (fifo_loop buckets need).0 ≡ false
unfolding fifo_loop
has_key-fifo_loop k [] need h = refl
has_key-fifo_loop k (b ∷ buckets) need h =
    ground (arith, has_key-fifo_loop k buckets (need - min (pos_part b.remaining) need))

HasDistinctKeys-fifo_loop :
    (buckets : List FifoBucket) (need : ℕ)
    → HasDistinctKeys fifo_id buckets
    → HasDistinctKeys allocation_bucket (fifo_loop buckets need).0
unfolding fifo_loop
HasDistinctKeys-fifo_loop [] need d = tt
HasDistinctKeys-fifo_loop (b ∷ buckets) need d =
    let left = need - min (pos_part b.remaining) need in
    ground
      (arith, HasDistinctKeys-fifo_loop buckets left d.1, has_key-fifo_loop b.id buckets left d.0)

has_key-to_fifo :
    (k : ℕ) (rows : List Bucket)
    → has_key fifo_id k (map to_fifo rows) ≡ has_key bucket_id_of k rows
has_key-to_fifo k [] = refl
has_key-to_fifo k (b ∷ rows) = ground (arith, has_key-to_fifo k rows)

HasDistinctKeys-to_fifo :
    (rows : List Bucket)
    → HasDistinctKeys bucket_id_of rows
    → HasDistinctKeys fifo_id (map to_fifo rows)
HasDistinctKeys-to_fifo [] d = tt
HasDistinctKeys-to_fifo (b ∷ rows) d =
    (rw (has_key-to_fifo b.id rows) d.0, HasDistinctKeys-to_fifo rows d.1)

-- An allocation that is in the list names one of the rows.
abbrev pub AreAmong : List Bucket → List FifoAllocation → Type 0
AreAmong rows allocations =
    (k : ℕ) → has_key bucket_id_of k rows ≡ false → has_key allocation_bucket k allocations ≡ false

has_key-add_days :
    (n k j : ℕ) (allocations : List FifoAllocation)
    → has_key allocation_bucket k (update_by allocation_bucket j (add_days n) allocations)
      ≡ has_key allocation_bucket k allocations
has_key-add_days n k j [] = refl
has_key-add_days n k j (a ∷ allocations) = ground (arith, has_key-add_days n k j allocations)

HasDistinctKeys-add_days :
    (n j : ℕ) (allocations : List FifoAllocation)
    → HasDistinctKeys allocation_bucket allocations
    → HasDistinctKeys allocation_bucket (update_by allocation_bucket j (add_days n) allocations)
HasDistinctKeys-add_days n j [] d = tt
HasDistinctKeys-add_days n j (a ∷ allocations) d = ground (
  arith,
  HasDistinctKeys-add_days n j allocations d.1,
  has_key-add_days n a.bucket_id j allocations,
)

HasDistinctKeys-concat :
    (a : FifoAllocation) (allocations : List FifoAllocation)
    → HasDistinctKeys allocation_bucket allocations
    → has_key allocation_bucket a.bucket_id allocations ≡ false
    → HasDistinctKeys allocation_bucket (allocations ++ a ∷ [])
HasDistinctKeys-concat a [] d h = (refl, tt)
HasDistinctKeys-concat a (b ∷ allocations) d h = ground (
  arith,
  HasDistinctKeys-concat a allocations d.1,
  any-append (λ (r : FifoAllocation). r.bucket_id == b.bucket_id) allocations (a ∷ []),
)

get_last?-has_key :
    (k : ℕ) (rows : List Bucket) {b : Bucket}
    → get_last? rows ≡ some b
    → has_key bucket_id_of k rows ≡ false
    → (b.id == k) ≡ false
get_last?-has_key k [] e h = absurd (ground arith)
get_last?-has_key k (r ∷ []) e h = ground arith
get_last?-has_key k (r ∷ s ∷ rows) e h = get_last?-has_key k (s ∷ rows) e (ground arith)

HasDistinctKeys-overdraw :
    (newest : Option Bucket) (n : ℕ) (allocations : List FifoAllocation)
    → HasDistinctKeys allocation_bucket allocations
    → HasDistinctKeys allocation_bucket (overdraw newest n allocations)
unfolding overdraw
HasDistinctKeys-overdraw none n allocations d = d
HasDistinctKeys-overdraw (some b) n allocations d = ground (
  arith,
  HasDistinctKeys-add_days n b.id allocations d,
  HasDistinctKeys-concat (record { bucket_id = b.id; days = n }) allocations d,
)

AreAmong-overdraw :
    (rows : List Bucket) (n : ℕ) (allocations : List FifoAllocation)
    → AreAmong rows allocations
    → AreAmong rows (overdraw (get_last? rows) n allocations)
unfolding overdraw
AreAmong-overdraw rows n allocations h k missing = elim (Option-cases (get_last? rows)) [
  | inl e ↦ rw e (h k missing)
  | inr (b, e) ↦ rw e (
      ground (
        arith,
        h k missing,
        get_last?-has_key k rows e missing,
        has_key-add_days n k b.id allocations,
        any-append (λ (r : FifoAllocation). r.bucket_id == k) allocations
            (record { bucket_id = b.id; days = n } ∷ []),
      ))
]

choose-keys :
    (allow : Bool) (rows : List Bucket) (r : FifoResult) (allocations : List FifoAllocation)
    → HasDistinctKeys allocation_bucket (allocations_of r) × AreAmong rows (allocations_of r)
    → choose_allocations allow rows r ≡ ok allocations
    → HasDistinctKeys allocation_bucket allocations × AreAmong rows allocations
unfolding choose_allocations
choose-keys allow rows (enough as') allocations h e =
    let same : as' ≡ allocations = cc in rw same at h
choose-keys false rows (short n as') allocations h e = absurd (ground arith)
choose-keys true rows (short n as') allocations h e =
    let same : overdraw (get_last? rows) n as' ≡ allocations = cc in
    rw (← same)
      (HasDistinctKeys-overdraw (get_last? rows) n as' h.0, AreAmong-overdraw rows n as' h.1)

allocate_fifo-allocations :
    (buckets : List FifoBucket) (days : ℕ)
    → allocations_of (allocate_fifo buckets (pos days)) ≡ (fifo_loop buckets days).0
unfolding allocate_fifo
allocate_fifo-allocations buckets days = ground arith

-- The chosen allocations name the given rows, each at most once.
pub choose_allocations-keys :
    (allow : Bool) (rows : List Bucket) (days : ℕ) (allocations : List FifoAllocation)
    → HasDistinctKeys bucket_id_of rows
    → choose_allocations allow rows (allocate_fifo (map to_fifo rows) (pos days)) ≡ ok allocations
    → HasDistinctKeys allocation_bucket allocations × AreAmong rows allocations
choose_allocations-keys allow rows days allocations d e =
    choose-keys allow rows (allocate_fifo (map to_fifo rows) (pos days)) allocations
      (rw (allocate_fifo-allocations (map to_fifo rows) days) (
        HasDistinctKeys-fifo_loop (map to_fifo rows) days (HasDistinctKeys-to_fifo rows d),
        λ k h. has_key-fifo_loop k (map to_fifo rows) days (rw (has_key-to_fifo k rows) h),
      ))
      e

-- In a table with distinct identifiers, a row that the open leave years have is the table's row.
pub find_by-opened :
    (db : Store) (employee_id k : ℕ)
    → HasDistinctKeys bucket_id_of db.buckets
    → has_key bucket_id_of k (open_buckets_oldest_first db employee_id) ≡ true
    → find_by bucket_id_of k (open_buckets_oldest_first db employee_id)
      ≡ find_by bucket_id_of k db.buckets
unfolding open_buckets_oldest_first
find_by-opened db employee_id k d h =
    let (r, found) = find_by-some bucket_id_of k (open_buckets_oldest_first db employee_id) h in
    let own : find_by bucket_id_of r.id db.buckets ≡ some r =
      All-find (λ (r : Bucket). find_by bucket_id_of r.id db.buckets ≡ some r) _
        (open_buckets_oldest_first db employee_id)
        (All-order_by _ _ _
          (All-filter _ _ db.buckets (All-find_by_self bucket_id_of db.buckets d)))
        found in
    let key : r.id ≡ k =
      find_by-key bucket_id_of k (open_buckets_oldest_first db employee_id) found in
    rw found (sym (rw key at own))

pub opened-HasDistinctKeys :
    (db : Store) (employee_id : ℕ)
    → HasDistinctKeys bucket_id_of db.buckets
    → HasDistinctKeys bucket_id_of (open_buckets_oldest_first db employee_id)
unfolding open_buckets_oldest_first
opened-HasDistinctKeys db employee_id d =
    HasDistinctKeys-order_by bucket_id_of _ _ (HasDistinctKeys-filter bucket_id_of _ db.buckets d)
