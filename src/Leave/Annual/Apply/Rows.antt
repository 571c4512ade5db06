-- ===== src/Leave/Annual/Apply/Rows.antt =====
-- What `applyToBuckets` leaves in the tables: every row of the leave years, and the allocations.
use mathlib.Core.Option
use mathlib.Core.List.{append_assoc, append-nil}
use workforce_app_backend.Common.{
  ℕ, ◌+◌, ◌≡◌, refl, sym, ap, ◌∙◌, Bool, true, false, List, [], ◌∷◌, ◌++◌, arith, ◌==◌, ◌&&◌, map,
  All, All-weaken, All-both, inl, inr, Bool-cases, any, any-append,
}
use workforce_app_backend.Common.Result.{ok}
use workforce_app_backend.Common.Table.{find_by, has_key, find_by-some, HasDistinctKeys}
use workforce_app_backend.Common.Table.Keys.{All-has_key_self}
use workforce_app_backend.Common.Int.{pos}
use workforce_app_backend.Common.Table.Snapshot.{
  Entry, entry_key, days_for, snapshot_step, snapshot_loop, find_by-snapshot_loop, All-ne_key,
}
use workforce_app_backend.Leave.Fifo.{FifoAllocation, allocate_fifo}
use workforce_app_backend.Leave.Annual.{
  Bucket, AllocationRow, Store, bucket_id_of, open_buckets_oldest_first,
}
use workforce_app_backend.Leave.Annual.Apply.{
  Mode, reserving, consuming, allocation_bucket, to_fifo, charge, upsert_allocation,
  apply_allocation, apply_all, choose_allocations, apply_to_buckets,
}
use workforce_app_backend.Leave.Annual.Apply.Keys.{
  AreAmong, choose_allocations-keys, find_by-opened, opened-HasDistinctKeys,
}

abbrev pub entry_of : FifoAllocation → Entry
entry_of a = (a.bucket_id, a.days)

abbrev pub entries_of : List FifoAllocation → List Entry
entries_of allocations = map entry_of allocations

-- The allocation row that the loop writes.
abbrev pub row_of : ℕ → FifoAllocation → AllocationRow
row_of request a = record { leave_request_id = request; bucket_id = a.bucket_id; days = a.days }

module _ (mode : Mode) (employee_id request : ℕ) (opened_rows : List Bucket) where
  apply_allocation-buckets :
      (a : FifoAllocation) (db : Store)
      → (apply_allocation mode employee_id request opened_rows a db).buckets
        ≡ snapshot_step bucket_id_of (charge mode) opened_rows (entry_of a) db.buckets
  unfolding apply_allocation
  apply_allocation-buckets a db = ground arith

  pub apply_all-buckets :
      (allocations : List FifoAllocation) (db : Store)
      → (apply_all mode employee_id request opened_rows allocations db).buckets
        ≡ snapshot_loop bucket_id_of (charge mode) opened_rows (entries_of allocations) db.buckets
  unfolding apply_all snapshot_loop
  apply_all-buckets [] db = refl
  apply_all-buckets (a ∷ rest) db =
      apply_all-buckets rest (apply_allocation mode employee_id request opened_rows a db)
      ∙ ap (snapshot_loop bucket_id_of (charge mode) opened_rows (entries_of rest))
          (apply_allocation-buckets a db)

  -- No row of the table has the key of the request and of one of the allocations.
  abbrev NoRows : List FifoAllocation → List AllocationRow → Type 0
  NoRows allocations rows =
      All
        (λ a.
          any (λ r. (r.leave_request_id == request) && (r.bucket_id == a.bucket_id)) rows ≡ false)
        allocations

  upsert_allocation-new :
      (a : FifoAllocation) (rows : List AllocationRow)
      → any (λ r. (r.leave_request_id == request) && (r.bucket_id == a.bucket_id)) rows ≡ false
      → upsert_allocation request a rows ≡ rows ++ row_of request a ∷ []
  unfolding upsert_allocation
  upsert_allocation-new a [] h = refl
  upsert_allocation-new a (r ∷ rows) h = ground (arith, upsert_allocation-new a rows)

  apply_allocation-allocations :
      (a : FifoAllocation) (db : Store)
      → has_key bucket_id_of a.bucket_id opened_rows ≡ true
      → (apply_allocation mode employee_id request opened_rows a db).allocations
        ≡ upsert_allocation request a db.allocations
  unfolding apply_allocation
  apply_allocation-allocations a db h =
      let (row, found) = find_by-some bucket_id_of a.bucket_id opened_rows h in
      ground (arith, found)

  apply_all-allocations :
      (allocations : List FifoAllocation) (db : Store)
      → All (λ a. has_key bucket_id_of a.bucket_id opened_rows ≡ true) allocations
      → HasDistinctKeys allocation_bucket allocations
      → NoRows allocations db.allocations
      → (apply_all mode employee_id request opened_rows allocations db).allocations
        ≡ db.allocations ++ map (row_of request) allocations
  unfolding apply_all
  apply_all-allocations [] db known d free = sym (append-nil _)
  apply_all-allocations (a ∷ rest) db known d free =
      let db' = apply_allocation mode employee_id request opened_rows a db in
      let step : db'.allocations ≡ db.allocations ++ row_of request a ∷ [] =
        apply_allocation-allocations a db known.0 ∙ upsert_allocation-new a db.allocations free.0 in
      let still : NoRows rest (db.allocations ++ row_of request a ∷ []) =
        All-weaken
          (λ (x : FifoAllocation) p.
            any-append (λ r. (r.leave_request_id == request) && (r.bucket_id == x.bucket_id))
              db.allocations (row_of request a ∷ [])
            ∙ ground (arith, p.0, p.1))
          rest (All-both _ _ rest free.1 (All-ne_key allocation_bucket a.bucket_id rest d.0)) in
      apply_all-allocations rest db' known.1 d.1 (rw step still)
      ∙ rw step (append_assoc db.allocations (row_of request a ∷ []) (map (row_of request) rest))

charge_zero : (mode : Mode) (b : Bucket) → charge mode 0 b b ≡ b
charge_zero reserving b = ground arith
charge_zero consuming b = ground arith

charge_add :
    (mode : Mode) (m n : ℕ) (b : Bucket)
    → charge mode n (charge mode m b b) (charge mode m b b) ≡ charge mode (m + n) b b
charge_add reserving m n b = ground arith
charge_add consuming m n b = ground arith

charge_id : (mode : Mode) (n : ℕ) (row b : Bucket) → (charge mode n row b).id ≡ b.id
charge_id reserving n row b = refl
charge_id consuming n row b = refl

AreAmong-All :
    (rows : List Bucket) (allocations : List FifoAllocation)
    → AreAmong rows allocations
    → All (λ a. has_key bucket_id_of a.bucket_id rows ≡ true) allocations
AreAmong-All rows allocations h =
    All-weaken
      (λ (a : FifoAllocation) self. elim (Bool-cases (has_key bucket_id_of a.bucket_id rows)) [
        | inl e ↦ e
        | inr e ↦ absurd (ground (arith, h a.bucket_id e, self))
      ])
      allocations (All-has_key_self allocation_bucket allocations)

-- The request has no allocations yet.
abbrev pub IsUnallocated : ℕ → List AllocationRow → Type 0
IsUnallocated request rows = any (λ r. r.leave_request_id == request) rows ≡ false

no_row_for :
    (request k : ℕ) (rows : List AllocationRow)
    → IsUnallocated request rows
    → any (λ r. (r.leave_request_id == request) && (r.bucket_id == k)) rows ≡ false
no_row_for request k [] h = refl
no_row_for request k (r ∷ rows) h = ground (arith, no_row_for request k rows)

has_key-entries_of :
    (k : ℕ) (allocations : List FifoAllocation)
    → has_key entry_key k (entries_of allocations) ≡ has_key allocation_bucket k allocations
has_key-entries_of k [] = refl
has_key-entries_of k (a ∷ rest) = ground (arith, has_key-entries_of k rest)

HasDistinctKeys-entries_of :
    (allocations : List FifoAllocation)
    → HasDistinctKeys allocation_bucket allocations
    → HasDistinctKeys entry_key (entries_of allocations)
HasDistinctKeys-entries_of [] d = tt
HasDistinctKeys-entries_of (a ∷ rest) d =
    ground (arith, has_key-entries_of a.bucket_id rest, HasDistinctKeys-entries_of rest d.1)

All-entries_of :
    (P : Entry → Type 0) (allocations : List FifoAllocation)
    → All (λ a. P (entry_of a)) allocations
    → All P (entries_of allocations)
All-entries_of P [] h = tt
All-entries_of P (a ∷ rest) h = (h.0, All-entries_of P rest h.1)

-- A successful run made the allocations that were chosen.
pub apply_to_buckets-chosen :
    (db : Store) (employee_id request days : ℕ) (mode : Mode) (allow : Bool) {db' : Store}
    {allocations : List FifoAllocation}
    → apply_to_buckets db employee_id request days mode allow ≡ ok (db', allocations)
    → let rows = open_buckets_oldest_first db employee_id in
      (choose_allocations allow rows (allocate_fifo (map to_fifo rows) (pos days)) ≡ ok allocations)
      × (apply_all mode employee_id request rows allocations db ≡ db')
unfolding apply_to_buckets
apply_to_buckets-chosen db employee_id request days mode allow e = (ground arith, ground arith)

module _ (db : Store) (employee_id request days : ℕ) (mode : Mode) (allow : Bool) {db' : Store}
    {allocations : List FifoAllocation} (distinct : HasDistinctKeys bucket_id_of db.buckets)
    (applied : apply_to_buckets db employee_id request days mode allow
      ≡ ok (db', allocations)) where
  abbrev rows : List Bucket
  rows = open_buckets_oldest_first db employee_id

  pub keys : HasDistinctKeys allocation_bucket allocations × AreAmong rows allocations
  keys =
      choose_allocations-keys allow rows days allocations
        (opened-HasDistinctKeys db employee_id distinct)
        (apply_to_buckets-chosen db employee_id request days mode allow applied).0

  known : All (λ a. has_key bucket_id_of a.bucket_id rows ≡ true) allocations
  known = AreAmong-All rows allocations keys.1

  -- A successful run on a table with distinct identifiers charges each leave year with the days that
  -- were allocated to it, and changes no other.
  pub apply_to_buckets-buckets :
      (j : ℕ)
      → find_by bucket_id_of j db'.buckets
        ≡ Option.map
            (λ b. charge mode (days_for j (entries_of allocations)) b b)
            (find_by bucket_id_of j db.buckets)
  apply_to_buckets-buckets j =
      rw (← (apply_to_buckets-chosen db employee_id request days mode allow applied).1) (
        ap (find_by bucket_id_of j) (apply_all-buckets mode employee_id request rows allocations db)
        ∙ find_by-snapshot_loop bucket_id_of (charge mode) rows (charge_id mode) (charge_zero mode)
            (charge_add mode) j (entries_of allocations) db.buckets
            (HasDistinctKeys-entries_of allocations keys.0)
            (All-entries_of _ allocations (
              All-weaken
                (λ (a : FifoAllocation) h. find_by-opened db employee_id a.bucket_id distinct h)
                allocations known)))

  -- A successful run for a request without allocations, on a table with distinct identifiers, records
  -- its allocations after those that are there.
  pub apply_to_buckets-allocations :
      IsUnallocated request db.allocations
      → db'.allocations ≡ db.allocations ++ map (row_of request) allocations
  apply_to_buckets-allocations free =
      rw (← (apply_to_buckets-chosen db employee_id request days mode allow applied).1) (
        apply_all-allocations mode employee_id request rows allocations db known keys.0 (
          All-weaken (λ (a : FifoAllocation) h. no_row_for request a.bucket_id db.allocations free)
            allocations known))
