-- ===== src/Leave/Annual/Service/Release.antt =====
-- Releasing and consuming the days of a request, row by row.
use mathlib.Core.Option
use workforce_app_backend.Common.{
  ℕ, ◌+◌, ◌≡◌, refl, ap, ◌∙◌, true, List, [], ◌∷◌, arith, map, All, inl, inr, Bool-cases, is_empty,
}
use workforce_app_backend.Common.Table.{find_by, has_key, HasDistinctKeys}
use workforce_app_backend.Common.Table.Snapshot.{
  Entry, entry_key, days_for, snapshot_loop, find_by-snapshot_loop,
}
use workforce_app_backend.Leave.Annual.{Bucket, AllocationRow, Store, bucket_id_of}
use workforce_app_backend.Leave.Annual.Service.{
  ReleaseMode, from_pending, from_used, release_days, release_rows, release, consume_days,
  consume_rows, allocations_for, delete_allocations,
}

abbrev pub row_bucket : AllocationRow → ℕ
row_bucket a = a.bucket_id

abbrev pub row_entry : AllocationRow → Entry
row_entry a = (a.bucket_id, a.days)

-- The days of a request for one leave year.
abbrev pub row_days : ℕ → List AllocationRow → ℕ
row_days j rows = days_for j (map row_entry rows)

release_id : (mode : ReleaseMode) (n : ℕ) (row b : Bucket) → (release_days mode n row b).id ≡ b.id
release_id from_pending n row b = refl
release_id from_used n row b = refl

release_zero : (mode : ReleaseMode) (b : Bucket) → release_days mode 0 b b ≡ b
release_zero from_pending b = ground arith
release_zero from_used b = ground arith

release_add :
    (mode : ReleaseMode) (m n : ℕ) (b : Bucket)
    → release_days mode n (release_days mode m b b) (release_days mode m b b)
      ≡ release_days mode (m + n) b b
release_add from_pending m n b = ground arith
release_add from_used m n b = ground arith

consume_add :
    (m n : ℕ) (b : Bucket)
    → consume_days n (consume_days m b b) (consume_days m b b) ≡ consume_days (m + n) b b
consume_add m n b = ground arith

row_entries-has_key :
    (k : ℕ) (rows : List AllocationRow)
    → has_key entry_key k (map row_entry rows) ≡ has_key row_bucket k rows
row_entries-has_key k [] = refl
row_entries-has_key k (a ∷ rows) = ground (arith, row_entries-has_key k rows)

row_entries-HasDistinctKeys :
    (rows : List AllocationRow)
    → HasDistinctKeys row_bucket rows
    → HasDistinctKeys entry_key (map row_entry rows)
row_entries-HasDistinctKeys [] d = tt
row_entries-HasDistinctKeys (a ∷ rows) d =
    ground (arith, row_entries-has_key a.bucket_id rows, row_entries-HasDistinctKeys rows d.1)

module _ (request : ℕ) (snapshot : List Bucket) where
  release_rows-buckets :
      (mode : ReleaseMode) (rows : List AllocationRow) (db : Store)
      → (release_rows mode request snapshot rows db).buckets
        ≡ snapshot_loop bucket_id_of (release_days mode) snapshot (map row_entry rows) db.buckets
  unfolding release_rows snapshot_loop
  release_rows-buckets mode [] db = refl
  release_rows-buckets mode (a ∷ rows) db =
      release_rows-buckets mode rows _
      ∙ ap (snapshot_loop bucket_id_of (release_days mode) snapshot (map row_entry rows))
          (ground arith)

  release_rows-allocations :
      (mode : ReleaseMode) (rows : List AllocationRow) (db : Store)
      → (release_rows mode request snapshot rows db).allocations ≡ db.allocations
  unfolding release_rows
  release_rows-allocations mode [] db = refl
  release_rows-allocations mode (a ∷ rows) db =
      release_rows-allocations mode rows _ ∙ (ground arith)

  consume_rows-buckets :
      (rows : List AllocationRow) (db : Store)
      → (consume_rows request snapshot rows db).buckets
        ≡ snapshot_loop bucket_id_of consume_days snapshot (map row_entry rows) db.buckets
  unfolding consume_rows snapshot_loop
  consume_rows-buckets [] db = refl
  consume_rows-buckets (a ∷ rows) db =
      consume_rows-buckets rows _
      ∙ ap (snapshot_loop bucket_id_of consume_days snapshot (map row_entry rows)) (ground arith)

All-same :
    (bs : List Bucket) (entries : List Entry)
    → All (λ e. find_by bucket_id_of e.0 bs ≡ find_by bucket_id_of e.0 bs) entries
All-same bs [] = tt
All-same bs (e ∷ entries) = (refl, All-same bs entries)

-- The rows of a request hold each leave year once, as the key of the table says.
abbrev pub HasOneRowEach : Store → ℕ → Type 0
HasOneRowEach db request = HasDistinctKeys row_bucket (allocations_for request db.allocations)

-- Releasing a request that has at most one allocation for each leave year takes from each leave year
-- what was allocated to it (not below zero), and changes no other.
pub release-buckets :
    (db : Store) (request j : ℕ) (mode : ReleaseMode)
    → HasOneRowEach db request
    → find_by bucket_id_of j (release db request mode).buckets
      ≡ Option.map
          (λ b. release_days mode (row_days j (allocations_for request db.allocations)) b b)
          (find_by bucket_id_of j db.buckets)
unfolding release
release-buckets db request j mode d =
    let mine = allocations_for request db.allocations in
    let loop =
      ap (find_by bucket_id_of j) (release_rows-buckets request db.buckets mode mine db)
      ∙ find_by-snapshot_loop bucket_id_of (release_days mode) db.buckets (release_id mode)
          (release_zero mode) (release_add mode) j (map row_entry mine) db.buckets
          (row_entries-HasDistinctKeys mine d) (All-same db.buckets (map row_entry mine)) in
    elim (Bool-cases (is_empty mine)) [ inl e ↦ rw e loop | inr e ↦ rw e loop ]

-- Consuming the allocations of a request, at most one for each leave year, moves what was allocated
-- to each leave year from pending (not below zero) to used.
pub consume_rows-moves :
    (db : Store) (request j : ℕ)
    → HasOneRowEach db request
    → let mine = allocations_for request db.allocations in
      find_by bucket_id_of j (consume_rows request db.buckets mine db).buckets
      ≡ Option.map (λ b. consume_days (row_days j mine) b b) (find_by bucket_id_of j db.buckets)
consume_rows-moves db request j d =
    let mine = allocations_for request db.allocations in
    ap (find_by bucket_id_of j) (consume_rows-buckets request db.buckets mine db)
    ∙ find_by-snapshot_loop bucket_id_of consume_days db.buckets (λ n row b. refl)
        (λ b. ground arith) consume_add j (map row_entry mine) db.buckets
        (row_entries-HasDistinctKeys mine d) (All-same db.buckets (map row_entry mine))

none_to_delete :
    (request : ℕ) (rows : List AllocationRow)
    → is_empty (allocations_for request rows) ≡ true
    → rows ≡ delete_allocations request rows
none_to_delete request [] h = refl
none_to_delete request (a ∷ rows) h = ground (arith, none_to_delete request rows)

-- Releasing a request deletes its allocations, and no others.
pub release-allocations :
    (db : Store) (request : ℕ) (mode : ReleaseMode)
    → (release db request mode).allocations ≡ delete_allocations request db.allocations
unfolding release
release-allocations db request mode =
    let mine = allocations_for request db.allocations in
    let kept = release_rows-allocations request db.buckets mode mine db in
    elim (Bool-cases (is_empty mine)) [
      | inl e ↦ rw e (kept ∙ none_to_delete request db.allocations e)
      | inr e ↦ rw e (ap (delete_allocations request) kept)
    ]
