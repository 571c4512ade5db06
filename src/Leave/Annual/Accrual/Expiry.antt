-- ===== src/Leave/Annual/Accrual/Expiry.antt =====
-- Which leave years accrual lets expire, and how.
use mathlib.Core.Option
use workforce_app_backend.Common.{
  ℕ, ◌+◌, ◌-◌, ◌≡◌, refl, ap, ◌∙◌, Bool, true, false, not, ◌&&◌, ◌||◌, Option, none, some, List, [],
  ◌∷◌, arith, ◌==◌, if◌then◌else◌, All, All-weaken, All-both, filter,
}
use workforce_app_backend.Common.Int.{pos_part}
use workforce_app_backend.Common.Table.{
  find_by, has_key, HasDistinctKeys, find_by-update_by, find_by-none,
}
use workforce_app_backend.Common.Table.Keys.{All-find_by_self, All-filter, HasDistinctKeys-filter}
use workforce_app_backend.Common.Table.Snapshot.{All-ne_key}
use workforce_app_backend.Calendar.{Date, before}
use workforce_app_backend.Leave.Annual.{
  expired, Bucket, Store, bucket_id_of, is_opened, remaining_of, write_ledger,
}
use workforce_app_backend.Leave.Annual.Accrual.{expire_bucket, expire_row, expire_rows}

-- A leave year that is due expires as the loop of the code has it.
abbrev expire_due : Date → Bucket → Bucket
expire_due as_of b =
    if before as_of b.expires_on
    then b
    else expire_bucket b.expired_days (pos_part (remaining_of b)) b

expire_row-buckets :
    (as_of : Date) (row : Bucket) (j : ℕ) (db : Store)
    → find_by bucket_id_of row.id db.buckets ≡ some row
    → find_by bucket_id_of j (expire_row as_of row db).buckets ≡ (
        if row.id == j
        then Option.map (expire_due as_of) (find_by bucket_id_of j db.buckets)
        else find_by bucket_id_of j db.buckets)
unfolding expire_row write_ledger
expire_row-buckets as_of row j db e =
    let update =
      find_by-update_by bucket_id_of j row.id
        (expire_bucket row.expired_days (pos_part (remaining_of row))) db.buckets (λ b. refl) in
    ground (arith, update, e)

expire_once :
    (as_of : Date) (a b : Bool) (o o' : Option Bucket)
    → o' ≡ (if a then Option.map (expire_due as_of) o else o)
    → (a ≡ true → b ≡ false)
    → (if b then Option.map (expire_due as_of) o' else o')
      ≡ (if a || b then Option.map (expire_due as_of) o else o)
expire_once as_of true true o o' e h = absurd (ground (arith, h refl))
expire_once as_of true false o o' e h = e
expire_once as_of false true o o' e h = rw e
expire_once as_of false false o o' e h = e

expire_rows-buckets :
    (as_of : Date) (rows : List Bucket) (j : ℕ) (db : Store)
    → HasDistinctKeys bucket_id_of rows
    → All (λ (row : Bucket). find_by bucket_id_of row.id db.buckets ≡ some row) rows
    → find_by bucket_id_of j (expire_rows as_of rows db).buckets ≡ (
        if has_key bucket_id_of j rows
        then Option.map (expire_due as_of) (find_by bucket_id_of j db.buckets)
        else find_by bucket_id_of j db.buckets)
unfolding expire_rows
expire_rows-buckets as_of [] j db d h = refl
expire_rows-buckets as_of (row ∷ rows) j db d h =
    let next = expire_row as_of row db in
    let still =
      All-weaken
        (λ (r : Bucket) p. ground (arith, expire_row-buckets as_of row r.id db h.0, p.0, p.1)) rows
        (All-both (λ (r : Bucket). find_by bucket_id_of r.id db.buckets ≡ some r) _ rows h.1
          (All-ne_key bucket_id_of row.id rows d.0)) in
    expire_rows-buckets as_of rows j next d.1 still
    ∙ expire_once as_of (row.id == j) (has_key bucket_id_of j rows) _ _
        (expire_row-buckets as_of row j db h.0) (λ e. ground (arith, e, d.0))

has_key-filter_found :
    (p : Bucket → Bool) (j : ℕ) (rows : List Bucket)
    → HasDistinctKeys bucket_id_of rows
    → has_key bucket_id_of j (filter p rows)
      ≡ (elim (find_by bucket_id_of j rows) [ none ↦ false | some b ↦ p b ])
has_key-filter_found p j [] d = refl
has_key-filter_found p j (b ∷ rows) d =
    ground (arith, has_key-filter_found p j rows d.1, find_by-none bucket_id_of b.id rows d.0)

abbrev pub is_due : Date → ℕ → Bucket → Bool
is_due as_of employee_id b =
    (b.employee_id == employee_id) && is_opened b.status && not (before as_of b.expires_on)

expire_if :
    (as_of : Date) (p : Bucket → Bool) (o : Option Bucket)
    → (if (elim o [ none ↦ false | some b ↦ p b ]) then Option.map (expire_due as_of) o else o)
      ≡ Option.map (λ b. if p b then expire_due as_of b else b) o
expire_if as_of p none = refl
expire_if as_of p (some b) = ground arith

-- An expired leave year: the days that were granted and neither used, pending nor expired are expired
-- days now, and none is pending any more.
abbrev pub expired_row : Bucket → Bucket
expired_row b = record b {
  status = expired;
  expired_days =
      b.expired_days + (b.granted_days - (b.used_days + b.pending_days + b.expired_days));
  pending_days = 0;
}

left_over :
    (b : Bucket)
    → pos_part (remaining_of b) ≡ b.granted_days - (b.used_days + b.pending_days + b.expired_days)
unfolding remaining_of
left_over b = ground arith

due_case :
    (as_of : Date) (employee_id : ℕ) (b : Bucket)
    → (if (b.employee_id == employee_id) && is_opened b.status then expire_due as_of b else b)
      ≡ (if is_due as_of employee_id b then expired_row b else b)
due_case as_of employee_id b = ground (arith, left_over b)

due_cases :
    (as_of : Date) (employee_id : ℕ) (o : Option Bucket)
    → Option.map
        (λ b.
          if (b.employee_id == employee_id) && is_opened b.status then expire_due as_of b else b)
        o
      ≡ Option.map (λ b. if is_due as_of employee_id b then expired_row b else b) o
due_cases as_of employee_id none = refl
due_cases as_of employee_id (some b) = ap some (due_case as_of employee_id b)

-- On a table with distinct identifiers, accrual's last loop, over the open leave years of an
-- employee: each of those whose expiry date has come gets the status expired, the days that were
-- granted and neither used, pending nor expired become expired days, and its pending days are none;
-- every other leave year in the table is untouched.
pub expire_rows-due :
    (as_of : Date) (employee_id j : ℕ) (db : Store)
    → HasDistinctKeys bucket_id_of db.buckets
    → find_by bucket_id_of j
        (expire_rows as_of
          (filter (λ b. (b.employee_id == employee_id) && is_opened b.status) db.buckets)
          db).buckets
      ≡ Option.map
          (λ b. if is_due as_of employee_id b then expired_row b else b)
          (find_by bucket_id_of j db.buckets)
expire_rows-due as_of employee_id j db d =
    let mine = λ (b : Bucket). (b.employee_id == employee_id) && is_opened b.status in
    expire_rows-buckets as_of (filter mine db.buckets) j db
      (HasDistinctKeys-filter bucket_id_of mine db.buckets d)
      (All-filter _ mine db.buckets (All-find_by_self bucket_id_of db.buckets d))
    ∙ rw (has_key-filter_found mine j db.buckets d) (
        expire_if as_of mine (find_by bucket_id_of j db.buckets)
        ∙ due_cases as_of employee_id (find_by bucket_id_of j db.buckets))
