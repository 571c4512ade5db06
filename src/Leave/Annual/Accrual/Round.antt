-- ===== src/Leave/Annual/Accrual/Round.antt =====
-- A round of the loop of `ensureAccrual` over the leave years
-- (src/modules/leave/annual-leave.service.ts).
use workforce_app_backend.Common.{
  ℕ, ◌+◌, ◌≡◌, refl, ◌∙◌, true, false, none, some, [], ◌∷◌, ◌++◌, arith, ◌==◌, ltb, All, inl, inr,
  Bool-cases, Option-cases,
}
use workforce_app_backend.Common.Table.{find_by}
use workforce_app_backend.Common.Table.Keys.{find_by-append, has_key-next}
use workforce_app_backend.Calendar.{Date, date_eq}
use workforce_app_backend.Leave.Policy.{leave_year_period, annual_entitlement, Period}
use workforce_app_backend.Leave.Annual.{
  Bucket, Employee, Store, bucket_id_of, update_bucket, write_ledger,
}
use workforce_app_backend.Leave.Annual.Accrual.{
  ByStart, start_get, new_bucket, raise_grant, accrue_year,
}
use workforce_app_backend.Leave.Annual.Accrual.Sound.{IsSound, accrue_year-Keeps}
use workforce_app_backend.Leave.Annual.Accrual.ByStart.{
  date_eq→eq, IsEntry, start_get-start_set, raised_distinct, raised, IsSynced, IsGranted,
  appended_entries, HasDistinctKeys-start_set, entries_are_old, find_by-new, IsGranted-start_set,
  find_by-updated, find_by-not_updated,
}

-- What a round of the loop does: the map stays in step, the year of the round is granted, and the
-- years that were granted stay so.
pub record IsRound (employee : Employee) (as_of : Date) (n : ℕ) (m : ByStart)
    (next : Store × ByStart) : Type 0 where
  pub synced : IsSynced next.0 employee.id next.1
  pub now : IsGranted employee as_of n next.1
  pub still : (k : ℕ) → IsGranted employee as_of k m → IsGranted employee as_of k next.1

module _ (employee : Employee) (as_of : Date) (n : ℕ) (db : Store) (m : ByStart)
    (synced : IsSynced db employee.id m) where
  abbrev pub period : Period
  period = leave_year_period employee.employment_start_date n

  abbrev entitled : ℕ
  entitled = annual_entitlement n employee.employment_start_date as_of period.stop

  created-IsRound :
      start_get period.start m ≡ none
      → IsSound (accrue_year employee as_of n (db, m)).0
      → IsRound employee as_of n m (accrue_year employee as_of n (db, m))
  unfolding accrue_year write_ledger
  created-IsRound new sound =
      let row = new_bucket employee db.next_id period n entitled in
      let created = record db { buckets = db.buckets ++ row ∷ []; next_id = db.next_id + 1 } in
      let absent = has_key-next bucket_id_of db.next_id db.buckets synced.sound.below in
      rw (new, accrue_year)
        (record {
          synced = record {
            entries =
                appended_entries db created employee.id period.start row m
                  (λ j r found. find_by-append bucket_id_of j db.buckets (row ∷ []) {r = r} found)
                  (find_by-new db.buckets row absent, refl, refl) new synced.entries;
            distinct =
                HasDistinctKeys-start_set period.start row m
                  (entries_are_old db employee.id db.next_id m absent synced.entries)
                  synced.distinct;
            sound = rw (new, accrue_year) at sound;
          };
          now = (
            row,
            start_get-start_set period.start period.start row m ∙ ground arith,
            omega arith,
          );
          still = λ k granted.
              IsGranted-start_set employee as_of k period.start row m
                (λ old there. absurd (ground (arith, new, there))) granted;
        })

  raised-IsRound :
      (found : Bucket)
      → start_get period.start m ≡ some found
      → find_by bucket_id_of found.id db.buckets ≡ some found
      → ltb found.granted_days entitled ≡ true
      → IsSound (accrue_year employee as_of n (db, m)).0
      → IsRound employee as_of n m (accrue_year employee as_of n (db, m))
  unfolding accrue_year write_ledger
  raised-IsRound found old stored more sound =
      let change = raise_grant entitled period in
      let row = change found in
      let after = update_bucket db found.id change in
      let there : find_by bucket_id_of found.id after.buckets ≡ some row =
        find_by-updated found.id change db.buckets found (λ b. refl) stored in
      let others = λ (j : ℕ) (other : (found.id == j) ≡ false).
        find_by-not_updated j found.id change db.buckets (λ b. refl) other in
      rw (old, accrue_year)
        (rw more (record {
          synced = record {
            entries =
                raised db after employee.id found row there refl others refl refl period.start m old
                  synced.distinct synced.entries;
            distinct =
                raised_distinct db after employee.id found row there refl others refl refl
                  period.start m old synced.distinct;
            sound = rw more at (rw (old, accrue_year) at sound);
          };
          now = (
            row,
            start_get-start_set period.start period.start row m ∙ ground arith,
            omega arith,
          );
          still = λ k granted.
              IsGranted-start_set employee as_of k period.start row m
                (λ b there. ground (arith, old, there, more)) granted;
        }))

  pub IsEntry-at :
      (key : Date) (entries : ByStart) {found : Bucket}
      → start_get key entries ≡ some found
      → All (IsEntry db employee.id) entries
      → IsEntry db employee.id (key, found)
  unfolding start_get
  IsEntry-at key [] h e = absurd (ground arith)
  IsEntry-at key ((k, old) ∷ entries) {found} h e = elim (Bool-cases (date_eq k key)) [
    | inl same ↦
        let is_found : old ≡ found = ground (arith, same) in
        let here = date_eq→eq k key same in
        let mine = rw is_found at e.0 in (mine.0, mine.1, mine.2 ∙ here)
    | inr other ↦ IsEntry-at key entries {found = found} (ground (arith, other)) e.1
  ]

  pub accrue_year-IsRound : IsRound employee as_of n m (accrue_year employee as_of n (db, m))
  unfolding accrue_year
  accrue_year-IsRound =
      let sound = (accrue_year-Keeps employee as_of n db m synced.sound).0 in
      elim (Option-cases (start_get period.start m)) [
        | inl new ↦ created-IsRound new sound
        | inr (found, old) ↦ elim (Bool-cases (ltb found.granted_days entitled)) [
          | inl more ↦
              raised-IsRound found old (IsEntry-at period.start m old synced.entries).0 more sound
          | inr enough ↦
              rw (old, accrue_year)
                (rw enough (record {
                  synced = synced;
                  now = (found, old, ground (arith, enough));
                  still = λ k granted. granted;
                }))
        ]
      ]
