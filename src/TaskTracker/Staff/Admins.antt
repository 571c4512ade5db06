-- ===== src/TaskTracker/Staff/Admins.antt =====
-- The super administrators through `mergeStaff` of src/modules/task-tracker/permissions.ts.
use workforce_app_backend.Common.{
  ℕ, ◌≡◌, Bool, true, Option, none, some, List, [], ◌∷◌, arith, if◌then◌else◌, inl, inr, Bool-cases,
  any, includes,
}
use workforce_app_backend.TaskTracker.Roles.{is_super_admin}
use workforce_app_backend.TaskTracker.Workspace.{Dict, put, StaffProfile, WorkspaceData}
use workforce_app_backend.TaskTracker.Can.{Allowed}
use workforce_app_backend.TaskTracker.Staff.{
  role_is_super_admin, staff_has_super_admin, merge_profiles, restore_step, restore_super_admins,
  merged_staff, merge_staff,
}

any-weaken :
    (p q : ℕ → Bool) (xs : List ℕ)
    → ((x : ℕ) → p x ≡ true → q x ≡ true)
    → any p xs ≡ true
    → any q xs ≡ true
any-weaken p q [] f h = h
any-weaken p q (x ∷ xs) f h = ground (arith, f x, any-weaken p q xs f)

any-includes :
    (q : ℕ → Bool) (xs : List ℕ) (x : ℕ) → includes xs x ≡ true → q x ≡ true → any q xs ≡ true
any-includes q [] x i h = absurd (ground arith)
any-includes q (y ∷ xs) x i h = ground (arith, any-includes q xs x)

-- A stored super administrator's profile makes no other name less.
has_super_admin-put :
    (name : ℕ) (p : StaffProfile) (staff : List ℕ) (profiles : Dict StaffProfile)
    → is_super_admin p.permission_role ≡ true
    → staff_has_super_admin staff profiles ≡ true
    → staff_has_super_admin staff (put name p profiles) ≡ true
unfolding staff_has_super_admin
has_super_admin-put name p staff profiles s h =
    any-weaken (λ k. role_is_super_admin (profiles k))
      (λ k. role_is_super_admin (put name p profiles k)) staff (λ k e. ground (arith, s)) h

has_super_admin-added :
    (name : ℕ) (p : StaffProfile) (staff : List ℕ) (profiles : Dict StaffProfile)
    → is_super_admin p.permission_role ≡ true
    → staff_has_super_admin
        (if includes staff name then staff else name ∷ staff)
        (put name p profiles)
      ≡ true
unfolding staff_has_super_admin
has_super_admin-added name p staff profiles s =
    let own : role_is_super_admin (put name p profiles name) ≡ true = ground (arith, s) in
    elim (Bool-cases (includes staff name)) [
      | inl there ↦
          rw there
            (any-includes (λ k. role_is_super_admin (put name p profiles k)) staff name there own)
      | inr new ↦ rw new (ground (arith, s))
    ]

abbrev HasSuperAdmin : List ℕ × Dict StaffProfile → Type 0
HasSuperAdmin acc = staff_has_super_admin acc.0 acc.1 ≡ true

restore_step-keeps :
    (name : ℕ) (o : Option StaffProfile) (acc : List ℕ × Dict StaffProfile)
    → HasSuperAdmin acc
    → HasSuperAdmin (restore_step name o acc)
unfolding restore_step
restore_step-keeps name none acc h = h
restore_step-keeps name (some p) acc h = elim (Bool-cases (is_super_admin p.permission_role)) [
  | inl s ↦ rw s (has_super_admin-added name p acc.0 acc.1 s)
  | inr s ↦ rw s h
]

restore-keeps :
    (existing : Dict StaffProfile) (names : List ℕ) (acc : List ℕ × Dict StaffProfile)
    → HasSuperAdmin acc
    → HasSuperAdmin (restore_super_admins existing names acc)
unfolding restore_super_admins
restore-keeps existing [] acc h = h
restore-keeps existing (name ∷ names) acc h =
    restore-keeps existing names _ (restore_step-keeps name (existing name) acc h)

restore_step-adds :
    (name : ℕ) (o : Option StaffProfile) (acc : List ℕ × Dict StaffProfile)
    → role_is_super_admin o ≡ true
    → HasSuperAdmin (restore_step name o acc)
unfolding restore_step
restore_step-adds name none acc h = absurd (ground arith)
restore_step-adds name (some p) acc h = rw h (has_super_admin-added name p acc.0 acc.1 h)

restore-adds :
    (existing : Dict StaffProfile) (names : List ℕ) (acc : List ℕ × Dict StaffProfile)
    → staff_has_super_admin names existing ≡ true
    → HasSuperAdmin (restore_super_admins existing names acc)
unfolding restore_super_admins staff_has_super_admin
restore-adds existing [] acc h = absurd (ground arith)
restore-adds existing (name ∷ names) acc h =
    elim (Bool-cases (role_is_super_admin (existing name))) [
      | inl s ↦ restore-keeps existing names _ (restore_step-adds name (existing name) acc s)
      | inr s ↦ restore-adds existing names _ (ground (arith, s))
    ]

-- If the stored staff has a super administrator, so has the merged staff, whatever the client sends
-- and whatever the actor may do.
pub merge_staff-HasSuperAdmin :
    (existing incoming : WorkspaceData) (allowed : Allowed) (actor : ℕ)
    → staff_has_super_admin existing.staff existing.staff_profiles ≡ true
    → let (staff, profiles) = merge_staff existing incoming allowed actor in
      staff_has_super_admin staff profiles ≡ true
unfolding merge_staff
merge_staff-HasSuperAdmin existing incoming allowed actor h =
    let staff = merged_staff existing incoming allowed actor in
    let profiles =
      merge_profiles allowed existing.staff_profiles incoming.staff_profiles staff (λ k. none) in
    elim (Bool-cases (staff_has_super_admin staff profiles)) [
      | inl has ↦ rw (has, has)
      | inr lost ↦ rw lost (restore-adds existing.staff_profiles existing.staff (staff, profiles) h)
    ]
