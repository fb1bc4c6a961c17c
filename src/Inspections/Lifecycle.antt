-- ===== src/Inspections/Lifecycle.antt =====
-- The handlers of inspection_service.py that the model has, as one call, on a cancelled inspection.
use site_proof.Prelude.{
  ℕ, String, ◌≡◌, refl, subst, Bool, true, false, not, Option, none, some, List, arith,
  if◌then◌else◌, ◌==◌,
}
use site_proof.Prelude.Reply.{Reply, ok, err}
use site_proof.Inspections.Inspection.{
  Inspection, InspectionStatus, cancelled, is_assigned, is_acknowledged, is_cancelled,
}
use site_proof.Inspections.Service.{
  UserRole, inspector, is_inspector, User, Inspector, Assignment, Office, is_admin, locked,
  with_reply, assign_locked, assign_inspector, reassign_locked, reassign_inspector, cancel_locked,
  cancel_inspection,
}
use site_proof.Inspections.Progress.{
  is_ok_for, scope_of, scope_after, scoped_inspection, require_active_assignee, acknowledge_scoped,
  acknowledge_inspection, ready_scoped, mark_ready,
}

pub data Call : Type 0 where
  assigns : User → ℕ → List Inspector → ℕ → Call
  reassigns : User → ℕ → ℕ → List Inspector → ℕ → String → Call
  acknowledges : User → ℕ → Call
  readies : User → Call
  cancels : User → ℕ → String → Call

unfoldable pub handle : Call → Office → Reply Inspection × Office
handle (assigns user id inspectors inspector_id) office =
    assign_inspector user id inspectors inspector_id office
handle (reassigns user now id inspectors inspector_id reason) office =
    reassign_inspector user now id inspectors inspector_id reason office
handle (acknowledges user now) office = acknowledge_inspection user now office
handle (readies user) office = mark_ready user office
handle (cancels user now reason) office = cancel_inspection user now reason office

with_reply_same :
    {A : Type 0} (office : Office) (k : A → Reply Inspection × Office) (r : Reply A)
    → ((a : A) → r ≡ ok a → (k a).1 ≡ office)
    → (with_reply office k r).1 ≡ office
with_reply_same office k (err status code) h = refl
with_reply_same office k (ok a) h = h a refl

guard_same :
    (office : Office) (b : Bool) (status : ℕ) (code : String) (rest : Reply Inspection × Office)
    → (b ≡ false → rest.1 ≡ office)
    → (if b then (err status code, office) else rest).1 ≡ office
guard_same office true status code rest h = refl
guard_same office false status code rest h = h refl

cancelled-is_assigned :
    (s : InspectionStatus)
    → is_cancelled s ≡ true
    → (is_assigned s ≡ false) × (is_acknowledged s ≡ false)
unfolding is_cancelled is_assigned is_acknowledged
cancelled-is_assigned cancelled e = (refl, refl)
cancelled-is_assigned _ e = ground arith

locked_ok :
    (organization : ℕ) (o : Option Inspection) (i a : Inspection)
    → o ≡ some i
    → is_cancelled i.status ≡ true
    → locked organization o ≡ ok a
    → is_cancelled a.status ≡ true
locked_ok organization none i a e c h = ground arith
locked_ok organization (some j) i a e c h = by_test (j.organization_id == organization) h
  where
    by_test :
        (b : Bool)
        → (if b then ok j else err 404 "INSPECTION_NOT_FOUND") ≡ ok a
        → is_cancelled a.status ≡ true
    by_test true q =
        let same : i ≡ a = cc (e, q) in
        subst (λ (x : Inspection). is_cancelled x.status ≡ true) same c
    by_test false q = ground arith

scoped_ok :
    (user : User) (office : Office) (i a : Inspection)
    → office.inspection ≡ some i
    → is_cancelled i.status ≡ true
    → scoped_inspection user office ≡ ok a
    → is_cancelled a.status ≡ true
unfolding scoped_inspection
scoped_ok user office i a e c h = by_locked (locked user.organization_id office.inspection) refl h
  where
    for_row : (j : Inspection) (o : Option Assignment) → is_ok_for j o ≡ ok a → j ≡ a
    for_row j none k = ground arith
    for_row j (some _) k = cc k

    scope_one : (j : Inspection) (o : Option ℕ) → scope_of j office.assignments o ≡ ok a → j ≡ a
    scope_one j none k = ground arith
    scope_one j (some n) k = for_row j _ k

    scope_same :
        (role : UserRole) (j : Inspection) (o : Option ℕ)
        → (if is_inspector role then scope_of j office.assignments o else ok j) ≡ ok a
        → j ≡ a
    scope_same inspector j o k = scope_one j o k
    scope_same _ j o k = cc k

    by_locked :
        (r : Reply Inspection)
        → locked user.organization_id office.inspection ≡ r
        → scope_after user office.assignments r ≡ ok a
        → is_cancelled a.status ≡ true
    by_locked (err status code) q k = ground arith
    by_locked (ok j) q k =
        subst (λ (x : Inspection). is_cancelled x.status ≡ true)
          (scope_same user.role j user.inspector_id k)
          (locked_ok user.organization_id office.inspection i j e c q)

module _ (office : Office) (a : Inspection) (c : is_cancelled a.status ≡ true) where
  assign_locked_same :
      (id : ℕ) (inspectors : List Inspector) (inspector_id : ℕ)
      → (assign_locked id inspectors inspector_id office a).1 ≡ office
  unfolding assign_locked
  assign_locked_same id inspectors inspector_id = rw c refl

  reassign_locked_same :
      (now id : ℕ) (inspectors : List Inspector) (inspector_id : ℕ) (reason : String)
      → (reassign_locked now id inspectors inspector_id reason office a).1 ≡ office
  unfolding reassign_locked
  reassign_locked_same now id inspectors inspector_id reason = rw c refl

  cancel_locked_same : (now : ℕ) (reason : String) → (cancel_locked now reason office a).1 ≡ office
  unfolding cancel_locked
  cancel_locked_same now reason = rw c refl

  acknowledge_scoped_same :
      (now : ℕ) (x : Assignment) → (acknowledge_scoped now office a x).1 ≡ office
  unfolding acknowledge_scoped
  acknowledge_scoped_same now x = rw (cancelled-is_assigned a.status c).0 refl

  ready_scoped_same : (x : Assignment) → (ready_scoped office a x).1 ≡ office
  unfolding ready_scoped
  ready_scoped_same x = rw (cancelled-is_assigned a.status c).1 refl

-- One call of assign_inspector, reassign_inspector, acknowledge_inspection, mark_ready or
-- cancel_inspection on a cancelled inspection changes neither the inspection nor its assignments,
-- whatever it answers.
pub handle_cancelled :
    (call : Call) (office : Office) (i : Inspection)
    → office.inspection ≡ some i
    → is_cancelled i.status ≡ true
    → (handle call office).1 ≡ office
unfolding handle assign_inspector reassign_inspector acknowledge_inspection mark_ready
    cancel_inspection
handle_cancelled (assigns user id inspectors inspector_id) office i e c =
    guard_same office (not (is_admin user.role)) 403 "FORBIDDEN"
      (with_reply office (assign_locked id inspectors inspector_id office)
        (locked user.organization_id office.inspection))
      λ p.
        with_reply_same office (assign_locked id inspectors inspector_id office)
          (locked user.organization_id office.inspection)
          λ a h.
            assign_locked_same office a (locked_ok user.organization_id office.inspection i a e c h)
              id inspectors inspector_id
handle_cancelled (reassigns user now id inspectors inspector_id reason) office i e c =
    guard_same office (not (is_admin user.role)) 403 "FORBIDDEN"
      (with_reply office (reassign_locked now id inspectors inspector_id reason office)
        (locked user.organization_id office.inspection))
      λ p.
        with_reply_same office (reassign_locked now id inspectors inspector_id reason office)
          (locked user.organization_id office.inspection)
          λ a h.
            reassign_locked_same office a
              (locked_ok user.organization_id office.inspection i a e c h) now id inspectors
              inspector_id reason
handle_cancelled (acknowledges user now) office i e c =
    with_reply_same office
      (λ a.
        with_reply office (acknowledge_scoped now office a) (require_active_assignee user a office))
      (scoped_inspection user office)
      λ a h.
        with_reply_same office (acknowledge_scoped now office a)
          (require_active_assignee user a office)
          λ x q. acknowledge_scoped_same office a (scoped_ok user office i a e c h) now x
handle_cancelled (readies user) office i e c =
    with_reply_same office
      (λ a. with_reply office (ready_scoped office a) (require_active_assignee user a office))
      (scoped_inspection user office)
      λ a h.
        with_reply_same office (ready_scoped office a) (require_active_assignee user a office)
          λ x q. ready_scoped_same office a (scoped_ok user office i a e c h) x
handle_cancelled (cancels user now reason) office i e c =
    guard_same office (not (is_admin user.role)) 403 "FORBIDDEN"
      (with_reply office (cancel_locked now reason office)
        (locked user.organization_id office.inspection))
      λ p.
        with_reply_same office (cancel_locked now reason office)
          (locked user.organization_id office.inspection)
          λ a h.
            cancel_locked_same office a (locked_ok user.organization_id office.inspection i a e c h)
              now reason
