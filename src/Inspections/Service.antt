-- ===== src/Inspections/Service.antt =====
-- The handlers of inspection_service.py that change an inspection or its assignments, each as one
-- transaction at one time `now`. `inspectors` are the organization's inspectors.
use site_proof.Prelude.{
  ℕ, String, Bool, true, false, not, ◌&&◌, ◌||◌, Option, none, some, List, [], ◌∷◌, ◌++◌, map, ◌==◌,
  if◌then◌else◌,
}
use site_proof.Prelude.Reply.{Reply, ok, err}
use site_proof.Inspections.Inspection.{
  Inspection, InspectionStatus, assigned, is_draft, is_cancelled,
}

-- AssignmentStatus
pub data AssignmentStatus : Type 0 where
  active reassigned cancelled : AssignmentStatus

pub record Assignment : Type 0 where
  pub id : ℕ
  pub inspection_id : ℕ
  pub inspector_id : ℕ
  pub status : AssignmentStatus
  pub acknowledged_at : Option ℕ
  pub unassigned_at : Option ℕ
  pub reason : Option String

pub data UserRole : Type 0 where
  admin reviewer inspector : UserRole

pub record User : Type 0 where
  pub organization_id : ℕ
  pub role : UserRole
  pub inspector_id : Option ℕ

-- An inspector with the `is_active` of its user.
pub record Inspector : Type 0 where
  pub id : ℕ
  pub active : Bool
  pub user_is_active : Bool

pub record Office : Type 0 where
  pub inspection : Option Inspection
  pub assignments : List Assignment

abbrev pub is_admin : UserRole → Bool
is_admin admin = true
is_admin _ = false

abbrev pub is_inspector : UserRole → Bool
is_inspector inspector = true
is_inspector _ = false

unfoldable pub is_active : AssignmentStatus → Bool
is_active active = true
is_active _ = false

abbrev pub is_active_of : ℕ → Assignment → Bool
is_active_of inspection a = a.inspection_id == inspection && is_active a.status

unfoldable pub find_assignment : (Assignment → Bool) → List Assignment → Option Assignment
find_assignment p [] = none
find_assignment p (a ∷ rest) = if p a then some a else find_assignment p rest

unfoldable pub update : ℕ → (Assignment → Assignment) → List Assignment → List Assignment
update id f = map (λ a. if a.id == id then f a else a)

-- `_active_assignment`
abbrev pub active_assignment : ℕ → List Assignment → Option Assignment
active_assignment inspection = find_assignment (is_active_of inspection)

-- `_locked_inspection`
abbrev pub locked : ℕ → Option Inspection → Reply Inspection
locked organization none = err 404 "INSPECTION_NOT_FOUND"
locked organization (some i) =
    if i.organization_id == organization then ok i else err 404 "INSPECTION_NOT_FOUND"

abbrev pub with_reply :
    {A B : Type 0} → Office → (A → Reply B × Office) → Reply A → Reply B × Office
with_reply office handle (err status code) = (err status code, office)
with_reply office handle (ok a) = handle a

-- `get_inspector_in_org`, and the check that follows it.
unfoldable pub find_inspector : ℕ → List Inspector → Reply Inspector
find_inspector id [] = err 404 "INSPECTOR_NOT_FOUND"
find_inspector id (i ∷ others) =
    let rest = find_inspector id others in
    if i.id == id
    then (if not i.active || not i.user_is_active then err 409 "INSPECTOR_INACTIVE" else ok i)
    else rest

unfoldable pub new_assignment : ℕ → ℕ → ℕ → Option String → Assignment
new_assignment id inspection inspector_id reason = record {
  id = id;
  inspection_id = inspection;
  inspector_id = inspector_id;
  status = active;
  acknowledged_at = none;
  unassigned_at = none;
  reason = reason;
}

abbrev is_none : {A : Type 0} → Option A → Bool
is_none none = true
is_none (some _) = false

unfoldable pub assign_locked :
    ℕ → List Inspector → ℕ → Office → Inspection → Reply Inspection × Office
assign_locked id inspectors inspector_id office i =
    if is_cancelled i.status
    then (err 409 "INSPECTION_NOT_ASSIGNABLE", office)
    else if not (is_draft i.status) || not (is_none (active_assignment i.id office.assignments))
    then (err 409 "INSPECTION_NOT_ASSIGNABLE", office)
    else with_reply office
        (λ (chosen : Inspector).
          let i' : Inspection = record i { status = assigned } in
          (
            ok i',
            record {
              inspection = some i';
              assignments = office.assignments ++ new_assignment id i.id chosen.id none ∷ [];
            },
          ))
        (find_inspector inspector_id inspectors)

-- `assign_inspector`
unfoldable pub assign_inspector : User → ℕ → List Inspector → ℕ → Office → Reply Inspection × Office
assign_inspector user id inspectors inspector_id office =
    if not (is_admin user.role)
    then (err 403 "FORBIDDEN", office)
    else with_reply office (assign_locked id inspectors inspector_id office)
        (locked user.organization_id office.inspection)

abbrev pub mark_reassigned : ℕ → String → Assignment → Assignment
mark_reassigned now reason a = record a {
  status = reassigned;
  unassigned_at = some now;
  reason = some reason;
}

-- The new assignment in place of the old one.
unfoldable pub replace_assignment :
    ℕ → ℕ → String → Office → Inspection → Assignment → Inspector → Reply Inspection × Office
replace_assignment now id reason office i old chosen =
    let i' : Inspection = record i { status = assigned } in
    if old.inspector_id == chosen.id then (err 409 "SAME_INSPECTOR", office) else (
      ok i',
      record {
        inspection = some i';
        assignments =
            update old.id (mark_reassigned now reason) office.assignments
            ++ new_assignment id i.id chosen.id (some reason) ∷ [];
      },
    )

abbrev pub reassign_from :
    ℕ
    → ℕ
    → List Inspector
    → ℕ
    → String
    → Office
    → Inspection
    → Option Assignment
    → Reply Inspection × Office
reassign_from now id inspectors inspector_id reason office i none =
    (err 409 "NO_ACTIVE_ASSIGNMENT", office)
reassign_from now id inspectors inspector_id reason office i (some old) =
    with_reply office (replace_assignment now id reason office i old)
      (find_inspector inspector_id inspectors)

unfoldable pub reassign_locked :
    ℕ → ℕ → List Inspector → ℕ → String → Office → Inspection → Reply Inspection × Office
reassign_locked now id inspectors inspector_id reason office i =
    if is_cancelled i.status
    then (err 409 "INSPECTION_NOT_ASSIGNABLE", office)
    else reassign_from now id inspectors inspector_id reason office i
        (active_assignment i.id office.assignments)

-- `reassign_inspector`
unfoldable pub reassign_inspector :
    User → ℕ → ℕ → List Inspector → ℕ → String → Office → Reply Inspection × Office
reassign_inspector user now id inspectors inspector_id reason office =
    if not (is_admin user.role)
    then (err 403 "FORBIDDEN", office)
    else with_reply office (reassign_locked now id inspectors inspector_id reason office)
        (locked user.organization_id office.inspection)

abbrev pub mark_cancelled : ℕ → String → Assignment → Assignment
mark_cancelled now reason a = record a {
  status = AssignmentStatus.cancelled;
  unassigned_at = some now;
  reason = some reason;
}

abbrev pub cancel_assignment : ℕ → String → List Assignment → Option Assignment → List Assignment
cancel_assignment now reason assignments none = assignments
cancel_assignment now reason assignments (some a) =
    update a.id (mark_cancelled now reason) assignments

unfoldable pub cancel_locked : ℕ → String → Office → Inspection → Reply Inspection × Office
cancel_locked now reason office i =
    let i' : Inspection = record i {
      status = InspectionStatus.cancelled;
      cancelled_at = some now;
    } in
    if is_cancelled i.status then (err 409 "INVALID_STATUS_TRANSITION", office) else (
      ok i',
      record {
        inspection = some i';
        assignments =
            cancel_assignment now reason office.assignments
              (active_assignment i.id office.assignments);
      },
    )

-- `cancel_inspection`
unfoldable pub cancel_inspection : User → ℕ → String → Office → Reply Inspection × Office
cancel_inspection user now reason office =
    if not (is_admin user.role)
    then (err 403 "FORBIDDEN", office)
    else with_reply office (cancel_locked now reason office)
        (locked user.organization_id office.inspection)
