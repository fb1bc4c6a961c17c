-- ===== src/Inspections/Progress.antt =====
-- The inspector's own handlers of inspection_service.py: `acknowledge_inspection` and `mark_ready`.
use site_proof.Prelude.{ℕ, not, ◌&&◌, Option, none, some, List, ◌==◌, if◌then◌else◌}
use site_proof.Prelude.Reply.{Reply, ok, err}
use site_proof.Inspections.Inspection.{
  Inspection, acknowledged, ready, is_assigned, is_acknowledged,
}
use site_proof.Inspections.Service.{
  User, Assignment, Office, is_inspector, is_active_of, find_assignment, active_assignment, update,
  locked, with_reply,
}

-- `_scoped_inspection`: an inspector only sees the inspections that are assigned to it.
abbrev pub is_ok_for : Inspection → Option Assignment → Reply Inspection
is_ok_for i none = err 404 "INSPECTION_NOT_FOUND"
is_ok_for i (some _) = ok i

abbrev pub scope_of : Inspection → List Assignment → Option ℕ → Reply Inspection
scope_of i assignments none = err 404 "INSPECTION_NOT_FOUND"
scope_of i assignments (some inspector) =
    is_ok_for i
      (find_assignment (λ a. is_active_of i.id a && a.inspector_id == inspector) assignments)

abbrev pub scope_after : User → List Assignment → Reply Inspection → Reply Inspection
scope_after user assignments (err status code) = err status code
scope_after user assignments (ok i) =
    if is_inspector user.role then scope_of i assignments user.inspector_id else ok i

unfoldable pub scoped_inspection : User → Office → Reply Inspection
scoped_inspection user office =
    scope_after user office.assignments (locked user.organization_id office.inspection)

-- `_require_active_assignee`
abbrev assignee_of : Option ℕ → Option Assignment → Reply Assignment
assignee_of none a = err 403 "FORBIDDEN"
assignee_of (some inspector) none = err 403 "NOT_ASSIGNED"
assignee_of (some inspector) (some a) =
    if a.inspector_id == inspector then ok a else err 403 "NOT_ASSIGNED"

unfoldable pub require_active_assignee : User → Inspection → Office → Reply Assignment
require_active_assignee user i office =
    if not (is_inspector user.role)
    then err 403 "FORBIDDEN"
    else assignee_of user.inspector_id (active_assignment i.id office.assignments)

abbrev pub mark_acknowledged : ℕ → Assignment → Assignment
mark_acknowledged now a = record a { acknowledged_at = some now }

unfoldable pub acknowledge_scoped : ℕ → Office → Inspection → Assignment → Reply Inspection × Office
acknowledge_scoped now office i a =
    let i' : Inspection = record i { status = acknowledged } in
    if not (is_assigned i.status) then (err 409 "INVALID_STATUS_TRANSITION", office) else (
      ok i',
      record {
        inspection = some i';
        assignments = update a.id (mark_acknowledged now) office.assignments;
      },
    )

-- `acknowledge_inspection`
unfoldable pub acknowledge_inspection : User → ℕ → Office → Reply Inspection × Office
acknowledge_inspection user now office =
    with_reply office
      (λ (i : Inspection).
        with_reply office (acknowledge_scoped now office i) (require_active_assignee user i office))
      (scoped_inspection user office)

unfoldable pub ready_scoped : Office → Inspection → Assignment → Reply Inspection × Office
ready_scoped office i a =
    let i' : Inspection = record i { status = ready } in
    if not (is_acknowledged i.status)
    then (err 409 "INVALID_STATUS_TRANSITION", office)
    else (ok i', record office { inspection = some i' })

-- `mark_ready`
unfoldable pub mark_ready : User → Office → Reply Inspection × Office
mark_ready user office =
    with_reply office
      (λ (i : Inspection).
        with_reply office (ready_scoped office i) (require_active_assignee user i office))
      (scoped_inspection user office)
