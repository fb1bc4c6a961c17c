-- ===== src/Sessions/Site.antt =====
-- The tables that the session handlers write: the organization's sessions and the inspection at hand.
use site_proof.Prelude.{
  ℕ, Bool, not, ◌&&◌, Option, none, some, List, [], ◌∷◌, map, leb, ◌==◌, if◌then◌else◌,
}
use site_proof.Prelude.Reply.{Reply, ok, err}
use site_proof.Inspections.Inspection.{Inspection, InspectionStatus, is_cancelled, ready}
use site_proof.Sessions.Session.{Session, is_live, expired}

pub record Site : Type 0 where
  pub sessions : List Session
  pub inspection : Option Inspection

-- The caller: the id of the active inspector profile that belongs to the user, if it has one.
pub record Caller : Type 0 where
  pub is_inspector : Bool
  pub organization_id : ℕ
  pub profile : Option ℕ

-- `get_inspector_for_user`
unfoldable pub get_inspector_for_user : Caller → Reply ℕ
get_inspector_for_user caller = elim caller.profile [
  | none ↦ err 403 "FORBIDDEN"
  | some inspector ↦ if caller.is_inspector then ok inspector else err 403 "FORBIDDEN"
]

unfoldable pub find_session : (Session → Bool) → List Session → Option Session
find_session p [] = none
find_session p (s ∷ ss) = if p s then some s else find_session p ss

unfoldable pub update : ℕ → (Session → Session) → List Session → List Session
update id f = map (λ s. if s.id == id then f s else s)

-- `owned_session`. `is_assigned inspection inspector` says whether `active_assignment` finds a row.
abbrev owner_session : (ℕ → ℕ → Bool) → Bool → ℕ → Option Session → Reply Session
owner_session is_assigned required inspector none = err 404 "SESSION_NOT_FOUND"
owner_session is_assigned required inspector (some s) =
    if required && not (is_assigned s.inspection_id inspector) then err 403 "NOT_ASSIGNED" else ok s

abbrev owned_by : Bool → (ℕ → ℕ → Bool) → ℕ → ℕ → List Session → Reply ℕ → Reply Session
owned_by required is_assigned organization id sessions (err status code) = err status code
owned_by required is_assigned organization id sessions (ok inspector) =
    owner_session is_assigned required inspector (
      find_session
        (λ s. s.id == id && s.organization_id == organization && s.inspector_id == inspector)
        sessions)

unfoldable pub owned_session : Bool → (ℕ → ℕ → Bool) → Caller → ℕ → List Session → Reply Session
owned_session required is_assigned caller id sessions =
    owned_by required is_assigned caller.organization_id id sessions (get_inspector_for_user caller)

-- `if inspection and inspection.status != CANCELLED: inspection.status = status`
unfoldable pub move_inspection : InspectionStatus → Option Inspection → Option Inspection
move_inspection status none = none
move_inspection status (some i) =
    some (if is_cancelled i.status then i else record i { status = status })

abbrev pub mark_expired : Session → Session
mark_expired s = record s { status = expired }

-- Whether `expire_if_needed` expires the session, and what it then writes.
unfoldable pub needs_expiry : ℕ → Session → Bool
needs_expiry now s = is_live s.status && leb s.expires_at now

unfoldable pub expire : Session → Site → Site
expire s site = record {
  sessions = update s.id mark_expired site.sessions;
  inspection = move_inspection ready site.inspection;
}

-- The rest of a handler after a check.
abbrev pub with_session {ℓ} :
    {A : Type ℓ} → Site → (Session → Reply A × Site) → Reply Session → Reply A × Site
with_session site handle (err status code) = (err status code, site)
with_session site handle (ok s) = handle s

-- The write to one session, with its reply.
abbrev pub write_session :
    Session → (Session → Session) → Option Inspection → Site → Reply Session × Site
write_session s f inspection site =
    (ok (f s), record { sessions = update s.id f site.sessions; inspection = inspection })
