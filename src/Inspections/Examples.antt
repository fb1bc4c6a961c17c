-- ===== src/Inspections/Examples.antt =====
-- A cancelled inspection that is assigned again.
use site_proof.Prelude.{◌≡◌, refl, true, none, some, [], ◌∷◌}
use site_proof.Inspections.Inspection.{Inspection, cancelled, is_cancelled}
use site_proof.Inspections.Service.{Office, admin}
use site_proof.Inspections.Lifecycle.{Call, assigns, handle, handle_cancelled}

abbrev inspection : Inspection
inspection = record {
  id = 7;
  organization_id = 5;
  status = cancelled;
  expected_latitude = "26.9";
  expected_longitude = "75.8";
  allowed_radius_meters = 100;
  capture_duration_seconds = 20;
  deadline = 5_000_000_000;
  cancelled_at = some 10;
}

abbrev office : Office
office = record { inspection = some inspection; assignments = [] }

abbrev again : Call
again =
    assigns (record { organization_id = 5; role = admin; inspector_id = none }) 2
      (record { id = 9; active = true; user_is_active = true } ∷ []) 9

is_closed : is_cancelled inspection.status ≡ true
unfolding is_cancelled
is_closed = refl

handle_cancelled_example : (handle again office).1 ≡ office
handle_cancelled_example = handle_cancelled again office inspection refl is_closed
