-- ===== src/Trust/Domain.antt =====
-- The data of the trust engine: backend/app/models/trust.py and
-- backend/app/services/verification/domain.py. `F` is the type of the floats.
use site_proof.Prelude.{
  ℕ, String, Bool, true, false, not, ◌&&◌, Option, none, some, List, [], ◌∷◌, ◌==◌, if◌then◌else◌,
}
use site_proof.Prelude.Float.{Float, ◌<=◌, whole}

pub data SignalType : Type 0 where
  location session_time challenge_completion sensor_quality : SignalType
  visual_motion scene_continuity visual_inertial_consistency : SignalType

pub data SignalStatus : Type 0 where
  pass partial fail inconclusive unavailable : SignalStatus

pub data Verdict : Type 0 where
  verified review_required flagged inconclusive : Verdict

-- The enumeration's values.
abbrev pub type_value : SignalType → String
type_value location = "LOCATION"
type_value session_time = "SESSION_TIME"
type_value challenge_completion = "CHALLENGE_COMPLETION"
type_value sensor_quality = "SENSOR_QUALITY"
type_value visual_motion = "VISUAL_MOTION"
type_value scene_continuity = "SCENE_CONTINUITY"
type_value visual_inertial_consistency = "VISUAL_INERTIAL_CONSISTENCY"

-- `list(VerificationSignalType)`, and the same sorted by value.
abbrev pub all_types : List SignalType
all_types =
    location ∷ session_time ∷ challenge_completion ∷ sensor_quality ∷ visual_motion
    ∷ scene_continuity ∷ visual_inertial_consistency ∷ []

abbrev pub sorted_types : List SignalType
sorted_types =
    challenge_completion ∷ location ∷ scene_continuity ∷ sensor_quality ∷ session_time
    ∷ visual_inertial_consistency ∷ visual_motion ∷ []

abbrev pub index : SignalType → ℕ
index location = 0
index session_time = 1
index challenge_completion = 2
index sensor_quality = 3
index visual_motion = 4
index scene_continuity = 5
index visual_inertial_consistency = 6

abbrev pub same_type : SignalType → SignalType → Bool
same_type a b = index a == index b

abbrev pub is_pass : SignalStatus → Bool
is_pass pass = true
is_pass _ = false

abbrev pub is_fail : SignalStatus → Bool
is_fail fail = true
is_fail _ = false

abbrev pub is_unavailable : SignalStatus → Bool
is_unavailable unavailable = true
is_unavailable _ = false

abbrev pub is_verified : Verdict → Bool
is_verified verified = true
is_verified _ = false

abbrev pub is_flagged : Verdict → Bool
is_flagged flagged = true
is_flagged _ = false

-- The entries of `metrics` that the rules read, as they read them: a missing count is 0, a missing
-- flag is false.
pub record Metrics : Type 0 where
  pub mismatch_reasons : List String
  pub strong_contradiction_count : ℕ
  pub consistency_status : Option String
  pub clearly_outside : Bool
  pub high_confidence_failures : ℕ
  pub major_discontinuity : Bool

pub record Signal (F : Type 0) : Type 0 where
  pub type : SignalType
  pub status : SignalStatus
  pub score : F
  pub confidence : F
  pub available : Bool
  pub required : Bool
  pub reasons : List String
  pub metrics : Metrics
  pub source_algorithm_version : Option String

pub record PolicyDefinition (F : Type 0) : Type 0 where
  pub name : String
  pub version : String
  pub verified_threshold : F
  pub review_threshold : F
  pub minimum_required_confidence : F
  pub weights : SignalType → F
  pub required_signals : SignalType → Bool
  pub hard_rules : String → Bool

pub record HardRuleResult : Type 0 where
  pub code : String
  pub maximum_verdict : Verdict
  pub explanation : String

pub record ScoreBreakdown (F : Type 0) : Type 0 where
  pub raw_score : F
  pub overall_confidence : F
  pub contributions : List (SignalType × F)
  pub available_weight : F

pub record EngineDecision (F : Type 0) : Type 0 where
  pub score : F
  pub confidence : F
  pub verdict : Verdict
  pub hard_rules : List HardRuleResult
  pub summary_reasons : List String
  pub warnings : List String

-- `VerificationSignal.__post_init__`: `none` is the ValueError.
module _ {F : Type 0} ⦃f : Float F⦄ where
  unfoldable pub make_signal : Signal F → Option (Signal F)
  make_signal s =
      if not (whole 0 <= s.score && s.score <= whole 1)
      then none
      else if not (whole 0 <= s.confidence && s.confidence <= whole 1)
      then none
      else some s
