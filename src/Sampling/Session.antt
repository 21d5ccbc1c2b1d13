-- ===== src/Sampling/Session.antt =====
-- domain/sampling/session.go: the recording session. A receiver is never nil here. The maps are
-- association lists whose first entry of a key counts. What `NewUUID` returns is an argument, with
-- `none` for an error, since it reads the entropy source and the clock. An operation returns the
-- session as it leaves it, also where it fails, and `none` is a run-time panic.
pub mod Record
pub mod Invariant
pub mod Effect
pub mod History
use healix_core.Prelude.{
  Text, ℕ, zero, suc, ◌+◌, Bool, true, false, not, List, [], ◌∷◌, ◌++◌, Option, none, some, codes,
  text_eq, is_blank, is_empty, if◌then◌else◌, leb, ◌==◌, ◌||◌, length, take, get_elem?, Result, ok,
  err,
}
use healix_core.Fault.{Violation, field_required, field_invalid}

pub data Status : Type 0 where
  created recording paused ended interrupted : Status

pub data ActionKind : Type 0 where
  navigate click input select press validate : ActionKind
  other : Text → ActionKind

pub record ValidationSample : Type 0 where
  pub kind : Text
  pub expected : Text
  pub actual : Text
  pub attribute : Text
  pub supported_kinds : List Text
  pub sensitive : Bool

pub record ActionHints : Type 0 where
  pub optional : Bool
  pub intent : Text

-- `ElementTargetSpec` with the fields that the session writes; `B` is the rest.
pub record ElementTargetSpec (B : Type 0) : Type 0 where
  pub uuid : Text
  pub id : Text
  pub page_url : Text
  pub origin : Text
  pub body : B

pub record Capture (B : Type 0) : Type 0 where
  pub capture_id : Text
  pub node_uuid : Text
  pub identity_key : Text
  pub page_url : Text
  pub kind : ActionKind
  pub value : Text
  pub values : List Text
  pub hints : ActionHints
  pub spec : ElementTargetSpec B
  pub validation : Option ValidationSample

pub record CapturedNode (B : Type 0) : Type 0 where
  pub uuid : Text
  pub spec : ElementTargetSpec B

pub record RecordedAction : Type 0 where
  pub uuid : Text
  pub sequence : ℕ
  pub kind : ActionKind
  pub value : Text
  pub values : List Text
  pub hints : ActionHints
  pub page_url : Text
  pub node_uuid : Text
  pub element_target_id : Text
  pub validation : Option ValidationSample

pub record CaptureResult : Type 0 where
  pub session_id : Text
  pub capture_id : Text
  pub node_uuid : Text
  pub element_target_id : Text
  pub action_uuid : Text
  pub sequence : ℕ
  pub created : Bool

pub record Session (B : Type 0) : Type 0 where
  pub id : Text
  pub workflow_id : Text
  pub start_url : Text
  pub status : Status
  pub nodes : List (CapturedNode B)
  pub actions : List RecordedAction
  pub by_identity : List (Text × ℕ)
  pub by_uuid : List (Text × ℕ)
  pub by_capture_id : List (Text × CaptureResult)

pub data SessionError : Type 0 where
  internal_error session_state_invalid element_target_spec_invalid : SessionError
  session_input_invalid capture_invalid : List Violation → SessionError

pub data Rejection : Type 0 where
  control_chars not_absolute scheme host_missing userinfo : Rejection

unfoldable pub lookup : {A : Type 0} → Text → List (Text × A) → Option A
lookup key [] = none
lookup key ((k, a) ∷ rest) = if text_eq k key then some a else lookup key rest

-- `s.nodes[i].Spec = spec`
abbrev pub set_spec :
    {B : Type 0} → ℕ → ElementTargetSpec B → List (CapturedNode B) → List (CapturedNode B)
set_spec i spec [] = []
set_spec zero spec (n ∷ nodes) = record n { spec = spec } ∷ nodes
set_spec (suc i) spec (n ∷ nodes) = n ∷ set_spec i spec nodes

abbrev no_hints : ActionHints
no_hints = record { optional = false; intent = [] }

-- `strings.ReplaceAll(value, "-", "")`
unfoldable pub compact_uuid : Text → Text
compact_uuid [] = []
compact_uuid (b ∷ rest) = if b == b'-' then compact_uuid rest else b ∷ compact_uuid rest

abbrev pub start_url_violation : Rejection → Violation
start_url_violation host_missing = field_required (codes "startUrl")
start_url_violation _ = field_invalid (codes "startUrl")

abbrev pub is_created : Status → Bool
is_created Status.created = true
is_created _ = false

abbrev pub is_recording : Status → Bool
is_recording Status.recording = true
is_recording _ = false

abbrev pub is_paused : Status → Bool
is_paused Status.paused = true
is_paused _ = false

abbrev required_if : Bool → Text → List Violation
required_if true field = field_required field ∷ []
required_if false field = []

abbrev is_missing : {A : Type 0} → Option A → Bool
is_missing none = true
is_missing (some _) = false

-- The `switch` of `shapeViolations`.
unfoldable pub kind_violations : {B : Type 0} → Capture B → ActionKind → List Violation
kind_violations c ActionKind.validate =
    required_if (is_blank c.identity_key) (codes "identityKey")
    ++ required_if (is_missing c.validation) (codes "validation")
kind_violations c ActionKind.press = required_if (is_blank c.value) (codes "value")
kind_violations c ActionKind.navigate = field_invalid (codes "kind") ∷ []
kind_violations c (ActionKind.other _) = field_invalid (codes "kind") ∷ []
kind_violations c _ = required_if (is_blank c.identity_key) (codes "identityKey")

unfoldable pub shape_violations : {B : Type 0} → Capture B → List Violation
unfolding kind_violations
shape_violations c =
    required_if (is_blank c.capture_id) (codes "captureId") ++ kind_violations c c.kind

-- `weburl.Check`, `NewUUID`
unfoldable pub new_session :
    {B : Type 0}
    → (Text → Option Rejection)
    → Option Text
    → Text
    → Text
    → Result SessionError (Session B)
new_session check drawn workflow_id start_url =
    let blank = required_if (is_blank workflow_id) (codes "flowFragmentId") in
    if is_blank start_url
    then err (session_input_invalid (blank ++ field_required (codes "startUrl") ∷ []))
    else elim (check start_url) [
      | some rejection ↦ err (session_input_invalid (blank ++ start_url_violation rejection ∷ []))
      | none ↦ if is_blank workflow_id then err (session_input_invalid blank) else elim drawn [
        | none ↦ err internal_error
        | some session_id ↦ ok (record {
          id = session_id;
          workflow_id = workflow_id;
          start_url = start_url;
          status = Status.created;
          nodes = [];
          actions = [];
          by_identity = [];
          by_uuid = [];
          by_capture_id = [];
        })
      ]
    ]

module _ {B : Type 0} where
  unfoldable pub start : Option Text → Session B → Session B × Result SessionError (Unit {0})
  start drawn s = if not (is_created s.status) then (s, err session_state_invalid) else elim drawn [
    | none ↦ (s, err internal_error)
    | some action_id ↦ (
      record s {
        status = Status.recording;
        actions =
            s.actions
            ++ record {
              uuid = action_id;
              sequence = 1;
              kind = ActionKind.navigate;
              value = s.start_url;
              values = [];
              hints = no_hints;
              page_url = s.start_url;
              node_uuid = [];
              element_target_id = [];
              validation = none;
            }
              ∷ [];
      },
      ok tt,
    )
  ]

  unfoldable pub pause : Session B → Session B × Result SessionError (Unit {0})
  pause s =
      if not (is_recording s.status)
      then (s, err session_state_invalid)
      else (record s { status = Status.paused }, ok tt)

  unfoldable pub resume : Session B → Session B × Result SessionError (Unit {0})
  resume s =
      if not (is_paused s.status)
      then (s, err session_state_invalid)
      else (record s { status = Status.recording }, ok tt)

  unfoldable pub end : Session B → Session B × Result SessionError (Unit {0})
  end s =
      if is_recording s.status || is_paused s.status
      then (record s { status = Status.ended }, ok tt)
      else (s, err session_state_invalid)

  unfoldable pub interrupt : Session B → Session B
  interrupt s =
      if is_created s.status || is_recording s.status || is_paused s.status
      then record s { status = Status.interrupted }
      else s
