-- ===== src/Examples/Sampling.antt =====
-- A recording with one key press and its replay (domain/sampling/session.go).
use healix_core.Prelude.{
  Text, ℕ, ◌≤◌, ◌≡◌, refl, subst, Bool, true, false, [], Option, none, some, codes, length,
  is_blank, Result, ok, arith,
}
use healix_core.Sampling.Session.{
  ActionKind, ElementTargetSpec, Capture, CaptureResult, Session, SessionError, lookup,
  compact_uuid, kind_violations, shape_violations, new_session, start, Status, is_recording,
}
use healix_core.Sampling.Session.Record.{write_capture, record_press, record_capture}
use healix_core.Sampling.Session.Invariant.{WellFormed, Usable}
use healix_core.Sampling.Session.History.{
  begin, next, starts, Extends, new_session-Runs, record_capture-replays,
}

abbrev no_url : Text → Option (Text × Text)
no_url _ = none

abbrev accepts : ElementTargetSpec ℕ → Bool
accepts _ = true

abbrev uuid : Text
uuid = codes "0190a7c0-1111-7abc-8def-0123456789ab"

abbrev fresh_session : Session ℕ
fresh_session = record {
  id = uuid;
  workflow_id = codes "flow";
  start_url = codes "https://x.test";
  status = Status.created;
  nodes = [];
  actions = [];
  by_identity = [];
  by_uuid = [];
  by_capture_id = [];
}

abbrev started_session : Session ℕ
started_session = (start (some uuid) fresh_session).0

abbrev key_press : Text → Capture ℕ
key_press value = record {
  capture_id = codes "k1";
  node_uuid = [];
  identity_key = [];
  page_url = codes "https://x.test";
  kind = ActionKind.press;
  value = value;
  values = [];
  hints = record { optional = false; intent = [] };
  spec = record { uuid = []; id = []; page_url = []; origin = []; body = 0 };
  validation = none;
}

abbrev pressed_result : CaptureResult
pressed_result = record {
  session_id = uuid;
  capture_id = codes "k1";
  node_uuid = [];
  element_target_id = [];
  action_uuid = uuid;
  sequence = 2;
  created = false;
}

opens :
    new_session (λ _. none) (some uuid) (codes "flow") (codes "https://x.test") ≡ ok fresh_session
unfolding new_session is_blank
opens = refl

abbrev pressed_session : Session ℕ
pressed_session =
    (record_press no_url accepts (some uuid) started_session (key_press (codes "Enter"))).0

presses :
    record_capture no_url accepts none (some uuid) started_session (key_press (codes "Enter"))
    ≡ some (pressed_session, ok pressed_result)
unfolding record_capture write_capture record_press start lookup shape_violations kind_violations
    is_blank
presses = refl

usable : Usable no_url accepts (some uuid)
unfolding compact_uuid
usable u e = let q : uuid ≡ u = cc e in subst (λ v. 12 ≤ length (compact_uuid v)) q (omega arith)

new_session-Runs_example :
    WellFormed started_session
    × Extends no_url accepts started_session started_session
    × ((p : Session ℕ × Result SessionError CaptureResult) × (record_capture no_url accepts
            (some uuid)
            (some uuid)
            started_session
            (key_press (codes "Enter"))
          ≡ some p))
new_session-Runs_example =
    new_session-Runs no_url accepts (λ _. none) (some uuid) (codes "flow") (codes "https://x.test")
      fresh_session started_session started_session (some uuid) (some uuid)
      (key_press (codes "Enter")) opens (next begin (starts (some uuid))) begin usable

still_recording : is_recording pressed_session.status ≡ true
unfolding record_press start
still_recording = refl

record_capture-replays_example :
    record_capture no_url accepts none none pressed_session (key_press (codes "Tab"))
    ≡ some (pressed_session, ok pressed_result)
record_capture-replays_example =
    record_capture-replays no_url accepts none (some uuid) none none started_session pressed_session
      pressed_session (key_press (codes "Enter")) (key_press (codes "Tab")) pressed_result presses
      begin still_recording refl
