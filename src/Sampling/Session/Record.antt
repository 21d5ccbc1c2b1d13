-- ===== src/Sampling/Session/Record.antt =====
-- `Session.Record` (domain/sampling/session.go): a replay, a press, or an action on a node that is
-- found or made.
use healix_core.Prelude.{
  Text, ℕ, ◌+◌, Bool, true, false, not, [], ◌∷◌, ◌++◌, Option, none, some, codes, is_blank,
  is_empty, if◌then◌else◌, leb, ◌||◌, length, take, get_elem?, Result, ok, err,
}
use healix_core.Sampling.Session.{
  ActionKind, ElementTargetSpec, Capture, CapturedNode, RecordedAction, CaptureResult, Session,
  SessionError, internal_error, session_state_invalid, element_target_spec_invalid, capture_invalid,
  lookup, set_spec, compact_uuid, is_recording, shape_violations,
}

module _ {B : Type 0} where
  -- `byUUID[c.NodeUUID]`, or else `byIdentity[c.IdentityKey]`
  unfoldable pub find_node : Session B → Capture B → Option ℕ
  find_node s c = elim (lookup c.node_uuid s.by_uuid) [
    | some i ↦ some i
    | none ↦ lookup c.identity_key s.by_identity
  ]

-- `url.Parse` gives the scheme and the host; `valid` is `Spec.Validate`.
module _ {B : Type 0} (parse : Text → Option (Text × Text))
    (valid : ElementTargetSpec B → Bool) where
  unfoldable pub origin_of : Text → Text
  origin_of value = elim (parse value) [
    | none ↦ []
    | some (scheme, host) ↦
        if is_empty scheme || is_empty host then [] else scheme ++ codes "://" ++ host
  ]

  -- The specification of the capture, with its page and its identity.
  abbrev pub placed_spec : Capture B → Text → Text → ElementTargetSpec B
  placed_spec c uuid id = record c.spec {
    uuid = uuid;
    id = id;
    page_url = c.page_url;
    origin = origin_of c.page_url;
  }

  -- A node that the session has not seen.
  unfoldable pub create_node :
      Option Text → Session B → Capture B → Option (Session B × Result SessionError (ℕ × Bool))
  create_node drawn s c = elim drawn [
    | none ↦ some (s, err internal_error)
    | some uuid ↦
        if leb 12 (length (compact_uuid uuid))
        then (let spec = placed_spec c uuid (codes "node-" ++ take 12 (compact_uuid uuid)) in
            if valid spec
            then some (
              record s {
                nodes = s.nodes ++ record { uuid = uuid; spec = spec } ∷ [];
                by_identity = (c.identity_key, length s.nodes) ∷ s.by_identity;
                by_uuid = (uuid, length s.nodes) ∷ s.by_uuid;
              },
              ok (length s.nodes, true),
            )
            else some (s, err element_target_spec_invalid))
        else none
  ]

  -- A node that it has seen: the identity is bound before the specification is checked.
  unfoldable pub update_node :
      ℕ → Session B → Capture B → Option (Session B × Result SessionError (ℕ × Bool))
  update_node i s c = elim (get_elem? s.nodes i) [
    | none ↦ none
    | some current ↦
        let bound = record s { by_identity = (c.identity_key, i) ∷ s.by_identity } in
        let spec = placed_spec c current.uuid current.spec.id in
        if valid spec
        then some (record bound { nodes = set_spec i spec s.nodes }, ok (i, false))
        else some (bound, err element_target_spec_invalid)
  ]

  unfoldable pub target_node :
      Option Text → Session B → Capture B → Option (Session B × Result SessionError (ℕ × Bool))
  unfolding find_node create_node update_node
  target_node drawn s c = elim (find_node s c) [
    | none ↦ create_node drawn s c
    | some i ↦ update_node i s c
  ]

  abbrev pub capture_result : Session B → Capture B → RecordedAction → Bool → CaptureResult
  capture_result s c action created = record {
    session_id = s.id;
    capture_id = c.capture_id;
    node_uuid = action.node_uuid;
    element_target_id = action.element_target_id;
    action_uuid = action.uuid;
    sequence = action.sequence;
    created = created;
  }

  -- The action and the result of a capture, which are written together.
  abbrev pub append_action :
      Session B → Capture B → RecordedAction → Bool → Session B × Result SessionError CaptureResult
  append_action s c action created = (
    record s {
      actions = s.actions ++ action ∷ [];
      by_capture_id = (c.capture_id, capture_result s c action created) ∷ s.by_capture_id;
    },
    ok (capture_result s c action created),
  )

  abbrev pub press_action : Session B → Capture B → Text → RecordedAction
  press_action s c uuid = record {
    uuid = uuid;
    sequence = length s.actions + 1;
    kind = c.kind;
    value = c.value;
    values = [];
    hints = c.hints;
    page_url = c.page_url;
    node_uuid = [];
    element_target_id = [];
    validation = none;
  }

  unfoldable pub record_press :
      Option Text → Session B → Capture B → Session B × Result SessionError CaptureResult
  record_press drawn s c = elim drawn [
    | none ↦ (s, err internal_error)
    | some uuid ↦ append_action s c (press_action s c uuid) false
  ]

  abbrev pub node_action : Session B → Capture B → Text → CapturedNode B → RecordedAction
  node_action s c uuid node = record {
    uuid = uuid;
    sequence = length s.actions + 1;
    kind = c.kind;
    value = c.value;
    values = c.values;
    hints = c.hints;
    page_url = c.page_url;
    node_uuid = node.uuid;
    element_target_id = node.spec.id;
    validation = c.validation;
  }

  -- The action on the node at `i`.
  unfoldable pub record_on :
      Option Text
      → Session B
      → Capture B
      → ℕ
      → Bool
      → Option (Session B × Result SessionError CaptureResult)
  record_on drawn s c i created = elim drawn [
    | none ↦ some (s, err internal_error)
    | some uuid ↦ elim (get_elem? s.nodes i) [
      | none ↦ none
      | some node ↦ some (append_action s c (node_action s c uuid node) created)
    ]
  ]

  abbrev pub is_press : ActionKind → Bool
  is_press ActionKind.press = true
  is_press _ = false

  -- `Record` behind its checks. A press has one call of `NewUUID`.
  unfoldable pub write_capture :
      Option Text
      → Option Text
      → Session B
      → Capture B
      → Option (Session B × Result SessionError CaptureResult)
  unfolding target_node record_on record_press
  write_capture node_drawn action_drawn s c =
      if is_press c.kind
      then some (record_press action_drawn s c)
      else elim (target_node node_drawn s c) [
        | none ↦ none
        | some (s', err e) ↦ some (s', err e)
        | some (s', ok (i, created)) ↦ record_on action_drawn s' c i created
      ]

  -- The result of an earlier call with the same identity.
  abbrev pub replayed : Session B → Capture B → Option CaptureResult
  replayed s c = if is_blank c.capture_id then none else lookup c.capture_id s.by_capture_id

  unfoldable pub record_capture :
      Option Text
      → Option Text
      → Session B
      → Capture B
      → Option (Session B × Result SessionError CaptureResult)
  unfolding write_capture shape_violations
  record_capture node_drawn action_drawn s c =
      if not (is_recording s.status)
      then some (s, err session_state_invalid)
      else elim (replayed s c) [
        | some previous ↦ some (s, ok previous)
        | none ↦ elim (shape_violations c) [
          | [] ↦ write_capture node_drawn action_drawn s c
          | v ∷ rest ↦ some (s, err (capture_invalid (v ∷ rest)))
        ]
      ]
