-- ===== src/Sampling/Session/Invariant.antt =====
-- What a recording session (domain/sampling/session.go) keeps: numbered actions, and maps that
-- refer to what is there, so that no index is out of range.
use healix_core.Prelude.{
  List-cases, Text, ℕ, zero, suc, ◌+◌, ◌≤◌, ◌<◌, ◌≡◌, refl, ap, sym, subst, ◌⊎◌, inl, inr, Bool,
  true, false, List, [], ◌∷◌, ◌++◌, Option, none, some, All, length, get_elem?, leb, text_eq,
  Result, ok, err, arith, ◌∙◌, length-append, Bool-cases, Option-cases, le→leb, codes, take,
}
use healix_core.Sampling.Session.{
  ActionKind, ElementTargetSpec, Capture, CapturedNode, RecordedAction, CaptureResult, Session,
  SessionError, Status, internal_error, session_state_invalid, capture_invalid,
  element_target_spec_invalid, lookup, set_spec, compact_uuid, is_created, is_recording,
  shape_violations, start,
}
use healix_core.Sampling.Session.Record.{
  find_node, create_node, update_node, target_node, append_action, node_action, record_press,
  record_on, is_press, write_capture, replayed, record_capture, placed_spec,
}

-- The sequence numbers count on from `n`.
abbrev pub Numbered : ℕ → List RecordedAction → Type 0
Numbered n [] = Unit {0}
Numbered n (a ∷ actions) = (a.sequence ≡ n) × Numbered (suc n) actions

-- The result tells of an action that is there.
abbrev pub Refers : List RecordedAction → CaptureResult → Type 0
Refers actions r =
    (i : ℕ) × (a : RecordedAction) × (get_elem? actions i ≡ some a)
    × (r.sequence ≡ suc i)
    × (r.action_uuid ≡ a.uuid)
    × (r.node_uuid ≡ a.node_uuid)

abbrev pub InRange : ℕ → List (Text × ℕ) → Type 0
InRange n entries = All (λ e. e.1 < n) entries

abbrev pub WellFormed : {B : Type 0} → Session B → Type 0
WellFormed s =
    Numbered 1 s.actions
    × InRange (length s.nodes) s.by_identity
    × InRange (length s.nodes) s.by_uuid
    × All (λ e. Refers s.actions e.1) s.by_capture_id
    × ((is_created s.status ≡ false) ⊎ (s.actions ≡ []))

Numbered-append :
    (n : ℕ) (actions : List RecordedAction) (a : RecordedAction)
    → Numbered n actions
    → a.sequence ≡ length actions + n
    → Numbered n (actions ++ a ∷ [])
Numbered-append n [] a h e = (omega (arith, e), tt)
Numbered-append n (b ∷ actions) a (h, k) e =
    (h, Numbered-append (suc n) actions a k (omega (arith, e)))

All-weaken {ℓ} :
    {A : Type ℓ} (P Q : A → Type 0) (xs : List A) → ((a : A) → P a → Q a) → All P xs → All Q xs
All-weaken P Q [] f h = tt
All-weaken P Q (x ∷ xs) f (h, k) = (f x h, All-weaken P Q xs f k)

lookup-All :
    {A : Type 0} (P : A → Type 0) (key : Text) (m : List (Text × A)) (a : A)
    → All (λ e. P e.1) m
    → lookup key m ≡ some a
    → P a
unfolding lookup
lookup-All P key [] a h e = cc
lookup-All P key ((k, b) ∷ m) a (h, t) e = elim (Bool-cases (text_eq k key)) [
  | inl q ↦ let r : ◌≡◌ {A = Option _} (some b) (some a) = rw (q, lookup) at e in subst P (cc) h
  | inr q ↦ lookup-All P key m a t (rw (q, lookup) at e)
]

get_elem?-append {ℓ} :
    {A : Type ℓ} (xs ys : List A) (i : ℕ) {a : A}
    → get_elem? xs i ≡ some a
    → get_elem? (xs ++ ys) i ≡ some a
get_elem?-append [] ys i h = cc
get_elem?-append (x ∷ xs) ys zero h = h
get_elem?-append (x ∷ xs) ys (suc i) h = get_elem?-append xs ys i h

get_elem?-length {ℓ} :
    {A : Type ℓ} (xs : List A) (a : A) → get_elem? (xs ++ a ∷ []) (length xs) ≡ some a
get_elem?-length [] a = refl
get_elem?-length (x ∷ xs) a = get_elem?-length xs a

get_elem?_below {ℓ} :
    {A : Type ℓ} (xs : List A) (i : ℕ) → i < length xs → (a : A) × (get_elem? xs i ≡ some a)
get_elem?_below [] i h = absurd (omega arith)
get_elem?_below (x ∷ xs) zero h = (x, refl)
get_elem?_below (x ∷ xs) (suc i) h = get_elem?_below xs i (omega arith)

length-set_spec :
    {B : Type 0} (i : ℕ) (spec : ElementTargetSpec B) (nodes : List (CapturedNode B))
    → length (set_spec i spec nodes) ≡ length nodes
length-set_spec i spec [] = refl
length-set_spec zero spec (n ∷ nodes) = refl
length-set_spec (suc i) spec (n ∷ nodes) = ap suc (length-set_spec i spec nodes)

InRange-weaken : (n k : ℕ) (m : List (Text × ℕ)) → n ≤ k → InRange n m → InRange k m
InRange-weaken n k m h = All-weaken (λ e. e.1 < n) (λ e. e.1 < k) m (λ e l. omega (arith, l))

Refers-append :
    (actions : List RecordedAction) (a : RecordedAction) (r : CaptureResult)
    → Refers actions r
    → Refers (actions ++ a ∷ []) r
Refers-append actions a r (i, b, e, q, u, n) =
    (i, b, get_elem?-append actions (a ∷ []) i e, q, u, n)

-- A session whose status alone may differ, and not back to the first one.
abbrev pub Moved : {B : Type 0} → Session B → Session B → Type 0
Moved s t = (t ≡ s) ⊎ ((x : Status) × (is_created x ≡ false) × (t ≡ record s { status = x }))

pub Moved-WellFormed : {B : Type 0} (s t : Session B) → WellFormed s → Moved s t → WellFormed t
Moved-WellFormed s t w (inl e) = subst WellFormed (sym e) w
Moved-WellFormed s t (n, i, u, p, z) (inr (x, e, q)) = subst WellFormed (sym q) (n, i, u, p, inl e)

first_action : {B : Type 0} → Session B → Text → RecordedAction
first_action s u = record {
  uuid = u;
  sequence = 1;
  kind = ActionKind.navigate;
  value = s.start_url;
  values = [];
  hints = record { optional = false; intent = [] };
  page_url = s.start_url;
  node_uuid = [];
  element_target_id = [];
  validation = none;
}

unstarted :
    {B : Type 0} (s : Session B)
    → (is_created s.status ≡ false) ⊎ (s.actions ≡ [])
    → is_created s.status ≡ true
    → length s.actions ≡ 0
unstarted s (inl h) e = let o : true ≡ false = sym e ∙ h in cc o
unstarted s (inr h) e = ap length h

pub start-WellFormed :
    {B : Type 0} (drawn : Option Text) (s : Session B) → WellFormed s → WellFormed (start drawn s).0
unfolding start first_action
start-WellFormed none s (n, i, u, p, z) = elim (Bool-cases (is_created s.status)) [
  | inr e ↦ rw e (n, i, u, p, z)
  | inl e ↦ rw e (n, i, u, p, z)
]
start-WellFormed (some t) s (n, i, u, p, z) = elim (Bool-cases (is_created s.status)) [
  | inr e ↦ rw e (n, i, u, p, z)
  | inl e ↦ rw e (
    Numbered-append 1 s.actions (first_action s t) n (omega (arith, unstarted s z e)),
    i,
    u,
    All-weaken (λ x. Refers s.actions x.1) (λ x. Refers (s.actions ++ first_action s t ∷ []) x.1)
        s.by_capture_id (λ x h. Refers-append s.actions (first_action s t) x.1 h) p,
    inl refl,
  )
]

module _ {B : Type 0} (parse : Text → Option (Text × Text))
    (valid : ElementTargetSpec B → Bool) where
  -- What the node part of `Record` leaves as it is, and what it gives.
  abbrev Targets : Session B → Session B → Result SessionError (ℕ × Bool) → Type 0
  Targets s s' r =
      WellFormed s'
      × (s'.actions ≡ s.actions)
      × (s'.by_capture_id ≡ s.by_capture_id)
      × (s'.status ≡ s.status)
      × ((i : ℕ) (b : Bool) → r ≡ ok (i, b) → i < length s'.nodes)

  -- `NewUUID` gives texts that have a prefix of twelve characters besides the dashes.
  abbrev pub Usable : Option Text → Type 0
  Usable drawn = (u : Text) → drawn ≡ some u → 12 ≤ length (compact_uuid u)

  append_action-WellFormed :
      (s : Session B) (c : Capture B) (a : RecordedAction) (b : Bool)
      → WellFormed s
      → is_created s.status ≡ false
      → a.sequence ≡ length s.actions + 1
      → WellFormed (append_action parse valid s c a b).0
  append_action-WellFormed s c a b (n, i, u, p, z) q e = (
    Numbered-append 1 s.actions a n e,
    i,
    u,
    (
      (length s.actions, a, get_elem?-length s.actions a, omega (arith, e), refl, refl),
      All-weaken (λ x. Refers s.actions x.1) (λ x. Refers (s.actions ++ a ∷ []) x.1) s.by_capture_id
          (λ x h. Refers-append s.actions a x.1 h) p,
    ),
    inl q,
  )

  refused-Targets : (s : Session B) (e : SessionError) → WellFormed s → Targets s s (err e)
  refused-Targets s e w = (w, refl, refl, refl, λ i b q. cc q)

  abbrev node_spec : Capture B → Text → ElementTargetSpec B
  node_spec c u = placed_spec parse valid c u (codes "node-" ++ take 12 (compact_uuid u))

  create_node-Targets :
      (drawn : Option Text) (s : Session B) (c : Capture B)
      → WellFormed s
      → Usable drawn
      → (s' : Session B) × (r : Result SessionError (ℕ × Bool)) × (create_node parse valid drawn s c
          ≡ some (s', r))
        × Targets s s' r
  unfolding create_node
  create_node-Targets none s c w h =
      (s, err internal_error, refl, refused-Targets s internal_error w)
  create_node-Targets (some u) s c (n, i, v, p, z) h = elim (Bool-cases (valid (node_spec c u))) [
    | inl e ↦ (
      record s {
        nodes = s.nodes ++ record { uuid = u; spec = node_spec c u } ∷ [];
        by_identity = (c.identity_key, length s.nodes) ∷ s.by_identity;
        by_uuid = (u, length s.nodes) ∷ s.by_uuid;
      },
      ok (length s.nodes, true),
      rw (room, e),
      (
        (
          n,
          (last, InRange-weaken (length s.nodes) _ s.by_identity (omega (arith, last)) i),
          (last, InRange-weaken (length s.nodes) _ s.by_uuid (omega (arith, last)) v),
          p,
          z,
        ),
        refl,
        refl,
        refl,
        λ j b q.
            subst (λ k. k < length (s.nodes ++ record { uuid = u; spec = node_spec c u } ∷ []))
              (cc q) last,
      ),
    )
    | inr e ↦ (
      s,
      err element_target_spec_invalid,
      rw (room, e),
      refused-Targets s element_target_spec_invalid (n, i, v, p, z),
    )
  ]
    where
      room : leb 12 (length (compact_uuid u)) ≡ true
      room = le→leb 12 (length (compact_uuid u)) (h u refl)

      last : length s.nodes < length (s.nodes ++ record { uuid = u; spec = node_spec c u } ∷ [])
      last = omega (arith, length-append s.nodes (record { uuid = u; spec = node_spec c u } ∷ []))

  update_node-Targets :
      (i : ℕ) (s : Session B) (c : Capture B)
      → WellFormed s
      → i < length s.nodes
      → (s' : Session B) × (r : Result SessionError (ℕ × Bool)) × (update_node parse valid i s c
          ≡ some (s', r))
        × Targets s s' r
  unfolding update_node
  update_node-Targets i s c (n, d, v, p, z) h =
      let (current, g) = get_elem?_below s.nodes i h in
      let spec = placed_spec parse valid c current.uuid current.spec.id in
      let same = length-set_spec i spec s.nodes in
      elim (Bool-cases (valid spec)) [
        | inl e ↦ (
          record s {
            by_identity = (c.identity_key, i) ∷ s.by_identity;
            nodes = set_spec i spec s.nodes;
          },
          ok (i, false),
          rw (g, update_node) (rw e),
          (
            (
              n,
              (
                omega (arith, same),
                InRange-weaken (length s.nodes) _ s.by_identity (omega (arith, same)) d,
              ),
              InRange-weaken (length s.nodes) _ s.by_uuid (omega (arith, same)) v,
              p,
              z,
            ),
            refl,
            refl,
            refl,
            λ j b q. below i j (length s.nodes) same (cc q) h,
          ),
        )
        | inr e ↦ (
          record s { by_identity = (c.identity_key, i) ∷ s.by_identity },
          err element_target_spec_invalid,
          rw (g, update_node) (rw e),
          ((n, (h, d), v, p, z), refl, refl, refl, λ j b q. cc q),
        )
      ]
    where
      below : (a b n : ℕ) {k : ℕ} → k ≡ n → a ≡ b → a < n → b < k
      below a b n e d l = omega arith

  find_node-below :
      (s : Session B) (c : Capture B) (i : ℕ)
      → WellFormed s
      → find_node s c ≡ some i
      → i < length s.nodes
  unfolding find_node
  find_node-below s c i (n, d, v, p, z) h = elim (Option-cases (lookup c.node_uuid s.by_uuid)) [
    | inl e ↦
        lookup-All (λ k. k < length s.nodes) c.identity_key s.by_identity i d
          (rw (e, find_node) at h)
    | inr (j, e) ↦
        let q : ◌≡◌ {A = Option ℕ} (some j) (some i) = rw (e, find_node) at h in
        subst (λ k. k < length s.nodes) (cc q)
          (lookup-All (λ k. k < length s.nodes) c.node_uuid s.by_uuid j v e)
  ]

  target_node-Targets :
      (drawn : Option Text) (s : Session B) (c : Capture B)
      → WellFormed s
      → Usable drawn
      → (s' : Session B) × (r : Result SessionError (ℕ × Bool)) × (target_node parse valid drawn s c
          ≡ some (s', r))
        × Targets s s' r
  unfolding target_node
  target_node-Targets drawn s c w h = elim (Option-cases (find_node s c)) [
    | inl e ↦
        let (s', r, q, t) = create_node-Targets drawn s c w h in (s', r, rw (e, target_node) q, t)
    | inr (i, e) ↦
        let (s', r, q, t) = update_node-Targets i s c w (find_node-below s c i w e) in
        (s', r, rw (e, target_node) q, t)
  ]

  abbrev Returns : Option (Session B × Result SessionError CaptureResult) → Type 0
  Returns o =
      (s' : Session B) × (r : Result SessionError CaptureResult) × (o ≡ some (s', r))
      × WellFormed s'

  record_press-Returns :
      (drawn : Option Text) (s : Session B) (c : Capture B)
      → WellFormed s
      → is_created s.status ≡ false
      → WellFormed (record_press parse valid drawn s c).0
  unfolding record_press
  record_press-Returns none s c w q = w
  record_press-Returns (some u) s c w q = append_action-WellFormed s c _ false w q refl

  record_on-Returns :
      (drawn : Option Text) (s : Session B) (c : Capture B) (i : ℕ) (b : Bool)
      → WellFormed s
      → is_created s.status ≡ false
      → i < length s.nodes
      → Returns (record_on parse valid drawn s c i b)
  unfolding record_on
  record_on-Returns none s c i b w q l = (s, err internal_error, refl, w)
  record_on-Returns (some u) s c i b w q l =
      let (node, g) = get_elem?_below s.nodes i l in
      let after = append_action parse valid s c (node_action parse valid s c u node) b in
      (
        after.0,
        after.1,
        rw (g, record_on),
        append_action-WellFormed s c (node_action parse valid s c u node) b w q refl,
      )

  write_capture-Returns :
      (node_drawn action_drawn : Option Text) (s : Session B) (c : Capture B)
      → WellFormed s
      → is_created s.status ≡ false
      → Usable node_drawn
      → Returns (write_capture parse valid node_drawn action_drawn s c)
  unfolding write_capture
  write_capture-Returns node_drawn action_drawn s c w q h =
      elim (Bool-cases (is_press parse valid c.kind)) [
        | inl e ↦ (
          (record_press parse valid action_drawn s c).0,
          (record_press parse valid action_drawn s c).1,
          rw (e, write_capture),
          record_press-Returns action_drawn s c w q,
        )
        | inr e ↦
            let (s', r, x, (w', a, b, t, l)) = target_node-Targets node_drawn s c w h in
            targeted s' r x w' (ap is_created t ∙ q) l e
      ]
    where
      targeted :
          (s' : Session B) (r : Result SessionError (ℕ × Bool))
          → target_node parse valid node_drawn s c ≡ some (s', r)
          → WellFormed s'
          → is_created s'.status ≡ false
          → ((i : ℕ) (b : Bool) → r ≡ ok (i, b) → i < length s'.nodes)
          → is_press parse valid c.kind ≡ false
          → Returns (write_capture parse valid node_drawn action_drawn s c)
      targeted s' (err x) y w' q' l e = (s', err x, rw (e, write_capture) (rw y), w')
      targeted s' (ok (i, b)) y w' q' l e =
          let (s'', r, z, w'') = record_on-Returns action_drawn s' c i b w' q' (l i b refl) in
          (s'', r, rw (e, write_capture) (rw y z), w'')

  -- On a well-formed session `Record` does not panic, whatever the capture, and leaves a
  -- well-formed session, also where it fails.
  pub record_capture-WellFormed :
      (node_drawn action_drawn : Option Text) (s : Session B) (c : Capture B)
      → WellFormed s
      → Usable node_drawn
      → Returns (record_capture parse valid node_drawn action_drawn s c)
  unfolding record_capture
  record_capture-WellFormed node_drawn action_drawn s c w h =
      elim (Bool-cases (is_recording s.status)) [
        | inr e ↦ (s, err session_state_invalid, rw (e, record_capture), w)
        | inl e ↦ elim (Option-cases (replayed parse valid s c)) [
          | inr (previous, p) ↦ (s, ok previous, rw (e, record_capture) (rw p), w)
          | inl n ↦ elim (List-cases (shape_violations c)) [
            | inl v ↦
                let (s', r, q, w') =
                  write_capture-Returns node_drawn action_drawn s c w (recording_started s.status e)
                    h in
                (s', r, rw (e, record_capture) (rw n (rw v q)), w')
            | inr (x, rest, v) ↦
                (s, err (capture_invalid (x ∷ rest)), rw (e, record_capture) (rw n (rw v)), w)
          ]
        ]
      ]
    where
      recording_started : (t : Status) → is_recording t ≡ true → is_created t ≡ false
      recording_started t h = ground arith
