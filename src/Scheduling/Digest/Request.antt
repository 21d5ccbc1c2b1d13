-- ===== src/Scheduling/Digest/Request.antt =====
-- Requests with one digest: they are one request, or SHA-256 has met a collision.
use healix_core.Prelude.{
  Text, ℕ, ◌<◌, ◌^◌, ◌≡◌, refl, ◌≢◌, ◌⊎◌, inl, inr, ap, sym, if◌then◌else◌, ◌∙◌, Bool-cases, [],
  ◌∷◌, ◌++◌, length, All, arith, text_eq, text_eq_sound, text_eq_iff, pos, codes,
}
use healix_core.Execution.Snapshot.{WorkerFence}
use healix_core.Execution.Status.{InstanceStatus}
use healix_core.Scheduling.Command.{
  CancelInstanceCommand, AbortInstanceCommand, ReorderQueueCommand,
}
use healix_core.Scheduling.Digest.{
  write_digest_string, status_text, written, cancel_instance_request, abort_instance_request,
  reorder_queue_request, finish_digest, cancel_instance_request_digest,
  abort_instance_request_digest, reorder_queue_request_digest, cancel_instance_request_digest_v1,
  abort_instance_request_digest_v1, reorder_queue_request_digest_v1,
}
use healix_core.Scheduling.Digest.Frame.{
  append-split, to_nat, IsInt64, IsString, write_int64-split, write_digest_string-split,
  write_members-split,
}

-- The status that a text stands for.
abbrev pub status_of_text : Text → InstanceStatus
status_of_text text =
    if text_eq text (codes "QUEUED")
    then InstanceStatus.queued
    else if text_eq text (codes "RUNNING")
    then InstanceStatus.running
    else if text_eq text (codes "SUCCEEDED")
    then InstanceStatus.succeeded
    else if text_eq text (codes "FAILED")
    then InstanceStatus.failed
    else if text_eq text (codes "CANCELED")
    then InstanceStatus.canceled
    else if text_eq text (codes "ABORTED")
    then InstanceStatus.aborted
    else InstanceStatus.other text

-- A status as Go holds it: one of the constants, or a text that is none of theirs.
abbrev pub IsStatusInGo : InstanceStatus → Type 0
IsStatusInGo (InstanceStatus.other text) =
    IsString text × (status_of_text text ≡ InstanceStatus.other text)
IsStatusInGo _ = Unit {0}

-- The commands as Go holds them: texts whose length is an `int`, and `int64` numbers.
abbrev pub IsCancelInGo : CancelInstanceCommand → Type 0
IsCancelInGo c =
    IsString c.command_id
    × IsString c.instance_id
    × IsInt64 c.expected_revision
    × IsInt64 c.at
    × IsStatusInGo c.expected_status

abbrev pub IsAbortInGo : AbortInstanceCommand → Type 0
IsAbortInGo c =
    IsString c.command_id
    × IsString c.instance_id
    × IsInt64 c.expected_revision
    × IsInt64 c.at
    × IsString c.fence.instance_id
    × IsString c.fence.claim_token

abbrev pub IsReorderInGo : ReorderQueueCommand → Type 0
IsReorderInGo c =
    IsString c.command_id
    × IsString c.scope_id
    × IsInt64 c.expected_revision
    × (length c.instance_ids < 2 ^ 63)
    × All IsString c.instance_ids

status_text-IsString : (s : InstanceStatus) → IsStatusInGo s → IsString (status_text s)
unfolding status_text
status_text-IsString InstanceStatus.queued h = omega arith
status_text-IsString InstanceStatus.running h = omega arith
status_text-IsString InstanceStatus.succeeded h = omega arith
status_text-IsString InstanceStatus.failed h = omega arith
status_text-IsString InstanceStatus.canceled h = omega arith
status_text-IsString InstanceStatus.aborted h = omega arith
status_text-IsString (InstanceStatus.other text) h = h.0

status_of_text-status_text :
    (s : InstanceStatus) → IsStatusInGo s → status_of_text (status_text s) ≡ s
unfolding status_text text_eq
status_of_text-status_text InstanceStatus.queued h = refl
status_of_text-status_text InstanceStatus.running h = refl
status_of_text-status_text InstanceStatus.succeeded h = refl
status_of_text-status_text InstanceStatus.failed h = refl
status_of_text-status_text InstanceStatus.canceled h = refl
status_of_text-status_text InstanceStatus.aborted h = refl
status_of_text-status_text (InstanceStatus.other text) h = h.1

status_text_injective :
    (s t : InstanceStatus) → IsStatusInGo s → IsStatusInGo t → status_text s ≡ status_text t → s ≡ t
status_text_injective s t p q e =
    sym (status_of_text-status_text s p) ∙ ap status_of_text e ∙ status_of_text-status_text t q

cancel_instance_request_injective :
    (c d : CancelInstanceCommand)
    → IsCancelInGo c
    → IsCancelInGo d
    → cancel_instance_request c ≡ cancel_instance_request d
    → c ≡ d
unfolding cancel_instance_request written
cancel_instance_request_injective c d (c_id, c_run, c_rev, c_at, c_status)
      (d_id, d_run, d_rev, d_at, d_status) e =
    let (_, e1) =
      write_digest_string-split _ cancel_instance_request_digest_v1 (omega arith) (omega arith) e in
    let (id, e2) = write_digest_string-split c.command_id d.command_id c_id d_id e1 in
    let (run, e3) = write_digest_string-split c.instance_id d.instance_id c_run d_run e2 in
    let (status, e4) =
      write_digest_string-split (status_text c.expected_status) (status_text d.expected_status)
        (status_text-IsString c.expected_status c_status)
        (status_text-IsString d.expected_status d_status) e3 in
    let (rev, e5) = write_int64-split c.expected_revision d.expected_revision c_rev d_rev e4 in
    let (at, _) = write_int64-split c.at d.at c_at d_at e5 in
    λ i. record {
      command_id = id i;
      instance_id = run i;
      expected_status =
          status_text_injective c.expected_status d.expected_status c_status d_status status i;
      expected_revision = rev i;
      at = at i;
    }

fence_eq :
    {a b : WorkerFence} → a.instance_id ≡ b.instance_id → a.claim_token ≡ b.claim_token → a ≡ b
fence_eq p q = λ i. record { instance_id = p i; claim_token = q i }

abort_instance_request_injective :
    (c d : AbortInstanceCommand)
    → IsAbortInGo c
    → IsAbortInGo d
    → abort_instance_request c ≡ abort_instance_request d
    → c ≡ d
unfolding abort_instance_request written
abort_instance_request_injective c d (c_id, c_run, c_rev, c_at, c_of, c_token)
      (d_id, d_run, d_rev, d_at, d_of, d_token) e =
    let (_, e1) =
      write_digest_string-split _ abort_instance_request_digest_v1 (omega arith) (omega arith) e in
    let (id, e2) = write_digest_string-split c.command_id d.command_id c_id d_id e1 in
    let (run, e3) = write_digest_string-split c.instance_id d.instance_id c_run d_run e2 in
    let (rev, e4) = write_int64-split c.expected_revision d.expected_revision c_rev d_rev e3 in
    let (at, e5) = write_int64-split c.at d.at c_at d_at e4 in
    let (of, e6) = write_digest_string-split c.fence.instance_id d.fence.instance_id c_of d_of e5 in
    let (token, _) =
      write_digest_string-split c.fence.claim_token d.fence.claim_token c_token d_token e6 in
    λ i. record {
      command_id = id i;
      instance_id = run i;
      expected_revision = rev i;
      at = at i;
      fence = fence_eq {a = c.fence} {b = d.fence} of token i;
    }

reorder_queue_request_injective :
    (c d : ReorderQueueCommand)
    → IsReorderInGo c
    → IsReorderInGo d
    → reorder_queue_request c ≡ reorder_queue_request d
    → c ≡ d
unfolding reorder_queue_request written
reorder_queue_request_injective c d (c_id, c_scope, c_rev, c_count, c_ids)
      (d_id, d_scope, d_rev, d_count, d_ids) e =
    let (_, e1) =
      write_digest_string-split _ reorder_queue_request_digest_v1 (omega arith) (omega arith) e in
    let (id, e2) = write_digest_string-split c.command_id d.command_id c_id d_id e1 in
    let (scope, e3) = write_digest_string-split c.scope_id d.scope_id c_scope d_scope e2 in
    let (rev, e4) = write_int64-split c.expected_revision d.expected_revision c_rev d_rev e3 in
    let (count, e5) =
      write_int64-split (pos (length c.instance_ids)) (pos (length d.instance_ids)) c_count d_count
        e4 in
    let ids = write_members-split c.instance_ids d.instance_ids c_ids d_ids (ap to_nat count) e5 in
    λ i. record {
      command_id = id i;
      scope_id = scope i;
      expected_revision = rev i;
      instance_ids = ids i;
    }

-- A request of any of the three kinds.
pub data Request : Type 0 where
  cancel : CancelInstanceCommand → Request
  abort : AbortInstanceCommand → Request
  reorder : ReorderQueueCommand → Request

abbrev pub IsInGo : Request → Type 0
IsInGo (cancel c) = IsCancelInGo c
IsInGo (abort c) = IsAbortInGo c
IsInGo (reorder c) = IsReorderInGo c

abbrev pub request_bytes : Request → Text
request_bytes (cancel c) = cancel_instance_request c
request_bytes (abort c) = abort_instance_request c
request_bytes (reorder c) = reorder_queue_request c

abbrev kind_tag : Request → Text
kind_tag (cancel c) = cancel_instance_request_digest_v1
kind_tag (abort c) = abort_instance_request_digest_v1
kind_tag (reorder c) = reorder_queue_request_digest_v1

abbrev first : Text → ℕ
first [] = 0
first (byte ∷ _) = byte

kind_tag-IsString : (x : Request) → IsString (kind_tag x)
kind_tag-IsString (cancel c) = omega arith
kind_tag-IsString (abort c) = omega arith
kind_tag-IsString (reorder c) = omega arith

request_bytes-tagged :
    (x : Request) → (fields : Text) × (request_bytes x ≡ write_digest_string (kind_tag x) ++ fields)
unfolding cancel_instance_request abort_instance_request reorder_queue_request written
request_bytes-tagged (cancel c) = (_, refl)
request_bytes-tagged (abort c) = (_, refl)
request_bytes-tagged (reorder c) = (_, refl)

-- The first byte of the tag tells the kinds apart.
request_bytes-first :
    (x y : Request) → request_bytes x ≡ request_bytes y → first (kind_tag x) ≡ first (kind_tag y)
request_bytes-first x y e =
    let (a, p) = request_bytes-tagged x in
    let (b, q) = request_bytes-tagged y in
    ap first
      (write_digest_string-split (kind_tag x) (kind_tag y) (kind_tag-IsString x)
        (kind_tag-IsString y) (sym p ∙ e ∙ q)).0

request_bytes_injective :
    (x y : Request) → IsInGo x → IsInGo y → request_bytes x ≡ request_bytes y → x ≡ y
request_bytes_injective (cancel c) (cancel d) p q e =
    ap cancel (cancel_instance_request_injective c d p q e)
request_bytes_injective (abort c) (abort d) p q e =
    ap abort (abort_instance_request_injective c d p q e)
request_bytes_injective (reorder c) (reorder d) p q e =
    ap reorder (reorder_queue_request_injective c d p q e)
request_bytes_injective (cancel c) (abort d) p q e =
    absurd (let h : 99 ≡ 97 = request_bytes-first (cancel c) (abort d) e in omega arith)
request_bytes_injective (cancel c) (reorder d) p q e =
    absurd (let h : 99 ≡ 114 = request_bytes-first (cancel c) (reorder d) e in omega arith)
request_bytes_injective (abort c) (cancel d) p q e =
    absurd (let h : 97 ≡ 99 = request_bytes-first (abort c) (cancel d) e in omega arith)
request_bytes_injective (abort c) (reorder d) p q e =
    absurd (let h : 97 ≡ 114 = request_bytes-first (abort c) (reorder d) e in omega arith)
request_bytes_injective (reorder c) (cancel d) p q e =
    absurd (let h : 114 ≡ 99 = request_bytes-first (reorder c) (cancel d) e in omega arith)
request_bytes_injective (reorder c) (abort d) p q e =
    absurd (let h : 114 ≡ 97 = request_bytes-first (reorder c) (abort d) e in omega arith)

module _ (sha256 hex : Text → Text) (hex_injective : (a b : Text) → hex a ≡ hex b → a ≡ b) where
  -- The digest that is stored with a request.
  abbrev pub request_digest : Request → Text
  request_digest (cancel c) = cancel_instance_request_digest sha256 hex c
  request_digest (abort c) = abort_instance_request_digest sha256 hex c
  request_digest (reorder c) = reorder_queue_request_digest sha256 hex c

  request_digest-finish :
      (x : Request) → request_digest x ≡ finish_digest sha256 hex (request_bytes x)
  unfolding cancel_instance_request_digest abort_instance_request_digest
      reorder_queue_request_digest
  request_digest-finish (cancel c) = refl
  request_digest-finish (abort c) = refl
  request_digest-finish (reorder c) = refl

  finish_digest-sha256 :
      (a b : Text) → finish_digest sha256 hex a ≡ finish_digest sha256 hex b → sha256 a ≡ sha256 b
  unfolding finish_digest
  finish_digest-sha256 a b e =
      hex_injective (sha256 a) (sha256 b)
        (append-split (codes "sha256:") (codes "sha256:") refl e).1

  -- Two requests to cancel, abort or reorder with one digest, with any status and with texts and
  -- numbers as Go holds them, are the same request of the same kind with the same fields, or their
  -- bytes are two texts that SHA-256 maps to one sum, if the hexadecimal encoding is injective.
  pub request_digest_injective :
      (x y : Request)
      → IsInGo x
      → IsInGo y
      → request_digest x ≡ request_digest y
      → (x ≡ y)
        ⊎ ((request_bytes x ≢ request_bytes y)
            × (sha256 (request_bytes x) ≡ sha256 (request_bytes y)))
  request_digest_injective x y p q e =
      elim (Bool-cases (text_eq (request_bytes x) (request_bytes y))) [
        | inl same ↦ inl (
            request_bytes_injective x y p q
              (text_eq_sound (request_bytes x) (request_bytes y) same))
        | inr other ↦ inr (
          (λ same. (let h = (text_eq_iff (request_bytes x) (request_bytes y)).1 same in cc)),
          finish_digest-sha256 (request_bytes x) (request_bytes y)
              (sym (request_digest-finish x) ∙ e ∙ request_digest-finish y),
        )
      ]
