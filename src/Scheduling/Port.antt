-- ===== src/Scheduling/Port.antt =====
-- What the host's ports answer to application/scheduling: a value, or an error that carries a
-- code of its own or none. A port is a function on the state of the host.
use healix_core.Prelude.{Text, ◌≡◌, refl, ◌⊎◌, inl, inr}
use healix_core.Scheduling.Decision.{DecideError}

pub data PortFailure : Type 0 where
  coded : Text → PortFailure
  bare : PortFailure

pub data SchedulingError : Type 0 where
  dependency_required claim_invalid adapter_unavailable stale_worker_fence : SchedulingError
  host_code : Text → SchedulingError
  undecided : DecideError → SchedulingError

-- `classifySchedulingAdapterFailure`
unfoldable pub classify : PortFailure → SchedulingError
classify (coded code) = host_code code
classify bare = adapter_unavailable

-- What a call of a port gives, with the host after it.
pub data Answer (H A : Type 0) : Type 0 where
  answers : A → H → Answer H A
  fails : PortFailure → H → Answer H A

abbrev pub Call : Type 0 → Type 0 → Type 0
Call H A = H → Answer H A

pub Answer-cases :
    {H A : Type 0} (x : Answer H A)
    → ((a : A) × (h : H) × (x ≡ answers a h)) ⊎ ((e : PortFailure) × (h : H) × (x ≡ fails e h))
Answer-cases (answers a h) = inl (a, h, refl)
Answer-cases (fails e h) = inr (e, h, refl)
