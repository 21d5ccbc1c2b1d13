-- ===== src/Lib.antt =====
-- A verification library for healix-core: the parts of the domain and application layers whose
-- answers other parts rely on, as functions that compute, with theorems about them.
--
-- The program. Element targets and flow fragments (domain/automation) are assets with a history of
-- versions that only grows; a fragment's version holds a tree of steps. An execution plan is a
-- sealed snapshot with entries that run one after the other. The scheduler (application/scheduling)
-- takes a claim on an instance, reads the persisted states of its entries, decides on the next
-- writes and applies them under the claim's fence; commands cancel and abort an instance and reorder
-- a queue; the instance (domain/execution) carries the lifecycle of the whole run; steps expand
-- `${name}` expressions (domain/interpolation); a step that meets a driver fault is tried again
-- (domain/node); a step whose element has moved is healed by comparing candidates with the
-- recorded element (domain/heal), and a streak of healing facts (domain/automation) decides when the
-- healed element becomes a version; flows are recorded in sampling sessions (domain/sampling).
--
-- Which file models what:
--   Prelude           Boolean tests, lists over the native numbers, texts, results, trimming, integers
--   Fault             domain/fault: violations and how they are collected
--   Fingerprint       domain/fingerprint: selectors, framework stacks; Accepted holds their lemmas
--   Parameter         domain/parameter/value.go: typed values and the canonical form of numbers
--   Automation        domain/automation: Revision (revision.go, versioning.go), Asset (assets.go and
--                     lifecycle.go, for any content: creation, editing, deleting, restoring,
--                     publishing; Identity, History, Publish, Restore and Lifecycle hold the
--                     theorems), ElementTarget, FlowStep (workflow_validation.go; Group, Tree and
--                     Bounds hold the code, the others the theorems), FlowFragment, HealStreak
--                     (healing.go: the streak and its validity; Observe holds Observe and Reject,
--                     the other children the theorems)
--   Execution         domain/execution: Status (status.go), Coordinate (coordinate.go, the identity
--                     check), InvocationPath (the validation of a path there; Returns holds the
--                     theorem), Snapshot (the fields of the snapshot and the fence that are read
--                     here), Instance (instance.go: newInstance, HydrateInstance, ValidateInstance,
--                     Transition), Instance/Lifecycle (its theorems)
--                     and Budget (budget.go: validateExecutionBudget; Capped and Exact hold the
--                     arithmetic, Expanded the exact cost and the theorem)
--   Scheduling        application/scheduling: Decision (decision.go: DecideAdvance,
--                     validateSerialShape and stopAfter; Shape, Advance, Progress, Liveness and
--                     Order hold the theorems), Port (what a port answers), Coordinator
--                     (coordinator.go: ProcessNext; Outcome holds the theorem), Command
--                     (instance_command_services.go; Answers and Reorder hold the theorems), Digest
--                     (the request digests there and the writers of create_instance_service.go;
--                     Frame and Request hold the theorems)
--   Interpolation     domain/interpolation/variables.go: Names and Expand; Scan, Template,
--                     Expansion and Termination hold the grammar and the theorems
--   Heal/Lcs          domain/heal/lcs.go: lcsLength, lcsLengthWithBuffer, narrowByPathLCS; Spec,
--                     Correct and Narrow hold the specification and the theorems
--   Node/Retry        domain/node/errors.go: the classification of error trees and
--                     RetryWithAttempts; Attempts holds the theorem
--   Sampling/Session  domain/sampling/session.go: the session and its lifecycle; Record holds
--                     Session.Record; Invariant, Effect and History hold the theorems
--   Examples          tests on concrete inputs, and the theorems applied to them
--
-- How it is modelled. A Go string is the list of its bytes, a string type with constants is a data
-- type with one more constructor for every further value that a caller can give, an error is a
-- constructor without its message, a Go map is an association list or a search in it.
-- `strings.TrimSpace` is Prelude/Spaces, on the UTF-8 bytes of Unicode white space. Integers that
-- the code only compares and copies are unbounded; where it computes with them the width is kept: a
-- revision is a uint64 that is refused at its largest value, `revision + 1` of a command and the
-- numbers of a digest wrap. A version number below 1 is 0. A confidence is a type of its own with the
-- test that it is a number from zero through one, and `compiles` stands for `regexp.Compile`.
-- Properties and other maps of a value are lists of keys and values. `none` stands for a run-time
-- panic in Heal/Lcs and in Sampling, and for the end of the fuel in Interpolation; in
-- Execution/InvocationPath both are outcomes of their own. The loops of Interpolation have one more
-- than the length of the text as fuel: each round takes at least three bytes; the walk that bounds a
-- step tree has one more than the number of its steps; the budget of a plan is for any fuel above the
-- depth of the references; an invocation path has its own length, since each segment takes a byte or
-- more.
--
-- A port of the host is a function on the state of the host that gives an answer or a failure with
-- the host after it, `none` where the port is nil; SHA-256 and the hexadecimal encoding are
-- parameters. A sampling session takes as arguments what `NewUUID` returns, since it reads entropy
-- and the clock, and as parameters `url.Parse`, `weburl.Check` and the validation of a target
-- specification.
--
-- Not modelled: what stands behind the ports of the host, canonical JSON, message texts, deep copies
-- of values that the model does not share, floating-point scores, environments and parameter names
-- (their checks read the Unicode tables of Go's library), execution flows, folders, the snapshot's
-- own validation, the child of an invocation path, the node runtime, the engine, and the services
-- of the application layer outside scheduling.
pub mod Prelude
pub mod Fault
pub mod Fingerprint
pub mod Parameter
pub mod Automation
pub mod Execution
pub mod Scheduling
pub mod Interpolation
pub mod Heal
pub mod Node
pub mod Sampling
mod Examples
