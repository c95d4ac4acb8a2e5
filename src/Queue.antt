-- ===== src/Queue.antt =====
-- frontend/scanner/queue.ts: the background queue of scans. A call of `processNext` runs without a
-- pause to its first `await`; what is left of it then is a worker, which a later event resumes.
pub mod Laws
pub mod Drains
use g_sentinel.Base.{
  String, Bool, true, false, not, ◌&&◌, ◌||◌, Option, none, some, List, [], ◌∷◌, ◌++◌, ◌≡◌, ◌==◌,
  any, lower, if◌then◌else◌,
}

pub record QueueState : Type 0 where
  pub pending : List String
  pub completed_set : List String
  pub failed_set : List String
  pub in_flight : Option String
  pub running : Bool

-- Where a call of `processNext` waits: for `hasAttestation`, for the delay after a skip, for
-- `runFullScan`, or for the delay after a scan.
pub data Worker : Type 0 where
  checking skipping scanning : String → Worker
  resting : Worker

-- `Set.has` and `Set.add`
abbrev pub has : List String → String → Bool
has set a = any (λ b. b == a) set

abbrev pub add : List String → String → List String
add set a = if has set a then set else a ∷ set

abbrev flies : Option String → String → Bool
flies none a = false
flies (some b) a = lower b == a

-- The four tests of `enqueueAddresses` on an address that was lowered.
unfoldable pub is_known : QueueState → String → Bool
is_known q norm =
    has q.completed_set norm
    || has q.failed_set norm
    || flies q.in_flight norm
    || any (λ a. lower a == norm) q.pending

abbrev pub push : QueueState → String → QueueState
push q a = record q { pending = q.pending ++ a ∷ [] }

unfoldable pub enqueue_all : QueueState → List String → QueueState
enqueue_all q [] = q
enqueue_all q (a ∷ rest) = enqueue_all (if is_known q (lower a) then q else push q a) rest

-- `processNext` up to its first `await`, by what is pending
abbrev pub next_of : QueueState → List String → QueueState × List Worker
next_of q [] = (record q { pending = []; in_flight = none; running = false }, [])
next_of q (a ∷ rest) = (record q { pending = rest; running = true }, checking a ∷ [])

unfoldable pub process_next : QueueState → QueueState × List Worker
process_next q = next_of q q.pending

-- `enqueueAddresses`, and the worker that it starts
unfoldable pub enqueue_addresses : QueueState → List String → QueueState × List Worker
enqueue_addresses q addresses =
    let queued : QueueState = enqueue_all q addresses in
    if queued.running then (queued, []) else process_next queued

-- The rest of `processNext`, from where a worker waits to its next `await`. The answer is that of
-- `hasAttestation`, where an error counts as false, or that `runFullScan` did not throw.
unfoldable pub resume : QueueState → Worker → Bool → QueueState × List Worker
unfolding process_next
resume q (checking a) true =
    (record q { completed_set = add q.completed_set (lower a) }, skipping a ∷ [])
resume q (checking a) false = (record q { in_flight = some a }, scanning a ∷ [])
resume q (scanning a) true =
    (record q { completed_set = add q.completed_set (lower a); in_flight = none }, resting ∷ [])
resume q (scanning a) false =
    (record q { failed_set = add q.failed_set (lower a); in_flight = none }, resting ∷ [])
resume q (skipping a) _ = process_next q
resume q resting _ = process_next q

abbrev pub initial_queue : QueueState
initial_queue = record {
  pending = [];
  completed_set = [];
  failed_set = [];
  in_flight = none;
  running = false;
}

-- What an event does to the queue and its workers: a discovery enqueues addresses, or any one worker
-- goes on.
pub data QueueStep : QueueState → List Worker → QueueState → List Worker → Type 0 where
  enqueued :
      {q : QueueState} {ws : List Worker} (addresses : List String)
      → QueueStep q ws (enqueue_addresses q addresses).0 (ws ++ (enqueue_addresses q addresses).1)
  resumed :
      {q : QueueState} {ws : List Worker} (before after : List Worker) (w : Worker) (answer : Bool)
      → ws ≡ before ++ w ∷ after
      → QueueStep q ws (resume q w answer).0 (before ++ (resume q w answer).1 ++ after)

pub data QueueReach : QueueState → List Worker → Type 0 where
  begin_empty : QueueReach initial_queue []
  then_event :
      {q : QueueState} {ws : List Worker} {q' : QueueState} {ws' : List Worker}
      → QueueReach q ws
      → QueueStep q ws q' ws'
      → QueueReach q' ws'
