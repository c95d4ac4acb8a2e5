-- ===== src/Verification/Coordinator.antt =====
-- frontend/lib/verification-state.ts: the coordinator class. An event is a call of a method, the end
-- of a wait, or a timer; each gives the coordinator after it and the actions that it dispatches, in
-- their order. A request object is a number of its own with its generation, and an event that
-- concludes a request carries that pair.
use g_sentinel.Base.{
  ℕ, String, Bool, true, false, ◌&&◌, Option, none, some, List, [], ◌∷◌, ◌+◌, ◌==◌, eqb, is_some,
  if◌then◌else◌,
}
use g_sentinel.Verification.{
  HistoricalFailure, CurrentFailure, Access, VerificationAction, reset, start, historical_match,
  historical_failure, current_start, current_result, current_failure,
}

-- `VerificationIdentifiers`
pub record Identifiers : Type 0 where
  pub proof_id : String
  pub identity_key : String
  pub source_tx_hash : Option String

pub data AbortKind : Type 0 where
  timeout canceled : AbortKind

-- `TimedRequest`, without its controller and timer
pub record TimedRequest : Type 0 where
  pub id : ℕ
  pub generation : ℕ
  pub abort_kind : Option AbortKind

pub data Plane : Type 0 where
  historical_plane current_plane : Plane

pub record Coordinator : Type 0 where
  pub active : Bool
  pub generation : ℕ
  pub identifiers : Option Identifiers
  pub historical : Option TimedRequest
  pub current : Option TimedRequest
  pub next_id : ℕ

abbrev pub new_coordinator : Coordinator
new_coordinator = record {
  active = true;
  generation = 0;
  identifiers = none;
  historical = none;
  current = none;
  next_id = 0;
}

-- `mapHistoricalError` and `mapCurrentAccess`, which is `none` where it throws, and the test that a
-- detail is unavailable.
pub record Mappings (Cause Detail : Type 0) : Type 0 where
  pub map_historical_error : Cause → Option AbortKind → HistoricalFailure
  pub map_current_access : Detail → Option (Access × String)
  pub is_unavailable : Detail → Bool

module _ (Proof Cause Detail : Type 0) where
  pub data Event : Type 0 where
    set_identifiers : Identifiers → Event
    start_verifying : Bool → Event
    cancel : Plane → Event
    dispose : Event
    proof_returned : TimedRequest → Proof → Event
    proof_failed : TimedRequest → Cause → Event
    detail_returned : TimedRequest → Detail → Event
    detail_failed : TimedRequest → Event
    timer_fired : Plane → TimedRequest → Event

abbrev same_source : Option String → Option String → Bool
same_source none none = true
same_source (some a) (some b) = a == b
same_source _ _ = false

-- `identifiersEqual`
unfoldable pub identifiers_equal : Option Identifiers → Identifiers → Bool
identifiers_equal none right = false
identifiers_equal (some left) right =
    left.proof_id == right.proof_id
    && left.identity_key == right.identity_key
    && same_source left.source_tx_hash right.source_tx_hash

abbrev pub slot_of : Plane → Coordinator → Option TimedRequest
slot_of historical_plane c = c.historical
slot_of current_plane c = c.current

-- `detachRequest` of the open request
abbrev pub detach : Plane → Coordinator → Coordinator
detach historical_plane c = record c { historical = none }
detach current_plane c = record c { current = none }

-- `abortAll`
abbrev pub abort_all : Coordinator → Coordinator
abort_all c = record c { historical = none; current = none }

-- `canCommit`
abbrev pub can_commit : Coordinator → ℕ → Bool
can_commit c generation = c.active && eqb generation c.generation

abbrev is_the_request : Option TimedRequest → TimedRequest → Bool
is_the_request none request = false
is_the_request (some held) request = eqb held.id request.id

-- `requestIsActive`
unfoldable pub request_is_active : Plane → Coordinator → TimedRequest → Bool
request_is_active plane c request =
    can_commit c request.generation && is_the_request (slot_of plane c) request

-- `request.abortKind` of the open request
abbrev pub abort_kind_of : Option TimedRequest → Option AbortKind
abort_kind_of none = none
abort_kind_of (some held) = held.abort_kind

abbrev pub historical_abort : AbortKind → HistoricalFailure
historical_abort timeout = HistoricalFailure.timeout
historical_abort canceled = HistoricalFailure.canceled

abbrev pub current_abort : AbortKind → CurrentFailure
current_abort timeout = CurrentFailure.timeout
current_abort canceled = CurrentFailure.canceled

-- `abortKind ?? kind`
abbrev pub kind_or : Option AbortKind → AbortKind → AbortKind
kind_or none kind = kind
kind_or (some first) kind = first

-- `abortKind ?? "UNAVAILABLE"`
abbrev pub current_failure_of : Option AbortKind → CurrentFailure
current_failure_of none = CurrentFailure.unavailable
current_failure_of (some kind) = current_abort kind

abbrev pub new_request : ℕ → ℕ → TimedRequest
new_request id generation = record { id = id; generation = generation; abort_kind = none }

-- `openRequest`
abbrev pub open_request : Plane → ℕ → Coordinator → Coordinator
open_request historical_plane generation c = record c {
  historical = some (new_request c.next_id generation);
  next_id = c.next_id + 1;
}
open_request current_plane generation c = record c {
  current = some (new_request c.next_id generation);
  next_id = c.next_id + 1;
}

-- The coordinator after an event, and what it dispatched.
abbrev pub Turn : Type 0 → Type 0
Turn Proof = Coordinator × List (VerificationAction Proof)

module _ {Proof : Type 0} where
  -- `dispatchPlaneFailure`
  abbrev pub plane_failure : Plane → ℕ → AbortKind → VerificationAction Proof
  plane_failure historical_plane generation kind =
      historical_failure generation (historical_abort kind)
  plane_failure current_plane generation kind = current_failure generation (current_abort kind)

  -- `readCurrent`, up to its wait
  abbrev pub read_current : ℕ → Coordinator → Turn Proof
  read_current generation c =
      if can_commit c generation && is_some c.identifiers
      then (open_request current_plane generation c, current_start generation ∷ [])
      else (c, [])

  abbrev after_match : ℕ → Proof → Turn Proof → Turn Proof
  after_match generation proof (c, actions) = (c, historical_match generation proof ∷ actions)

  abbrev cancel_open : Plane → Coordinator → Option TimedRequest → Turn Proof
  cancel_open plane c none = (c, [])
  cancel_open plane c (some held) =
      if request_is_active plane c held
      then (
        detach plane c,
        plane_failure plane held.generation (kind_or held.abort_kind canceled) ∷ [],
      )
      else (c, [])

module _ {Cause Detail : Type 0} (mappings : Mappings Cause Detail) {Proof : Type 0} where
  -- The action for a detail that was mapped.
  abbrev pub access_action :
      ℕ → Option AbortKind → Option (Access × String) → VerificationAction Proof
  access_action generation kind none = current_failure generation (current_failure_of kind)
  access_action generation kind (some (access, reason)) = current_result generation access reason

  abbrev pub detail_action : ℕ → Option AbortKind → Detail → VerificationAction Proof
  detail_action generation kind detail =
      if mappings.is_unavailable detail
      then current_failure generation CurrentFailure.unavailable
      else access_action generation kind (mappings.map_current_access detail)

  -- The methods, the ends of the two waits, and `timeoutPlane`
  unfoldable pub coordinate : Coordinator → Event Proof Cause Detail → Turn Proof
  coordinate c (set_identifiers identifiers) =
      if c.active && identifiers_equal c.identifiers identifiers then (c, []) else (
        record (abort_all c) {
          active = true;
          identifiers = some identifiers;
          generation = c.generation + 1;
        },
        reset (c.generation + 1) ∷ [],
      )
  coordinate c (start_verifying retry) =
      if c.active && is_some c.identifiers
      then (
        open_request historical_plane (c.generation + 1)
            (record (abort_all c) { generation = c.generation + 1 }),
        start (c.generation + 1) retry ∷ [],
      )
      else (c, [])
  coordinate c (cancel plane) = cancel_open plane c (slot_of plane c)
  coordinate c dispose =
      if c.active
      then (record (abort_all c) { active = false; generation = c.generation + 1 }, [])
      else (c, [])
  coordinate c (proof_returned request proof) =
      if request_is_active historical_plane c request
      then after_match request.generation proof
          (read_current request.generation (detach historical_plane c))
      else (c, [])
  coordinate c (proof_failed request cause) =
      if request_is_active historical_plane c request
      then (
        detach historical_plane c,
        historical_failure request.generation
              (mappings.map_historical_error cause (abort_kind_of c.historical))
            ∷ [],
      )
      else (c, [])
  coordinate c (detail_returned request detail) =
      if request_is_active current_plane c request
      then (
        detach current_plane c,
        detail_action request.generation (abort_kind_of c.current) detail ∷ [],
      )
      else (c, [])
  coordinate c (detail_failed request) =
      if request_is_active current_plane c request
      then (
        detach current_plane c,
        current_failure request.generation (current_failure_of (abort_kind_of c.current)) ∷ [],
      )
      else (c, [])
  coordinate c (timer_fired plane request) =
      if request_is_active plane c request
      then (detach plane c, plane_failure plane request.generation timeout ∷ [])
      else (c, [])
