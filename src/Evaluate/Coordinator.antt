-- ===== src/Evaluate/Coordinator.antt =====
-- frontend/lib/evaluate-state.ts: the coordinator of the free resolution. An event is a call of a
-- method or the end of a load, and gives the coordinator after it with the actions that it
-- dispatches. A request is told from another by its generation, which no two share; its abort signal
-- is left out, since a request that is aborted is dropped in the same step.
use g_sentinel.Base.{
  ℕ, String, Bool, true, false, not, ◌&&◌, ◌||◌, Option, none, some, List, [], ◌∷◌, ◌+◌, ◌==◌, eqb,
  is_some, if◌then◌else◌,
}
use g_sentinel.Evaluate.{
  ApiError, EvaluateAction, edit_identity, begin_resolve, cancel_resolve, resolve_succeeded,
  resolve_failed, begin_completion_refresh, completion_refresh_succeeded, completion_refresh_failed,
}

pub data RequestKind : Type 0 where
  resolve_request refresh_request : RequestKind

-- `ActiveRequest`, without its controller
pub record ActiveRequest : Type 0 where
  pub kind : RequestKind
  pub generation : ℕ
  pub agent_id : String

pub record Coordinator : Type 0 where
  pub generation : ℕ
  pub active : Option ActiveRequest
  pub disposed : Bool

abbrev pub new_coordinator : Coordinator
new_coordinator = record { generation = 0; active = none; disposed = false }

module _ (Resolution : Type 0) where
  pub data Event : Type 0 where
    edit : String → Event
    resolve : String → Bool → Event
    refresh : String → Event
    cancel activate dispose : Event
    loaded : ActiveRequest → Resolution → Event
    load_failed : ActiveRequest → ApiError → Event

abbrev pub is_refresh : RequestKind → Bool
is_refresh refresh_request = true
is_refresh resolve_request = false

abbrev same_kind : RequestKind → RequestKind → Bool
same_kind refresh_request kind = is_refresh kind
same_kind resolve_request kind = not (is_refresh kind)

abbrev pub is_refreshing_now : Option ActiveRequest → Bool
is_refreshing_now none = false
is_refreshing_now (some request) = is_refresh request.kind

abbrev same_request : Option ActiveRequest → ActiveRequest → Bool
same_request none request = false
same_request (some held) request =
    same_kind held.kind request.kind
    && eqb held.generation request.generation
    && held.agent_id == request.agent_id

-- `isCurrent`
unfoldable pub is_current : Coordinator → ActiveRequest → Bool
is_current c request = not c.disposed && same_request c.active request

-- The coordinator after an event, and what it dispatched.
abbrev pub Turn : Type 0 → Type 0
Turn Resolution = Coordinator × List (EvaluateAction Resolution)

module _ {Resolution : Type 0} where
  abbrev begin_action : RequestKind → ℕ → EvaluateAction Resolution
  begin_action resolve_request generation = begin_resolve generation
  begin_action refresh_request generation = begin_completion_refresh generation

  -- `begin`, up to its load
  abbrev pub begin_request : RequestKind → String → Coordinator → Turn Resolution
  begin_request kind agent_id c = (
    record c {
      generation = c.generation + 1;
      active = some (record { kind = kind; generation = c.generation + 1; agent_id = agent_id });
    },
    begin_action kind (c.generation + 1) ∷ [],
  )

  abbrev pub success : ActiveRequest → Resolution → RequestKind → EvaluateAction Resolution
  success request value resolve_request =
      resolve_succeeded request.generation request.agent_id value
  success request value refresh_request =
      completion_refresh_succeeded request.generation request.agent_id value

  abbrev pub failure_of : ActiveRequest → ApiError → RequestKind → EvaluateAction Resolution
  failure_of request error resolve_request =
      resolve_failed request.generation request.agent_id error
  failure_of request error refresh_request =
      completion_refresh_failed request.generation request.agent_id error

  abbrev cancel_active : Coordinator → Option ActiveRequest → Turn Resolution
  cancel_active c none = (c, [])
  cancel_active c (some request) =
      if is_refresh request.kind
      then (c, [])
      else (record c { active = none }, cancel_resolve request.generation ∷ [])

  -- `edit`, `resolve`, `refresh`, `cancel`, `activate`, `dispose`, and the end of `settle`
  unfoldable pub coordinate : Coordinator → Event Resolution → Turn Resolution
  coordinate c (edit agent_id) = if c.disposed || is_refreshing_now c.active then (c, []) else (
    record c { generation = c.generation + 1; active = none },
    edit_identity agent_id (c.generation + 1) ∷ [],
  )
  coordinate c (resolve agent_id valid) =
      if c.disposed || not valid || is_refreshing_now c.active
      then (c, [])
      else begin_request resolve_request agent_id c
  coordinate c (refresh agent_id) =
      if c.disposed || is_some c.active then (c, []) else begin_request refresh_request agent_id c
  coordinate c cancel = if c.disposed then (c, []) else cancel_active c c.active
  coordinate c activate = (record c { disposed = false }, [])
  coordinate c dispose = (record c { disposed = true; active = none }, [])
  coordinate c (loaded request value) =
      if is_current c request
      then (record c { active = none }, success request value request.kind ∷ [])
      else (c, [])
  coordinate c (load_failed request error) =
      if is_current c request
      then (record c { active = none }, failure_of request error request.kind ∷ [])
      else (c, [])
