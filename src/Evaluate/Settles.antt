-- ===== src/Evaluate/Settles.antt =====
-- The page waits only for what the coordinator holds a request for.
use g_sentinel.Base.{
  String, Bool, true, false, ◌||◌, or_false, refl, none, some, ◌≡◌, ◌≢◌, arith, eq_refl,
}
use g_sentinel.Evaluate.{
  EvaluateState, EvaluateAction, ApiError, refreshing, completed, resolving, evaluate_reducer,
  initial_evaluate_state,
}
use g_sentinel.Evaluate.Coordinator.{
  ActiveRequest, Coordinator, new_coordinator, Event, edit, resolve, refresh, cancel, activate,
  dispose, loaded, load_failed, is_current, coordinate,
}
use g_sentinel.Evaluate.Awaits.{
  IsReleased, IsAwaited, deliver, TurnAwaited, takes_request, PageAction, edit-IsAwaited,
  resolve-IsAwaited, loaded-IsAwaited, load_failed-IsAwaited, refresh-IsAwaited, cancel-IsAwaited,
  activate-IsAwaited, dispose-IsAwaited, coordinate-IsReleased, PageAction-IsAwaited,
}

module _ {Resolution : Type 0} where
  -- What happens to a coordinator: its methods are called as the page calls them, for the page's own
  -- agent, and loads end, also those of requests that were given up. The page activates it when it is
  -- mounted and disposes of it when it is unmounted.
  pub data Happens (page : EvaluateState Resolution) : Event Resolution → Type 0 where
    edits : (agent_id : String) → Happens page (edit agent_id)
    resolves : (valid : Bool) → Happens page (resolve page.agent_id valid)
    refreshes : Happens page (refresh page.agent_id)
    cancels : Happens page cancel
    activates : Happens page activate
    disposes : Happens page dispose
    load_returns :
        (request : ActiveRequest) → (value : Resolution) → Happens page (loaded request value)
    load_throws :
        (request : ActiveRequest) → (error : ApiError) → Happens page (load_failed request error)

  -- The coordinator and the page after some events, and actions of the page itself, with whether a
  -- `dispose` has taken a request away that was under way.
  pub data EvaluateReach : Bool → Coordinator → EvaluateState Resolution → Type 0 where
    opened : EvaluateReach false new_coordinator initial_evaluate_state
    then_event :
        {taken : Bool} {c : Coordinator} {page : EvaluateState Resolution}
        → EvaluateReach taken c page
        → (e : Event Resolution) → Happens page e
        → EvaluateReach
            (taken || takes_request c e)
            (coordinate c e).0
            (deliver page (coordinate c e).1)
    then_action :
        {taken : Bool} {c : Coordinator} {page : EvaluateState Resolution}
        → EvaluateReach taken c page
        → (a : EvaluateAction Resolution) → PageAction a
        → EvaluateReach taken c (evaluate_reducer page a)

  Happens-IsAwaited :
      (c : Coordinator) (page : EvaluateState Resolution) (e : Event Resolution)
      → takes_request c e ≡ false
      → IsAwaited c page
      → Happens page e
      → TurnAwaited page (coordinate c e)
  Happens-IsAwaited c page e t h (edits agent_id) = edit-IsAwaited c page agent_id h
  Happens-IsAwaited c page e t h (resolves valid) = resolve-IsAwaited c page valid h
  Happens-IsAwaited c page e t h refreshes = refresh-IsAwaited c page h
  Happens-IsAwaited c page e t h cancels = cancel-IsAwaited c page h
  Happens-IsAwaited c page e t h activates = activate-IsAwaited c page h
  Happens-IsAwaited c page e t h disposes = dispose-IsAwaited c page t h
  Happens-IsAwaited c page e t h (load_returns request value) =
      loaded-IsAwaited c page request value h
  Happens-IsAwaited c page e t h (load_throws request error) =
      load_failed-IsAwaited c page request error h

  EvaluateReach-awaits :
      {taken : Bool} {c : Coordinator} {page : EvaluateState Resolution}
      → EvaluateReach taken c page
      → taken ≡ false
      → IsAwaited c page
  unfolding IsAwaited
  EvaluateReach-awaits opened t = ground arith
  EvaluateReach-awaits (then_event r e happens) t =
      let (before, now) = or_false t in
      Happens-IsAwaited _ _ e now (EvaluateReach-awaits r before) happens
  EvaluateReach-awaits (then_action {c} r a acts) t =
      PageAction-IsAwaited c _ acts (EvaluateReach-awaits r t)

  EvaluateReach-IsReleased :
      {taken : Bool} {c : Coordinator} {page : EvaluateState Resolution}
      → EvaluateReach taken c page
      → IsReleased c
  EvaluateReach-IsReleased opened = λ d. cc
  EvaluateReach-IsReleased (then_event r e happens) =
      coordinate-IsReleased _ e (EvaluateReach-IsReleased r)
  EvaluateReach-IsReleased (then_action r a acts) = EvaluateReach-IsReleased r

  -- In every state that is reached without a `dispose` that took a request away, the page waits for a
  -- resolution or a completion refresh only while the coordinator holds a request of that kind, of the
  -- page's generation and for the page's agent. In every reachable state, a coordinator that was
  -- disposed of holds no request.
  pub EvaluateReach-IsAwaited :
      (taken : Bool) (c : Coordinator) (page : EvaluateState Resolution)
      → EvaluateReach taken c page
      → (taken ≡ false → IsAwaited c page) × (c.disposed ≡ true → c.active ≡ none)
  EvaluateReach-IsAwaited taken c page r = (EvaluateReach-awaits r, EvaluateReach-IsReleased r)

  -- A load ends, with a value or an error.
  pub data EndsLoad (request : ActiveRequest) : Event Resolution → Type 0 where
    by_value : (value : Resolution) → EndsLoad request (loaded request value)
    by_error : (error : ApiError) → EndsLoad request (load_failed request error)

  coordinate-ends :
      (c : Coordinator) (request : ActiveRequest) (e : Event Resolution)
      → c.disposed ≡ false
      → c.active ≡ some request
      → EndsLoad request e
      → (coordinate c e).0.active ≡ none
  unfolding coordinate is_current
  coordinate-ends c request e d a (by_value value) =
      let q = eq_refl request.agent_id in ground arith
  coordinate-ends c request e d a (by_error error) =
      let q = eq_refl request.agent_id in ground arith

  not_awaited :
      (c : Coordinator) (page : EvaluateState Resolution)
      → c.active ≡ none
      → IsAwaited c page
      → (page.phase ≢ resolving) × (page.phase ≡ completed → page.refresh ≢ refreshing)
  unfolding IsAwaited
  not_awaited c page n h = (λ p. ground arith, λ p q. ground arith)

  ends-IsAwaited :
      (c : Coordinator) (page : EvaluateState Resolution) (request : ActiveRequest)
      (e : Event Resolution)
      → IsAwaited c page
      → EndsLoad request e
      → TurnAwaited page (coordinate c e)
  ends-IsAwaited c page request e h (by_value value) = loaded-IsAwaited c page request value h
  ends-IsAwaited c page request e h (by_error error) = load_failed-IsAwaited c page request error h

  -- In a state that is reached without a `dispose` that took a request away: when the load of the
  -- request that the coordinator holds ends, with a value or an error, the page no longer waits: it is
  -- not resolving, and a completed page is not refreshing.
  pub EndsLoad-released :
      (c : Coordinator) (page : EvaluateState Resolution) (request : ActiveRequest)
      (e : Event Resolution)
      → EvaluateReach false c page
      → c.disposed ≡ false
      → c.active ≡ some request
      → EndsLoad request e
      → ((deliver page (coordinate c e).1).phase ≢ resolving)
        × ((deliver page (coordinate c e).1).phase ≡ completed
            → (deliver page (coordinate c e).1).refresh ≢ refreshing)
  EndsLoad-released c page request e r d a ends =
      not_awaited (coordinate c e).0 (deliver page (coordinate c e).1)
        (coordinate-ends c request e d a ends)
        (ends-IsAwaited c page request e (EvaluateReach-awaits r refl) ends)
