-- ===== src/Evaluate/Awaits.antt =====
-- What each event of the coordinator, and each action of the page, does to what the page waits for.
use g_sentinel.Base.{
  String, Bool, true, false, is_some, none, some, List, [], ◌∷◌, ◌≡◌, arith, ◌==◌,
}
use g_sentinel.Evaluate.{
  EvaluateState, EvaluateAction, edit_operator_token, clear_operator_token, begin_run,
  stage_reached, run_succeeded, run_failed, run_interrupted, recovery_succeeded,
  recovery_definitive, recovery_progress_updated, RunnerStage, ApiError, refreshing, completed,
  resolving, evaluate_reducer, identity_locked,
}
use g_sentinel.Evaluate.Coordinator.{
  resolve_request, refresh_request, ActiveRequest, Coordinator, Event, edit, resolve, refresh,
  cancel, activate, dispose, loaded, load_failed, is_current, Turn, coordinate,
}

-- A coordinator that was disposed of holds no request.
abbrev pub IsReleased : Coordinator → Type 0
IsReleased c = c.disposed ≡ true → c.active ≡ none

module _ {Resolution : Type 0} where
  -- The page waits for a resolution, or for a completion refresh, only while the coordinator holds a
  -- request for it, of the page's generation and agent.
  unfoldable pub IsAwaited : Coordinator → EvaluateState Resolution → Type 0
  IsAwaited c page =
      (page.phase ≡ resolving
        → c.active
          ≡ some (record {
            kind = resolve_request;
            generation = page.generation;
            agent_id = page.agent_id;
          }))
      × (page.phase ≡ completed
          → page.refresh ≡ refreshing
          → c.active
            ≡ some (record {
              kind = refresh_request;
              generation = page.generation;
              agent_id = page.agent_id;
            }))
      × (page.phase ≡ resolving → page.agent_id == "" ≡ false)

  unfoldable pub deliver :
      EvaluateState Resolution → List (EvaluateAction Resolution) → EvaluateState Resolution
  deliver page [] = page
  deliver page (a ∷ rest) = deliver (evaluate_reducer page a) rest

  abbrev pub TurnAwaited : EvaluateState Resolution → Turn Resolution → Type 0
  TurnAwaited page turn = IsAwaited turn.0 (deliver page turn.1)

  pub edit-IsAwaited :
      (c : Coordinator) (page : EvaluateState Resolution) (agent_id : String)
      → IsAwaited c page
      → TurnAwaited page (coordinate c (edit agent_id))
  unfolding IsAwaited coordinate deliver evaluate_reducer identity_locked
  edit-IsAwaited c page agent_id h = ground arith

  pub resolve-IsAwaited :
      (c : Coordinator) (page : EvaluateState Resolution) (valid : Bool)
      → IsAwaited c page
      → TurnAwaited page (coordinate c (resolve page.agent_id valid))
  unfolding IsAwaited coordinate deliver evaluate_reducer identity_locked
  resolve-IsAwaited c page valid h = ground arith

  pub loaded-IsAwaited :
      (c : Coordinator) (page : EvaluateState Resolution) (request : ActiveRequest)
      (value : Resolution)
      → IsAwaited c page
      → TurnAwaited page (coordinate c (loaded request value))
  unfolding IsAwaited coordinate deliver evaluate_reducer identity_locked is_current
  loaded-IsAwaited c page request value h = ground arith

  pub load_failed-IsAwaited :
      (c : Coordinator) (page : EvaluateState Resolution) (request : ActiveRequest)
      (error : ApiError)
      → IsAwaited c page
      → TurnAwaited page (coordinate c (load_failed request error))
  unfolding IsAwaited coordinate deliver evaluate_reducer identity_locked is_current
  load_failed-IsAwaited c page request error h = ground arith

  pub refresh-IsAwaited :
      (c : Coordinator) (page : EvaluateState Resolution)
      → IsAwaited c page
      → TurnAwaited page (coordinate c (refresh page.agent_id))
  unfolding IsAwaited coordinate deliver evaluate_reducer identity_locked
  refresh-IsAwaited c page h = ground arith

  pub cancel-IsAwaited :
      (c : Coordinator) (page : EvaluateState Resolution)
      → IsAwaited c page
      → TurnAwaited page (coordinate c cancel)
  unfolding IsAwaited coordinate deliver evaluate_reducer identity_locked
  cancel-IsAwaited c page h = ground arith

  pub activate-IsAwaited :
      (c : Coordinator) (page : EvaluateState Resolution)
      → IsAwaited c page
      → TurnAwaited page (coordinate c activate)
  unfolding IsAwaited coordinate deliver
  activate-IsAwaited c page h = ground arith

  -- Disposing takes the request away that the coordinator holds.
  abbrev pub takes_request : Coordinator → Event Resolution → Bool
  takes_request c dispose = is_some c.active
  takes_request c _ = false

  pub dispose-IsAwaited :
      (c : Coordinator) (page : EvaluateState Resolution)
      → is_some c.active ≡ false
      → IsAwaited c page
      → TurnAwaited page (coordinate c dispose)
  unfolding IsAwaited coordinate deliver
  dispose-IsAwaited c page idle h = ground arith

  pub coordinate-IsReleased :
      (c : Coordinator) (e : Event Resolution) → IsReleased c → IsReleased (coordinate c e).0
  unfolding coordinate is_current
  coordinate-IsReleased c (edit agent_id) h = ground arith
  coordinate-IsReleased c (resolve agent_id valid) h = ground arith
  coordinate-IsReleased c (refresh agent_id) h = ground arith
  coordinate-IsReleased c cancel h = ground arith
  coordinate-IsReleased c activate h = ground arith
  coordinate-IsReleased c dispose h = ground arith
  coordinate-IsReleased c (loaded request value) h = ground arith
  coordinate-IsReleased c (load_failed request error) h = ground arith

  -- The actions that the page dispatches itself, on the token and the paid run.
  pub data PageAction : EvaluateAction Resolution → Type 0 where
    types_token : (token : String) → PageAction (edit_operator_token token)
    clears_token : PageAction clear_operator_token
    begins_run : PageAction begin_run
    reaches_stage : (stage : RunnerStage) → PageAction (stage_reached stage)
    succeeds : PageAction run_succeeded
    fails : (error : ApiError) → PageAction (run_failed error)
    interrupts : PageAction run_interrupted
    recovers : PageAction recovery_succeeded
    settles : PageAction recovery_definitive
    progresses : PageAction recovery_progress_updated

  pub PageAction-IsAwaited :
      (c : Coordinator) (page : EvaluateState Resolution) {a : EvaluateAction Resolution}
      → PageAction a
      → IsAwaited c page
      → IsAwaited c (evaluate_reducer page a)
  unfolding IsAwaited evaluate_reducer identity_locked
  PageAction-IsAwaited c page (types_token token) h = ground arith
  PageAction-IsAwaited c page clears_token h = ground arith
  PageAction-IsAwaited c page begins_run h = ground arith
  PageAction-IsAwaited c page (reaches_stage stage) h = ground arith
  PageAction-IsAwaited c page succeeds h = ground arith
  PageAction-IsAwaited c page (fails error) h = ground arith
  PageAction-IsAwaited c page interrupts h = ground arith
  PageAction-IsAwaited c page recovers h = ground arith
  PageAction-IsAwaited c page settles h = ground arith
  PageAction-IsAwaited c page progresses h = ground arith
