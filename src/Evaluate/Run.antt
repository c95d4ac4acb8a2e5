-- ===== src/Evaluate/Run.antt =====
-- `canStartPaidRun` and `executePaidRun` of evaluate-state.ts. The runner is what it reports: the
-- stages that it reached, and then its result or what it threw.
use g_sentinel.Base.{
  Bool, true, false, not, ◌&&◌, Option, none, some, List, [], ◌∷◌, ◌++◌, map, ◌==◌, if◌then◌else◌,
}
use g_sentinel.Evaluate.{
  RunnerStage, ApiError, EvaluateState, EvaluateAction, begin_run, stage_reached, run_succeeded,
  run_failed, run_interrupted, can_retry, evaluate_reducer,
}

-- The status of the write outcome of a terminal result, where it has one.
pub data ResultStatus : Type 0 where
  sealed other : ResultStatus

pub data RunnerEnd : Type 0 where
  sealed_result : ResultStatus → RunnerEnd
  existing_operation : Option ResultStatus → RunnerEnd
  aborted : RunnerEnd
  threw : ApiError → RunnerEnd

abbrev is_sealed : ResultStatus → Bool
is_sealed sealed = true
is_sealed other = false

-- `sealedWriteOutcome`, on a result
abbrev pub sealed_write_outcome : RunnerEnd → Bool
sealed_write_outcome (sealed_result s) = is_sealed s
sealed_write_outcome (existing_operation (some s)) = is_sealed s
sealed_write_outcome _ = false

module _ {Resolution : Type 0} where
  -- `canStartPaidRun`
  unfoldable pub can_start_paid_run : EvaluateState Resolution → Bool → Bool
  can_start_paid_run state active =
      not active && can_retry state.phase && not (state.operator_token == "")

  -- The last action, by how the runner ended; `unsealed` is the normalised error of a result that is
  -- not sealed.
  abbrev pub last_action : ApiError → RunnerEnd → EvaluateAction Resolution
  last_action unsealed aborted = run_interrupted
  last_action unsealed (threw error) = run_failed error
  last_action unsealed (sealed_result s) =
      if is_sealed s then run_succeeded else run_failed unsealed
  last_action unsealed (existing_operation none) = run_failed unsealed
  last_action unsealed (existing_operation (some s)) =
      if is_sealed s then run_succeeded else run_failed unsealed

  -- The actions that `executePaidRun` dispatches, and what it returns.
  unfoldable pub execute_paid_run :
      EvaluateState Resolution
      → Bool
      → ApiError
      → List RunnerStage
      → RunnerEnd
      → List (EvaluateAction Resolution) × Bool
  execute_paid_run state active unsealed stages end =
      if can_start_paid_run state active
      then (begin_run ∷ (map (λ s. stage_reached s) stages ++ last_action unsealed end ∷ []), true)
      else ([], false)

  -- The reducer over a list of actions.
  unfoldable pub dispatch_all :
      EvaluateState Resolution → List (EvaluateAction Resolution) → EvaluateState Resolution
  unfolding evaluate_reducer
  dispatch_all state [] = state
  dispatch_all state (a ∷ rest) = dispatch_all (evaluate_reducer state a) rest
