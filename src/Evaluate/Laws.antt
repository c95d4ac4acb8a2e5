-- ===== src/Evaluate/Laws.antt =====
-- What the reducer of evaluate-state.ts keeps, whatever actions arrive.
use g_sentinel.Base.{
  ℕ, String, Bool-cases, inl, inr, ◌⊎◌, eq_iff, Bool, true, false, not, none, some, List, [], ◌∷◌,
  ◌++◌, map, ◌≡◌, refl, sym, arith, is_some,
}
use g_sentinel.Evaluate.{
  matches_completion_refresh, refreshing, RunnerStage, ApiError, EvaluatePhase, idle, resolving,
  resolve_error, resolved, running, completed, WriteStatus, not_started, in_progress, succeeded,
  Refresh, absent, EvaluateState, EvaluateAction, edit_identity, edit_operator_token,
  clear_operator_token, begin_resolve, cancel_resolve, resolve_succeeded, resolve_failed, begin_run,
  stage_reached, run_succeeded, run_failed, run_interrupted, recovery_succeeded,
  recovery_definitive, recovery_progress_updated, begin_completion_refresh,
  completion_refresh_succeeded, completion_refresh_failed, is_failed, is_completed, is_running,
  identity_locked, evaluate_reducer, initial_evaluate_state,
}
use g_sentinel.Evaluate.Run.{
  sealed_result, existing_operation, aborted, threw, RunnerEnd, sealed, other, can_start_paid_run,
  execute_paid_run, dispatch_all, sealed_write_outcome, last_action,
}

-- The write outcome that goes with each phase.
abbrev pub outcome_of : EvaluatePhase → WriteStatus
outcome_of idle = not_started
outcome_of resolving = not_started
outcome_of resolve_error = not_started
outcome_of resolved = not_started
outcome_of running = in_progress
outcome_of EvaluatePhase.failed = WriteStatus.failed
outcome_of completed = succeeded

-- The phases that have a resolution.
abbrev pub has_resolution : EvaluatePhase → Bool
has_resolution idle = false
has_resolution resolving = false
has_resolution resolve_error = false
has_resolution _ = true

abbrev pub has_error : EvaluatePhase → Bool
has_error resolve_error = true
has_error EvaluatePhase.failed = true
has_error _ = false

-- The phases that may hold an operator's token.
abbrev pub may_hold_token : EvaluatePhase → Bool
may_hold_token resolved = true
may_hold_token running = true
may_hold_token EvaluatePhase.failed = true
may_hold_token _ = false

abbrev pub is_absent : Refresh → Bool
is_absent absent = true
is_absent _ = false

module _ {Resolution : Type 0} where
  -- The union of the states' types in evaluate-state.ts: what goes with each phase.
  abbrev pub IsShaped : EvaluateState Resolution → Type 0
  IsShaped s =
      (s.write_outcome ≡ outcome_of s.phase)
      × (is_some s.resolution ≡ has_resolution s.phase)
      × (is_some s.error ≡ has_error s.phase)
      × (is_some s.failure ≡ is_failed s.phase)
      × (is_absent s.refresh ≡ not (is_completed s.phase))
      × (may_hold_token s.phase ≡ false → s.operator_token ≡ "")

  reducer-IsShaped :
      (s : EvaluateState Resolution) (a : EvaluateAction Resolution)
      → IsShaped s
      → IsShaped (evaluate_reducer s a)
  unfolding evaluate_reducer identity_locked
  reducer-IsShaped s (edit_identity agent_id generation) h = ground arith
  reducer-IsShaped s (edit_operator_token token) h = ground arith
  reducer-IsShaped s clear_operator_token h = ground arith
  reducer-IsShaped s (begin_resolve generation) h = ground arith
  reducer-IsShaped s (cancel_resolve generation) h = ground arith
  reducer-IsShaped s (resolve_succeeded generation requested resolution) h = ground arith
  reducer-IsShaped s (resolve_failed generation requested error) h = ground arith
  reducer-IsShaped s begin_run h = ground arith
  reducer-IsShaped s (stage_reached stage) h = ground arith
  reducer-IsShaped s run_succeeded h = ground arith
  reducer-IsShaped s (run_failed error) h = ground arith
  reducer-IsShaped s run_interrupted h = ground arith
  reducer-IsShaped s recovery_succeeded h = ground arith
  reducer-IsShaped s recovery_definitive h = ground arith
  reducer-IsShaped s recovery_progress_updated h = ground arith
  reducer-IsShaped s (begin_completion_refresh generation) h = ground arith
  reducer-IsShaped s (completion_refresh_succeeded generation requested resolution) h = ground arith
  reducer-IsShaped s (completion_refresh_failed generation requested error) h = ground arith

  dispatch-IsShaped :
      (s : EvaluateState Resolution) (actions : List (EvaluateAction Resolution))
      → IsShaped s
      → IsShaped (dispatch_all s actions)
  unfolding dispatch_all
  dispatch-IsShaped s [] h = h
  dispatch-IsShaped s (a ∷ rest) h =
      dispatch-IsShaped (evaluate_reducer s a) rest (reducer-IsShaped s a h)

  -- Whatever actions the page dispatches, in whatever order, the write outcome, the resolution, the
  -- error, the failure and the refresh are those of the phase, and a phase outside of resolved, running
  -- and failed holds no operator token.
  pub dispatch_all-IsShaped :
      (actions : List (EvaluateAction Resolution))
      → IsShaped (dispatch_all initial_evaluate_state actions)
  dispatch_all-IsShaped actions =
      dispatch-IsShaped initial_evaluate_state actions (refl, refl, refl, refl, refl, λ h. refl)

  -- The action is the answer to the refresh that a completed page waits for, of its generation and
  -- its agent.
  abbrev pub IsAnswer : EvaluateState Resolution → EvaluateAction Resolution → Resolution → Type 0
  IsAnswer s a value =
      (s.phase ≡ completed)
      × (s.refresh ≡ refreshing)
      × (a ≡ completion_refresh_succeeded s.generation s.agent_id value)

  refreshed_keeps_identity :
      (s : EvaluateState Resolution) (generation : ℕ) (requested : String) (resolution : Resolution)
      → let a = completion_refresh_succeeded generation requested resolution in
        ((evaluate_reducer s a).agent_id ≡ s.agent_id)
        × (((evaluate_reducer s a).resolution ≡ s.resolution)
            ⊎ ((value : Resolution) × IsAnswer s a value
                × ((evaluate_reducer s a).resolution ≡ some value)))
  unfolding evaluate_reducer
  refreshed_keeps_identity s generation requested resolution =
      elim (Bool-cases (matches_completion_refresh s generation requested)) [
        | inr other_one ↦ rw other_one (refl, inl refl)
        | inl fits ↦
            let g : generation ≡ s.generation = ground (arith, fits) in
            let r : s.agent_id ≡ requested = ground (arith, fits, eq_iff s.agent_id requested) in
            let c : s.phase ≡ completed = ground (arith, fits) in
            let w : s.refresh ≡ refreshing = ground (arith, fits) in
            rw fits (refl, inr (resolution, (c, w, rw (g, sym r) refl), refl))
      ]

  -- While a run is going on, or a completed run waits for its refresh, every action keeps the agent
  -- id, and keeps the resolution too, with the one exception of the answer to the refresh that the
  -- page waits for, of its own generation and agent, whose resolution then takes its place.
  pub locked_keeps_identity :
      (s : EvaluateState Resolution) (a : EvaluateAction Resolution)
      → identity_locked s ≡ true
      → ((evaluate_reducer s a).agent_id ≡ s.agent_id)
        × (((evaluate_reducer s a).resolution ≡ s.resolution)
            ⊎ ((value : Resolution) × IsAnswer s a value
                × ((evaluate_reducer s a).resolution ≡ some value)))
  unfolding evaluate_reducer identity_locked
  locked_keeps_identity s (edit_identity agent_id generation) h = (ground arith, inl (ground arith))
  locked_keeps_identity s (edit_operator_token token) h = (ground arith, inl (ground arith))
  locked_keeps_identity s clear_operator_token h = (ground arith, inl (ground arith))
  locked_keeps_identity s (begin_resolve generation) h = (ground arith, inl (ground arith))
  locked_keeps_identity s (cancel_resolve generation) h = (ground arith, inl (ground arith))
  locked_keeps_identity s (resolve_succeeded generation requested resolution) h =
      (ground arith, inl (ground arith))
  locked_keeps_identity s (resolve_failed generation requested error) h =
      (ground arith, inl (ground arith))
  locked_keeps_identity s begin_run h = (ground arith, inl (ground arith))
  locked_keeps_identity s (stage_reached stage) h = (ground arith, inl (ground arith))
  locked_keeps_identity s run_succeeded h = (ground arith, inl (ground arith))
  locked_keeps_identity s (run_failed error) h = (ground arith, inl (ground arith))
  locked_keeps_identity s run_interrupted h = (ground arith, inl (ground arith))
  locked_keeps_identity s recovery_succeeded h = (ground arith, inl (ground arith))
  locked_keeps_identity s recovery_definitive h = (ground arith, inl (ground arith))
  locked_keeps_identity s recovery_progress_updated h = (ground arith, inl (ground arith))
  locked_keeps_identity s (begin_completion_refresh generation) h =
      (ground arith, inl (ground arith))
  locked_keeps_identity s (completion_refresh_succeeded generation requested resolution) h =
      refreshed_keeps_identity s generation requested resolution
  locked_keeps_identity s (completion_refresh_failed generation requested error) h =
      (ground arith, inl (ground arith))

  -- What a run keeps of the state that it started in.
  abbrev Keeps : EvaluateState Resolution → EvaluateState Resolution → Type 0
  Keeps s t =
      (is_running t.phase ≡ true) × (t.agent_id ≡ s.agent_id) × (t.resolution ≡ s.resolution)

  stage-Keeps :
      (s t : EvaluateState Resolution) (stage : RunnerStage)
      → Keeps s t
      → Keeps s (evaluate_reducer t (stage_reached stage))
  unfolding evaluate_reducer
  stage-Keeps s t stage k = ground arith

  begin-Keeps :
      (s : EvaluateState Resolution) (active : Bool)
      → can_start_paid_run s active ≡ true
      → Keeps s (evaluate_reducer s begin_run)
  unfolding evaluate_reducer can_start_paid_run
  begin-Keeps s active h = ground arith

  last-ends :
      (s t : EvaluateState Resolution) (unsealed : ApiError) (end : RunnerEnd)
      → Keeps s t
      → let t' : EvaluateState Resolution = evaluate_reducer t (last_action unsealed end) in
        (is_completed t'.phase ≡ sealed_write_outcome end)
        × (is_running t'.phase ≡ false)
        × (t'.operator_token ≡ "")
        × (t'.agent_id ≡ s.agent_id)
        × (t'.resolution ≡ s.resolution)
  unfolding evaluate_reducer
  last-ends s t unsealed (sealed_result sealed) k = ground arith
  last-ends s t unsealed (sealed_result other) k = ground arith
  last-ends s t unsealed (existing_operation none) k = ground arith
  last-ends s t unsealed (existing_operation (some sealed)) k = ground arith
  last-ends s t unsealed (existing_operation (some other)) k = ground arith
  last-ends s t unsealed aborted k = ground arith
  last-ends s t unsealed (threw error) k = ground arith

  stages-end :
      (s t : EvaluateState Resolution) (unsealed : ApiError) (stages : List RunnerStage)
      (end : RunnerEnd)
      → Keeps s t
      → let t' : EvaluateState Resolution =
          dispatch_all t (map (λ x. stage_reached x) stages ++ last_action unsealed end ∷ []) in
        (is_completed t'.phase ≡ sealed_write_outcome end)
        × (is_running t'.phase ≡ false)
        × (t'.operator_token ≡ "")
        × (t'.agent_id ≡ s.agent_id)
        × (t'.resolution ≡ s.resolution)
  unfolding dispatch_all
  stages-end s t unsealed [] end k = last-ends s t unsealed end k
  stages-end s t unsealed (x ∷ rest) end k =
      stages-end s (evaluate_reducer t (stage_reached x)) unsealed rest end (stage-Keeps s t x k)

  -- A paid run that may start leaves the running phase whichever stages its runner reports and however
  -- it ends, is completed exactly when the write was sealed, forgets the operator token, and keeps the
  -- identity and its resolution.
  pub execute_paid_run-ends :
      (s : EvaluateState Resolution) (active : Bool) (unsealed : ApiError)
      (stages : List RunnerStage) (end : RunnerEnd)
      → can_start_paid_run s active ≡ true
      → let t : EvaluateState Resolution =
          dispatch_all s (execute_paid_run s active unsealed stages end).0 in
        (is_completed t.phase ≡ sealed_write_outcome end)
        × (is_running t.phase ≡ false)
        × (t.operator_token ≡ "")
        × (t.agent_id ≡ s.agent_id)
        × (t.resolution ≡ s.resolution)
  unfolding execute_paid_run dispatch_all
  execute_paid_run-ends s active unsealed stages end h =
      rw h
        (stages-end s (evaluate_reducer s begin_run) unsealed stages end (begin-Keeps s active h))
