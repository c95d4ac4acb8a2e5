-- ===== src/Evaluate.antt =====
-- frontend/lib/evaluate-state.ts: the reducer of the paid evaluation, and the paid run. The identity, the lock and the gate decision that a
-- resolution gives are one value here: the reducer stores and clears the three together.
pub mod Run
pub mod Coordinator
pub mod Awaits
pub mod Settles
pub mod Laws
use g_sentinel.Base.{
  ℕ, String, Bool, true, false, not, ◌&&◌, ◌||◌, Option, none, some, List, [], ◌∷◌, ◌++◌, ◌==◌, eqb,
  any, if◌then◌else◌, or_else,
}

pub data RunnerStage : Type 0 where
  validating_identity classifying_subject running_deterministic_checks running_compute : RunnerStage
  canonicalizing_evidence uploading_storage verifying_storage writing_chain : RunnerStage
  reading_chain_back sealed : RunnerStage

-- The texts of the stages.
unfoldable pub stage_name : RunnerStage → String
stage_name validating_identity = "VALIDATING_IDENTITY"
stage_name classifying_subject = "CLASSIFYING_SUBJECT"
stage_name running_deterministic_checks = "RUNNING_DETERMINISTIC_CHECKS"
stage_name running_compute = "RUNNING_COMPUTE"
stage_name canonicalizing_evidence = "CANONICALIZING_EVIDENCE"
stage_name uploading_storage = "UPLOADING_STORAGE"
stage_name verifying_storage = "VERIFYING_STORAGE"
stage_name writing_chain = "WRITING_CHAIN"
stage_name reading_chain_back = "READING_CHAIN_BACK"
stage_name sealed = "SEALED"

abbrev runner_stages : List RunnerStage
runner_stages =
    validating_identity ∷ classifying_subject ∷ running_deterministic_checks ∷ running_compute
    ∷ canonicalizing_evidence ∷ uploading_storage ∷ verifying_storage ∷ writing_chain
    ∷ reading_chain_back ∷ sealed ∷ []

find_stage : String → List RunnerStage → Option RunnerStage
unfolding stage_name
find_stage value [] = none
find_stage value (s ∷ rest) = if stage_name s == value then some s else find_stage value rest

-- `runnerStage`
unfoldable pub runner_stage : String → Option RunnerStage
unfolding find_stage
runner_stage value = find_stage value runner_stages

abbrev stage_index : RunnerStage → ℕ
stage_index validating_identity = 0
stage_index classifying_subject = 1
stage_index running_deterministic_checks = 2
stage_index running_compute = 3
stage_index canonicalizing_evidence = 4
stage_index uploading_storage = 5
stage_index verifying_storage = 6
stage_index writing_chain = 7
stage_index reading_chain_back = 8
stage_index sealed = 9

abbrev pub same_stage : RunnerStage → RunnerStage → Bool
same_stage a b = eqb (stage_index a) (stage_index b)

pub record ApiError : Type 0 where
  pub code : String
  pub message : String
  pub stage : String
  pub retryable : Bool
  pub request_id : String

pub data EvaluatePhase : Type 0 where
  idle resolving resolve_error resolved running failed completed : EvaluatePhase

pub data WriteStatus : Type 0 where
  not_started in_progress failed succeeded : WriteStatus

pub data Refresh : Type 0 where
  absent awaiting refreshing complete : Refresh
  failed : ApiError → Refresh

pub record EvaluateState (Resolution : Type 0) : Type 0 where
  pub phase : EvaluatePhase
  pub generation : ℕ
  pub agent_id : String
  pub operator_token : String
  pub resolution : Option Resolution
  pub stages : List RunnerStage
  pub failure : Option (RunnerStage × String)
  pub error : Option ApiError
  pub write_outcome : WriteStatus
  pub refresh : Refresh

pub data EvaluateAction (Resolution : Type 0) : Type 0 where
  edit_identity : String → ℕ → EvaluateAction Resolution
  edit_operator_token : String → EvaluateAction Resolution
  clear_operator_token : EvaluateAction Resolution
  begin_resolve cancel_resolve : ℕ → EvaluateAction Resolution
  resolve_succeeded : ℕ → String → Resolution → EvaluateAction Resolution
  resolve_failed : ℕ → String → ApiError → EvaluateAction Resolution
  begin_run : EvaluateAction Resolution
  stage_reached : RunnerStage → EvaluateAction Resolution
  run_succeeded : EvaluateAction Resolution
  run_failed : ApiError → EvaluateAction Resolution
  run_interrupted recovery_succeeded recovery_definitive : EvaluateAction Resolution
  recovery_progress_updated : EvaluateAction Resolution
  begin_completion_refresh : ℕ → EvaluateAction Resolution
  completion_refresh_succeeded : ℕ → String → Resolution → EvaluateAction Resolution
  completion_refresh_failed : ℕ → String → ApiError → EvaluateAction Resolution

abbrev pub can_retry : EvaluatePhase → Bool
can_retry resolved = true
can_retry EvaluatePhase.failed = true
can_retry _ = false

abbrev pub is_resolving : EvaluatePhase → Bool
is_resolving resolving = true
is_resolving _ = false

abbrev pub is_running : EvaluatePhase → Bool
is_running running = true
is_running _ = false

abbrev pub is_failed : EvaluatePhase → Bool
is_failed EvaluatePhase.failed = true
is_failed _ = false

abbrev pub is_completed : EvaluatePhase → Bool
is_completed completed = true
is_completed _ = false

abbrev pub is_awaiting : Refresh → Bool
is_awaiting awaiting = true
is_awaiting _ = false

abbrev pub is_refreshing : Refresh → Bool
is_refreshing refreshing = true
is_refreshing _ = false

-- `stages.at(-1)`
abbrev last_stage : List RunnerStage → Option RunnerStage
last_stage [] = none
last_stage (s ∷ rest) = or_else (last_stage rest) (some s)

abbrev stage_or : Option RunnerStage → RunnerStage → RunnerStage
stage_or none d = d
stage_or (some s) d = s

module _ {Resolution : Type 0} where
  abbrev pub idle_state : String → ℕ → EvaluateState Resolution
  idle_state agent_id generation = record {
    phase = idle;
    generation = generation;
    agent_id = agent_id;
    operator_token = "";
    resolution = none;
    stages = [];
    failure = none;
    error = none;
    write_outcome = not_started;
    refresh = absent;
  }

  unfoldable pub identity_locked : EvaluateState Resolution → Bool
  identity_locked state =
      is_running state.phase
      || (is_completed state.phase && (is_awaiting state.refresh || is_refreshing state.refresh))

  abbrev matches_resolve : EvaluateState Resolution → ℕ → String → Bool
  matches_resolve state generation requested =
      is_resolving state.phase && eqb state.generation generation && state.agent_id == requested

  abbrev matches_completion_refresh : EvaluateState Resolution → ℕ → String → Bool
  matches_completion_refresh state generation requested =
      is_completed state.phase
      && is_refreshing state.refresh
      && eqb state.generation generation
      && state.agent_id == requested

  -- The end of a paid run that was sealed: `runSucceeded` and `recoverySucceeded`.
  abbrev completed_state : EvaluateState Resolution → EvaluateState Resolution
  completed_state state = record state {
    phase = completed;
    operator_token = "";
    failure = none;
    error = none;
    write_outcome = succeeded;
    refresh = awaiting;
  }

  -- `recoveryDefinitive`
  abbrev recovered_state : EvaluateState Resolution → EvaluateState Resolution
  recovered_state state =
      if is_failed state.phase
      then record state {
        phase = resolved;
        stages = [];
        failure = none;
        error = none;
        write_outcome = not_started;
      }
      else state

  unfoldable pub evaluate_reducer :
      EvaluateState Resolution → EvaluateAction Resolution → EvaluateState Resolution
  unfolding identity_locked runner_stage
  evaluate_reducer state (edit_identity agent_id generation) =
      if identity_locked state then state else idle_state agent_id generation
  evaluate_reducer state (edit_operator_token token) =
      if can_retry state.phase then record state { operator_token = token } else state
  evaluate_reducer state clear_operator_token =
      if state.operator_token == "" then state else record state { operator_token = "" }
  evaluate_reducer state (begin_resolve generation) =
      if state.agent_id == "" || identity_locked state
      then state
      else (let fresh : EvaluateState Resolution = idle_state state.agent_id generation in
          record fresh { phase = resolving })
  evaluate_reducer state (cancel_resolve generation) =
      if is_resolving state.phase && eqb state.generation generation
      then idle_state state.agent_id generation
      else state
  evaluate_reducer state (resolve_succeeded generation requested resolution) =
      if matches_resolve state generation requested
      then (let fresh : EvaluateState Resolution = idle_state requested generation in
          record fresh { phase = resolved; resolution = some resolution })
      else state
  evaluate_reducer state (resolve_failed generation requested error) =
      if matches_resolve state generation requested
      then (let fresh : EvaluateState Resolution = idle_state state.agent_id state.generation in
          record fresh { phase = resolve_error; error = some error })
      else state
  evaluate_reducer state begin_run =
      if can_retry state.phase && not (state.operator_token == "")
      then record state {
        phase = running;
        stages = [];
        failure = none;
        error = none;
        write_outcome = in_progress;
      }
      else state
  evaluate_reducer state (stage_reached stage) =
      if is_running state.phase && not (any (same_stage stage) state.stages)
      then record state { stages = state.stages ++ stage ∷ [] }
      else state
  evaluate_reducer state run_succeeded =
      if is_running state.phase then completed_state state else state
  evaluate_reducer state (run_failed error) =
      if is_running state.phase
      then record state {
        phase = EvaluatePhase.failed;
        operator_token = "";
        error = some error;
        failure = some (
          stage_or (or_else (runner_stage error.stage) (last_stage state.stages))
              validating_identity,
          error.code,
        );
        write_outcome = WriteStatus.failed;
      }
      else state
  evaluate_reducer state run_interrupted =
      if is_running state.phase
      then record state {
        phase = resolved;
        operator_token = "";
        stages = [];
        failure = none;
        error = none;
        write_outcome = not_started;
      }
      else state
  evaluate_reducer state recovery_succeeded =
      if is_failed state.phase then completed_state state else state
  evaluate_reducer state recovery_definitive = recovered_state state
  evaluate_reducer state recovery_progress_updated = recovered_state state
  evaluate_reducer state (begin_completion_refresh generation) =
      if is_completed state.phase && is_awaiting state.refresh
      then record state { generation = generation; refresh = refreshing }
      else state
  evaluate_reducer state (completion_refresh_succeeded generation requested resolution) =
      if matches_completion_refresh state generation requested
      then record state { resolution = some resolution; refresh = complete }
      else state
  evaluate_reducer state (completion_refresh_failed generation requested error) =
      if matches_completion_refresh state generation requested
      then record state { refresh = Refresh.failed error }
      else state

  abbrev pub initial_evaluate_state : EvaluateState Resolution
  initial_evaluate_state = idle_state "" 0
