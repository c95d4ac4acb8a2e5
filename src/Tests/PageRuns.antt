-- ===== src/Tests/PageRuns.antt =====
-- States of the pages, and the statements about them.
use g_sentinel.Base.{
  if◌then◌else◌, String, ℕ, ◌≡◌, ◌<◌, ◌≤◌, refl, some, List, [], ◌∷◌, Bool, true, false, ◌⊎◌, ◌↔◌,
  arith,
}
use g_sentinel.Status.{
  ProofLockRecord, Gate, Consumer, active, expiring, lease_status, safe_seconds, InventoryItem,
  Detail,
}
use g_sentinel.Status.Laws.{lease_status-live}
use g_sentinel.Verdict.{
  VerdictTone, GateVerdict, good, CurrentDecision, verified, agent_verdict, coverage_gloss,
}
use g_sentinel.Verdict.Laws.{SessionTone, agent_verdict-tone, coverage_gloss-complete}
use g_sentinel.Verification.{
  VerificationAction, VerificationState, start, historical_match, current_start,
  verification_reducer, initial_verification_state,
}
use g_sentinel.Verification.Laws.{run, IsOrdered, run-IsOrdered, stale_ignored}
use g_sentinel.Evaluate.{
  EvaluateState, EvaluateAction, running_compute, ApiError, edit_identity, begin_resolve,
  resolve_succeeded, edit_operator_token, begin_run, evaluate_reducer, initial_evaluate_state,
  idle_state, resolved, running, in_progress, completed, succeeded, refreshing,
  completion_refresh_succeeded, identity_locked, is_completed, is_running,
}
use g_sentinel.Evaluate.Run.{
  sealed_result, sealed, can_start_paid_run, execute_paid_run, dispatch_all,
}
use g_sentinel.Evaluate.Laws.{
  IsAnswer, IsShaped, dispatch_all-IsShaped, locked_keeps_identity, execute_paid_run-ends,
}

abbrev lock : ProofLockRecord
lock = record { subject = "0xA"; version = "3"; valid_until = "1000000"; coverage = 127; state = 1 }

abbrev gate : Gate
gate = Gate.verified true 0 "0xa" "3"

abbrev consumer : Consumer
consumer = Consumer.verified true "0xA" "3"

lease_status-live_example :
    ((lease_status lock 5000 ≡ active) ⊎ (lease_status lock 5000 ≡ expiring))
    ↔ ((lock.state ≡ 1) × (lock.coverage ≡ 127) × (5000 < safe_seconds "1000000"))
lease_status-live_example = lease_status-live lock 5000

abbrev item : InventoryItem
item = InventoryItem.verified "key" 9 lock (Detail.verified "0xa" gate consumer)

abbrev decision : CurrentDecision
decision = record { status = verified; reason = "ALLOWED" }

agent_verdict-tone_example :
    let v = agent_verdict "7" (some GateVerdict.unknown) (some decision) lock 5000 in
    (true ≡ true → SessionTone v (some decision))
    × ((allows : Bool) (reason : ℕ)
        → some GateVerdict.unknown ≡ some (GateVerdict.verified allows reason)
        → v.tone ≡ (if allows then good else VerdictTone.blocked))
agent_verdict-tone_example =
    agent_verdict-tone "7" (some GateVerdict.unknown) (some decision) lock 5000

coverage_gloss-complete_example :
    ((coverage_gloss (some 95)).ran ≡ 7) ↔ ((coverage_gloss (some 95)).complete ≡ true)
coverage_gloss-complete_example = coverage_gloss-complete 95 (omega arith)

abbrev verification_actions : List (VerificationAction String)
verification_actions = start 1 false ∷ historical_match 1 "proof" ∷ current_start 1 ∷ []

run-IsOrdered_example : IsOrdered (run initial_verification_state verification_actions)
run-IsOrdered_example = run-IsOrdered verification_actions

abbrev later_state : VerificationState String
later_state = record initial_verification_state { generation = 5 }

stale_ignored_example :
    (4 < 5 → verification_reducer later_state (start 4 true) ≡ later_state)
    × (5 ≤ (verification_reducer later_state (start 4 true)).generation)
stale_ignored_example = stale_ignored later_state (start 4 true)

abbrev evaluate_actions : List (EvaluateAction String)
evaluate_actions =
    edit_identity "7" 1
    ∷ begin_resolve 2
    ∷ resolve_succeeded 2 "7" "resolution"
    ∷ edit_operator_token "token"
    ∷ begin_run
    ∷ []

dispatch_all-IsShaped_example : IsShaped (dispatch_all initial_evaluate_state evaluate_actions)
dispatch_all-IsShaped_example = dispatch_all-IsShaped evaluate_actions

abbrev ready : EvaluateState String
ready = record (idle_state "7" 2) {
  phase = resolved;
  resolution = some "resolution";
  operator_token = "token";
}

abbrev running_state : EvaluateState String
running_state = record ready { phase = running; write_outcome = in_progress }

abbrev refreshing_state : EvaluateState String
refreshing_state = record ready {
  phase = completed;
  write_outcome = succeeded;
  refresh = refreshing;
}

refreshing_is_locked : identity_locked refreshing_state ≡ true
unfolding identity_locked
refreshing_is_locked = refl

abbrev answer : EvaluateAction String
answer = completion_refresh_succeeded 2 "7" "newer"

locked_keeps_identity_example :
    ((evaluate_reducer refreshing_state answer).agent_id ≡ "7")
    × (((evaluate_reducer refreshing_state answer).resolution ≡ refreshing_state.resolution)
        ⊎ ((value : String) × IsAnswer refreshing_state answer value
            × ((evaluate_reducer refreshing_state answer).resolution ≡ some value)))
locked_keeps_identity_example = locked_keeps_identity refreshing_state answer refreshing_is_locked

abbrev unsealed : ApiError
unsealed = record {
  code = "UNSEALED";
  message = "";
  stage = "";
  retryable = false;
  request_id = "";
}

ready_starts : can_start_paid_run ready false ≡ true
unfolding can_start_paid_run
ready_starts = refl

execute_paid_run-ends_example :
    let t : EvaluateState String =
      dispatch_all ready
        (execute_paid_run ready false unsealed (running_compute ∷ []) (sealed_result sealed)).0 in
    (is_completed t.phase ≡ true)
    × (is_running t.phase ≡ false)
    × (t.operator_token ≡ "")
    × (t.agent_id ≡ "7")
    × (t.resolution ≡ some "resolution")
execute_paid_run-ends_example =
    execute_paid_run-ends ready false unsealed (running_compute ∷ []) (sealed_result sealed)
      ready_starts
