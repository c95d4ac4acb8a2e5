-- ===== src/Tests/ResolutionRun.antt =====
-- A resolution that is under way, and its end.
use g_sentinel.Base.{String, true, false, ◌≡◌, ◌≢◌, refl, none, some}
use g_sentinel.Evaluate.{EvaluateState, initial_evaluate_state, completed, resolving, refreshing}
use g_sentinel.Evaluate.Coordinator.{
  ActiveRequest, resolve_request, edit, resolve, loaded, new_coordinator, Turn, coordinate,
}
use g_sentinel.Evaluate.Awaits.{deliver, IsAwaited}
use g_sentinel.Evaluate.Settles.{
  EvaluateReach, opened, then_event, edits, resolves, EvaluateReach-IsAwaited, by_value,
  EndsLoad-released,
}

abbrev typed : Turn String
typed = coordinate new_coordinator (edit "7")

abbrev typed_page : EvaluateState String
typed_page = deliver initial_evaluate_state typed.1

abbrev asked : Turn String
asked = coordinate typed.0 (resolve typed_page.agent_id true)

abbrev asked_page : EvaluateState String
asked_page = deliver typed_page asked.1

reached : EvaluateReach false asked.0 asked_page
reached = then_event (then_event opened (edit "7") (edits "7")) _ (resolves true)

EvaluateReach-IsAwaited_example :
    (false ≡ false → IsAwaited asked.0 asked_page)
    × (asked.0.disposed ≡ true → asked.0.active ≡ none)
EvaluateReach-IsAwaited_example = EvaluateReach-IsAwaited false asked.0 asked_page reached

abbrev request : ActiveRequest
request = record { kind = resolve_request; generation = 2; agent_id = "7" }

in_use : asked.0.disposed ≡ false
unfolding coordinate
in_use = refl

holds_request : asked.0.active ≡ some request
unfolding coordinate deliver g_sentinel.Evaluate.evaluate_reducer
holds_request = refl

EndsLoad-released_example :
    ((deliver asked_page (coordinate asked.0 (loaded request "value")).1).phase ≢ resolving)
    × ((deliver asked_page (coordinate asked.0 (loaded request "value")).1).phase ≡ completed
        → (deliver asked_page (coordinate asked.0 (loaded request "value")).1).refresh ≢ refreshing)
EndsLoad-released_example =
    EndsLoad-released asked.0 asked_page request (loaded request "value") reached in_use
      holds_request (by_value "value")
