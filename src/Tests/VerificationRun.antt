-- ===== src/Tests/VerificationRun.antt =====
-- A verification that was started, and one that was disposed of.
use g_sentinel.Base.{String, true, false, ◌≡◌, refl, some, none, is_some, []}
use g_sentinel.Verification.{
  VerificationState, HistoricalFailure, admitted, is_active, is_reading, initial_verification_state,
}
use g_sentinel.Verification.Laws.{run}
use g_sentinel.Verification.Coordinator.{
  Identifiers, Mappings, TimedRequest, historical_plane, Event, set_identifiers, start_verifying,
  timer_fired, Coordinator, new_coordinator, Turn, coordinate,
}
use g_sentinel.Verification.Mirror.{
  CoordinatorReach, begun, then_event, Reach-mirrored, disposed_is_silent,
}

abbrev identifiers : Identifiers
identifiers = record { proof_id = "p"; identity_key = "k"; source_tx_hash = none }

abbrev mappings : Mappings String String
mappings = record {
  map_historical_error = λ cause kind. HistoricalFailure.mismatch;
  map_current_access = λ detail. some (admitted, "ALLOWED");
  is_unavailable = λ detail. false;
}

abbrev VerificationEvent : Type 0
VerificationEvent = Event String String String

abbrev identified : VerificationEvent
identified = set_identifiers identifiers

abbrev started : VerificationEvent
started = start_verifying false

abbrev first : Turn String
first = coordinate mappings new_coordinator identified

abbrev second : Turn String
second = coordinate mappings first.0 started

abbrev first_page : VerificationState String
first_page = run initial_verification_state first.1

abbrev second_page : VerificationState String
second_page = run first_page second.1

reached : CoordinatorReach mappings second.0 second_page
reached = then_event (then_event begun identified) started

is_in_use : second.0.active ≡ true
unfolding coordinate g_sentinel.Verification.Coordinator.identifiers_equal
is_in_use = refl

Reach-mirrored_example :
    (second_page.generation ≡ second.0.generation)
    × (is_active second_page.historical ≡ is_some second.0.historical)
    × (is_reading second_page.current ≡ is_some second.0.current)
Reach-mirrored_example = Reach-mirrored mappings second.0 second_page reached is_in_use

abbrev disposed : Coordinator
disposed = record new_coordinator { active = false; generation = 1 }

abbrev late : TimedRequest
late = record { id = 0; generation = 0; abort_kind = none }

abbrev timer : VerificationEvent
timer = timer_fired historical_plane late

disposed_is_silent_example : coordinate mappings disposed timer ≡ (disposed, [])
disposed_is_silent_example = disposed_is_silent mappings disposed timer refl refl
