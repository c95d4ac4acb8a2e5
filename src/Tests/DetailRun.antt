-- ===== src/Tests/DetailRun.antt =====
-- A decision whose lease observation has expired.
use g_sentinel.Base.{◌≡◌, ◌↔◌, some}
use g_sentinel.Verdict.{verified}
use g_sentinel.Detail.{Observation, Observations, current_decision}
use g_sentinel.Detail.Laws.{IsFresh, current_decision-verified}

abbrev fresh : Observation
fresh = record { status = verified; freshness_expires_at = 2000; reason = some "ALLOWED" }

abbrev old : Observation
old = record { status = verified; freshness_expires_at = 900; reason = some "ALLOWED" }

abbrev observations : Observations
observations = record { identity = fresh; lease = old; gate = fresh; consumer = fresh }

current_decision-verified_example :
    ((current_decision observations 1000).status ≡ verified)
    ↔ (IsFresh 1000 fresh × IsFresh 1000 old × IsFresh 1000 fresh × IsFresh 1000 fresh)
current_decision-verified_example = current_decision-verified observations 1000
