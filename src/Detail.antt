-- ===== src/Detail.antt =====
-- frontend/lib/proof-detail-state.ts: the decision that the page draws from the four current
-- observations, with `observationStatusAt` of frontend/lib/prooflock-observations.ts. The
-- observations are those that `assertObservation` let through, and their expiry is in milliseconds.
pub mod Laws
use g_sentinel.Base.{
  ℕ, String, Bool, true, false, Option, none, some, List, [], ◌∷◌, map, eqb, leb, any, all,
  if◌then◌else◌,
}
use g_sentinel.Verdict.{
  ObservationStatus, verified, blocked, unavailable, stale, mismatch, not_applicable, status_text,
  CurrentDecision,
}

-- A current observation, and the reason of its entry.
pub record Observation : Type 0 where
  pub status : ObservationStatus
  pub freshness_expires_at : ℕ
  pub reason : Option String

-- `access.observations`
pub record Observations : Type 0 where
  pub identity : Observation
  pub lease : Observation
  pub gate : Observation
  pub consumer : Observation

abbrev pub entries : Observations → List Observation
entries o = o.identity ∷ o.lease ∷ o.gate ∷ o.consumer ∷ []

abbrev expires : ObservationStatus → Bool
expires verified = true
expires blocked = true
expires _ = false

-- `observationStatusAt`, for a current observation
unfoldable pub observation_status_at : ℕ → Observation → ObservationStatus
observation_status_at now_ms o =
    if expires o.status
    then (if leb o.freshness_expires_at now_ms then stale else o.status)
    else o.status

abbrev pub status_index : ObservationStatus → ℕ
status_index verified = 0
status_index blocked = 1
status_index unavailable = 2
status_index stale = 3
status_index mismatch = 4
status_index not_applicable = 5

abbrev pub same_status : ObservationStatus → ObservationStatus → Bool
same_status a b = eqb (status_index a) (status_index b)

abbrev pub precedence : List ObservationStatus
precedence = mismatch ∷ stale ∷ blocked ∷ not_applicable ∷ unavailable ∷ []

-- `precedence.find(…) ?? …`
unfoldable pub first_of : List ObservationStatus → List ObservationStatus → ObservationStatus
first_of [] effective = if all (same_status verified) effective then verified else unavailable
first_of (candidate ∷ rest) effective =
    if any (same_status candidate) effective then candidate else first_of rest effective

-- The reason of the first entry with the status, or the status.
unfoldable pub reason_of : ℕ → ObservationStatus → List Observation → String
reason_of now_ms status [] = status_text status
reason_of now_ms status (o ∷ rest) =
    if same_status (observation_status_at now_ms o) status
    then elim o.reason [ none ↦ status_text status | some reason ↦ reason ]
    else reason_of now_ms status rest

abbrev reason_for : ℕ → Observations → ObservationStatus → String
reason_for now_ms o verified = "ALLOWED"
reason_for now_ms o stale = "OBSERVATION_EXPIRED"
reason_for now_ms o status = reason_of now_ms status (entries o)

-- `currentDecision`
unfoldable pub current_decision : Observations → ℕ → CurrentDecision
current_decision o now_ms =
    let status = first_of precedence (map (observation_status_at now_ms) (entries o)) in
    record { status = status; reason = reason_for now_ms o status }
