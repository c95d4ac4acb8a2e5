-- ===== src/Verification/Mirror.antt =====
-- The page and the coordinator: the page is the reducer on the actions that the coordinator dispatches.
use g_sentinel.Base.{Bool, true, false, [], ◌≡◌, ◌≤◌, arith, is_some}
use g_sentinel.Verification.{
  VerificationState, verification_reducer, initial_verification_state, is_match, is_active,
  is_reading,
}
use g_sentinel.Verification.Laws.{run}
use g_sentinel.Verification.Coordinator.{
  TimedRequest, Plane, historical_plane, current_plane, Coordinator, new_coordinator, Mappings,
  Event, set_identifiers, start_verifying, cancel, dispose, proof_returned, proof_failed,
  detail_returned, detail_failed, timer_fired, Turn, Identifiers, coordinate, request_is_active,
}

module _ {Proof : Type 0} where
  -- The page shows what the coordinator waits for.
  pub Mirrors : Coordinator → VerificationState Proof → Type 0
  Mirrors c page =
      (page.generation ≤ c.generation)
      × (c.active ≡ true → page.generation ≡ c.generation)
      × (c.active ≡ true → is_active page.historical ≡ is_some c.historical)
      × (c.active ≡ true → is_reading page.current ≡ is_some c.current)
      × (is_some c.current ≡ true → is_match page.historical ≡ true)

  -- After a turn the page has got the actions that the turn dispatched.
  abbrev TurnMirrors : VerificationState Proof → Turn Proof → Type 0
  TurnMirrors page turn = Mirrors turn.0 (run page turn.1)

module _ {Cause Detail : Type 0} (mappings : Mappings Cause Detail) {Proof : Type 0} where
  set_identifiers-Mirrors :
      (c : Coordinator) (page : VerificationState Proof) (identifiers : Identifiers)
      → Mirrors c page
      → TurnMirrors page (coordinate mappings c (set_identifiers identifiers))
  unfolding Mirrors coordinate run verification_reducer
  set_identifiers-Mirrors c page identifiers h = ground arith

  start_verifying-Mirrors :
      (c : Coordinator) (page : VerificationState Proof) (retry : Bool)
      → Mirrors c page
      → TurnMirrors page (coordinate mappings c (start_verifying retry))
  unfolding Mirrors coordinate run verification_reducer
  start_verifying-Mirrors c page retry h = ground arith

  dispose-Mirrors :
      (c : Coordinator) (page : VerificationState Proof)
      → Mirrors c page
      → TurnMirrors page (coordinate mappings c dispose)
  unfolding Mirrors coordinate run verification_reducer
  dispose-Mirrors c page h = ground arith

  proof_returned-Mirrors :
      (c : Coordinator) (page : VerificationState Proof) (request : TimedRequest) (proof : Proof)
      → Mirrors c page
      → TurnMirrors page (coordinate mappings c (proof_returned request proof))
  unfolding Mirrors coordinate run verification_reducer request_is_active
  proof_returned-Mirrors c page request proof h = ground arith

  proof_failed-Mirrors :
      (c : Coordinator) (page : VerificationState Proof) (request : TimedRequest) (cause : Cause)
      → Mirrors c page
      → TurnMirrors page (coordinate mappings c (proof_failed request cause))
  unfolding Mirrors coordinate run verification_reducer request_is_active
  proof_failed-Mirrors c page request cause h = ground arith

  detail_returned-Mirrors :
      (c : Coordinator) (page : VerificationState Proof) (request : TimedRequest) (detail : Detail)
      → Mirrors c page
      → TurnMirrors page (coordinate mappings c (detail_returned request detail))
  unfolding Mirrors coordinate run verification_reducer request_is_active
  detail_returned-Mirrors c page request detail h = ground arith

  detail_failed-Mirrors :
      (c : Coordinator) (page : VerificationState Proof) (request : TimedRequest)
      → Mirrors c page
      → TurnMirrors page (coordinate mappings c (detail_failed request))
  unfolding Mirrors coordinate run verification_reducer request_is_active
  detail_failed-Mirrors c page request h = ground arith

  timer_fired-Mirrors :
      (c : Coordinator) (page : VerificationState Proof) (plane : Plane) (request : TimedRequest)
      → Mirrors c page
      → TurnMirrors page (coordinate mappings c (timer_fired plane request))
  unfolding Mirrors coordinate run verification_reducer request_is_active
  timer_fired-Mirrors c page historical_plane request h = ground arith
  timer_fired-Mirrors c page current_plane request h = ground arith

  cancel-Mirrors :
      (c : Coordinator) (page : VerificationState Proof) (plane : Plane)
      → Mirrors c page
      → TurnMirrors page (coordinate mappings c (cancel plane))
  unfolding Mirrors coordinate run verification_reducer request_is_active
  cancel-Mirrors c page historical_plane h = ground arith
  cancel-Mirrors c page current_plane h = ground arith

  coordinate-Mirrors :
      (c : Coordinator) (page : VerificationState Proof) (e : Event Proof Cause Detail)
      → Mirrors c page
      → TurnMirrors page (coordinate mappings c e)
  coordinate-Mirrors c page (set_identifiers identifiers) =
      set_identifiers-Mirrors c page identifiers
  coordinate-Mirrors c page (start_verifying retry) = start_verifying-Mirrors c page retry
  coordinate-Mirrors c page (cancel plane) = cancel-Mirrors c page plane
  coordinate-Mirrors c page dispose = dispose-Mirrors c page
  coordinate-Mirrors c page (proof_returned request proof) =
      proof_returned-Mirrors c page request proof
  coordinate-Mirrors c page (proof_failed request cause) = proof_failed-Mirrors c page request cause
  coordinate-Mirrors c page (detail_returned request detail) =
      detail_returned-Mirrors c page request detail
  coordinate-Mirrors c page (detail_failed request) = detail_failed-Mirrors c page request
  coordinate-Mirrors c page (timer_fired plane request) = timer_fired-Mirrors c page plane request

  -- The coordinator and the page after some events.
  pub data CoordinatorReach : Coordinator → VerificationState Proof → Type 0 where
    begun : CoordinatorReach new_coordinator initial_verification_state
    then_event :
        {c : Coordinator} {page : VerificationState Proof}
        → CoordinatorReach c page
        → (e : Event Proof Cause Detail)
        → CoordinatorReach (coordinate mappings c e).0 (run page (coordinate mappings c e).1)

  Reach-Mirrors :
      {c : Coordinator} {page : VerificationState Proof} → CoordinatorReach c page → Mirrors c page
  unfolding Mirrors
  Reach-Mirrors begun = ground arith
  Reach-Mirrors (then_event r e) = coordinate-Mirrors _ _ e (Reach-Mirrors r)

  -- After any events, also late ones, while the coordinator is active: the page is in its generation,
  -- it shows the sealed proof as being verified exactly while the coordinator holds a request for it,
  -- and the current access as being read exactly while it holds one for that.
  pub Reach-mirrored :
      (c : Coordinator) (page : VerificationState Proof)
      → CoordinatorReach c page
      → c.active ≡ true
      → (page.generation ≡ c.generation)
        × (is_active page.historical ≡ is_some c.historical)
        × (is_reading page.current ≡ is_some c.current)
  unfolding Mirrors
  Reach-mirrored c page r a = let (_, g, h, k, _) = Reach-Mirrors r in (g a, h a, k a)

  abbrev pub is_set_identifiers : Event Proof Cause Detail → Bool
  is_set_identifiers (set_identifiers identifiers) = true
  is_set_identifiers _ = false

  -- A coordinator that was disposed of ignores every event but new identifiers: it stays as it is and
  -- dispatches nothing.
  pub disposed_is_silent :
      (c : Coordinator) (e : Event Proof Cause Detail)
      → c.active ≡ false
      → is_set_identifiers e ≡ false
      → coordinate mappings c e ≡ (c, [])
  unfolding coordinate request_is_active
  disposed_is_silent c e d n = ground arith
