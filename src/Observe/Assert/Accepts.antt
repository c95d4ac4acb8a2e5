-- ===== src/Observe/Assert/Accepts.antt =====
-- Current observations that the assertion accepts.
use g_sentinel.Base.{ℕ, true, false, Option, none, some, ◌≡◌, refl, ok, arith}
use g_sentinel.Verdict.{ObservationStatus, verified, blocked, unavailable, mismatch}
use g_sentinel.Status.{GateReasonCode}
use g_sentinel.Observe.Assert.{
  current, Subsystem, identity, lease, gate, consumer, ReasonCode, gate_code, Coordinate, Payload,
  no_payload, ProofLockObservation, assert_observation, validate_plane, validate_blocked_plane,
  validate_verified_plane, has_payload, has_extra_field, payload_holds, is_current_only,
  is_allowed_code, is_fresh_coordinate,
}

module _ (observed_at : ℕ) (c : Coordinate) where
  abbrev current_of :
      Subsystem → ObservationStatus → Option ReasonCode → Payload → ProofLockObservation
  current_of s status reason p = record {
    scope = current;
    subsystem = s;
    status = status;
    observed_at = observed_at;
    coordinate = some c;
    reason_code = reason;
    payload = p;
  }

  module _ (fresh : is_fresh_coordinate observed_at c ≡ true) where
    pub blocked-accepted :
        (s : Subsystem) (reason : ReasonCode)
        → is_current_only s ≡ true
        → is_allowed_code (some reason) ≡ false
        → assert_observation (current_of s blocked (some reason) no_payload)
          ≡ ok (current_of s blocked (some reason) no_payload)
    unfolding assert_observation validate_plane validate_blocked_plane has_payload has_extra_field
    blocked-accepted s reason h d = rw (d, h, fresh) refl

    pub unavailable-accepted :
        (s : Subsystem) (reason : Option ReasonCode)
        → assert_observation (current_of s unavailable reason no_payload)
          ≡ ok (current_of s unavailable reason no_payload)
    unfolding assert_observation validate_plane has_payload has_extra_field
    unavailable-accepted s reason = ground arith

    pub mismatch-accepted :
        (s : Subsystem) (reason : Option ReasonCode)
        → assert_observation (current_of s mismatch reason no_payload)
          ≡ ok (current_of s mismatch reason no_payload)
    unfolding assert_observation validate_plane has_payload has_extra_field
    mismatch-accepted s reason = ground arith

    pub identity-accepted :
        assert_observation (current_of identity verified none no_payload)
        ≡ ok (current_of identity verified none no_payload)
    unfolding assert_observation validate_plane validate_verified_plane has_payload has_extra_field
        payload_holds
    identity-accepted = rw fresh refl

    pub lease-accepted :
        assert_observation (current_of lease verified none no_payload)
        ≡ ok (current_of lease verified none no_payload)
    unfolding assert_observation validate_plane validate_verified_plane has_payload has_extra_field
        payload_holds
    lease-accepted = rw fresh refl

    pub gate-accepted :
        (p : Payload)
        → p ≡ record no_payload { allowed = some true }
        → assert_observation (current_of gate verified (some (gate_code GateReasonCode.allowed)) p)
          ≡ ok (current_of gate verified (some (gate_code GateReasonCode.allowed)) p)
    unfolding assert_observation validate_plane validate_verified_plane has_payload has_extra_field
        payload_holds
    gate-accepted p e = rw (e, fresh) refl

    pub consumer-accepted :
        (p : Payload)
        → p ≡ record no_payload { accepted = some true }
        → assert_observation (current_of consumer verified none p)
          ≡ ok (current_of consumer verified none p)
    unfolding assert_observation validate_plane validate_verified_plane has_payload has_extra_field
        payload_holds
    consumer-accepted p e = rw (e, fresh) refl
