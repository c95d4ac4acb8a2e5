-- ===== src/Observe/Entries.antt =====
-- The entries of current-observations.ts: what the snapshot says of each read. An entry has a value
-- where the read gave one, with its numbers as numbers in place of their texts.
use g_sentinel.Base.{
  ℕ, String, Bool, true, false, not, ◌||◌, Option, none, some, ◌==◌, leb, eqb, Result, ok, ◌>>=◌,
  if◌then◌else◌, lower,
}
use g_sentinel.Status.{GateReasonCode, gate_reason_meta}
use g_sentinel.Verdict.{ObservationStatus, verified, blocked, unavailable, mismatch}
use g_sentinel.Recovery.Inspect.{LockRecord}
use g_sentinel.Observe.Assert.{
  current, Subsystem, identity, lease, gate, consumer, ReasonCode, gate_code, evidence_unavailable,
  evidence_mismatch, Coordinate, Payload, no_payload, ProofLockObservation, ObservationError,
  assert_observation,
}
use g_sentinel.Observe.Reads.{
  Settled, fulfilled, rejected, ResolvedAgentIdentity, GateRead, ConsumerRead, SettledReads,
  valid_gate, valid_consumer, gate_provenance_consistent, consumer_provenance_consistent,
}

-- `CURRENT_OBSERVATION_CAPABILITIES`, by their keys
pub data CurrentCapability : Type 0 where
  erc8004_identity registry_v2_lease agent_gate_v2 guarded_consumer : CurrentCapability

-- `CurrentObservationReason`
pub data CurrentReason : Type 0 where
  observed current_identity_unavailable current_lease_unavailable : CurrentReason
  current_gate_unavailable current_consumer_unavailable current_lease_mismatch : CurrentReason
  current_gate_mismatch current_consumer_mismatch guarded_consumer_blocked : CurrentReason
  of_gate : GateReasonCode → CurrentReason

pub record Entry (V : Type 0) : Type 0 where
  pub capability : CurrentCapability
  pub reason : CurrentReason
  pub observation : ProofLockObservation
  pub value : Option V

-- `observationMetadata`, without the scope
pub record Metadata : Type 0 where
  pub observed_at : ℕ
  pub coordinate : Coordinate

abbrev pub observation_of :
    Metadata → Subsystem → ObservationStatus → Option ReasonCode → Payload → ProofLockObservation
observation_of metadata subsystem status reason_code payload = record {
  scope = current;
  subsystem = subsystem;
  status = status;
  observed_at = metadata.observed_at;
  coordinate = some metadata.coordinate;
  reason_code = reason_code;
  payload = payload;
}

-- `entry`, on an observation that is asserted first
unfoldable pub entry :
    {V : Type 0}
    → CurrentCapability
    → CurrentReason
    → ProofLockObservation
    → Option V
    → Result ObservationError (Entry V)
entry capability reason o value = do
  observation ← assert_observation o
  ok (record { capability = capability; reason = reason; observation = observation; value = value })

module _ (metadata : Metadata) {V : Type 0} where
  -- `unavailableEntry`
  abbrev pub unavailable_entry :
      CurrentCapability → CurrentReason → Subsystem → ReasonCode → Result ObservationError (Entry V)
  unavailable_entry capability reason subsystem code =
      entry capability reason (observation_of metadata subsystem unavailable (some code) no_payload)
        none

  -- `mismatchEntry`
  abbrev pub mismatch_entry :
      CurrentCapability → CurrentReason → Subsystem → Result ObservationError (Entry V)
  mismatch_entry capability reason subsystem =
      entry capability reason
        (observation_of metadata subsystem mismatch (some evidence_mismatch) no_payload) none

  -- `blockedEntry`
  abbrev pub blocked_entry :
      CurrentCapability
      → CurrentReason
      → Subsystem
      → GateReasonCode
      → Option V
      → Result ObservationError (Entry V)
  blocked_entry capability reason subsystem code value =
      entry capability reason
        (observation_of metadata subsystem blocked (some (gate_code code)) no_payload) value

-- `leaseBlockReason`
unfoldable pub lease_block_reason : LockRecord → ℕ → Option GateReasonCode
lease_block_reason lock now_seconds =
    if eqb lock.state 2
    then some GateReasonCode.revoked
    else if eqb lock.state 3
    then some GateReasonCode.drifted
    else if not (eqb lock.state 1) || not (eqb lock.fields.coverage 127)
    then some GateReasonCode.coverage_incomplete
    else if leb lock.fields.valid_until now_seconds
    then some GateReasonCode.expired
    else none

-- `identityEntry`
unfoldable pub identity_entry :
    Settled ResolvedAgentIdentity → Metadata → Result ObservationError (Entry ResolvedAgentIdentity)
identity_entry rejected metadata =
    unavailable_entry metadata erc8004_identity current_identity_unavailable identity
      (gate_code GateReasonCode.identity_unavailable)
identity_entry (fulfilled value) metadata =
    entry erc8004_identity observed (observation_of metadata identity verified none no_payload)
      (some value)

-- The entry of a lease that was read for this identity.
abbrev pub checked_lease_entry :
    Metadata → LockRecord → Option GateReasonCode → Result ObservationError (Entry LockRecord)
checked_lease_entry metadata lock (some code) =
    blocked_entry metadata registry_v2_lease (of_gate code) lease code (some lock)
checked_lease_entry metadata lock none =
    entry registry_v2_lease observed (observation_of metadata lease verified none no_payload)
      (some lock)

-- `leaseEntry`
unfoldable pub lease_entry :
    Settled LockRecord → String → Metadata → ℕ → Result ObservationError (Entry LockRecord)
lease_entry rejected identity_key metadata block_timestamp =
    unavailable_entry metadata registry_v2_lease current_lease_unavailable lease
      evidence_unavailable
lease_entry (fulfilled lock) identity_key metadata block_timestamp =
    if eqb lock.fields.version 0
    then blocked_entry metadata registry_v2_lease (of_gate GateReasonCode.no_proof) lease
        GateReasonCode.no_proof none
    else if not (lower lock.fields.identity_key == identity_key)
    then mismatch_entry metadata registry_v2_lease current_lease_mismatch lease
    else checked_lease_entry metadata lock (lease_block_reason lock block_timestamp)

-- `gateValue`
abbrev pub gate_value : GateRead → GateRead
gate_value value = record value { subject = lower value.subject }

-- `consumerValue`
abbrev pub consumer_value : ConsumerRead → ConsumerRead
consumer_value value = record value { address = lower value.address; subject = lower value.subject }

abbrev pub allowed_payload : Payload
allowed_payload = record no_payload { allowed = some true }

abbrev pub accepted_payload : Payload
accepted_payload = record no_payload { accepted = some true }

-- `gateEntry`
unfoldable pub gate_entry : Settled GateRead → Metadata → Result ObservationError (Entry GateRead)
gate_entry rejected metadata =
    unavailable_entry metadata agent_gate_v2 current_gate_unavailable gate evidence_unavailable
gate_entry (fulfilled value) metadata =
    let code : GateReasonCode = (gate_reason_meta value.reason).code in
    if not (valid_gate value)
    then mismatch_entry metadata agent_gate_v2 current_gate_mismatch gate
    else if value.allowed
    then entry agent_gate_v2 (of_gate code)
        (observation_of metadata gate verified (some (gate_code GateReasonCode.allowed))
          allowed_payload)
        (some (gate_value value))
    else blocked_entry metadata agent_gate_v2 (of_gate code) gate code (some (gate_value value))

-- `consumerEntry`
unfoldable pub consumer_entry :
    Settled ConsumerRead → Metadata → Result ObservationError (Entry ConsumerRead)
consumer_entry rejected metadata =
    unavailable_entry metadata guarded_consumer current_consumer_unavailable consumer
      evidence_unavailable
consumer_entry (fulfilled value) metadata =
    if not (valid_consumer value)
    then mismatch_entry metadata guarded_consumer current_consumer_mismatch consumer
    else if value.accepted
    then entry guarded_consumer observed
        (observation_of metadata consumer verified none accepted_payload)
        (some (consumer_value value))
    else blocked_entry metadata guarded_consumer guarded_consumer_blocked consumer
        GateReasonCode.unknown_reason (some (consumer_value value))

pub record AccessObservations : Type 0 where
  pub identity : Entry ResolvedAgentIdentity
  pub lease : Entry LockRecord
  pub gate : Entry GateRead
  pub consumer : Entry ConsumerRead

abbrev pub snapshot_gate :
    Bool → Settled GateRead → Metadata → Result ObservationError (Entry GateRead)
snapshot_gate true read metadata = gate_entry read metadata
snapshot_gate false read metadata = mismatch_entry metadata agent_gate_v2 current_gate_mismatch gate

abbrev pub snapshot_consumer :
    Bool → Settled ConsumerRead → Metadata → Result ObservationError (Entry ConsumerRead)
snapshot_consumer true read metadata = consumer_entry read metadata
snapshot_consumer false read metadata =
    mismatch_entry metadata guarded_consumer current_consumer_mismatch consumer

-- The observations of `buildSnapshot`
unfoldable pub build_observations :
    SettledReads → String → Metadata → ℕ → Result ObservationError AccessObservations
build_observations reads identity_key metadata block_timestamp = do
  i ← identity_entry reads.identity metadata
  l ← lease_entry reads.lease identity_key metadata block_timestamp
  g ←
      snapshot_gate (gate_provenance_consistent reads identity_key block_timestamp) reads.gate
        metadata
  c ← snapshot_consumer (consumer_provenance_consistent reads) reads.consumer metadata
  ok (record { identity = i; lease = l; gate = g; consumer = c })
