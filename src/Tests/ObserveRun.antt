-- ===== src/Tests/ObserveRun.antt =====
-- An access to which all four reads agree, and one at which nothing could be read.
use g_sentinel.Base.{arith, String, Option, ℕ, ◌≡◌, refl, ok, err, some, none, true, false, Result}
use g_sentinel.Status.{GateReasonCode}
use g_sentinel.Verdict.{verified}
use g_sentinel.Recovery.Inspect.{LockRecord}
use g_sentinel.Observe.Assert.{
  current, Subsystem, identity, lease, gate, consumer, gate_code, Payload, no_payload,
  ProofLockObservation, ReasonCode,
}
use g_sentinel.Observe.Reads.{
  Settled, fulfilled, rejected, AgentIdentity, ResolvedAgentIdentity, GateRead, ConsumerRead,
}
use g_sentinel.Observe.Entries.{
  CurrentCapability, CurrentReason, observed, of_gate, Entry, observation_of, allowed_payload,
  accepted_payload,
}
use g_sentinel.Observe.{
  IdentityTools, Options, PinnedBlock, Dependencies, CurrentAccess, ObserveError, metadata_of,
  validate_input_binding, validate_options, validate_pinned_block, observe_current_access,
  settle_reads, erc8004_identity_registry,
}
use g_sentinel.Observe.Returns.{Returns}
use g_sentinel.Observe.Agreement.{AllAgree}
use g_sentinel.Observe.Total.{observe_current_access-Returns}
use g_sentinel.Observe.Laws.{observe_current_access-Agree}

abbrev agent_key : String
agent_key = "0xaaaaaaaaaaaaaaaaaaaaaaaaaaaaaaaaaaaaaaaaaaaaaaaaaaaaaaaaaaaaaaaa"

abbrev block_hash : String
block_hash = "0xbbbbbbbbbbbbbbbbbbbbbbbbbbbbbbbbbbbbbbbbbbbbbbbbbbbbbbbbbbbbbbbb"

abbrev wallet : String
wallet = "0x1111111111111111111111111111111111111111"

abbrev tools : IdentityTools
tools = record { get_address = λ a. some a; key_hash = λ chain registry agent. agent_key }

abbrev options : Options
options = record { ttl_ms = 30000; read_timeout_ms = 5000; confirmation_timeout_ms = 5000 }

abbrev block : PinnedBlock
block = record { number = 900; hash = block_hash; timestamp = 1000 }

abbrev resolved : ResolvedAgentIdentity
resolved = record {
  identity = record {
    namespace = "eip155";
    chain_id = 16661;
    registry_address = erc8004_identity_registry;
    agent_id = "7";
  };
  owner = wallet;
  agent_wallet = wallet;
  agent_uri = "https://agent";
  registration_digest = block_hash;
  source_block_number = "900";
  source_block_hash = block_hash;
}

abbrev lock : LockRecord
lock = record {
  fields = record {
    identity_key = agent_key;
    subject = wallet;
    version = 3;
    issued_at = 900;
    valid_until = 2000;
    envelope_digest = block_hash;
    storage_root = block_hash;
    compute_root = block_hash;
    artifact_hash = block_hash;
    runtime_code_hash = block_hash;
    policy_version = 2;
    behavioral_score = 90;
    code_risk = 5;
    coverage = 127;
  };
  state = 1;
  state_reason = 0;
}

abbrev gate_read : GateRead
gate_read = record { allowed = true; reason = 0; subject = wallet; version = 3 }

abbrev consumer_read : ConsumerRead
consumer_read = record {
  accepted = true;
  address = "0x2222222222222222222222222222222222222222";
  subject = wallet;
  version = 3;
}

abbrev agreeing : Dependencies
agreeing = record {
  pin_finalized_block = fulfilled block;
  resolve_identity = λ a n. fulfilled resolved;
  read_lease = λ k n. fulfilled lock;
  read_gate = λ a n. fulfilled gate_read;
  read_consumer = λ a k n. fulfilled consumer_read;
  confirm_pinned_block = λ n h. fulfilled true;
}

abbrev silent : Dependencies
silent = record {
  pin_finalized_block = fulfilled block;
  resolve_identity = λ a n. rejected;
  read_lease = λ k n. rejected;
  read_gate = λ a n. rejected;
  read_consumer = λ a k n. rejected;
  confirm_pinned_block = λ n h. fulfilled true;
}

bound : validate_input_binding tools "7" agent_key ≡ ok agent_key
unfolding validate_input_binding g_sentinel.Observe.Assert.is_nonzero_hash g_sentinel.Base.is_hex
    g_sentinel.Base.is_zero_hex g_sentinel.Observe.is_canonical_agent_id g_sentinel.Base.text_length
    g_sentinel.Base.is_canonical_decimal g_sentinel.Base.decimal_value
    g_sentinel.Observe.compute_identity_key g_sentinel.Base.lower
bound = refl

valid : validate_options options (some 5000) ≡ ok 5000
unfolding validate_options
valid = refl

pinned : validate_pinned_block block ≡ ok block
unfolding validate_pinned_block g_sentinel.Observe.Assert.is_nonzero_hash g_sentinel.Base.is_hex
    g_sentinel.Base.is_zero_hex g_sentinel.Base.lower
pinned = refl

observe_current_access-Returns_example :
    Returns (observe_current_access tools silent options (some 5000) "7" agent_key)
unfolding g_sentinel.Observe.assert_resolved_binding
observe_current_access-Returns_example =
    observe_current_access-Returns tools silent options (some 5000) 5000 "7" agent_key agent_key
      block block bound valid (omega arith) refl pinned refl refl

abbrev verified_entry :
    {V : Type 0}
    → CurrentCapability
    → CurrentReason
    → Subsystem
    → Option ReasonCode
    → Payload
    → V
    → Entry V
verified_entry capability reason subsystem code payload value = record {
  capability = capability;
  reason = reason;
  observation = observation_of (metadata_of block options 5000) subsystem verified code payload;
  value = some value;
}

abbrev access : CurrentAccess
access = record {
  agent_id = "7";
  identity_key = agent_key;
  block = block;
  observed_at = 5000;
  freshness_expires_at = 35000;
  observations = record {
    identity =
        verified_entry CurrentCapability.erc8004_identity observed identity none no_payload
          resolved;
    lease = verified_entry CurrentCapability.registry_v2_lease observed lease none no_payload lock;
    gate =
        verified_entry CurrentCapability.agent_gate_v2 (of_gate GateReasonCode.allowed) gate
          (some (gate_code GateReasonCode.allowed)) allowed_payload gate_read;
    consumer =
        verified_entry CurrentCapability.guarded_consumer observed consumer none accepted_payload
          consumer_read;
  };
}

observe_current_access_run :
    observe_current_access tools agreeing options (some 5000) "7" agent_key ≡ ok access
unfolding observe_current_access validate_input_binding g_sentinel.Observe.Assert.is_nonzero_hash
    g_sentinel.Base.is_hex g_sentinel.Base.is_zero_hex g_sentinel.Observe.is_canonical_agent_id
    g_sentinel.Base.text_length g_sentinel.Base.is_canonical_decimal g_sentinel.Base.decimal_value
    g_sentinel.Observe.compute_identity_key g_sentinel.Base.lower validate_options
    validate_pinned_block settle_reads g_sentinel.Observe.assert_resolved_binding
    g_sentinel.Observe.build_snapshot g_sentinel.Base.decimal g_sentinel.Base.ascii
    g_sentinel.Base.is_positive_decimal g_sentinel.Base.is_digit g_sentinel.Base.same_text
    g_sentinel.Observe.Assert.assert_observation g_sentinel.Observe.Assert.is_fresh_coordinate
    g_sentinel.Observe.Assert.is_positive_uint64 g_sentinel.Observe.Assert.payload_holds
    g_sentinel.Observe.Assert.is_nonzero_address g_sentinel.Observe.Assert.validate_plane
    g_sentinel.Observe.Assert.validate_blocked_plane g_sentinel.Observe.Entries.build_observations
    g_sentinel.Observe.Entries.entry g_sentinel.Observe.Entries.identity_entry
    g_sentinel.Observe.Entries.lease_entry g_sentinel.Observe.Entries.lease_block_reason
    g_sentinel.Observe.Entries.gate_entry g_sentinel.Observe.Entries.consumer_entry
    g_sentinel.Observe.Reads.valid_gate g_sentinel.Observe.Reads.is_identity_failure
    g_sentinel.Observe.Reads.valid_consumer g_sentinel.Observe.Reads.gate_provenance_consistent
    g_sentinel.Observe.Reads.gate_is_consistent g_sentinel.Observe.Reads.pair_matches
    g_sentinel.Observe.Reads.gate_matches_lease g_sentinel.Observe.Reads.intrinsic_gate_reason
    g_sentinel.Observe.Reads.consumer_provenance_consistent
    g_sentinel.Observe.Reads.consumer_is_consistent
    g_sentinel.Observe.Reads.consumer_subject_contradicts_lease g_sentinel.Status.gate_reason_meta
observe_current_access_run = refl

observe_current_access-Agree_example :
    (agreeing.confirm_pinned_block 900 block_hash ≡ fulfilled true)
    × AllAgree (settle_reads agreeing "7" agent_key 900) agent_key 1000
observe_current_access-Agree_example =
    observe_current_access-Agree tools agreeing options (some 5000) "7" agent_key access
      observe_current_access_run refl refl refl refl
