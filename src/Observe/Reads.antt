-- ===== src/Observe/Reads.antt =====
-- The four reads of current-observations.ts at one finalized block, what is a well-formed answer, and
-- which answers contradict one another. A read is settled: it has a value, or was rejected, also by
-- the timeout of `boundedCall`.
use g_sentinel.Base.{
  ℕ, String, Bool, true, false, not, ◌&&◌, ◌||◌, Option, none, some, List, [], ◌∷◌, ◌==◌, ltb, leb,
  eqb, any, if◌then◌else◌, ◌%◌, ◌/◌, same_text, lower, is_hex_i, is_zero_hex,
}
use g_sentinel.Recovery.Inspect.{LockRecord}
use g_sentinel.Observe.Assert.{is_nonzero_address}

-- `AgentIdentity`
pub record AgentIdentity : Type 0 where
  pub namespace : String
  pub chain_id : ℕ
  pub registry_address : String
  pub agent_id : String

-- `ResolvedAgentIdentity`
pub record ResolvedAgentIdentity : Type 0 where
  pub identity : AgentIdentity
  pub owner : String
  pub agent_wallet : String
  pub agent_uri : String
  pub registration_digest : String
  pub source_block_number : String
  pub source_block_hash : String

pub record GateRead : Type 0 where
  pub allowed : Bool
  pub reason : ℕ
  pub subject : String
  pub version : ℕ

pub record ConsumerRead : Type 0 where
  pub accepted : Bool
  pub address : String
  pub subject : String
  pub version : ℕ

module _ (A : Type 0) where
  pub data Settled : Type 0 where
    fulfilled : A → Settled
    rejected : Settled

pub record SettledReads : Type 0 where
  pub identity : Settled ResolvedAgentIdentity
  pub lease : Settled LockRecord
  pub gate : Settled GateRead
  pub consumer : Settled ConsumerRead

abbrev pub one_of : List ℕ → ℕ → Bool
one_of ns n = any (λ m. eqb m n) ns

-- `isIdentityFailure`
unfoldable pub is_identity_failure : GateRead → Bool
is_identity_failure gate = not gate.allowed && one_of (13 ∷ 14 ∷ 15 ∷ []) gate.reason

abbrev same_bool : Bool → Bool → Bool
same_bool true b = b
same_bool false b = not b

-- `validGate`; its tests on types hold by the types here
unfoldable pub valid_gate : GateRead → Bool
unfolding is_identity_failure
valid_gate value =
    leb value.reason 16
    && same_bool value.allowed (eqb value.reason 0)
    && (if is_identity_failure value
        then is_hex_i 40 value.subject && is_zero_hex value.subject && eqb value.version 0
        else is_nonzero_address value.subject)

-- `validConsumer`
unfoldable pub valid_consumer : ConsumerRead → Bool
valid_consumer value = is_nonzero_address value.address && is_nonzero_address value.subject

-- The comparison that `pairMatches` and `consumerProvenanceConsistent` make.
abbrev pub agree : GateRead → ConsumerRead → Bool
agree gate consumer =
    same_bool gate.allowed consumer.accepted
    && same_text gate.subject consumer.subject
    && eqb gate.version consumer.version

-- `pairMatches`
unfoldable pub pair_matches : GateRead → Settled ConsumerRead → Bool
pair_matches gate Settled.rejected = true
pair_matches gate (Settled.fulfilled consumer) =
    if valid_consumer consumer then agree gate consumer else true

-- `(coverage & 2 ^ k) !== 0`, where `m` is `2 ^ k`
abbrev has_bit : ℕ → ℕ → Bool
has_bit coverage m = eqb (coverage / m % 2) 1

-- `intrinsicGateReason`
unfoldable pub intrinsic_gate_reason : GateRead → LockRecord → String → ℕ → Option ℕ
intrinsic_gate_reason gate lease identity_key block_timestamp =
    if eqb lease.fields.version 0
    then some 1
    else if not (lower lease.fields.identity_key == identity_key)
    then some 16
    else if not (same_text lease.fields.subject gate.subject)
    then some 5
    else if eqb lease.state 2
    then some 2
    else if eqb lease.state 3
    then some 3
    else if not (eqb lease.state 1)
    then some 16
    else if ltb block_timestamp lease.fields.issued_at
        || leb lease.fields.valid_until block_timestamp
    then some 4
    else if not (has_bit lease.fields.coverage 8)
    then some 9
    else if not (has_bit lease.fields.coverage 32)
    then some 10
    else if not (eqb (lease.fields.coverage % 128) 127)
    then some 8
    else none

abbrev reason_fits : ℕ → Option ℕ → Bool
reason_fits reason (some intrinsic) = eqb reason intrinsic
reason_fits reason none = not (one_of (1 ∷ 2 ∷ 3 ∷ 5 ∷ 8 ∷ 9 ∷ 10 ∷ 16 ∷ []) reason)

-- `gateMatchesLease`
unfoldable pub gate_matches_lease : GateRead → LockRecord → String → ℕ → Bool
gate_matches_lease gate lease identity_key block_timestamp =
    eqb gate.version lease.fields.version
    && reason_fits gate.reason (intrinsic_gate_reason gate lease identity_key block_timestamp)

abbrev pub is_fulfilled : {A : Type 0} → Settled A → Bool
is_fulfilled (Settled.fulfilled a) = true
is_fulfilled Settled.rejected = false

-- The wallet of the identity is the subject, where the identity was read.
abbrev pub wallet_matches : Settled ResolvedAgentIdentity → String → Bool
wallet_matches Settled.rejected subject = true
wallet_matches (Settled.fulfilled identity) subject = same_text subject identity.agent_wallet

abbrev lease_matches : GateRead → Settled LockRecord → String → ℕ → Bool
lease_matches gate Settled.rejected identity_key block_timestamp = true
lease_matches gate (Settled.fulfilled lease) identity_key block_timestamp =
    gate_matches_lease gate lease identity_key block_timestamp

-- The rest of `gateProvenanceConsistent`, for a gate that was read and is valid.
unfoldable pub gate_is_consistent : GateRead → SettledReads → String → ℕ → Bool
gate_is_consistent gate reads identity_key block_timestamp =
    if is_identity_failure gate
    then not (is_fulfilled reads.identity) && pair_matches gate reads.consumer
    else wallet_matches reads.identity gate.subject
      && lease_matches gate reads.lease identity_key block_timestamp
      && pair_matches gate reads.consumer

-- What a check of a value gives, where the value was read and is valid.
abbrev pub if_valid : {A : Type 0} → (A → Bool) → (A → Bool) → Settled A → Bool
if_valid valid holds Settled.rejected = true
if_valid valid holds (Settled.fulfilled a) = if valid a then holds a else true

-- `gateProvenanceConsistent`
unfoldable pub gate_provenance_consistent : SettledReads → String → ℕ → Bool
gate_provenance_consistent reads identity_key block_timestamp =
    if_valid valid_gate (λ gate. gate_is_consistent gate reads identity_key block_timestamp)
      reads.gate

abbrev excuses_subject : Settled GateRead → Bool
excuses_subject Settled.rejected = false
excuses_subject (Settled.fulfilled gate) =
    valid_gate gate && one_of (1 ∷ 5 ∷ 13 ∷ 14 ∷ 15 ∷ []) gate.reason

-- `consumerSubjectContradictsLease`
unfoldable pub consumer_subject_contradicts_lease :
    ConsumerRead → LockRecord → Settled GateRead → Bool
consumer_subject_contradicts_lease consumer lease gate =
    if consumer.accepted
    then not (same_text consumer.subject lease.fields.subject)
    else not (excuses_subject gate) && not (same_text consumer.subject lease.fields.subject)

abbrev lease_admits : ConsumerRead → Settled LockRecord → Settled GateRead → Bool
lease_admits consumer Settled.rejected gate = true
lease_admits consumer (Settled.fulfilled lease) gate =
    eqb consumer.version lease.fields.version
    && not (consumer_subject_contradicts_lease consumer lease gate)

-- The rest of `consumerProvenanceConsistent`, for a consumer that was read and is valid.
unfoldable pub consumer_is_consistent : ConsumerRead → SettledReads → Bool
consumer_is_consistent consumer reads =
    wallet_matches reads.identity consumer.subject
    && lease_admits consumer reads.lease reads.gate
    && if_valid valid_gate (λ gate. agree gate consumer) reads.gate

-- `consumerProvenanceConsistent`
unfoldable pub consumer_provenance_consistent : SettledReads → Bool
consumer_provenance_consistent reads =
    if_valid valid_consumer (λ consumer. consumer_is_consistent consumer reads) reads.consumer
