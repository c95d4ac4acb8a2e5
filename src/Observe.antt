-- ===== src/Observe.antt =====
-- frontend/server/prooflock/current-observations.ts: `observeCurrentAccess`, with the answers of its
-- dependencies as arguments. The clock gives milliseconds, and the abort signal is not used.
pub mod Assert
pub mod Reads
pub mod Entries
pub mod Returns
pub mod Sound
pub mod Agreement
pub mod Total
pub mod Laws
use g_sentinel.Base.{
  ℕ, String, Bool, true, false, not, ◌&&◌, ◌||◌, Option, none, some, ◌==◌, ◌+◌, leb, ltb, eqb,
  Result, ok, err, ◌>>=◌, ◌>>◌, reject_if, if◌then◌else◌, lower, decimal, decimal_value,
  is_canonical_decimal, text_length, is_zero_hex, is_hex,
}
use g_sentinel.Observe.Assert.{Coordinate, ObservationError, is_nonzero_hash}
use g_sentinel.Observe.Reads.{
  Settled, fulfilled, rejected, AgentIdentity, ResolvedAgentIdentity, GateRead, ConsumerRead,
  SettledReads,
}
use g_sentinel.Recovery.Inspect.{LockRecord}
use g_sentinel.Observe.Entries.{Metadata, AccessObservations, build_observations}

abbrev pub erc8004_identity_registry : String
erc8004_identity_registry = "0x8004a169fb4a3325136eb29fa0ceb6d2e539a432"

-- `getAddress` of ethers, `none` where it throws, and the hash of the three encoded numbers.
pub record IdentityTools : Type 0 where
  pub get_address : String → Option String
  pub key_hash : ℕ → String → ℕ → String

-- What observing throws: a `TypeError` of its input, `ProofMismatchError`, a dependency, the
-- `RangeError` of a time, or a failed assertion.
pub data ObserveError : Type 0 where
  invalid_input proof_mismatch dependency_failed invalid_identity time_out_of_range : ObserveError
  observation : ObservationError → ObserveError

-- `isCanonicalAgentId`
unfoldable pub is_canonical_agent_id : String → Bool
is_canonical_agent_id value =
    leb (text_length value) 78
    && is_canonical_decimal value
    && ltb (decimal_value value)
        115792089237316195423570985008687907853269984665640564039457584007913129639936

abbrev registry_key : IdentityTools → AgentIdentity → Option String → Option String
registry_key tools identity none = none
registry_key tools identity (some registry) =
    if not (is_zero_hex (lower registry)) && lower registry == erc8004_identity_registry
    then some (tools.key_hash 16661 (lower registry) (decimal_value identity.agent_id))
    else none

-- `computeIdentityKey` of chain.ts; `none` where it throws
unfoldable pub compute_identity_key : IdentityTools → AgentIdentity → Option String
compute_identity_key tools identity =
    if identity.namespace == "eip155"
      && eqb identity.chain_id 16661
      && is_canonical_decimal identity.agent_id
      && ltb (decimal_value identity.agent_id)
          115792089237316195423570985008687907853269984665640564039457584007913129639936
    then registry_key tools identity (tools.get_address identity.registry_address)
    else none

abbrev same_key : Option String → String → Result ObserveError (Unit {0})
same_key none key = err invalid_identity
same_key (some expected) key = reject_if (not (lower expected == key)) proof_mismatch

-- `validateInputBinding`
unfoldable pub validate_input_binding : IdentityTools → String → String → Result ObserveError String
validate_input_binding tools agent_id identity_key = do
  reject_if (not (is_nonzero_hash identity_key) || not (is_canonical_agent_id agent_id))
      invalid_input
  same_key
      (compute_identity_key tools (record {
        namespace = "eip155";
        chain_id = 16661;
        registry_address = erc8004_identity_registry;
        agent_id = agent_id;
      }))
      (lower identity_key)
  ok (lower identity_key)

pub record Options : Type 0 where
  pub ttl_ms : ℕ
  pub read_timeout_ms : ℕ
  pub confirmation_timeout_ms : ℕ

abbrev timeout_is_valid : ℕ → Bool
timeout_is_valid value = leb 1 value && leb value 60000

-- The last time that a `Date` has
abbrev pub max_date_ms : ℕ
max_date_ms = 8640000000000000

-- `now()`, which gives no valid `Date` or one from 1970 on
abbrev read_clock : Option ℕ → Result ObserveError ℕ
read_clock none = err invalid_input
read_clock (some observed) = do reject_if (ltb max_date_ms observed) invalid_input; ok observed

-- `validateOptions`. It gives the time of the clock; `toISOString` throws for an end that no `Date`
-- has.
unfoldable pub validate_options : Options → Option ℕ → Result ObserveError ℕ
validate_options options clock = do
  reject_if (not (leb 1 options.ttl_ms && leb options.ttl_ms 3600000)) invalid_input
  observed ← read_clock clock
  reject_if (not (timeout_is_valid options.read_timeout_ms)) invalid_input
  reject_if (not (timeout_is_valid options.confirmation_timeout_ms)) invalid_input
  reject_if (ltb max_date_ms (observed + options.ttl_ms)) time_out_of_range
  ok observed

pub record PinnedBlock : Type 0 where
  pub number : ℕ
  pub hash : String
  pub timestamp : ℕ

-- `Number.isSafeInteger(n) && n > 0`
abbrev pub is_safe_number : ℕ → Bool
is_safe_number n = leb 1 n && leb n 9007199254740991

-- `validatePinnedBlock`
unfoldable pub validate_pinned_block : PinnedBlock → Result ObserveError PinnedBlock
validate_pinned_block block = do
  reject_if
      (not (is_safe_number block.number)
        || not (is_nonzero_hash block.hash)
        || not (is_safe_number block.timestamp))
      invalid_input
  ok (record block { hash = lower block.hash })

-- What the dependencies answer; a call that throws, or is too late, is rejected.
pub record Dependencies : Type 0 where
  pub pin_finalized_block : Settled PinnedBlock
  pub resolve_identity : String → ℕ → Settled ResolvedAgentIdentity
  pub read_lease : String → ℕ → Settled LockRecord
  pub read_gate : String → ℕ → Settled GateRead
  pub read_consumer : String → String → ℕ → Settled ConsumerRead
  pub confirm_pinned_block : ℕ → String → Settled Bool

-- `settleReads`
unfoldable pub settle_reads : Dependencies → String → String → ℕ → SettledReads
settle_reads dependencies agent_id identity_key number = record {
  identity = dependencies.resolve_identity agent_id number;
  lease = dependencies.read_lease identity_key number;
  gate = dependencies.read_gate agent_id number;
  consumer = dependencies.read_consumer agent_id identity_key number;
}

-- `assertResolvedBinding`
unfoldable pub assert_resolved_binding :
    IdentityTools
    → Settled ResolvedAgentIdentity
    → String
    → String
    → PinnedBlock
    → Result ObserveError (Unit {0})
assert_resolved_binding tools rejected agent_id identity_key block = ok tt
assert_resolved_binding tools (fulfilled value) agent_id identity_key block = do
  reject_if
      (not (value.identity.namespace == "eip155")
        || not (eqb value.identity.chain_id 16661)
        || not (lower value.identity.registry_address == erc8004_identity_registry)
        || not (value.identity.agent_id == agent_id))
      proof_mismatch
  same_key (compute_identity_key tools value.identity) identity_key
  reject_if
      (not (value.source_block_number == decimal block.number)
        || not (lower value.source_block_hash == block.hash))
      proof_mismatch

abbrev pub from_call : {A : Type 0} → Settled A → Result ObserveError A
from_call (fulfilled a) = ok a
from_call rejected = err dependency_failed

abbrev pub from_assertion : {A : Type 0} → Result ObservationError A → Result ObserveError A
from_assertion (ok a) = ok a
from_assertion (err e) = err (observation e)

-- `observationMetadata`
abbrev pub metadata_of : PinnedBlock → Options → ℕ → Metadata
metadata_of block options now_ms = record {
  observed_at = now_ms;
  coordinate = record {
    block_number = decimal block.number;
    block_hash = block.hash;
    server_issued_at = now_ms;
    ttl_ms = options.ttl_ms;
    freshness_expires_at = now_ms + options.ttl_ms;
  };
}

-- `CurrentAccessV1`
pub record CurrentAccess : Type 0 where
  pub agent_id : String
  pub identity_key : String
  pub block : PinnedBlock
  pub observed_at : ℕ
  pub freshness_expires_at : ℕ
  pub observations : AccessObservations

-- `buildSnapshot`
unfoldable pub build_snapshot :
    String → String → PinnedBlock → SettledReads → Options → ℕ → Result ObserveError CurrentAccess
build_snapshot agent_id identity_key block reads options now_ms = do
  observations ←
      from_assertion
        (build_observations reads identity_key (metadata_of block options now_ms) block.timestamp)
  ok (record {
    agent_id = agent_id;
    identity_key = identity_key;
    block = block;
    observed_at = now_ms;
    freshness_expires_at = now_ms + options.ttl_ms;
    observations = observations;
  })

-- `observeCurrentAccess`
unfoldable pub observe_current_access :
    IdentityTools
    → Dependencies
    → Options
    → Option ℕ
    → String
    → String
    → Result ObserveError CurrentAccess
observe_current_access tools dependencies options clock agent_id key_input = do
  identity_key ← validate_input_binding tools agent_id key_input
  now_ms ← validate_options options clock
  pinned ← from_call dependencies.pin_finalized_block
  block ← validate_pinned_block pinned
  let reads : SettledReads = settle_reads dependencies agent_id identity_key block.number
  assert_resolved_binding tools reads.identity agent_id identity_key block
  confirmed ← from_call (dependencies.confirm_pinned_block block.number block.hash)
  reject_if (not confirmed) proof_mismatch
  build_snapshot agent_id identity_key block reads options now_ms
