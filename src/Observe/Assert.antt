-- ===== src/Observe/Assert.antt =====
-- frontend/lib/prooflock-observations.ts: `assertObservation`, on observations that are plain data
-- with fields of their types. A field that may be missing is an `Option`, the fields of a current
-- observation are one group, and a strict ISO time stamp is its milliseconds.
pub mod Accepts
use g_sentinel.Base.{
  ℕ, String, Bool, true, false, not, ◌&&◌, ◌||◌, Option, none, some, List, [], ◌∷◌, ◌==◌, ◌+◌, ltb,
  leb, eqb, any, all, is_some, Result, ok, err, ◌>>=◌, ◌>>◌, reject_if, if◌then◌else◌, is_hex,
  is_zero_hex, is_positive_decimal, decimal_value, text_length, is_blank,
}
use g_sentinel.Status.{GateReasonCode}
use g_sentinel.Verdict.{
  ObservationStatus, verified, blocked, unavailable, stale, mismatch, not_applicable,
}

pub data Scope : Type 0 where
  historical current : Scope

pub data Subsystem : Type 0 where
  identity checks compute storage registry lease gate consumer : Subsystem

-- `ObservationReasonCode`
pub data ReasonCode : Type 0 where
  gate_code : GateReasonCode → ReasonCode
  evidence_unavailable evidence_mismatch : ReasonCode

pub record BoundHashes : Type 0 where
  pub receipt_digest : String
  pub request_digest : String
  pub response_digest : String
  pub signed_text_sha256 : String
  pub request_sha256 : String
  pub raw_response_sha256 : String
  pub response_headers_sha256 : String
  pub artifact_hash : String

-- `ComputeVerificationCapability`; the two flags are the tests on `proofClass` and
-- `processResponseVerified`.
pub record ComputeCapability : Type 0 where
  pub sdk_version : String
  pub method : String
  pub provider : String
  pub model : String
  pub is_tee_model : Bool
  pub process_response_verified : Bool
  pub bound_hashes : BoundHashes

pub record StorageCapability : Type 0 where
  pub is_root_matched : Bool
  pub retrieval_verified : Bool
  pub network_proof_verified : Bool

-- The fields of a current observation.
pub record Coordinate : Type 0 where
  pub block_number : String
  pub block_hash : String
  pub server_issued_at : ℕ
  pub ttl_ms : ℕ
  pub freshness_expires_at : ℕ

-- The fields that only a verified observation has.
pub record Payload : Type 0 where
  pub capability : Option ComputeCapability
  pub storage_capability : Option StorageCapability
  pub storage_root : Option String
  pub artifact_hash : Option String
  pub storage_upload_tx_hash : Option String
  pub registry_source_tx_hash : Option String
  pub allowed : Option Bool
  pub accepted : Option Bool
  pub operation : Option String

abbrev pub no_payload : Payload
no_payload = record {
  capability = none;
  storage_capability = none;
  storage_root = none;
  artifact_hash = none;
  storage_upload_tx_hash = none;
  registry_source_tx_hash = none;
  allowed = none;
  accepted = none;
  operation = none;
}

pub record ProofLockObservation : Type 0 where
  pub scope : Scope
  pub subsystem : Subsystem
  pub status : ObservationStatus
  pub observed_at : ℕ
  pub coordinate : Option Coordinate
  pub reason_code : Option ReasonCode
  pub payload : Payload

-- The checks that throw.
pub data ObservationError : Type 0 where
  plane verified_payload unknown_field metadata payload_value : ObservationError

abbrev pub is_current : Scope → Bool
is_current current = true
is_current historical = false

abbrev pub is_verified : ObservationStatus → Bool
is_verified verified = true
is_verified _ = false

abbrev pub is_current_only : Subsystem → Bool
is_current_only lease = true
is_current_only gate = true
is_current_only consumer = true
is_current_only _ = false

abbrev is_historical_only : Subsystem → Bool
is_historical_only checks = true
is_historical_only compute = true
is_historical_only storage = true
is_historical_only _ = false

abbrev is_registry : Subsystem → Bool
is_registry registry = true
is_registry _ = false

abbrev is_storage : Subsystem → Bool
is_storage storage = true
is_storage _ = false

abbrev is_compute : Subsystem → Bool
is_compute compute = true
is_compute _ = false

abbrev is_gate : Subsystem → Bool
is_gate gate = true
is_gate _ = false

abbrev is_consumer : Subsystem → Bool
is_consumer consumer = true
is_consumer _ = false

abbrev pub is_allowed_code : Option ReasonCode → Bool
is_allowed_code (some (gate_code GateReasonCode.allowed)) = true
is_allowed_code _ = false

abbrev text_is : Option String → String → Bool
text_is none s = false
text_is (some t) s = t == s

-- `validateBlockedPlane`
unfoldable pub validate_blocked_plane : ProofLockObservation → Result ObservationError (Unit {0})
validate_blocked_plane o = do
  reject_if (not (is_current o.scope)) plane
  reject_if (is_allowed_code o.reason_code) plane
  reject_if (not (is_current_only o.subsystem)) plane

validate_verified_plane : ProofLockObservation → Result ObservationError (Unit {0})
validate_verified_plane o = do
  reject_if (not (is_current o.scope) && is_current_only o.subsystem) plane
  reject_if (is_current o.scope && is_historical_only o.subsystem) plane
  reject_if
      (is_current o.scope
        && is_registry o.subsystem
        && not (text_is o.payload.operation "CURRENT_RECORD_READ"))
      plane

-- `validatePlane`
unfoldable pub validate_plane : ProofLockObservation → Result ObservationError (Unit {0})
unfolding validate_blocked_plane validate_verified_plane
validate_plane o = elim o.status [
  | stale ↦ reject_if (not (is_current o.scope)) plane
  | blocked ↦ validate_blocked_plane o
  | verified ↦ validate_verified_plane o
  | unavailable ↦ ok tt
  | mismatch ↦ ok tt
  | not_applicable ↦ ok tt
]

-- One of `VERIFIED_PAYLOAD_FIELDS` is there.
has_payload : Payload → Bool
has_payload p =
    is_some p.capability
    || is_some p.storage_capability
    || is_some p.storage_root
    || is_some p.artifact_hash
    || is_some p.storage_upload_tx_hash
    || is_some p.registry_source_tx_hash
    || is_some p.allowed
    || is_some p.accepted
    || is_some p.operation

-- A field is there although the variant does not have it.
abbrev extra : Bool → Bool → Bool
extra is_there may = is_there && not may

-- `assertExactKeys(observation, allowedObservationFields(observation))`. One field `capability` is
-- that of the compute or of the storage variant.
has_extra_field : ProofLockObservation → Bool
has_extra_field o =
    let v = is_verified o.status in
    extra (is_some o.coordinate) (is_current o.scope)
    || extra (is_some o.reason_code) (not v || is_gate o.subsystem)
    || extra (is_some o.payload.capability) (v && is_compute o.subsystem)
    || extra (is_some o.payload.storage_capability) (v && is_storage o.subsystem)
    || extra (is_some o.payload.storage_root) (v && is_storage o.subsystem)
    || extra (is_some o.payload.artifact_hash) (v && is_storage o.subsystem)
    || extra (is_some o.payload.storage_upload_tx_hash) (v && is_storage o.subsystem)
    || extra (is_some o.payload.registry_source_tx_hash)
        (v && (is_storage o.subsystem || is_registry o.subsystem))
    || extra (is_some o.payload.allowed) (v && is_gate o.subsystem)
    || extra (is_some o.payload.accepted) (v && is_consumer o.subsystem)
    || extra (is_some o.payload.operation) (v && is_current o.scope && is_registry o.subsystem)

-- `requireNonzeroHash` and `requireNonzeroAddress`, as tests
unfoldable pub is_nonzero_hash : String → Bool
is_nonzero_hash value = is_hex 64 value && not (is_zero_hex value)

unfoldable pub is_nonzero_address : String → Bool
is_nonzero_address value = is_hex 40 value && not (is_zero_hex value)

abbrev hash_is_there : Option String → Bool
hash_is_there none = false
hash_is_there (some value) = is_nonzero_hash value

-- `requirePositiveDecimal`
unfoldable pub is_positive_uint64 : String → Bool
is_positive_uint64 value =
    is_positive_decimal value && leb (decimal_value value) 18446744073709551615

-- The last millisecond of the year 9999: `requireIsoTimestamp` wants a year of four digits.
abbrev pub max_iso_ms : ℕ
max_iso_ms = 253402300799999

-- `validateCurrentMetadata` and `validateFreshness`
unfoldable pub is_fresh_coordinate : ℕ → Coordinate → Bool
is_fresh_coordinate observed_at c =
    leb observed_at max_iso_ms
    && is_positive_uint64 c.block_number
    && is_nonzero_hash c.block_hash
    && leb c.server_issued_at max_iso_ms
    && leb c.freshness_expires_at max_iso_ms
    && leb 1 c.ttl_ms
    && leb c.ttl_ms 9007199254740991
    && leb observed_at c.server_issued_at
    && eqb c.freshness_expires_at (observed_at + c.ttl_ms)

abbrev coordinate_holds : ℕ → Option Coordinate → Bool
coordinate_holds observed_at none = false
coordinate_holds observed_at (some c) = is_fresh_coordinate observed_at c

-- `requireBoundedString`
is_bounded_text : ℕ → String → Bool
is_bounded_text maximum value = not (is_blank value) && leb (text_length value) maximum

-- `validateComputeHashes`
hashes_hold : BoundHashes → Bool
hashes_hold h = all is_nonzero_hash (
    h.receipt_digest ∷ h.request_digest ∷ h.response_digest ∷ h.signed_text_sha256
    ∷ h.request_sha256 ∷ h.raw_response_sha256 ∷ h.response_headers_sha256 ∷ h.artifact_hash ∷ [])

-- `assertComputeCapability`
unfoldable pub is_compute_capability : ComputeCapability → Bool
unfolding is_bounded_text hashes_hold
is_compute_capability c =
    is_bounded_text 128 c.sdk_version
    && is_bounded_text 128 c.method
    && is_nonzero_address c.provider
    && is_bounded_text 256 c.model
    && c.is_tee_model
    && c.process_response_verified
    && hashes_hold c.bound_hashes

abbrev compute_holds : Option ComputeCapability → Bool
compute_holds none = false
compute_holds (some c) = is_compute_capability c

abbrev storage_capability_holds : Option StorageCapability → Bool
storage_capability_holds none = false
storage_capability_holds (some c) =
    c.is_root_matched && c.retrieval_verified && not c.network_proof_verified

abbrev source_holds : Option String → Bool
source_holds none = true
source_holds (some value) = is_nonzero_hash value

-- `validateStorage`
unfoldable pub storage_holds : Payload → Bool
storage_holds p =
    hash_is_there p.storage_root
    && hash_is_there p.artifact_hash
    && hash_is_there p.storage_upload_tx_hash
    && source_holds p.registry_source_tx_hash
    && storage_capability_holds p.storage_capability

abbrev flag_is_set : Option Bool → Bool
flag_is_set none = false
flag_is_set (some b) = b

-- `validateObservationPayload`, as a test
unfoldable pub payload_holds : ProofLockObservation → Bool
payload_holds o = elim o.subsystem [
  | identity ↦ true
  | checks ↦ true
  | compute ↦ compute_holds o.payload.capability
  | storage ↦ storage_holds o.payload
  | registry ↦ hash_is_there o.payload.registry_source_tx_hash
  | lease ↦ true
  | gate ↦ flag_is_set o.payload.allowed && is_allowed_code o.reason_code
  | consumer ↦ flag_is_set o.payload.accepted
]

-- `assertObservation`
unfoldable pub assert_observation :
    ProofLockObservation → Result ObservationError ProofLockObservation
unfolding has_payload has_extra_field validate_plane payload_holds
assert_observation o = do
  validate_plane o
  reject_if (not (is_verified o.status) && has_payload o.payload) verified_payload
  reject_if (has_extra_field o) unknown_field
  reject_if (is_current o.scope && not (coordinate_holds o.observed_at o.coordinate)) metadata
  reject_if (is_verified o.status && not (payload_holds o)) payload_value
  ok o
