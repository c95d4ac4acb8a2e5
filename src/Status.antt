-- ===== src/Status.antt =====
-- frontend/lib/prooflock-status.ts: what a stored lock, the gate and the consumer say together.
-- Numbers are natural numbers, a text keeps its characters, and of a record the fields that the
-- file reads are modelled.
pub mod Laws
use Prim.Native.Nat.{Ordering, compare}
use Prim.Native.String
use g_sentinel.Base.{
  ◌/◌, ◌%◌, ℕ, zero, suc, ◌+◌, ◌-◌, String, Bool, true, false, not, ◌&&◌, ◌||◌, Option, none, some,
  List, [], ◌∷◌, ◌==◌, ltb, leb, eqb, if◌then◌else◌, lower, all, is_canonical_decimal,
  decimal_value, map,
}

-- `ProofLockRecord`
pub record ProofLockRecord : Type 0 where
  pub subject : String
  pub version : String
  pub valid_until : String
  pub coverage : ℕ
  pub state : ℕ

-- The `gate` and the `consumer` of a `ProofLockDetail`.
pub data Gate : Type 0 where
  verified : Bool → ℕ → String → String → Gate
  unknown : Gate

pub data Consumer : Type 0 where
  verified : Bool → String → String → Consumer
  unknown : Consumer

pub data GateReasonCode : Type 0 where
  allowed : GateReasonCode
  no_proof : GateReasonCode
  revoked : GateReasonCode
  drifted : GateReasonCode
  expired : GateReasonCode
  subject_changed : GateReasonCode
  runtime_code_drift : GateReasonCode
  policy_too_old : GateReasonCode
  coverage_incomplete : GateReasonCode
  compute_unverified : GateReasonCode
  storage_unverified : GateReasonCode
  behavioral_risk : GateReasonCode
  code_risk : GateReasonCode
  identity_unavailable : GateReasonCode
  agent_not_found : GateReasonCode
  agent_wallet_unset : GateReasonCode
  identity_mismatch : GateReasonCode
  unknown_reason : GateReasonCode

pub data LeaseStatus : Type 0 where
  active expiring expired revoked drifted incomplete : LeaseStatus

-- `same(...values)`
abbrev same : String → List String → Bool
same first rest = all (λ value. lower value == lower first) rest

-- `admittedConsumerState`
unfoldable pub admitted_consumer_state : ProofLockRecord → Gate → Consumer → String → Bool
admitted_consumer_state record' (Gate.verified allows reason gate_subject gate_version)
      (Consumer.verified accepted consumer_subject consumer_version) expected_subject =
    allows
    && eqb reason 0
    && accepted
    && same record'.subject (expected_subject ∷ gate_subject ∷ consumer_subject ∷ [])
    && gate_version == record'.version
    && consumer_version == record'.version
admitted_consumer_state record' (Gate.verified a r s v) Consumer.unknown expected_subject = false
admitted_consumer_state record' Gate.unknown consumer expected_subject = false

-- `GATE_REASONS` and `gateReasonMeta`
pub record GateReasonMeta : Type 0 where
  pub code : GateReasonCode
  pub label : String
  pub allowed : Bool
  pub reason : ℕ

abbrev gate_reasons : List (ℕ × GateReasonCode × String)
gate_reasons =
    (0, GateReasonCode.allowed, "Allowed")
    ∷ (1, GateReasonCode.no_proof, "No ProofLock")
    ∷ (2, GateReasonCode.revoked, "Revoked")
    ∷ (3, GateReasonCode.drifted, "Drift detected")
    ∷ (4, GateReasonCode.expired, "Lease expired")
    ∷ (5, GateReasonCode.subject_changed, "Agent wallet changed")
    ∷ (6, GateReasonCode.runtime_code_drift, "Runtime code drift")
    ∷ (7, GateReasonCode.policy_too_old, "Policy too old")
    ∷ (8, GateReasonCode.coverage_incomplete, "Coverage incomplete")
    ∷ (9, GateReasonCode.compute_unverified, "Compute unverified")
    ∷ (10, GateReasonCode.storage_unverified, "Storage unverified")
    ∷ (11, GateReasonCode.behavioral_risk, "Behavioral policy denied")
    ∷ (12, GateReasonCode.code_risk, "Code policy denied")
    ∷ (13, GateReasonCode.identity_unavailable, "Identity unavailable")
    ∷ (14, GateReasonCode.agent_not_found, "Agent not found")
    ∷ (15, GateReasonCode.agent_wallet_unset, "Agent wallet unset")
    ∷ (16, GateReasonCode.identity_mismatch, "Identity mismatch")
    ∷ []

find_reason : ℕ → List (ℕ × GateReasonCode × String) → GateReasonCode × String
find_reason reason [] = (unknown_reason, "Unknown Gate reason")
find_reason reason ((n, code, label) ∷ rest) =
    if eqb n reason then (code, label) else find_reason reason rest

unfoldable pub gate_reason_meta : ℕ → GateReasonMeta
unfolding find_reason
gate_reason_meta reason =
    let (code, label) = find_reason reason gate_reasons in
    record { code = code; label = label; allowed = eqb reason 0; reason = reason }

abbrev pub expiring_window_seconds : ℕ
expiring_window_seconds = 86400

-- `safeSeconds`
unfoldable pub safe_seconds : String → ℕ
safe_seconds value =
    if is_canonical_decimal value && leb (decimal_value value) 9007199254740991
    then decimal_value value
    else 0

unfoldable pub lease_status : ProofLockRecord → ℕ → LeaseStatus
lease_status lock now_seconds =
    if eqb lock.state 3
    then drifted
    else (if eqb lock.state 2
        then revoked
        else (if not (eqb lock.coverage 127) || not (eqb lock.state 1)
            then incomplete
            else (if leb (safe_seconds lock.valid_until) now_seconds
                then expired
                else (if leb (safe_seconds lock.valid_until - now_seconds) expiring_window_seconds
                    then expiring
                    else active))))

-- The `detail` of an inventory item.
pub data Detail : Type 0 where
  verified : String → Gate → Consumer → Detail
  unavailable : Detail

pub data InventoryItem : Type 0 where
  verified : String → ℕ → ProofLockRecord → Detail → InventoryItem
  enrichment_unavailable : String → ℕ → InventoryItem

abbrev is_active : LeaseStatus → Bool
is_active active = true
is_active _ = false

abbrev is_withdrawn : LeaseStatus → Bool
is_withdrawn drifted = true
is_withdrawn revoked = true
is_withdrawn _ = false

abbrev is_ending : LeaseStatus → Bool
is_ending expired = true
is_ending expiring = true
is_ending _ = false

-- The gate was read, and does not allow.
abbrev gate_denies : Detail → Bool
gate_denies (Detail.verified wallet (Gate.verified allows reason s v) consumer) =
    not allows || not (eqb reason 0)
gate_denies _ = false

-- `isAdmittedInventoryItem`, for a verified item
unfoldable pub is_admitted : ProofLockRecord → Detail → LeaseStatus → Bool
is_admitted lock (Detail.verified wallet gate consumer) status =
    is_active status && admitted_consumer_state lock gate consumer wallet
is_admitted lock unavailable status = false

unfoldable pub proof_lock_urgency : InventoryItem → ℕ → ℕ
proof_lock_urgency (enrichment_unavailable key block) now_seconds = 3
proof_lock_urgency (InventoryItem.verified key block lock detail) now_seconds =
    let status = lease_status lock now_seconds in
    if is_withdrawn status
    then 0
    else (if gate_denies detail
        then 1
        else (if is_ending status
            then 2
            else (if not (is_admitted lock detail status) then 3 else 4)))

abbrev pub block_number : InventoryItem → ℕ
block_number (InventoryItem.verified key block lock detail) = block
block_number (enrichment_unavailable key block) = block

abbrev pub identity_key : InventoryItem → String
identity_key (InventoryItem.verified key block lock detail) = key
identity_key (enrichment_unavailable key block) = key

-- `a || b` on the signs of comparisons.
abbrev pub then_by : Ordering → Ordering → Ordering
then_by Ordering.lt next = Ordering.lt
then_by Ordering.eq next = next
then_by Ordering.gt next = Ordering.gt

-- The sign of `compareProofLockUrgency`; `localeCompare` of two keys in lower case, which are
-- hexadecimal, is the order of their characters.
unfoldable pub compare_proof_lock_urgency : InventoryItem → InventoryItem → ℕ → Ordering
compare_proof_lock_urgency left right now_seconds =
    then_by (compare (proof_lock_urgency left now_seconds) (proof_lock_urgency right now_seconds)) (
      then_by (compare (block_number right) (block_number left))
        (String.compare (lower (identity_key left)) (lower (identity_key right))))

pub record VerificationSummary : Type 0 where
  pub historical : Bool
  pub admitted : Bool

-- `verificationSummary`; `current` is ADMITTED exactly when `admitted` is true.
unfoldable pub verification_summary : Bool → LeaseStatus → ℕ → VerificationSummary
unfolding gate_reason_meta
verification_summary historical_match lease gate_reason = record {
  historical = historical_match;
  admitted = is_active lease && (gate_reason_meta gate_reason).allowed;
}

pub record CoverageItem : Type 0 where
  pub bit : ℕ
  pub label : String
  pub covered : Bool

abbrev coverage_table : List (ℕ × String)
coverage_table =
    (1, "ERC-8004 identity")
    ∷ (2, "Subject classification")
    ∷ (4, "Deterministic checks")
    ∷ (8, "Behavioral Compute")
    ∷ (16, "Code Compute / N/A")
    ∷ (32, "Evidence Storage")
    ∷ (64, "Policy evaluation")
    ∷ []

-- `coverageItems`; `(mask & bit) === bit` for a power of two
unfoldable pub coverage_items : ℕ → List CoverageItem
coverage_items mask =
    map (λ row. record { bit = row.0; label = row.1; covered = eqb (mask / row.0 % 2) 1 })
      coverage_table
