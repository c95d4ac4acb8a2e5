-- ===== src/Journal/Validate.antt =====
-- The checks that operation-journal.ts makes on what it is handed: `validateAdmission`,
-- `validateCompute`, `validateStorage`, `validateChain`, `bindOutcome`.
use g_sentinel.Base.{
  ◌≡◌, arith, ok, ℕ, String, Bool, true, false, ◌&&◌, ◌||◌, not, Option, none, some, List, [], ◌∷◌,
  ◌++◌, map, ◌==◌, ◌+◌, leb, eqb, Result, err, ◌>>◌, reject_if, is_hex_i, is_positive_decimal,
  is_idempotency_key, decimal, filter, if◌then◌else◌, same_text, length,
}
use g_sentinel.Journal.Types.{
  OutcomeStatus, not_broadcast, submission_outcome_unknown, finalized_readback_unavailable, sealed,
  reverted, PublicWriteOutcome, OperationAdmission, behavioral_risk, contract_risk,
  ComputeProofCommitment, ComputeCommitment, StorageFields, StorageCommitment, seal, reseal,
  ChainWriteRequest, OperationRecord, Limits, Error, invalid_journal_config, invalid_operation,
  commitment_mismatch, evidence_invalid,
}

-- The hashes of the ethers package over what the journal commits to. `receipts_root` is
-- `keccak256(AbiCoder.encode(["bytes32[]"], …))`; `storage_digest` is the hash of
-- `canonicalizeStorageCommitment`, and `none` where that throws.
pub record Hashing : Type 0 where
  pub receipts_root : List String → String
  pub storage_digest : StorageFields → Option String

-- `Number.isSafeInteger(n) && n >= 1`, for a number that is not negative.
unfoldable pub is_safe_positive : ℕ → Bool
is_safe_positive n = leb n 9007199254740991 && leb 1 n

unfoldable pub validate_limits : Limits → Result Error (Unit {0})
unfolding is_safe_positive
validate_limits l =
    reject_if
      (not (
        is_safe_positive l.max_concurrency
        && is_safe_positive l.global_max_concurrency
        && is_safe_positive l.rate_window_ms
        && is_safe_positive l.rate_limit
        && is_safe_positive l.daily_ceremony_limit
        && is_safe_positive l.daily_cost_units_limit))
      invalid_journal_config

unfoldable pub validate_admission : OperationAdmission → Result Error (Unit {0})
unfolding is_safe_positive
validate_admission a =
    reject_if
      (not (
        is_idempotency_key a.idempotency_key
        && is_hex_i 64 a.input_digest
        && is_hex_i 64 a.identity_key
        && is_hex_i 40 a.operator
        && is_hex_i 40 a.subject
        && is_positive_decimal a.expected_version
        && is_safe_positive a.policy_version
        && is_hex_i 64 a.runtime_code_hash
        && is_safe_positive a.reserved_cost_units))
      invalid_operation

abbrev is_behavioral : ComputeProofCommitment → Bool
is_behavioral c = elim c.purpose [ behavioral_risk ↦ true | contract_risk ↦ false ]

-- Stable sorting by `purpose.localeCompare`: there are two purposes, and "behavioral-risk" is the
-- smaller.
unfoldable pub by_purpose : List ComputeProofCommitment → List ComputeProofCommitment
by_purpose cs = filter is_behavioral cs ++ filter (λ c. not (is_behavioral c)) cs

-- `new Set(purposes).size === purposes.length`
distinct_purposes : List ComputeProofCommitment → Bool
distinct_purposes cs =
    leb (length (filter is_behavioral cs)) 1
    && leb (length (filter (λ c. not (is_behavioral c)) cs)) 1

abbrev is_empty : List ComputeProofCommitment → Bool
is_empty [] = true
is_empty (_ ∷ _) = false

-- `value.mode === "SEAL" ? 1n : value.expectedPriorVersion! + 1n`; the addition throws where the
-- version is missing.
unfoldable pub expected_version : ChainWriteRequest → Option ℕ
expected_version input = elim input.mode [
  | seal ↦ some 1
  | reseal ↦ elim input.expected_prior_version [ none ↦ none | some v ↦ some (v + 1) ]
]

version_is : Option ℕ → String → Bool
version_is none s = false
version_is (some v) s = decimal v == s

abbrev same_option : Option String → String → Bool
same_option none s = true
same_option (some h) s = s == h

module _ (hashing : Hashing) where
  unfoldable pub validate_compute : ComputeCommitment → Result Error (Unit {0})
  unfolding distinct_purposes by_purpose
  validate_compute value = do
    reject_if (is_empty value.commitments || not (distinct_purposes value.commitments))
        commitment_mismatch
    reject_if
        (not (
          same_text
            (hashing.receipts_root (map (λ c. c.receipt_digest) (by_purpose value.commitments)))
            value.compute_root))
        commitment_mismatch

  unfoldable pub validate_storage : StorageCommitment → Result Error (Unit {0})
  validate_storage value =
      if value.fields.envelope_digest == value.fields.retrieved_digest
      then elim (hashing.storage_digest value.fields) [
        | none ↦ err evidence_invalid
        | some digest ↦ reject_if (not (same_text digest value.artifact_hash)) commitment_mismatch
      ]
      else err commitment_mismatch

-- `validateChain`, over the fields of the record that it reads.
chain_fits :
    OperationAdmission
    → Option ComputeCommitment
    → Option StorageCommitment
    → ChainWriteRequest
    → Result Error (Unit {0})
unfolding version_is
chain_fits admission none storage value = err commitment_mismatch
chain_fits admission (some compute) none value = err commitment_mismatch
chain_fits admission (some compute) (some storage) value =
    reject_if
      (not (
        value.identity_key == admission.identity_key
        && value.subject == admission.subject
        && value.scanner == admission.operator
        && eqb value.policy_version admission.policy_version
        && value.runtime_code_hash == admission.runtime_code_hash
        && version_is (expected_version value) admission.expected_version
        && value.compute_root == compute.compute_root
        && value.envelope_digest == storage.fields.envelope_digest
        && value.storage_root == storage.fields.storage_root
        && value.artifact_hash == storage.artifact_hash))
      commitment_mismatch

unfoldable pub validate_chain : OperationRecord → ChainWriteRequest → Result Error (Unit {0})
unfolding chain_fits
validate_chain r value = chain_fits r.admission r.compute r.storage value

-- `validateOperationCommitments`
commitments_hold :
    Hashing
    → OperationRecord
    → Option ComputeCommitment
    → Option StorageCommitment
    → Option ChainWriteRequest
    → Result Error (Unit {0})
commitments_hold hashing r none s i = err commitment_mismatch
commitments_hold hashing r (some c) none i = err commitment_mismatch
commitments_hold hashing r (some c) (some s) none = err commitment_mismatch
commitments_hold hashing r (some c) (some s) (some i) = do
  validate_compute hashing c
  validate_storage hashing s
  validate_chain r i

unfoldable pub validate_operation_commitments : Hashing → OperationRecord → Result Error (Unit {0})
unfolding validate_compute validate_storage validate_chain commitments_hold
validate_operation_commitments hashing r =
    commitments_hold hashing r r.compute r.storage r.chain_input

pub commitments_hold_of :
    (hashing : Hashing) (r : OperationRecord) {c : ComputeCommitment} {s : StorageCommitment}
    {i : ChainWriteRequest}
    → r.compute ≡ some c
    → r.storage ≡ some s
    → r.chain_input ≡ some i
    → validate_compute hashing c ≡ ok tt
    → validate_storage hashing s ≡ ok tt
    → validate_chain r i ≡ ok tt
    → validate_operation_commitments hashing r ≡ ok tt
unfolding commitments_hold validate_operation_commitments
commitments_hold_of hashing r ec es ei c s i = ground (arith, c, s, i, ec, es, ei)

-- The fields of an outcome that must agree with the record: `"transactionHash" in outcome` and so on.
outcome_is_bound : OperationRecord → OutcomeStatus → Bool
outcome_is_bound r not_broadcast = true
outcome_is_bound r (submission_outcome_unknown none) = true
outcome_is_bound r (submission_outcome_unknown (some hash)) = same_option r.transaction_hash hash
outcome_is_bound r (finalized_readback_unavailable hash key version) =
    same_option r.transaction_hash hash
    && key == r.admission.identity_key
    && version == r.admission.expected_version
outcome_is_bound r (sealed hash key version) =
    same_option r.transaction_hash hash
    && key == r.admission.identity_key
    && version == r.admission.expected_version
outcome_is_bound r (reverted hash) = same_option r.transaction_hash hash

unfoldable pub bind_outcome : OperationRecord → PublicWriteOutcome → Result Error (Unit {0})
unfolding outcome_is_bound
bind_outcome r outcome =
    reject_if (not (outcome.recovery_id == r.recovery_id && outcome_is_bound r outcome.status))
      commitment_mismatch
