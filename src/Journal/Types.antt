-- ===== src/Journal/Types.antt =====
-- The data of frontend/server/prooflock/operation-journal.ts, and the write request of chain.ts.
-- A `bigint` and a safe integer are a native number, a time stamp is its milliseconds, and a field
-- that may be missing is an `Option`. A field whose type has one value (`retrievalVerified: true`)
-- is left out.
use g_sentinel.Base.{ℕ, String, Bool, ◌≡◌, arith, List, Option, eqb, true, some, none}

pub data Phase : Type 0 where
  requested compute_verified storage_verified chain_input_committed : Phase
  submission_attempted hash_known finalized recovery_required terminal : Phase

pub data PaidStage : Type 0 where
  compute_behavioral compute_contract storage registry : PaidStage

-- The status of a public outcome carries the fields that it has beside the recovery id.
pub data OutcomeStatus : Type 0 where
  not_broadcast : OutcomeStatus
  submission_outcome_unknown : Option String → OutcomeStatus
  finalized_readback_unavailable : String → String → String → OutcomeStatus
  sealed : String → String → String → OutcomeStatus
  reverted : String → OutcomeStatus

pub record PublicWriteOutcome : Type 0 where
  pub status : OutcomeStatus
  pub recovery_id : String

pub record OperationAdmission : Type 0 where
  pub idempotency_key : String
  pub input_digest : String
  pub identity_key : String
  pub operator : String
  pub subject : String
  pub expected_version : String
  pub policy_version : ℕ
  pub runtime_code_hash : String
  pub reserved_cost_units : ℕ

pub data Purpose : Type 0 where
  behavioral_risk contract_risk : Purpose

pub record ComputeProofCommitment : Type 0 where
  pub purpose : Purpose
  pub provider : String
  pub model : String
  pub receipt_digest : String
  pub request_digest : String
  pub response_digest : String
  pub signed_text_sha256 : String
  pub request_sha256 : String
  pub raw_response_sha256 : String
  pub response_headers_sha256 : String

pub record ComputeCommitment : Type 0 where
  pub compute_root : String
  pub commitments : List ComputeProofCommitment

-- `StorageJournalCommitment` less its `artifactHash`.
pub record StorageFields : Type 0 where
  pub envelope_digest : String
  pub storage_root : String
  pub upload_tx_hash : String
  pub retrieved_digest : String
  pub finalized_at_block : String

pub record StorageCommitment : Type 0 where
  pub fields : StorageFields
  pub artifact_hash : String

pub data Mode : Type 0 where
  seal reseal : Mode

-- `ChainWriteRequest` of chain.ts.
pub record ChainWriteRequest : Type 0 where
  pub registry_address : String
  pub scanner : String
  pub mode : Mode
  pub expected_prior_version : Option ℕ
  pub previous_proof_id : Option String
  pub identity_key : String
  pub subject : String
  pub envelope_digest : String
  pub storage_root : String
  pub compute_root : String
  pub artifact_hash : String
  pub runtime_code_hash : String
  pub valid_for_seconds : ℕ
  pub policy_version : ℕ
  pub behavioral_score : ℕ
  pub code_risk : ℕ
  pub coverage : ℕ

pub record Finality : Type 0 where
  pub transaction_hash : String
  pub block_hash : String
  pub block_number : String
  pub confirmations : ℕ

pub record OperationRecord : Type 0 where
  pub admission : OperationAdmission
  pub recovery_id : String
  pub phase : Phase
  pub created_at : ℕ
  pub updated_at : ℕ
  pub compute : Option ComputeCommitment
  pub storage : Option StorageCommitment
  pub chain_input : Option ChainWriteRequest
  pub transaction_hash : Option String
  pub finality : Option Finality
  pub terminal_outcome : Option PublicWriteOutcome
  pub reconciled_cost_units : Option ℕ

pub data BeginKind : Type 0 where
  accepted deduplicated : BeginKind

pub record BeginResult : Type 0 where
  pub kind : BeginKind
  pub operation : OperationRecord

pub record Limits : Type 0 where
  pub max_concurrency : ℕ
  pub global_max_concurrency : ℕ
  pub rate_window_ms : ℕ
  pub rate_limit : ℕ
  pub daily_ceremony_limit : ℕ
  pub daily_cost_units_limit : ℕ

-- What the journal throws: its own codes, the database's refusal of a row whose key is there
-- already, and the `EvidenceValidationError` of canonical.ts.
pub data Error : Type 0 where
  invalid_journal_config invalid_operation idempotency_conflict identity_active : Error
  operator_concurrency_limit global_concurrency_limit rate_limit daily_ceremony_limit : Error
  daily_cost_limit phase_conflict commitment_mismatch cost_already_reserved : Error
  unique_constraint evidence_invalid : Error

abbrev phase_index : Phase → ℕ
phase_index requested = 0
phase_index compute_verified = 1
phase_index storage_verified = 2
phase_index chain_input_committed = 3
phase_index submission_attempted = 4
phase_index hash_known = 5
phase_index finalized = 6
phase_index recovery_required = 7
phase_index terminal = 8

-- `a === b` on phases.
unfoldable pub same_phase : Phase → Phase → Bool
same_phase a b = eqb (phase_index a) (phase_index b)

pub eq_of_same_phase : (a b : Phase) → same_phase a b ≡ true → a ≡ b
unfolding same_phase
eq_of_same_phase a b h = ground arith

unfoldable pub is_terminal : Phase → Bool
is_terminal p = same_phase p terminal

abbrev stage_index : PaidStage → ℕ
stage_index compute_behavioral = 0
stage_index compute_contract = 1
stage_index storage = 2
stage_index registry = 3

unfoldable pub same_stage : PaidStage → PaidStage → Bool
same_stage a b = eqb (stage_index a) (stage_index b)

pub eq_of_same_stage : (a b : PaidStage) → same_stage a b ≡ true → a ≡ b
unfolding same_stage
eq_of_same_stage a b h = ground arith

-- The table `predecessor`.
unfoldable pub predecessor : Phase → Option Phase
predecessor compute_verified = some requested
predecessor storage_verified = some compute_verified
predecessor chain_input_committed = some storage_verified
predecessor submission_attempted = some chain_input_committed
predecessor hash_known = some submission_attempted
predecessor finalized = some hash_known
predecessor _ = none
