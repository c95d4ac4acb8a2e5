-- ===== src/Tests/JournalData.antt =====
-- An operation in each of its phases, and the journal that holds it alone.
use g_sentinel.Base.{some, none, [], ◌∷◌}
use g_sentinel.Journal.Types.{
  OperationAdmission, Limits, ComputeCommitment, behavioral_risk, StorageCommitment,
  ChainWriteRequest, seal, Finality, PublicWriteOutcome, sealed, OperationRecord, terminal,
  requested, compute_verified, storage_verified, chain_input_committed, submission_attempted,
  hash_known, finalized,
}
use g_sentinel.Journal.Db.{Db}
use g_sentinel.Journal.Validate.{Hashing}
use g_sentinel.Journal.Admission.{new_operation, new_row}

abbrev pub hashing : Hashing
hashing = record {
  receipts_root = λ rs. "0xcccccccccccccccccccccccccccccccccccccccccccccccccccccccccccccccc";
  storage_digest = λ f. some "0xdddddddddddddddddddddddddddddddddddddddddddddddddddddddddddddddd";
}

abbrev pub limits : Limits
limits = record {
  max_concurrency = 2;
  global_max_concurrency = 4;
  rate_window_ms = 60000;
  rate_limit = 5;
  daily_ceremony_limit = 10;
  daily_cost_units_limit = 1000;
}

abbrev pub admission : OperationAdmission
admission = record {
  idempotency_key = "request-0001";
  input_digest = "0x1111111111111111111111111111111111111111111111111111111111111111";
  identity_key = "0x2222222222222222222222222222222222222222222222222222222222222222";
  operator = "0x3333333333333333333333333333333333333333";
  subject = "0x4444444444444444444444444444444444444444";
  expected_version = "1";
  policy_version = 2;
  runtime_code_hash = "0x5555555555555555555555555555555555555555555555555555555555555555";
  reserved_cost_units = 100;
}

abbrev pub compute_value : ComputeCommitment
compute_value = record {
  compute_root = "0xcccccccccccccccccccccccccccccccccccccccccccccccccccccccccccccccc";
  commitments =
      (record {
        purpose = behavioral_risk;
        provider = "0x6666666666666666666666666666666666666666";
        model = "model";
        receipt_digest = "0x7777777777777777777777777777777777777777777777777777777777777777";
        request_digest = "0x8888888888888888888888888888888888888888888888888888888888888888";
        response_digest = "0x9999999999999999999999999999999999999999999999999999999999999999";
        signed_text_sha256 = "0xaaaaaaaaaaaaaaaaaaaaaaaaaaaaaaaaaaaaaaaaaaaaaaaaaaaaaaaaaaaaaaaa";
        request_sha256 = "0xaaaaaaaaaaaaaaaaaaaaaaaaaaaaaaaaaaaaaaaaaaaaaaaaaaaaaaaaaaaaaaaa";
        raw_response_sha256 = "0xaaaaaaaaaaaaaaaaaaaaaaaaaaaaaaaaaaaaaaaaaaaaaaaaaaaaaaaaaaaaaaaa";
        response_headers_sha256 =
            "0xaaaaaaaaaaaaaaaaaaaaaaaaaaaaaaaaaaaaaaaaaaaaaaaaaaaaaaaaaaaaaaaa";
      })
      ∷ [];
}

abbrev pub storage_value : StorageCommitment
storage_value = record {
  fields = record {
    envelope_digest = "0xbbbbbbbbbbbbbbbbbbbbbbbbbbbbbbbbbbbbbbbbbbbbbbbbbbbbbbbbbbbbbbbb";
    storage_root = "0xeeeeeeeeeeeeeeeeeeeeeeeeeeeeeeeeeeeeeeeeeeeeeeeeeeeeeeeeeeeeeeee";
    upload_tx_hash = "0xffffffffffffffffffffffffffffffffffffffffffffffffffffffffffffffff";
    retrieved_digest = "0xbbbbbbbbbbbbbbbbbbbbbbbbbbbbbbbbbbbbbbbbbbbbbbbbbbbbbbbbbbbbbbbb";
    finalized_at_block = "7";
  };
  artifact_hash = "0xdddddddddddddddddddddddddddddddddddddddddddddddddddddddddddddddd";
}

abbrev pub write_request : ChainWriteRequest
write_request = record {
  registry_address = "0xaaaaaaaaaaaaaaaaaaaaaaaaaaaaaaaaaaaaaaaa";
  scanner = "0x3333333333333333333333333333333333333333";
  mode = seal;
  expected_prior_version = none;
  previous_proof_id = none;
  identity_key = "0x2222222222222222222222222222222222222222222222222222222222222222";
  subject = "0x4444444444444444444444444444444444444444";
  envelope_digest = "0xbbbbbbbbbbbbbbbbbbbbbbbbbbbbbbbbbbbbbbbbbbbbbbbbbbbbbbbbbbbbbbbb";
  storage_root = "0xeeeeeeeeeeeeeeeeeeeeeeeeeeeeeeeeeeeeeeeeeeeeeeeeeeeeeeeeeeeeeeee";
  compute_root = "0xcccccccccccccccccccccccccccccccccccccccccccccccccccccccccccccccc";
  artifact_hash = "0xdddddddddddddddddddddddddddddddddddddddddddddddddddddddddddddddd";
  runtime_code_hash = "0x5555555555555555555555555555555555555555555555555555555555555555";
  valid_for_seconds = 86400;
  policy_version = 2;
  behavioral_score = 10;
  code_risk = 10;
  coverage = 127;
}

abbrev pub final_block : Finality
final_block = record {
  transaction_hash = "0x9999999999999999999999999999999999999999999999999999999999999999";
  block_hash = "0x8888888888888888888888888888888888888888888888888888888888888888";
  block_number = "9";
  confirmations = 12;
}

abbrev pub outcome : PublicWriteOutcome
outcome = record {
  status =
      sealed "0x9999999999999999999999999999999999999999999999999999999999999999"
        "0x2222222222222222222222222222222222222222222222222222222222222222" "1";
  recovery_id = "rec_0123456789abcdef";
}

abbrev pub begun : OperationRecord
begun = record (new_operation "rec_0123456789abcdef" 1 admission) {
  phase = requested;
  updated_at = 1;
  compute = none;
  storage = none;
  chain_input = none;
  transaction_hash = none;
  finality = none;
  terminal_outcome = none;
}

abbrev pub begun_db : Db
begun_db = record {
  operations =
      (record (new_row "rec_0123456789abcdef" 1 admission) {
        phase = requested;
        updated_ms = 1;
        payload = begun;
      })
      ∷ [];
  costs = [];
}

abbrev pub computed : OperationRecord
computed = record (new_operation "rec_0123456789abcdef" 1 admission) {
  phase = compute_verified;
  updated_at = 2;
  compute = some compute_value;
  storage = none;
  chain_input = none;
  transaction_hash = none;
  finality = none;
  terminal_outcome = none;
}

abbrev pub computed_db : Db
computed_db = record {
  operations =
      (record (new_row "rec_0123456789abcdef" 1 admission) {
        phase = compute_verified;
        updated_ms = 2;
        payload = computed;
      })
      ∷ [];
  costs = [];
}

abbrev pub stored : OperationRecord
stored = record (new_operation "rec_0123456789abcdef" 1 admission) {
  phase = storage_verified;
  updated_at = 3;
  compute = some compute_value;
  storage = some storage_value;
  chain_input = none;
  transaction_hash = none;
  finality = none;
  terminal_outcome = none;
}

abbrev pub stored_db : Db
stored_db = record {
  operations =
      (record (new_row "rec_0123456789abcdef" 1 admission) {
        phase = storage_verified;
        updated_ms = 3;
        payload = stored;
      })
      ∷ [];
  costs = [];
}

abbrev pub committed : OperationRecord
committed = record (new_operation "rec_0123456789abcdef" 1 admission) {
  phase = chain_input_committed;
  updated_at = 4;
  compute = some compute_value;
  storage = some storage_value;
  chain_input = some write_request;
  transaction_hash = none;
  finality = none;
  terminal_outcome = none;
}

abbrev pub committed_db : Db
committed_db = record {
  operations =
      (record (new_row "rec_0123456789abcdef" 1 admission) {
        phase = chain_input_committed;
        updated_ms = 4;
        payload = committed;
      })
      ∷ [];
  costs = [];
}

abbrev pub attempted : OperationRecord
attempted = record (new_operation "rec_0123456789abcdef" 1 admission) {
  phase = submission_attempted;
  updated_at = 5;
  compute = some compute_value;
  storage = some storage_value;
  chain_input = some write_request;
  transaction_hash = none;
  finality = none;
  terminal_outcome = none;
}

abbrev pub attempted_db : Db
attempted_db = record {
  operations =
      (record (new_row "rec_0123456789abcdef" 1 admission) {
        phase = submission_attempted;
        updated_ms = 5;
        payload = attempted;
      })
      ∷ [];
  costs = [];
}

abbrev pub known : OperationRecord
known = record (new_operation "rec_0123456789abcdef" 1 admission) {
  phase = hash_known;
  updated_at = 6;
  compute = some compute_value;
  storage = some storage_value;
  chain_input = some write_request;
  transaction_hash = some "0x9999999999999999999999999999999999999999999999999999999999999999";
  finality = none;
  terminal_outcome = none;
}

abbrev pub known_db : Db
known_db = record {
  operations =
      (record (new_row "rec_0123456789abcdef" 1 admission) {
        phase = hash_known;
        updated_ms = 6;
        payload = known;
      })
      ∷ [];
  costs = [];
}

abbrev pub final : OperationRecord
final = record (new_operation "rec_0123456789abcdef" 1 admission) {
  phase = finalized;
  updated_at = 7;
  compute = some compute_value;
  storage = some storage_value;
  chain_input = some write_request;
  transaction_hash = some "0x9999999999999999999999999999999999999999999999999999999999999999";
  finality = some final_block;
  terminal_outcome = none;
}

abbrev pub final_db : Db
final_db = record {
  operations =
      (record (new_row "rec_0123456789abcdef" 1 admission) {
        phase = finalized;
        updated_ms = 7;
        payload = final;
      })
      ∷ [];
  costs = [];
}

abbrev pub ended : OperationRecord
ended = record (new_operation "rec_0123456789abcdef" 1 admission) {
  phase = terminal;
  updated_at = 8;
  compute = some compute_value;
  storage = some storage_value;
  chain_input = some write_request;
  transaction_hash = some "0x9999999999999999999999999999999999999999999999999999999999999999";
  finality = some final_block;
  terminal_outcome = some outcome;
}

abbrev pub ended_db : Db
ended_db = record {
  operations =
      (record (new_row "rec_0123456789abcdef" 1 admission) {
        phase = terminal;
        updated_ms = 8;
        payload = ended;
      })
      ∷ [];
  costs = [];
}

abbrev pub second : OperationAdmission
second = record admission { idempotency_key = "request-0002" }
