-- ===== src/Tests/RecoveryRun.antt =====
-- Recoveries of the operation of JournalRun, with a chain that answers nothing and with one that has
-- sealed.
use g_sentinel.Base.{String, ℕ, ◌≡◌, refl, some, none, true, [], ◌∷◌}
use g_sentinel.Journal.Types.{OperationRecord}
use g_sentinel.Journal.Db.{read}
use g_sentinel.Recovery.Inspect.{Chain, LockEvent}
use g_sentinel.Recovery.{Others, recover}
use g_sentinel.Recovery.Seals.{SealedLock, sealed_as, MayReport, recover-sealed}
use g_sentinel.Recovery.GivesUp.{gives_up, MayGiveUp, recover-gives_up}
use g_sentinel.Tests.JournalData.{hashing, write_request, begun_db, known_db}

abbrev silent : Chain
silent = record {
  chain_id = none;
  get_transaction = λ h. none;
  wait_for_receipt = λ h n. none;
  find_hashes = λ i n. none;
  get_proof_lock = λ k. none;
  get_address = λ a. some a;
  encode_seal = λ i. none;
  encode_reseal = λ i. none;
  parse_log = λ l. none;
}

-- Nothing is written meanwhile.
abbrev alone : Others
alone = record { during_inspection = λ db. db; during_readback = λ db. db }

abbrev hash : String
hash = "0x9999999999999999999999999999999999999999999999999999999999999999"

abbrev lock_event : LockEvent
lock_event = record {
  identity_key = write_request.identity_key;
  subject = write_request.subject;
  version = 1;
  issued_at = 100;
  valid_until = 86500;
  envelope_digest = write_request.envelope_digest;
  storage_root = write_request.storage_root;
  compute_root = write_request.compute_root;
  artifact_hash = write_request.artifact_hash;
  runtime_code_hash = write_request.runtime_code_hash;
  policy_version = 2;
  behavioral_score = 10;
  code_risk = 10;
  coverage = 127;
}

-- The chain has finalized the transaction of the operation.
abbrev sealing : Chain
sealing = record silent {
  chain_id = some 16661;
  get_transaction = λ h. some (
      some (record {
        hash = h;
        to = write_request.registry_address;
        data' = "sealed";
        from = write_request.scanner;
      }));
  wait_for_receipt = λ h n. some (
      some (record {
        transaction_hash = h;
        status = 1;
        block_number = 9;
        block_hash = "0x8888888888888888888888888888888888888888888888888888888888888888";
        confirmations = 12;
        logs =
            (record { address = write_request.registry_address; topics = []; data' = "lock" }) ∷ [];
      }));
  get_proof_lock = λ k. some (record { fields = lock_event; state = 1; state_reason = 0 });
  encode_seal = λ i. some "sealed";
  parse_log = λ l. some lock_event;
}

abbrev lock : SealedLock
lock = (hash, write_request.identity_key, "1")

sealed_run :
    sealed_as (recover alone hashing sealing 12 1000 5000 "rec_0123456789abcdef" none known_db).1
    ≡ some lock
unfolding recover g_sentinel.Recovery.is_valid_input g_sentinel.Base.is_recovery_id read
    g_sentinel.Recovery.recover_open g_sentinel.Recovery.is_pre_send
    g_sentinel.Journal.Types.same_phase g_sentinel.Recovery.recover_sent
    g_sentinel.Journal.Validate.validate_operation_commitments g_sentinel.Base.same_text
    g_sentinel.Journal.Validate.expected_version g_sentinel.Base.decimal
    g_sentinel.Recovery.Inspect.trusted_hash g_sentinel.Recovery.recover_inspected
    g_sentinel.Recovery.Inspect.inspect g_sentinel.Recovery.Inspect.event_matches
    g_sentinel.Recovery.Inspect.fields_match g_sentinel.Base.is_hex_i g_sentinel.Base.sum_of
    g_sentinel.Base.ascii g_sentinel.Base.is_digit g_sentinel.Base.is_zero_hex g_sentinel.Base.lower
    g_sentinel.Journal.Costs.reconcile_recovery_costs g_sentinel.Journal.Db.consumed_units
    g_sentinel.Journal.Db.persist_totals g_sentinel.Journal.Db.select
    g_sentinel.Journal.Db.update_costs g_sentinel.Journal.Db.update_operation
    g_sentinel.Journal.Phases.allowed g_sentinel.Journal.Phases.change
    g_sentinel.Journal.Phases.change_next g_sentinel.Journal.Phases.complete
    g_sentinel.Journal.Phases.completed_phase g_sentinel.Journal.Phases.finalized_from
    g_sentinel.Journal.Phases.hash_conflict g_sentinel.Journal.Phases.record_finalized
    g_sentinel.Journal.Phases.record_transaction_hash g_sentinel.Journal.Types.predecessor
    g_sentinel.Journal.Types.same_stage g_sentinel.Journal.Validate.bind_outcome
    g_sentinel.Journal.Validate.by_purpose g_sentinel.Journal.Validate.validate_chain
    g_sentinel.Journal.Validate.validate_compute g_sentinel.Journal.Validate.validate_storage
    g_sentinel.Recovery.Inspect.address g_sentinel.Recovery.Inspect.encode_write
    g_sentinel.Recovery.Inspect.record_matches g_sentinel.Recovery.recover_finalized
    g_sentinel.Recovery.seal_or_unavailable
sealed_run = refl

recover-sealed_example :
    (r : OperationRecord) × (read "rec_0123456789abcdef" known_db ≡ some r)
    × MayReport hashing sealing 12 none r lock
recover-sealed_example =
    recover-sealed alone hashing sealing 12 1000 5000 "rec_0123456789abcdef" none known_db lock
      sealed_run

stale_run :
    gives_up (recover alone hashing silent 12 1000 5000 "rec_0123456789abcdef" none begun_db).1
    ≡ true
unfolding recover g_sentinel.Recovery.is_valid_input g_sentinel.Base.is_recovery_id read
    g_sentinel.Recovery.recover_open g_sentinel.Recovery.is_pre_send
    g_sentinel.Journal.Types.same_phase g_sentinel.Recovery.recover_pre_send
    g_sentinel.Journal.Costs.reconcile_recovery_costs g_sentinel.Journal.Db.persist_totals
    g_sentinel.Journal.Db.update_costs g_sentinel.Journal.Phases.complete
    g_sentinel.Journal.Validate.bind_outcome
stale_run = refl

recover-gives_up_example :
    (r : OperationRecord) × (read "rec_0123456789abcdef" begun_db ≡ some r) × MayGiveUp 1000 5000 r
recover-gives_up_example =
    recover-gives_up alone hashing silent 12 1000 5000 "rec_0123456789abcdef" none begun_db
      stale_run
