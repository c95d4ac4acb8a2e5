-- ===== src/Tests/JournalRun.antt =====
-- A journal that takes one operation from its request to the sealed outcome.
use g_sentinel.Base.{◌≡◌, refl, ok, some, none, List, [], ◌∷◌, String, ◌≤◌, count_if, ◌⊎◌, inl, inr}
use g_sentinel.Journal.Types.{
  OperationAdmission, Limits, ComputeCommitment, ComputeProofCommitment, behavioral_risk,
  StorageCommitment, StorageFields, ChainWriteRequest, seal, Finality, PublicWriteOutcome, sealed,
  OperationRecord, terminal, recovery_required, BeginResult, accepted, deduplicated, requested,
  compute_verified, storage_verified, chain_input_committed, submission_attempted, hash_known,
  finalized,
}
use g_sentinel.Journal.Db.{Db, empty, read}
use g_sentinel.Journal.Validate.{Hashing, validate_admission, validate_operation_commitments}
use g_sentinel.Journal.Admission.{lookup, begin, is_live_identity, new_operation, new_row}
use g_sentinel.Journal.Phases.{
  record_compute, record_storage, record_chain_input, record_submission_attempt,
  record_transaction_hash, record_finalized, complete,
}
use g_sentinel.Journal.Commitments.{at_attempt}
use g_sentinel.Journal.Steps.{
  Reach, start, then_step, begins, computes, stores, commits, attempts, learns, finalizes,
  completes, Reach-IsWellFormed,
}
use g_sentinel.Journal.Invariant.{IsWellFormed}
use g_sentinel.Journal.Limits.{Within, Reach-Within, Reach-one_live}
use g_sentinel.Journal.Graph.{Goes, Step-Goes, now, terminal_stays}
use g_sentinel.Journal.Verified.{sent_commitments_valid}
use g_sentinel.Journal.Idempotency.{begin_twice, lookup-begin}
use g_sentinel.Tests.JournalData.{
  hashing, limits, admission, compute_value, storage_value, write_request, final_block, outcome,
  begun, begun_db, computed_db, stored_db, committed_db, attempted, attempted_db, known_db,
  final_db, ended, ended_db,
}

begin_run :
    begin limits 1 "rec_0123456789abcdef" admission empty
    ≡ ok (begun_db, record { kind = accepted; operation = begun })
unfolding begin validate_admission g_sentinel.Base.is_idempotency_key g_sentinel.Base.is_hex_i
    g_sentinel.Base.is_positive_decimal g_sentinel.Journal.Db.read_by_key
    g_sentinel.Journal.Admission.enforce_admission count_if g_sentinel.Base.sum_of
    g_sentinel.Journal.Db.insert_operation
begin_run = refl

begun_db-Reach : Reach hashing limits begun_db
begun_db-Reach = then_step start (begins 1 "rec_0123456789abcdef" admission begin_run)

computed_run :
    record_compute hashing 2 "rec_0123456789abcdef" compute_value begun_db ≡ ok computed_db
unfolding record_compute g_sentinel.Journal.Validate.validate_compute g_sentinel.Base.same_text read
    g_sentinel.Journal.Types.same_phase g_sentinel.Journal.Db.update_operation
computed_run = refl

computed_db-Reach : Reach hashing limits computed_db
computed_db-Reach =
    then_step begun_db-Reach (computes 2 "rec_0123456789abcdef" compute_value computed_run)

stored_run :
    record_storage hashing 3 "rec_0123456789abcdef" storage_value computed_db ≡ ok stored_db
unfolding record_storage g_sentinel.Journal.Validate.validate_storage g_sentinel.Base.same_text read
    g_sentinel.Journal.Types.same_phase g_sentinel.Journal.Db.update_operation
stored_run = refl

stored_db-Reach : Reach hashing limits stored_db
stored_db-Reach =
    then_step computed_db-Reach (stores 3 "rec_0123456789abcdef" storage_value stored_run)

committed_run :
    record_chain_input 4 "rec_0123456789abcdef" write_request stored_db ≡ ok committed_db
unfolding record_chain_input read g_sentinel.Journal.Types.same_phase
    g_sentinel.Journal.Validate.validate_chain g_sentinel.Journal.Validate.expected_version
    g_sentinel.Base.decimal g_sentinel.Journal.Db.update_operation g_sentinel.Base.ascii
committed_run = refl

committed_db-Reach : Reach hashing limits committed_db
committed_db-Reach =
    then_step stored_db-Reach (commits 4 "rec_0123456789abcdef" write_request committed_run)

attempted_run : record_submission_attempt 5 "rec_0123456789abcdef" committed_db ≡ ok attempted_db
unfolding record_submission_attempt read g_sentinel.Journal.Types.same_phase
    g_sentinel.Journal.Db.update_operation
attempted_run = refl

attempted_db-Reach : Reach hashing limits attempted_db
attempted_db-Reach = then_step committed_db-Reach (attempts 5 "rec_0123456789abcdef" attempted_run)

known_run :
    record_transaction_hash 6 "rec_0123456789abcdef"
      "0x9999999999999999999999999999999999999999999999999999999999999999" attempted_db
    ≡ ok known_db
unfolding record_transaction_hash read g_sentinel.Journal.Types.same_phase
    g_sentinel.Journal.Db.update_operation
known_run = refl

known_db-Reach : Reach hashing limits known_db
known_db-Reach = then_step attempted_db-Reach (
    learns 6 "rec_0123456789abcdef"
      "0x9999999999999999999999999999999999999999999999999999999999999999" known_run)

final_run : record_finalized 7 "rec_0123456789abcdef" final_block known_db ≡ ok final_db
unfolding record_finalized read g_sentinel.Journal.Types.same_phase
    g_sentinel.Journal.Db.update_operation
final_run = refl

final_db-Reach : Reach hashing limits final_db
final_db-Reach = then_step known_db-Reach (finalizes 7 "rec_0123456789abcdef" final_block final_run)

ended_run : complete 8 "rec_0123456789abcdef" outcome final_db ≡ ok ended_db
unfolding complete read g_sentinel.Journal.Validate.bind_outcome g_sentinel.Journal.Types.same_phase
    g_sentinel.Journal.Db.update_operation
ended_run = refl

ended_db-Reach : Reach hashing limits ended_db
ended_db-Reach = then_step final_db-Reach (completes 8 "rec_0123456789abcdef" outcome ended_run)

Reach-one_live_example :
    count_if
      (is_live_identity "0x2222222222222222222222222222222222222222222222222222222222222222")
      attempted_db.operations
    ≤ 1
Reach-one_live_example =
    Reach-one_live hashing limits
      "0x2222222222222222222222222222222222222222222222222222222222222222" attempted_db-Reach

Reach-Within_example : Within limits attempted_db
Reach-Within_example = Reach-Within hashing limits attempted_db-Reach

Reach-IsWellFormed_example : IsWellFormed attempted_db
Reach-IsWellFormed_example = Reach-IsWellFormed hashing limits attempted_db-Reach

attempted_db-read : read "rec_0123456789abcdef" attempted_db ≡ some attempted
unfolding read
attempted_db-read = refl

sent_commitments_valid_example : validate_operation_commitments hashing attempted ≡ ok tt
sent_commitments_valid_example =
    sent_commitments_valid hashing limits "rec_0123456789abcdef" attempted attempted_db-Reach
      attempted_db-read (inl at_attempt)

Step-Goes_example : Goes final_db ended_db
Step-Goes_example = Step-Goes hashing limits (completes 8 "rec_0123456789abcdef" outcome ended_run)

ended_db-read : read "rec_0123456789abcdef" ended_db ≡ some ended
unfolding read
ended_db-read = refl

terminal_stays_example :
    (s : OperationRecord) × (read "rec_0123456789abcdef" ended_db ≡ some s)
    × (s.phase ≡ terminal)
    × (s.terminal_outcome ≡ some outcome)
    × (s.transaction_hash
        ≡ some "0x9999999999999999999999999999999999999999999999999999999999999999")
terminal_stays_example =
    terminal_stays hashing limits "rec_0123456789abcdef" ended ended_db-read refl now

admission_valid : validate_admission admission ≡ ok tt
unfolding validate_admission g_sentinel.Base.is_idempotency_key g_sentinel.Base.is_hex_i
    g_sentinel.Base.is_positive_decimal
admission_valid = refl

begin_twice_example :
    begin limits 9 "rec_2" admission begun_db
    ≡ ok (begun_db, record { kind = deduplicated; operation = begun })
begin_twice_example =
    begin_twice limits limits 1 9 "rec_0123456789abcdef" "rec_2" admission admission empty begun_db
      (record { kind = accepted; operation = begun }) begin_run refl admission_valid

lookup-begin_example :
    lookup "request-0001" admission.input_digest begun_db
    ≡ ok (some (record { kind = deduplicated; operation = begun }))
lookup-begin_example =
    lookup-begin limits 1 "rec_0123456789abcdef" admission empty begun_db
      (record { kind = accepted; operation = begun }) begin_run
