-- ===== src/Recovery.antt =====
-- frontend/server/prooflock/recovery.ts: the recovery of a write whose outcome is not known. It is
-- called without an abort signal, and with the journal of operation-journal.ts. What the journal
-- wrote before an error stays written, so a result comes with the database. Others may write to the
-- journal while a recovery waits for the chain.
pub mod Inspect
pub mod GivesUp
pub mod Seals
use g_sentinel.Base.{
  ℕ, String, Bool, true, false, not, ◌&&◌, ◌||◌, Option, none, some, Result, ok, err, ◌==◌, ◌+◌,
  leb, ltb, if◌then◌else◌, is_hex_i, is_zero_hex, is_recovery_id, lower, decimal,
}
use g_sentinel.Journal.Types.{
  Phase, requested, compute_verified, storage_verified, chain_input_committed, submission_attempted,
  finalized, same_phase, OutcomeStatus, not_broadcast, submission_outcome_unknown,
  finalized_readback_unavailable, sealed, reverted, PublicWriteOutcome, ChainWriteRequest, Finality,
  OperationRecord, Error,
}
use g_sentinel.Journal.Db.{Db, Disposition, consumed, released, read}
use g_sentinel.Journal.Validate.{Hashing, validate_operation_commitments, expected_version}
use g_sentinel.Journal.Costs.{reconcile_recovery_costs}
use g_sentinel.Journal.Phases.{record_transaction_hash, record_finalized, complete}
use g_sentinel.Recovery.Inspect.{Chain, Inspection, trusted_hash, inspect, record_matches}

-- The codes of `WriteRecoveryError`, and what the journal and the chain throw.
pub data RecoveryError : Type 0 where
  invalid_recovery_input recovery_not_found recovery_operation_live : RecoveryError
  chain_threw version_missing : RecoveryError
  journal_threw : Error → RecoveryError

abbrev pub Outcome : Type 0
Outcome = Db × Result RecoveryError PublicWriteOutcome

-- What others do to the database while the recovery waits for `trustedHash` and `inspect`, and for
-- the readback of the lock.
pub record Others : Type 0 where
  pub during_inspection : Db → Db
  pub during_readback : Db → Db

-- `validateInput`, as a test
unfoldable pub is_valid_input : String → Option String → Bool
is_valid_input id none = is_recovery_id id
is_valid_input id (some hash) = is_recovery_id id && is_hex_i 64 hash && not (is_zero_hex hash)

-- `isPreSend`
unfoldable pub is_pre_send : Phase → Bool
is_pre_send phase =
    same_phase phase requested
    || same_phase phase compute_verified
    || same_phase phase storage_verified
    || same_phase phase chain_input_committed

-- The outcomes that are not looked into again.
abbrev pub is_final : OutcomeStatus → Bool
is_final not_broadcast = true
is_final (sealed h k v) = true
is_final (reverted h) = true
is_final (submission_outcome_unknown h) = false
is_final (finalized_readback_unavailable h k v) = false

abbrev public_hash : Option String → Option String
public_hash none = none
public_hash (some hash) = if is_hex_i 64 hash then some (lower hash) else none

-- `unknown`
unfoldable pub unknown : String → Option String → PublicWriteOutcome
unknown id hash = record {
  status = submission_outcome_unknown (public_hash hash);
  recovery_id = id;
}

-- A write of the journal, and what comes after it.
abbrev pub then_write : Result Error Db → Db → (Db → Outcome) → Outcome
then_write (ok db') db k = k db'
then_write (err e) db k = (db, err (journal_threw e))

-- `journal.complete` with the outcome that is returned
abbrev pub complete_with : ℕ → String → OutcomeStatus → Db → Outcome
complete_with now id status db =
    let outcome : PublicWriteOutcome = record { status = status; recovery_id = id } in
    then_write (complete now id outcome db) db (λ db'. (db', ok outcome))

unfoldable pub recover_pre_send : ℕ → String → Db → Outcome
recover_pre_send now id db =
    then_write (reconcile_recovery_costs now id released db) db (complete_with now id not_broadcast)

-- `if (operation.phase === "SUBMISSION_ATTEMPTED") recordTransactionHash`
abbrev pub learn_hash : ℕ → String → Phase → String → Db → Result Error Db
learn_hash now id phase hash db =
    if same_phase phase submission_attempted then record_transaction_hash now id hash db else ok db

-- `if (operation.phase !== "FINALIZED") recordFinalized`
abbrev pub learn_finality : ℕ → String → Phase → Finality → Db → Result Error Db
learn_finality now id phase finality db =
    if same_phase phase finalized then ok db else record_finalized now id finality db

unfoldable pub recover_reverted : ℕ → String → Phase → String → Db → Outcome
recover_reverted now id phase hash db = then_write (learn_hash now id phase hash db) db (λ db₁.
    then_write (reconcile_recovery_costs now id consumed db₁) db₁
      (complete_with now id (reverted hash)))

-- What completes, or the outcome where that throws.
abbrev pub or_fallback : Result Error Db → PublicWriteOutcome → Outcome → Outcome
or_fallback (ok db') outcome fallback = (db', ok outcome)
or_fallback (err e) outcome fallback = fallback

-- The `try` of the readback: what throws in it, the journal too, gives the other outcome.
unfoldable pub seal_or_unavailable : ℕ → String → String → String → String → Bool → Db → Outcome
seal_or_unavailable now id hash key version matches db =
    let outcome : PublicWriteOutcome = record {
      status = sealed hash key version;
      recovery_id = id;
    } in
    let fallback : Outcome =
      complete_with now id (finalized_readback_unavailable hash key version) db in
    if matches then or_fallback (complete now id outcome db) outcome fallback else fallback

unfoldable pub recover_finalized :
    Others → ℕ → String → Phase → String → String → Finality → Option ℕ → (ℕ → Bool) → Db → Outcome
recover_finalized others now id phase key hash finality version matches db =
    then_write (learn_hash now id phase hash db) db (λ db₁.
      then_write (learn_finality now id phase finality db₁) db₁ (λ db₂.
        then_write (reconcile_recovery_costs now id consumed db₂) db₂ (λ db₃. elim version [
          | none ↦ (db₃, err version_missing)
          | some v ↦
              seal_or_unavailable now id hash key (decimal v) (matches v)
                (others.during_readback db₃)
        ])))

-- What follows the inspection of the transaction.
unfoldable pub recover_inspected :
    Others
    → Chain
    → ℕ
    → String
    → OperationRecord
    → ChainWriteRequest
    → String
    → Inspection
    → Db
    → Outcome
recover_inspected others chain now id operation input hash Inspection.not_known db =
    (db, ok (unknown id (some hash)))
recover_inspected others chain now id operation input hash Inspection.was_reverted db =
    recover_reverted now id operation.phase hash db
recover_inspected others chain now id operation input hash (Inspection.was_finalized finality) db =
    recover_finalized others now id operation.phase operation.admission.identity_key hash finality
      (expected_version input) (record_matches chain input) db

module _ (others : Others) (hashing : Hashing) (chain : Chain) (confirmations now : ℕ) (id : String)
    (supplied : Option String) (operation : OperationRecord) (db : Db) where
  -- By what `trustedHash` gave.
  abbrev pub by_hash : ChainWriteRequest → Result (Unit {0}) (Option String) → Outcome
  by_hash input (err e) = (others.during_inspection db, err chain_threw)
  by_hash input (ok none) = (others.during_inspection db, ok (unknown id none))
  by_hash input (ok (some hash)) =
      recover_inspected others chain now id operation input hash
        (inspect chain confirmations input hash) (others.during_inspection db)

  -- By what `validateOperationCommitments` gave.
  abbrev pub by_commitments : ChainWriteRequest → Result Error (Unit {0}) → Outcome
  by_commitments input (err e) = (db, ok (unknown id supplied))
  by_commitments input (ok _) = by_hash input (trusted_hash chain confirmations operation supplied)

  abbrev pub by_input : Option ChainWriteRequest → Outcome
  by_input none = (db, ok (unknown id supplied))
  by_input (some input) = by_commitments input (validate_operation_commitments hashing operation)

  -- What follows when the operation may have been sent.
  unfoldable pub recover_sent : Outcome
  recover_sent = by_input operation.chain_input

-- The operation that was found, and has not come to a final outcome.
unfoldable pub recover_open :
    Others → Hashing → Chain → ℕ → ℕ → ℕ → String → Option String → OperationRecord → Db → Outcome
recover_open others hashing chain confirmations grace now id supplied operation db =
    if is_pre_send operation.phase
    then (if ltb now (operation.updated_at + grace)
        then (db, err recovery_operation_live)
        else recover_pre_send now id db)
    else recover_sent others hashing chain confirmations now id supplied operation db

abbrev pub final_outcome : Option PublicWriteOutcome → Option PublicWriteOutcome
final_outcome none = none
final_outcome (some outcome) = if is_final outcome.status then some outcome else none

module _ (others : Others) (hashing : Hashing) (chain : Chain) (confirmations grace now : ℕ)
    (id : String) (supplied : Option String) (db : Db) where
  abbrev pub by_outcome : OperationRecord → Option PublicWriteOutcome → Outcome
  by_outcome operation (some outcome) = (db, ok outcome)
  by_outcome operation none =
      recover_open others hashing chain confirmations grace now id supplied operation db

  abbrev pub by_operation : Option OperationRecord → Outcome
  by_operation none = (db, err recovery_not_found)
  by_operation (some operation) = by_outcome operation (final_outcome operation.terminal_outcome)

  -- `recover`
  unfoldable pub recover : Outcome
  recover =
      if is_valid_input id supplied
      then by_operation (read id db)
      else (db, err invalid_recovery_input)
