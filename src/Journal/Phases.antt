-- ===== src/Journal/Phases.antt =====
-- The operations of operation-journal.ts that move an operation from one phase to the next.
use g_sentinel.Base.{
  ℕ, String, Bool, false, not, ◌||◌, Option, none, some, ◌==◌, Result, ok, err, ◌>>=◌, ◌>>◌,
  reject_if, if◌then◌else◌,
}
use g_sentinel.Journal.Types.{
  Phase, requested, compute_verified, storage_verified, chain_input_committed, submission_attempted,
  hash_known, finalized, recovery_required, terminal, same_phase, predecessor, OutcomeStatus,
  not_broadcast, submission_outcome_unknown, finalized_readback_unavailable, sealed, reverted,
  PublicWriteOutcome, ComputeCommitment, StorageCommitment, ChainWriteRequest, Finality,
  OperationRecord, Error, invalid_operation, phase_conflict, commitment_mismatch,
}
use g_sentinel.Journal.Db.{Db, Row, read, update_operation}
use g_sentinel.Journal.Validate.{
  Hashing, validate_compute, validate_storage, validate_chain, bind_outcome,
}

-- `current.phase !== from`, where `from` may be undefined.
abbrev pub phase_is : Option Phase → Phase → Bool
phase_is none p = false
phase_is (some q) p = same_phase p q

abbrev pub advance : ℕ → Phase → OperationRecord → OperationRecord
advance now next r = record r { phase = next; updated_at = now }

-- The row that `change` writes.
abbrev pub write_phase : ℕ → Phase → OperationRecord → Row → Row
write_phase now next updated row = record row {
  phase = next;
  updated_ms = now;
  payload = advance now next updated;
}

-- `change(id, next, mutate, from)`
unfoldable pub change :
    ℕ
    → String
    → Phase
    → (OperationRecord → Result Error OperationRecord)
    → Option Phase
    → Db
    → Result Error Db
change now id next mutate from db = elim (read id db) [
  | none ↦ err invalid_operation
  | some current ↦
      if phase_is from current.phase
      then (do updated ← mutate current; ok (update_operation id (write_phase now next updated) db))
      else err phase_conflict
]

-- `change` without `from`
unfoldable pub change_next :
    ℕ → String → Phase → (OperationRecord → Result Error OperationRecord) → Db → Result Error Db
unfolding change predecessor
change_next now id next mutate db = change now id next mutate (predecessor next) db

-- What each operation changes of the record, as the `mutate` of `change`.
abbrev pub set_compute : ComputeCommitment → OperationRecord → Result Error OperationRecord
set_compute value r = ok (record r { compute = some value })

abbrev pub set_storage : StorageCommitment → OperationRecord → Result Error OperationRecord
set_storage value r = ok (record r { storage = some value })

abbrev pub commit_chain_input : ChainWriteRequest → OperationRecord → Result Error OperationRecord
commit_chain_input value r = do validate_chain r value; ok (record r { chain_input = some value })

abbrev pub set_hash : String → OperationRecord → Result Error OperationRecord
set_hash value r = ok (record r { transaction_hash = some value })

abbrev pub set_finality : Finality → OperationRecord → Result Error OperationRecord
set_finality value r =
    ok (record r { transaction_hash = some value.transaction_hash; finality = some value })

abbrev pub set_outcome : PublicWriteOutcome → OperationRecord → Result Error OperationRecord
set_outcome outcome r = ok (record r { terminal_outcome = some outcome })

unfoldable pub record_compute : Hashing → ℕ → String → ComputeCommitment → Db → Result Error Db
unfolding change_next
record_compute hashing now id value db = do
  validate_compute hashing value
  change_next now id compute_verified (set_compute value) db

unfoldable pub record_storage : Hashing → ℕ → String → StorageCommitment → Db → Result Error Db
unfolding change_next
record_storage hashing now id value db = do
  validate_storage hashing value
  change_next now id storage_verified (set_storage value) db

unfoldable pub record_chain_input : ℕ → String → ChainWriteRequest → Db → Result Error Db
unfolding change_next
record_chain_input now id value db =
    change_next now id chain_input_committed (commit_chain_input value) db

unfoldable pub record_submission_attempt : ℕ → String → Db → Result Error Db
unfolding change_next
record_submission_attempt now id db = change_next now id submission_attempted (λ r. ok r) db

unfoldable pub record_transaction_hash : ℕ → String → String → Db → Result Error Db
unfolding change_next
record_transaction_hash now id value db = change_next now id hash_known (set_hash value) db

-- `record?.phase === "RECOVERY_REQUIRED" ? "RECOVERY_REQUIRED" : "HASH_KNOWN"`
unfoldable pub finalized_from : Option OperationRecord → Phase
finalized_from none = hash_known
finalized_from (some r) =
    if same_phase r.phase recovery_required then recovery_required else hash_known

abbrev hash_differs : Option String → String → Bool
hash_differs none value = false
hash_differs (some known) value = not (known == value)

-- `record?.transactionHash && record.transactionHash !== value.transactionHash`
unfoldable pub hash_conflict : Option OperationRecord → Finality → Bool
hash_conflict none value = false
hash_conflict (some r) value = hash_differs r.transaction_hash value.transaction_hash

unfoldable pub record_finalized : ℕ → String → Finality → Db → Result Error Db
unfolding change finalized_from hash_conflict
record_finalized now id value db = do
  reject_if (hash_conflict (read id db) value) commitment_mismatch
  change now id finalized
      (λ r. ok (record r { transaction_hash = some value.transaction_hash; finality = some value }))
      (some (finalized_from (read id db))) db

-- The phases from which `complete` takes an outcome.
unfoldable pub allowed : OutcomeStatus → Phase → Bool
allowed (submission_outcome_unknown h) p =
    same_phase p submission_attempted || same_phase p hash_known
allowed (finalized_readback_unavailable h k v) p = same_phase p finalized
allowed not_broadcast p =
    same_phase p requested
    || same_phase p compute_verified
    || same_phase p storage_verified
    || same_phase p chain_input_committed
allowed (sealed h k v) p = same_phase p finalized
allowed (reverted h) p = same_phase p hash_known || same_phase p recovery_required

-- The phase in which `complete` leaves the operation.
unfoldable pub completed_phase : OutcomeStatus → Phase
completed_phase (submission_outcome_unknown h) = recovery_required
completed_phase (finalized_readback_unavailable h k v) = recovery_required
completed_phase _ = terminal

unfoldable pub complete : ℕ → String → PublicWriteOutcome → Db → Result Error Db
unfolding change allowed completed_phase
complete now id outcome db = elim (read id db) [
  | none ↦ err invalid_operation
  | some r ↦ do
    bind_outcome r outcome
    reject_if (not (allowed outcome.status r.phase)) phase_conflict
    change now id (completed_phase outcome.status) (set_outcome outcome) (some r.phase) db
]
