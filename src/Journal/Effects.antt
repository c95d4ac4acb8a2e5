-- ===== src/Journal/Effects.antt =====
-- What an operation of the journal that succeeds has done to the database, in one of three forms:
-- a new operation, an operation in its next phase, or changed costs.
use g_sentinel.Base.{
  ℕ, String, true, Option, none, some, ◌≡◌, sym, ap, arith, inl, inr, Bool-cases, Option-cases,
  Result, ok, returned-through, not, Result-cases, reject_if,
}
use mathlib.Core.Path.{subst}
use g_sentinel.Journal.Types.{
  Phase, requested, compute_verified, storage_verified, chain_input_committed, submission_attempted,
  hash_known, finalized, recovery_required, same_phase, eq_of_same_phase, OutcomeStatus,
  PublicWriteOutcome, ComputeCommitment, StorageCommitment, ChainWriteRequest, Finality,
  OperationRecord, Error, commitment_mismatch,
}
use g_sentinel.Journal.Db.{Db, read, update_operation}
use g_sentinel.Journal.Validate.{
  Hashing, validate_compute, validate_storage, validate_chain, bind_outcome,
}
use g_sentinel.Journal.Commitments.{
  Edge, compute, store, commit, attempt, learn_hash, finalize, refinalize, suspend, abandon, finish,
  revert, revert_recovered, at_attempt, at_hash, at_finality, at_requested, at_compute, at_storage,
  at_chain_input, Fits, FitsPhase, Fits-set_compute, Fits-set_storage, Fits-commit_chain_input,
  Fits-attempt, Fits-set_hash, Fits-set_finality, Fits-set_outcome, FitsPhase-advance,
}
use g_sentinel.Journal.Phases.{
  advance, change, write_phase, phase_is, record_compute, record_storage, record_chain_input,
  record_submission_attempt, record_transaction_hash, record_finalized, finalized_from,
  hash_conflict, complete, allowed, completed_phase, commit_chain_input, set_compute, set_storage,
  set_hash, set_finality, set_outcome,
}

-- What a successful `change` found and wrote.
pub record Changed (now : ℕ) (id : String) (next : Phase)
    (mutate : OperationRecord → Result Error OperationRecord) (from : Option Phase) (db db' : Db)
    : Type 0 where
  pub current : OperationRecord
  pub updated : OperationRecord
  pub found : read id db ≡ some current
  pub from_phase : from ≡ some current.phase
  pub mutated : mutate current ≡ ok updated
  pub result : db' ≡ update_operation id (write_phase now next updated) db

eq_of_phase_is : (from : Option Phase) (p : Phase) → phase_is from p ≡ true → from ≡ some p
eq_of_phase_is none p h = cc
eq_of_phase_is (some q) p h = sym (ap some (eq_of_same_phase p q h))

pub change-Changed :
    (now : ℕ) (id : String) (next : Phase) (mutate : OperationRecord → Result Error OperationRecord)
    (from : Option Phase) (db db' : Db)
    → change now id next mutate from db ≡ ok db'
    → Changed now id next mutate from db db'
unfolding change
change-Changed now id next mutate from db db' h = elim (Option-cases (read id db)) [
  | inl missing ↦ absurd (ground arith)
  | inr (current, found) ↦ elim (Bool-cases (phase_is from current.phase)) [
    | inr other ↦ absurd (ground arith)
    | inl here ↦ elim (Result-cases (mutate current)) [
      | inr (e, thrown) ↦ absurd (ground arith)
      | inl (updated, mutated) ↦ record {
        current = current;
        updated = updated;
        found = found;
        from_phase = eq_of_phase_is from current.phase here;
        mutated = mutated;
        result = ground arith;
      }
    ]
  ]
]

-- A successful move of one operation to the next phase. `kept` says what `mutate` left alone.
pub record Moves (hashing : Hashing) (db db' : Db) : Type 0 where
  pub now : ℕ
  pub id : String
  pub next : Phase
  pub current : OperationRecord
  pub updated : OperationRecord
  pub found : read id db ≡ some current
  pub edge : Edge current.phase next
  pub same_admission : updated.admission ≡ current.admission
  pub same_id : updated.recovery_id ≡ current.recovery_id
  pub fits : Fits hashing current → Fits hashing (advance now next updated)
  pub result : db' ≡ update_operation id (write_phase now next updated) db

-- What is sealed off from a `mutate`: the admission and the recovery id.
abbrev pub Keeps : (OperationRecord → Result Error OperationRecord) → Type 0
Keeps mutate =
    (x y : OperationRecord)
    → mutate x ≡ ok y
    → (y.admission ≡ x.admission) × (y.recovery_id ≡ x.recovery_id)

change-Moves :
    (hashing : Hashing) (now : ℕ) (id : String) (next : Phase)
    (mutate : OperationRecord → Result Error OperationRecord) (p : Phase) (db db' : Db)
    → Edge p next
    → Keeps mutate
    → ((x y : OperationRecord) → mutate x ≡ ok y → FitsPhase hashing p x → FitsPhase hashing next y)
    → change now id next mutate (some p) db ≡ ok db'
    → Moves hashing db db'
change-Moves hashing now id next mutate p db db' edge keeps fits h =
    let c : Changed now id next mutate (some p) db db' =
      change-Changed now id next mutate (some p) db db' h in
    let from : p ≡ c.current.phase = cc (c.from_phase) in
    let kept = keeps c.current c.updated c.mutated in
    record {
      now = now;
      id = id;
      next = next;
      current = c.current;
      updated = c.updated;
      found = c.found;
      edge = subst (λ q. Edge q next) from edge;
      same_admission = kept.0;
      same_id = kept.1;
      fits = λ f. FitsPhase-advance hashing next now next c.updated (
          fits c.current c.updated c.mutated
            (subst (λ q. FitsPhase hashing q c.current) (sym from) f));
      result = c.result;
    }

module _ (hashing : Hashing) (now : ℕ) (id : String) (db db' : Db) where
  pub record_compute-Moves :
      (value : ComputeCommitment)
      → record_compute hashing now id value db ≡ ok db'
      → Moves hashing db db'
  unfolding record_compute
  record_compute-Moves value h =
      change-Moves hashing now id compute_verified (set_compute value) requested db db' compute
        (λ x y e. (cc, cc))
        (Fits-set_compute hashing value (returned-through (validate_compute hashing value) _ h).2)
        (returned-through (validate_compute hashing value) _ h).1

  pub record_storage-Moves :
      (value : StorageCommitment)
      → record_storage hashing now id value db ≡ ok db'
      → Moves hashing db db'
  unfolding record_storage
  record_storage-Moves value h =
      change-Moves hashing now id storage_verified (set_storage value) compute_verified db db' store
        (λ x y e. (cc, cc))
        (Fits-set_storage hashing value (returned-through (validate_storage hashing value) _ h).2)
        (returned-through (validate_storage hashing value) _ h).1

Keeps-commit_chain_input : (value : ChainWriteRequest) → Keeps (commit_chain_input value)
Keeps-commit_chain_input value x y e =
    let (_, same, _) = returned-through (validate_chain x value) _ e in (cc, cc)

-- `complete` follows an edge to the phase that the outcome stands for.
completed-Edge :
    (status : OutcomeStatus) (p : Phase) → allowed status p ≡ true → Edge p (completed_phase status)
unfolding allowed completed_phase same_phase
completed-Edge status p h = grind (
  arith, suspend, at_attempt, at_hash, at_finality, abandon, at_requested, at_compute, at_storage,
  at_chain_input, finish, revert, revert_recovered,
)

finalized_from-Edge : (o : Option OperationRecord) → Edge (finalized_from o) finalized
unfolding finalized_from same_phase
finalized_from-Edge none = finalize
finalized_from-Edge (some r) = elim (Bool-cases (same_phase r.phase recovery_required)) [
  | inl e ↦ rw e refinalize
  | inr e ↦ rw e finalize
]

module _ (hashing : Hashing) (now : ℕ) (id : String) (db db' : Db) where
  pub record_chain_input-Moves :
      (value : ChainWriteRequest)
      → record_chain_input now id value db ≡ ok db'
      → Moves hashing db db'
  unfolding record_chain_input
  record_chain_input-Moves value h =
      change-Moves hashing now id chain_input_committed (commit_chain_input value) storage_verified
        db db' commit (Keeps-commit_chain_input value) (Fits-commit_chain_input hashing value) h

  pub record_submission_attempt-Moves :
      record_submission_attempt now id db ≡ ok db' → Moves hashing db db'
  unfolding record_submission_attempt
  record_submission_attempt-Moves h =
      change-Moves hashing now id submission_attempted (λ r. ok r) chain_input_committed db db'
        attempt (λ x y e. (cc, cc)) (Fits-attempt hashing) h

  pub record_transaction_hash-Moves :
      (value : String) → record_transaction_hash now id value db ≡ ok db' → Moves hashing db db'
  unfolding record_transaction_hash
  record_transaction_hash-Moves value h =
      change-Moves hashing now id hash_known (set_hash value) submission_attempted db db' learn_hash
        (λ x y e. (cc, cc)) (Fits-set_hash hashing value) h

  pub record_finalized-Moves :
      (value : Finality) → record_finalized now id value db ≡ ok db' → Moves hashing db db'
  unfolding record_finalized
  record_finalized-Moves value h =
      change-Moves hashing now id finalized (set_finality value) (finalized_from (read id db)) db
        db' (finalized_from-Edge (read id db)) (λ x y e. (cc, cc))
        (Fits-set_finality hashing value (finalized_from (read id db))
          (finalized_from-Edge (read id db)))
        (returned-through (reject_if (hash_conflict (read id db) value) commitment_mismatch) _ h).1

  pub complete-Moves :
      (outcome : PublicWriteOutcome) → complete now id outcome db ≡ ok db' → Moves hashing db db'
  unfolding complete
  complete-Moves outcome h = elim (Option-cases (read id db)) [
    | inl missing ↦ absurd (ground arith)
    | inr (r, found) ↦
        let (_, h₁, _) = returned-through (bind_outcome r outcome) _ (rw (found, complete) at h) in
        let (_, h₂, fits) =
          returned-through (reject_if (not (allowed outcome.status r.phase)) _) _ h₁ in
        change-Moves hashing now id (completed_phase outcome.status) (set_outcome outcome) r.phase
          db db' (completed-Edge outcome.status r.phase (ground arith)) (λ x y e. (cc, cc))
          (Fits-set_outcome hashing outcome r.phase
            (completed-Edge outcome.status r.phase (ground arith)))
          h₂
  ]
