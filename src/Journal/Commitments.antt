-- ===== src/Journal/Commitments.antt =====
-- The phases' diagram, and what the journal has verified about an operation in each phase.
use g_sentinel.Base.{
  ℕ, String, none, some, ◌≡◌, refl, ◌≢◌, arith, ◌⊎◌, inl, inr, Result, ok, returned-through, ◌∙◌,
  sym,
}
use g_sentinel.Journal.Types.{
  Phase, requested, compute_verified, storage_verified, chain_input_committed, submission_attempted,
  hash_known, finalized, recovery_required, terminal, OutcomeStatus, not_broadcast,
  submission_outcome_unknown, finalized_readback_unavailable, sealed, reverted, PublicWriteOutcome,
  ComputeCommitment, StorageCommitment, ChainWriteRequest, Finality, OperationRecord, Error,
}
use g_sentinel.Journal.Validate.{Hashing, validate_compute, validate_storage, validate_chain}
use g_sentinel.Journal.Phases.{
  advance, commit_chain_input, set_compute, set_storage, set_hash, set_finality, set_outcome,
  completed_phase,
}

-- The phases before anything is sent.
pub data IsPreSend : Phase → Type 0 where
  at_requested : IsPreSend requested
  at_compute : IsPreSend compute_verified
  at_storage : IsPreSend storage_verified
  at_chain_input : IsPreSend chain_input_committed

-- The phases of an operation that may have been sent, and is not suspended.
pub data IsInFlight : Phase → Type 0 where
  at_attempt : IsInFlight submission_attempted
  at_hash : IsInFlight hash_known
  at_finality : IsInFlight finalized

-- The diagram of the phases.
pub data Edge : Phase → Phase → Type 0 where
  compute : Edge requested compute_verified
  store : Edge compute_verified storage_verified
  commit : Edge storage_verified chain_input_committed
  attempt : Edge chain_input_committed submission_attempted
  learn_hash : Edge submission_attempted hash_known
  finalize : Edge hash_known finalized
  refinalize : Edge recovery_required finalized
  suspend : {p : Phase} → IsInFlight p → Edge p recovery_required
  abandon : {p : Phase} → IsPreSend p → Edge p terminal
  finish : Edge finalized terminal
  revert : Edge hash_known terminal
  revert_recovered : Edge recovery_required terminal

pub Edge-ne_terminal : {p q : Phase} → Edge p q → p ≢ terminal
Edge-ne_terminal compute = cc
Edge-ne_terminal store = cc
Edge-ne_terminal commit = cc
Edge-ne_terminal attempt = cc
Edge-ne_terminal learn_hash = cc
Edge-ne_terminal finalize = cc
Edge-ne_terminal refinalize = cc
Edge-ne_terminal (suspend at_attempt) = cc
Edge-ne_terminal (suspend at_hash) = cc
Edge-ne_terminal (suspend at_finality) = cc
Edge-ne_terminal (abandon at_requested) = cc
Edge-ne_terminal (abandon at_compute) = cc
Edge-ne_terminal (abandon at_storage) = cc
Edge-ne_terminal (abandon at_chain_input) = cc
Edge-ne_terminal finish = cc
Edge-ne_terminal revert = cc
Edge-ne_terminal revert_recovered = cc

-- The commitments of an operation, each checked by the journal.
pub record Committed (hashing : Hashing) (r : OperationRecord) : Type 0 where
  pub compute : ComputeCommitment
  pub storage : StorageCommitment
  pub chain_input : ChainWriteRequest
  pub has_compute : r.compute ≡ some compute
  pub has_storage : r.storage ≡ some storage
  pub has_chain_input : r.chain_input ≡ some chain_input
  pub compute_ok : validate_compute hashing compute ≡ ok tt
  pub storage_ok : validate_storage hashing storage ≡ ok tt
  pub chain_ok : validate_chain r chain_input ≡ ok tt

abbrev pub HasCompute : Hashing → OperationRecord → Type 0
HasCompute hashing r =
    (c : ComputeCommitment) × (r.compute ≡ some c) × (validate_compute hashing c ≡ ok tt)

abbrev pub HasStorage : Hashing → OperationRecord → Type 0
HasStorage hashing r =
    (s : StorageCommitment) × (r.storage ≡ some s) × (validate_storage hashing s ≡ ok tt)

-- Nothing was ever sent for the operation.
abbrev pub Unsent : OperationRecord → Type 0
Unsent r = r.transaction_hash ≡ none

abbrev pub FitsPhase : Hashing → Phase → OperationRecord → Type 0
FitsPhase hashing requested r = Unsent r
FitsPhase hashing compute_verified r = Unsent r × HasCompute hashing r
FitsPhase hashing storage_verified r = Unsent r × HasCompute hashing r × HasStorage hashing r
FitsPhase hashing chain_input_committed r = Unsent r × Committed hashing r
FitsPhase hashing submission_attempted r = Unsent r × Committed hashing r
FitsPhase hashing hash_known r = (r.transaction_hash ≢ none) × Committed hashing r
FitsPhase hashing finalized r = (r.transaction_hash ≢ none) × Committed hashing r
FitsPhase hashing recovery_required r = Committed hashing r
FitsPhase hashing terminal r = Unsent r ⊎ Committed hashing r

abbrev pub Fits : Hashing → OperationRecord → Type 0
Fits hashing r = FitsPhase hashing r.phase r

validate_chain-same :
    (x y : OperationRecord) (value : ChainWriteRequest)
    → y.admission ≡ x.admission
    → y.compute ≡ x.compute
    → y.storage ≡ x.storage
    → validate_chain y value ≡ validate_chain x value
unfolding validate_chain
validate_chain-same x y value a p q = cc

completed_phase-cases :
    (s : OutcomeStatus) → (completed_phase s ≡ recovery_required) ⊎ (completed_phase s ≡ terminal)
unfolding completed_phase
completed_phase-cases not_broadcast = inr refl
completed_phase-cases (submission_outcome_unknown h) = inl refl
completed_phase-cases (finalized_readback_unavailable h k v) = inl refl
completed_phase-cases (sealed h k v) = inr refl
completed_phase-cases (reverted h) = inr refl

module _ (hashing : Hashing) where
  pub Fits-set_compute :
      (value : ComputeCommitment) {u : Unit {0}}
      → validate_compute hashing value ≡ ok u
      → (x y : OperationRecord) → set_compute value x ≡ ok y
      → FitsPhase hashing requested x
      → FitsPhase hashing compute_verified y
  Fits-set_compute value v x y e f = (cc, (value, cc, v))

  pub Fits-set_storage :
      (value : StorageCommitment) {u : Unit {0}}
      → validate_storage hashing value ≡ ok u
      → (x y : OperationRecord) → set_storage value x ≡ ok y
      → FitsPhase hashing compute_verified x
      → FitsPhase hashing storage_verified y
  Fits-set_storage value v x y e f = (cc (f.0), (f.1.0, cc (f.1.1), f.1.2), (value, cc, v))

  pub Fits-commit_chain_input :
      (value : ChainWriteRequest) (x y : OperationRecord)
      → commit_chain_input value x ≡ ok y
      → FitsPhase hashing storage_verified x
      → FitsPhase hashing chain_input_committed y
  Fits-commit_chain_input value x y e f =
      let (_, e', valid) = returned-through (validate_chain x value) _ e in
      let same : y ≡ record x { chain_input = some value } = cc in
      (
        rw same f.0,
        record {
          compute = f.1.0;
          storage = f.2.0;
          chain_input = value;
          has_compute = rw same f.1.1;
          has_storage = rw same f.2.1;
          has_chain_input = rw same refl;
          compute_ok = f.1.2;
          storage_ok = f.2.2;
          chain_ok =
              validate_chain-same x y value (rw same refl) (rw same refl) (rw same refl) ∙ valid;
        },
      )

  -- The commitments do not depend on what later operations set.
  pub Committed-same :
      (x y : OperationRecord)
      → y.admission ≡ x.admission
      → y.compute ≡ x.compute
      → y.storage ≡ x.storage
      → y.chain_input ≡ x.chain_input
      → Committed hashing x
      → Committed hashing y
  Committed-same x y a p q i c = record {
    compute = c.compute;
    storage = c.storage;
    chain_input = c.chain_input;
    has_compute = p ∙ c.has_compute;
    has_storage = q ∙ c.has_storage;
    has_chain_input = i ∙ c.has_chain_input;
    compute_ok = c.compute_ok;
    storage_ok = c.storage_ok;
    chain_ok = validate_chain-same x y c.chain_input a p q ∙ c.chain_ok;
  }

  -- What is known depends on these fields alone.
  pub FitsPhase-same :
      (q : Phase) (x y : OperationRecord)
      → y.admission ≡ x.admission
      → y.compute ≡ x.compute
      → y.storage ≡ x.storage
      → y.chain_input ≡ x.chain_input
      → y.transaction_hash ≡ x.transaction_hash
      → FitsPhase hashing q x
      → FitsPhase hashing q y
  FitsPhase-same requested x y a c s i h f = h ∙ f
  FitsPhase-same compute_verified x y a c s i h f = (h ∙ f.0, (f.1.0, c ∙ f.1.1, f.1.2))
  FitsPhase-same storage_verified x y a c s i h f =
      (h ∙ f.0, (f.1.0, c ∙ f.1.1, f.1.2), (f.2.0, s ∙ f.2.1, f.2.2))
  FitsPhase-same chain_input_committed x y a c s i h f = (h ∙ f.0, Committed-same x y a c s i f.1)
  FitsPhase-same submission_attempted x y a c s i h f = (h ∙ f.0, Committed-same x y a c s i f.1)
  FitsPhase-same hash_known x y a c s i h f =
      ((λ e. f.0 (sym h ∙ e)), Committed-same x y a c s i f.1)
  FitsPhase-same finalized x y a c s i h f =
      ((λ e. f.0 (sym h ∙ e)), Committed-same x y a c s i f.1)
  FitsPhase-same recovery_required x y a c s i h f = Committed-same x y a c s i f
  FitsPhase-same terminal x y a c s i h (inl u) = inl (h ∙ u)
  FitsPhase-same terminal x y a c s i h (inr k) = inr (Committed-same x y a c s i k)

  pub FitsPhase-advance :
      (q : Phase) (now : ℕ) (next : Phase) (x : OperationRecord)
      → FitsPhase hashing q x
      → FitsPhase hashing q (advance now next x)
  FitsPhase-advance q now next x f =
      FitsPhase-same q x (advance now next x) refl refl refl refl refl f

  pub Fits-attempt :
      (x y : OperationRecord)
      → ◌≡◌ {A = Result Error OperationRecord} (ok x) (ok y)
      → FitsPhase hashing chain_input_committed x
      → FitsPhase hashing submission_attempted y
  Fits-attempt x y e f = (cc (f.0), Committed-same x y (cc) (cc) (cc) (cc) f.1)

  pub Fits-set_hash :
      (value : String) (x y : OperationRecord)
      → set_hash value x ≡ ok y
      → FitsPhase hashing submission_attempted x
      → FitsPhase hashing hash_known y
  Fits-set_hash value x y e f = (λ h. cc, Committed-same x y (cc) (cc) (cc) (cc) f.1)

  pub Fits-set_finality :
      (value : Finality) (p : Phase)
      → Edge p finalized
      → (x y : OperationRecord) → set_finality value x ≡ ok y
      → FitsPhase hashing p x
      → FitsPhase hashing finalized y
  Fits-set_finality value requested edge x y e f = elim edge [ ]
  Fits-set_finality value compute_verified edge x y e f = elim edge [ ]
  Fits-set_finality value storage_verified edge x y e f = elim edge [ ]
  Fits-set_finality value chain_input_committed edge x y e f = elim edge [ ]
  Fits-set_finality value submission_attempted edge x y e f = elim edge [ ]
  Fits-set_finality value finalized edge x y e f = elim edge [ ]
  Fits-set_finality value terminal edge x y e f = elim edge [ ]
  Fits-set_finality value hash_known edge x y e f =
      (λ h. cc, Committed-same x y (cc) (cc) (cc) (cc) f.1)
  Fits-set_finality value recovery_required edge x y e f =
      (λ h. cc, Committed-same x y (cc) (cc) (cc) (cc) f)

  -- What is known of an operation where it comes to rest.
  Fits-complete :
      (p q : Phase)
      → (q ≡ recovery_required) ⊎ (q ≡ terminal)
      → Edge p q
      → (x y : OperationRecord) → y.admission ≡ x.admission
      → y.compute ≡ x.compute
      → y.storage ≡ x.storage
      → y.chain_input ≡ x.chain_input
      → y.transaction_hash ≡ x.transaction_hash
      → FitsPhase hashing p x
      → FitsPhase hashing q y
  Fits-complete p q end (suspend at_attempt) x y a c s i h f = Committed-same x y a c s i f.1
  Fits-complete p q end (suspend at_hash) x y a c s i h f = Committed-same x y a c s i f.1
  Fits-complete p q end (suspend at_finality) x y a c s i h f = Committed-same x y a c s i f.1
  Fits-complete p q end (abandon at_requested) x y a c s i h f = inl (h ∙ f)
  Fits-complete p q end (abandon at_compute) x y a c s i h f = inl (h ∙ f.0)
  Fits-complete p q end (abandon at_storage) x y a c s i h f = inl (h ∙ f.0)
  Fits-complete p q end (abandon at_chain_input) x y a c s i h f = inl (h ∙ f.0)
  Fits-complete p q end finish x y a c s i h f = inr (Committed-same x y a c s i f.1)
  Fits-complete p q end revert x y a c s i h f = inr (Committed-same x y a c s i f.1)
  Fits-complete p q end revert_recovered x y a c s i h f = inr (Committed-same x y a c s i f)
  Fits-complete p q end compute x y a c s i h f = ground arith
  Fits-complete p q end store x y a c s i h f = ground arith
  Fits-complete p q end commit x y a c s i h f = ground arith
  Fits-complete p q end attempt x y a c s i h f = ground arith
  Fits-complete p q end learn_hash x y a c s i h f = ground arith
  Fits-complete p q end finalize x y a c s i h f = ground arith
  Fits-complete p q end refinalize x y a c s i h f = ground arith

  pub Fits-set_outcome :
      (outcome : PublicWriteOutcome) (p : Phase)
      → Edge p (completed_phase outcome.status)
      → (x y : OperationRecord) → set_outcome outcome x ≡ ok y
      → FitsPhase hashing p x
      → FitsPhase hashing (completed_phase outcome.status) y
  Fits-set_outcome outcome p edge x y e f =
      Fits-complete p (completed_phase outcome.status) (completed_phase-cases outcome.status) edge x
        y (cc) (cc) (cc) (cc) (cc) f
