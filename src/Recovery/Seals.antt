-- ===== src/Recovery/Seals.antt =====
-- What a recovery that reports a sealed lock has seen on the chain.
use g_sentinel.Base.{
  ℕ, String, Bool, true, false, Option, none, some, Result, ok, err, ◌≡◌, refl, arith, ◌⊎◌, ◌≢◌,
  inl, inr, ltb, ◌+◌, Bool-cases, decimal,
}
use g_sentinel.Journal.Types.{
  Phase, OutcomeStatus, sealed, reverted, not_broadcast, finalized_readback_unavailable,
  PublicWriteOutcome, ChainWriteRequest, Finality, OperationRecord, Error,
}
use g_sentinel.Journal.Db.{Db, read, consumed, released}
use g_sentinel.Journal.Validate.{Hashing, expected_version, validate_operation_commitments}
use g_sentinel.Journal.Costs.{reconcile_recovery_costs}
use g_sentinel.Journal.Phases.{complete}
use g_sentinel.Recovery.Inspect.{Chain, Inspection, trusted_hash, inspect, record_matches}
use g_sentinel.Recovery.{
  Others, RecoveryError, Outcome, is_valid_input, is_pre_send, final_outcome, then_write,
  complete_with, recover_pre_send, learn_hash, learn_finality, recover_reverted,
  seal_or_unavailable, recover_finalized, recover_inspected, recover_sent, recover_open, recover,
  unknown, or_fallback, by_hash, by_commitments, by_input, by_outcome, by_operation,
}

abbrev pub SealedLock : Type 0
SealedLock = String × String × String

abbrev pub sealed_status : OutcomeStatus → Option SealedLock
sealed_status (sealed hash key version) = some (hash, key, version)
sealed_status _ = none

-- The transaction, the key and the version of the lock that the result reports as sealed.
abbrev pub sealed_as : Result RecoveryError PublicWriteOutcome → Option SealedLock
sealed_as (ok outcome) = sealed_status outcome.status
sealed_as (err e) = none

module _ (lock : SealedLock) where
  then_write-seals :
      (w : Result Error Db) (db : Db) (k : Db → Outcome)
      → sealed_as (then_write w db k).1 ≡ some lock
      → (db' : Db) × (sealed_as (k db').1 ≡ some lock)
  then_write-seals (ok db') db k h = (db', h)
  then_write-seals (err e) db k h = cc

  -- An outcome that is no sealed one does not report a lock.
  complete_with-unsealed :
      (at : ℕ) (id : String) (status : OutcomeStatus) (db : Db)
      → sealed_status status ≡ none
      → sealed_as (complete_with at id status db).1 ≢ some lock
  complete_with-unsealed at id status db u h =
      let (_, e) =
        then_write-seals (complete at id (record { status = status; recovery_id = id }) db) db
          (λ db'. (db', ok (record { status = status; recovery_id = id }))) h in
      cc

  recover_pre_send-unsealed :
      (at : ℕ) (id : String) (db : Db) → sealed_as (recover_pre_send at id db).1 ≢ some lock
  unfolding recover_pre_send
  recover_pre_send-unsealed at id db h =
      let (db₁, e) = then_write-seals (reconcile_recovery_costs at id released db) db _ h in
      complete_with-unsealed at id not_broadcast db₁ refl e

  recover_reverted-unsealed :
      (at : ℕ) (id : String) (phase : Phase) (hash : String) (db : Db)
      → sealed_as (recover_reverted at id phase hash db).1 ≢ some lock
  unfolding recover_reverted
  recover_reverted-unsealed at id phase hash db h =
      let (db₁, e₁) = then_write-seals (learn_hash at id phase hash db) db _ h in
      let (db₂, e₂) = then_write-seals (reconcile_recovery_costs at id consumed db₁) db₁ _ e₁ in
      complete_with-unsealed at id (reverted hash) db₂ refl e₂

  or_fallback-seals :
      (w : Result Error Db) (outcome : PublicWriteOutcome) (fallback : Outcome)
      → sealed_as (or_fallback w outcome fallback).1 ≡ some lock
      → sealed_as fallback.1 ≢ some lock
      → sealed_status outcome.status ≡ some lock
  or_fallback-seals (ok db') outcome fallback h f = h
  or_fallback-seals (err e) outcome fallback h f = absurd (f h)

  seal_or_unavailable-seals :
      (at : ℕ) (id hash key version : String) (matches : Bool) (db : Db)
      → sealed_as (seal_or_unavailable at id hash key version matches db).1 ≡ some lock
      → (matches ≡ true) × (some (hash, key, version) ≡ some lock)
  unfolding seal_or_unavailable
  seal_or_unavailable-seals at id hash key version false db h =
      absurd
        (complete_with-unsealed at id (finalized_readback_unavailable hash key version) db refl h)
  seal_or_unavailable-seals at id hash key version true db h = (
    refl,
    or_fallback-seals
        (complete at id (record { status = sealed hash key version; recovery_id = id }) db) _ _ h
        (complete_with-unsealed at id (finalized_readback_unavailable hash key version) db refl),
  )

  recover_finalized-seals :
      (others : Others) (at : ℕ) (id : String) (phase : Phase) (key hash : String)
      (finality : Finality) (version : Option ℕ) (matches : ℕ → Bool) (db : Db)
      → sealed_as (recover_finalized others at id phase key hash finality version matches db).1
        ≡ some lock
      → (v : ℕ) × (version ≡ some v)
        × (matches v ≡ true)
        × (some (hash, key, decimal v) ≡ some lock)
  unfolding recover_finalized
  recover_finalized-seals others at id phase key hash finality none matches db h =
      let (db₁, e₁) = then_write-seals (learn_hash at id phase hash db) db _ h in
      let (db₂, e₂) = then_write-seals (learn_finality at id phase finality db₁) db₁ _ e₁ in
      let (db₃, e₃) = then_write-seals (reconcile_recovery_costs at id consumed db₂) db₂ _ e₂ in cc
  recover_finalized-seals others at id phase key hash finality (some v) matches db h =
      let (db₁, e₁) = then_write-seals (learn_hash at id phase hash db) db _ h in
      let (db₂, e₂) = then_write-seals (learn_finality at id phase finality db₁) db₁ _ e₁ in
      let (db₃, e₃) = then_write-seals (reconcile_recovery_costs at id consumed db₂) db₂ _ e₂ in
      let (m, same) =
        seal_or_unavailable-seals at id hash key (decimal v) (matches v)
          (others.during_readback db₃) e₃ in
      (v, refl, m, same)

-- The chain has shown the lock that an operation was to seal: the commitments of the operation are
-- valid, its transaction was found and is finalized with the events of its input, and the lock that
-- was read back is the one of the input, in the version that the input expects.
pub record Confirms (hashing : Hashing) (chain : Chain) (confirmations : ℕ)
    (supplied : Option String) (operation : OperationRecord) (lock : SealedLock) : Type 0 where
  pub input : ChainWriteRequest
  pub hash : String
  pub finality : Finality
  pub version : ℕ
  pub has_input : operation.chain_input ≡ some input
  pub is_committed : validate_operation_commitments hashing operation ≡ ok tt
  pub is_trusted : trusted_hash chain confirmations operation supplied ≡ ok (some hash)
  pub is_finalized : inspect chain confirmations input hash ≡ Inspection.was_finalized finality
  pub expects : expected_version input ≡ some version
  pub is_read_back : record_matches chain input version ≡ true
  pub is_reported : some (hash, operation.admission.identity_key, decimal version) ≡ some lock

module _ (lock : SealedLock) (others : Others) (hashing : Hashing) (chain : Chain)
    (confirmations at : ℕ) (id : String) (supplied : Option String) (operation : OperationRecord)
    (db : Db) where
  inspected-Confirms :
      (input : ChainWriteRequest) (hash : String) (seen : Inspection) (later : Db)
      → operation.chain_input ≡ some input
      → validate_operation_commitments hashing operation ≡ ok tt
      → trusted_hash chain confirmations operation supplied ≡ ok (some hash)
      → inspect chain confirmations input hash ≡ seen
      → sealed_as (recover_inspected others chain at id operation input hash seen later).1
        ≡ some lock
      → Confirms hashing chain confirmations supplied operation lock
  unfolding recover_inspected unknown
  inspected-Confirms input hash Inspection.not_known later i c t s h = cc
  inspected-Confirms input hash Inspection.was_reverted later i c t s h =
      absurd (recover_reverted-unsealed lock at id operation.phase hash later h)
  inspected-Confirms input hash (Inspection.was_finalized finality) later i c t s h =
      let (v, e, m, same) =
        recover_finalized-seals lock others at id operation.phase operation.admission.identity_key
          hash finality (expected_version input) (record_matches chain input) later h in
      record {
        input = input;
        hash = hash;
        finality = finality;
        version = v;
        has_input = i;
        is_committed = c;
        is_trusted = t;
        is_finalized = s;
        expects = e;
        is_read_back = m;
        is_reported = same;
      }

  hash-Confirms :
      (input : ChainWriteRequest) (found : Result (Unit {0}) (Option String))
      → operation.chain_input ≡ some input
      → validate_operation_commitments hashing operation ≡ ok tt
      → trusted_hash chain confirmations operation supplied ≡ found
      → sealed_as
          (by_hash others hashing chain confirmations at id supplied operation db input found).1
        ≡ some lock
      → Confirms hashing chain confirmations supplied operation lock
  unfolding unknown
  hash-Confirms input (err e) i c t h = cc
  hash-Confirms input (ok none) i c t h = cc
  hash-Confirms input (ok (some hash)) i c t h =
      inspected-Confirms input hash (inspect chain confirmations input hash)
        (others.during_inspection db) i c t refl h

  commitments-Confirms :
      (input : ChainWriteRequest) (valid : Result Error (Unit {0}))
      → operation.chain_input ≡ some input
      → validate_operation_commitments hashing operation ≡ valid
      → sealed_as
          (by_commitments others hashing chain confirmations at id supplied operation db input
            valid).1
        ≡ some lock
      → Confirms hashing chain confirmations supplied operation lock
  unfolding unknown
  commitments-Confirms input (err e) i c h = cc
  commitments-Confirms input (ok _) i c h =
      hash-Confirms input (trusted_hash chain confirmations operation supplied) i c refl h

  input-Confirms :
      (input : Option ChainWriteRequest)
      → operation.chain_input ≡ input
      → sealed_as (by_input others hashing chain confirmations at id supplied operation db input).1
        ≡ some lock
      → Confirms hashing chain confirmations supplied operation lock
  unfolding unknown
  input-Confirms none i h = cc
  input-Confirms (some input) i h =
      commitments-Confirms input (validate_operation_commitments hashing operation) i refl h

  open-Confirms :
      (grace : ℕ)
      → sealed_as
          (recover_open others hashing chain confirmations grace at id supplied operation db).1
        ≡ some lock
      → (is_pre_send operation.phase ≡ false)
        × Confirms hashing chain confirmations supplied operation lock
  unfolding recover_open recover_sent
  open-Confirms grace h = elim (Bool-cases (is_pre_send operation.phase)) [
    | inr sent ↦ (sent, input-Confirms operation.chain_input refl (rw sent at h))
    | inl early ↦ elim (Bool-cases (ltb at (operation.updated_at + grace))) [
      | inl live ↦ absurd (ground (arith, early, live))
      | inr stale ↦ absurd (recover_pre_send-unsealed lock at id db (rw (early, stale) at h))
    ]
  ]

-- The record says that the lock was sealed, or it is of an operation that may have been sent, and the
-- chain confirms the lock.
abbrev pub MayReport : Hashing → Chain → ℕ → Option String → OperationRecord → SealedLock → Type 0
MayReport hashing chain confirmations supplied r lock =
    ((outcome : PublicWriteOutcome) × (final_outcome r.terminal_outcome ≡ some outcome)
      × (sealed_status outcome.status ≡ some lock))
    ⊎ ((is_pre_send r.phase ≡ false) × Confirms hashing chain confirmations supplied r lock)

module _ (others : Others) (hashing : Hashing) (chain : Chain) (confirmations grace at : ℕ)
    (id : String) (supplied : Option String) (db : Db) (lock : SealedLock) where
  outcome-MayReport :
      (r : OperationRecord) (outcome : Option PublicWriteOutcome)
      → final_outcome r.terminal_outcome ≡ outcome
      → sealed_as
          (by_outcome others hashing chain confirmations grace at id supplied db r outcome).1
        ≡ some lock
      → MayReport hashing chain confirmations supplied r lock
  outcome-MayReport r (some outcome) e h = inl (outcome, e, h)
  outcome-MayReport r none e h =
      inr (open-Confirms lock others hashing chain confirmations at id supplied r db grace h)

  operation-MayReport :
      (found : Option OperationRecord)
      → sealed_as (by_operation others hashing chain confirmations grace at id supplied db found).1
        ≡ some lock
      → (r : OperationRecord) × (found ≡ some r)
        × MayReport hashing chain confirmations supplied r lock
  operation-MayReport none h = cc
  operation-MayReport (some r) h =
      (r, refl, outcome-MayReport r (final_outcome r.terminal_outcome) refl h)

  -- Recovery reports a sealed lock only for an operation that the journal has, and whose recorded
  -- outcome says so already, or which may have been sent and whose lock the chain confirms: its
  -- commitments are valid, its transaction is finalized with the events of its input, and the lock
  -- that was read back matches the input in the expected version. The report names that transaction,
  -- the identity of the operation and that version, whatever others write meanwhile.
  pub recover-sealed :
      sealed_as (recover others hashing chain confirmations grace at id supplied db).1 ≡ some lock
      → (r : OperationRecord) × (read id db ≡ some r)
        × MayReport hashing chain confirmations supplied r lock
  unfolding recover
  recover-sealed h = elim (Bool-cases (is_valid_input id supplied)) [
    | inr bad ↦ absurd (ground (arith, bad))
    | inl good ↦ operation-MayReport (read id db) (rw good at h)
  ]
