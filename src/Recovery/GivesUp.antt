-- ===== src/Recovery/GivesUp.antt =====
-- When recovery gives an operation up as never broadcast.
use g_sentinel.Base.{
  ℕ, String, Bool, true, false, Option, none, some, Result, ok, err, ◌≡◌, refl, arith, ◌⊎◌, inl,
  inr, ◌≤◌, ◌+◌, ltb, Bool-cases,
}
use g_sentinel.Journal.Types.{
  Phase, OutcomeStatus, not_broadcast, sealed, reverted, finalized_readback_unavailable,
  PublicWriteOutcome, ChainWriteRequest, Finality, OperationRecord, Error,
}
use g_sentinel.Journal.Db.{Db, read, consumed}
use g_sentinel.Journal.Validate.{Hashing, expected_version, validate_operation_commitments}
use g_sentinel.Journal.Costs.{reconcile_recovery_costs}
use g_sentinel.Journal.Phases.{complete}
use g_sentinel.Recovery.Inspect.{Chain, Inspection, trusted_hash, inspect, record_matches}
use g_sentinel.Recovery.{
  Others, RecoveryError, Outcome, is_valid_input, is_pre_send, final_outcome, then_write,
  complete_with, learn_hash, learn_finality, recover_reverted, seal_or_unavailable,
  recover_finalized, recover_inspected, recover_sent, recover_open, recover, unknown, or_fallback,
  by_hash, by_commitments, by_input, by_outcome, by_operation,
}

abbrev pub is_not_broadcast : OutcomeStatus → Bool
is_not_broadcast not_broadcast = true
is_not_broadcast _ = false

-- The result says that the operation was never broadcast.
abbrev pub gives_up : Result RecoveryError PublicWriteOutcome → Bool
gives_up (ok outcome) = is_not_broadcast outcome.status
gives_up (err e) = false

then_write-keeps :
    (w : Result Error Db) (db : Db) (k : Db → Outcome)
    → ((db' : Db) → gives_up (k db').1 ≡ false)
    → gives_up (then_write w db k).1 ≡ false
then_write-keeps (ok db') db k h = h db'
then_write-keeps (err e) db k h = refl

complete_with-keeps :
    (at : ℕ) (id : String) (status : OutcomeStatus) (db : Db)
    → is_not_broadcast status ≡ false
    → gives_up (complete_with at id status db).1 ≡ false
complete_with-keeps at id status db h =
    then_write-keeps (complete at id (record { status = status; recovery_id = id }) db) db
      (λ db'. (db', ok (record { status = status; recovery_id = id }))) (λ db'. h)

recover_reverted-keeps :
    (at : ℕ) (id : String) (phase : Phase) (hash : String) (db : Db)
    → gives_up (recover_reverted at id phase hash db).1 ≡ false
unfolding recover_reverted
recover_reverted-keeps at id phase hash db =
    then_write-keeps (learn_hash at id phase hash db) db _ (λ db₁.
      then_write-keeps (reconcile_recovery_costs at id consumed db₁) db₁ _
        (λ db₂. complete_with-keeps at id (reverted hash) db₂ refl))

or_fallback-keeps :
    (w : Result Error Db) (outcome : PublicWriteOutcome) (fallback : Outcome)
    → is_not_broadcast outcome.status ≡ false
    → gives_up fallback.1 ≡ false
    → gives_up (or_fallback w outcome fallback).1 ≡ false
or_fallback-keeps (ok db') outcome fallback s f = s
or_fallback-keeps (err e) outcome fallback s f = f

seal_or_unavailable-keeps :
    (at : ℕ) (id hash key version : String) (matches : Bool) (db : Db)
    → gives_up (seal_or_unavailable at id hash key version matches db).1 ≡ false
unfolding seal_or_unavailable
seal_or_unavailable-keeps at id hash key version false db =
    complete_with-keeps at id (finalized_readback_unavailable hash key version) db refl
seal_or_unavailable-keeps at id hash key version true db =
    or_fallback-keeps
      (complete at id (record { status = sealed hash key version; recovery_id = id }) db)
      (record { status = sealed hash key version; recovery_id = id })
      (complete_with at id (finalized_readback_unavailable hash key version) db) refl
      (complete_with-keeps at id (finalized_readback_unavailable hash key version) db refl)

recover_finalized-keeps :
    (others : Others) (at : ℕ) (id : String) (phase : Phase) (key hash : String)
    (finality : Finality) (version : Option ℕ) (matches : ℕ → Bool) (db : Db)
    → gives_up (recover_finalized others at id phase key hash finality version matches db).1 ≡ false
unfolding recover_finalized
recover_finalized-keeps others at id phase key hash finality none matches db =
    then_write-keeps (learn_hash at id phase hash db) db _ (λ db₁.
      then_write-keeps (learn_finality at id phase finality db₁) db₁ _
        (λ db₂. then_write-keeps (reconcile_recovery_costs at id consumed db₂) db₂ _ (λ db₃. refl)))
recover_finalized-keeps others at id phase key hash finality (some v) matches db =
    then_write-keeps (learn_hash at id phase hash db) db _ (λ db₁.
      then_write-keeps (learn_finality at id phase finality db₁) db₁ _ (λ db₂.
        then_write-keeps (reconcile_recovery_costs at id consumed db₂) db₂ _ (λ db₃.
          seal_or_unavailable-keeps at id hash key _ (matches v) (others.during_readback db₃))))

module _ (others : Others) (hashing : Hashing) (chain : Chain) (confirmations at : ℕ) (id : String)
    (supplied : Option String) (operation : OperationRecord) (db : Db) where
  recover_inspected-keeps :
      (later : Db) (input : ChainWriteRequest) (hash : String) (seen : Inspection)
      → gives_up (recover_inspected others chain at id operation input hash seen later).1 ≡ false
  unfolding recover_inspected unknown
  recover_inspected-keeps later input hash Inspection.not_known = refl
  recover_inspected-keeps later input hash Inspection.was_reverted =
      recover_reverted-keeps at id operation.phase hash later
  recover_inspected-keeps later input hash (Inspection.was_finalized finality) =
      recover_finalized-keeps others at id operation.phase operation.admission.identity_key hash
        finality (expected_version input) (record_matches chain input) later

  by_hash-keeps :
      (input : ChainWriteRequest) (found : Result (Unit {0}) (Option String))
      → gives_up
          (by_hash others hashing chain confirmations at id supplied operation db input found).1
        ≡ false
  unfolding unknown
  by_hash-keeps input (err e) = refl
  by_hash-keeps input (ok none) = refl
  by_hash-keeps input (ok (some hash)) =
      recover_inspected-keeps (others.during_inspection db) input hash
        (inspect chain confirmations input hash)

  by_commitments-keeps :
      (input : ChainWriteRequest) (valid : Result Error (Unit {0}))
      → gives_up
          (by_commitments others hashing chain confirmations at id supplied operation db input
            valid).1
        ≡ false
  unfolding unknown
  by_commitments-keeps input (err e) = refl
  by_commitments-keeps input (ok _) =
      by_hash-keeps input (trusted_hash chain confirmations operation supplied)

  by_input-keeps :
      (input : Option ChainWriteRequest)
      → gives_up (by_input others hashing chain confirmations at id supplied operation db input).1
        ≡ false
  unfolding unknown
  by_input-keeps none = refl
  by_input-keeps (some input) =
      by_commitments-keeps input (validate_operation_commitments hashing operation)

  -- Only an operation in a phase before the send that has been left alone for the grace period is
  -- given up.
  open-stale :
      (grace : ℕ)
      → gives_up
          (recover_open others hashing chain confirmations grace at id supplied operation db).1
        ≡ true
      → (is_pre_send operation.phase ≡ true) × (operation.updated_at + grace ≤ at)
  unfolding recover_open recover_sent
  open-stale grace h = elim (Bool-cases (is_pre_send operation.phase)) [
    | inr sent ↦ let k = by_input-keeps operation.chain_input in absurd (ground (arith, k, sent))
    | inl t ↦ elim (Bool-cases (ltb at (operation.updated_at + grace))) [
      | inl live ↦ absurd (ground (arith, t, live))
      | inr stale ↦ (t, ground arith)
    ]
  ]

-- The record of an operation that may be given up: its outcome says so already, or it is in a phase
-- before the send and nothing has changed it for the grace period.
abbrev pub MayGiveUp : ℕ → ℕ → OperationRecord → Type 0
MayGiveUp grace at r =
    ((outcome : PublicWriteOutcome) × (final_outcome r.terminal_outcome ≡ some outcome)
      × (is_not_broadcast outcome.status ≡ true))
    ⊎ ((is_pre_send r.phase ≡ true) × (r.updated_at + grace ≤ at))

module _ (others : Others) (hashing : Hashing) (chain : Chain) (confirmations grace at : ℕ)
    (id : String) (supplied : Option String) (db : Db) where
  outcome-MayGiveUp :
      (r : OperationRecord) (outcome : Option PublicWriteOutcome)
      → final_outcome r.terminal_outcome ≡ outcome
      → gives_up (by_outcome others hashing chain confirmations grace at id supplied db r outcome).1
        ≡ true
      → MayGiveUp grace at r
  outcome-MayGiveUp r (some outcome) e h = inl (outcome, e, h)
  outcome-MayGiveUp r none e h =
      inr (open-stale others hashing chain confirmations at id supplied r db grace h)

  operation-MayGiveUp :
      (found : Option OperationRecord)
      → gives_up (by_operation others hashing chain confirmations grace at id supplied db found).1
        ≡ true
      → (r : OperationRecord) × (found ≡ some r) × MayGiveUp grace at r
  operation-MayGiveUp none h = cc
  operation-MayGiveUp (some r) h =
      (r, refl, outcome-MayGiveUp r (final_outcome r.terminal_outcome) refl h)

  -- Recovery says that an operation was never broadcast only of one that the journal has, and whose
  -- recorded outcome says so already, or which is in a phase before the send and has not been changed
  -- for the grace period, whatever the chain answers and others write meanwhile.
  pub recover-gives_up :
      gives_up (recover others hashing chain confirmations grace at id supplied db).1 ≡ true
      → (r : OperationRecord) × (read id db ≡ some r) × MayGiveUp grace at r
  unfolding recover
  recover-gives_up h = elim (Bool-cases (is_valid_input id supplied)) [
    | inr bad ↦ absurd (ground (arith, bad))
    | inl good ↦ operation-MayGiveUp (read id db) (rw good at h)
  ]
