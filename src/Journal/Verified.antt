-- ===== src/Journal/Verified.antt =====
-- What the journal has verified about every operation that it holds, by the operation's phase.
use g_sentinel.Base.{
  ℕ, String, List, map, some, ◌==◌, ◌≡◌, refl, All, ◌⊎◌, inl, inr, Bool-cases, ok, subst,
}
use g_sentinel.Journal.Types.{Phase, recovery_required, OperationRecord, Limits}
use g_sentinel.Journal.Db.{Db, Row, read, update_operation, change_row, consumed_units}
use g_sentinel.Journal.Validate.{Hashing, commitments_hold_of, validate_operation_commitments}
use g_sentinel.Journal.Rows.{select-All, All-map}
use g_sentinel.Journal.Invariant.{with_totals}
use g_sentinel.Journal.Commitments.{
  IsInFlight, at_attempt, at_hash, at_finality, Committed, Fits, FitsPhase, FitsPhase-same,
}
use g_sentinel.Journal.Steps.{
  Reach, start, then_step, Effect, inserted, moved, charged, unchanged, Step-Effect,
}

module _ (hashing : Hashing) where
  FitsPhase-totals :
      (q : Phase) (now units : ℕ) (x : OperationRecord)
      → FitsPhase hashing q x
      → FitsPhase hashing q (with_totals now units x)
  FitsPhase-totals q now units x f =
      FitsPhase-same hashing q x (with_totals now units x) refl refl refl refl refl f

  abbrev pub AllFit : Db → Type 0
  AllFit db = All (λ r. Fits hashing r.payload) db.operations

  read-Fits :
      (id : String) (db : Db) {x : OperationRecord}
      → AllFit db
      → read id db ≡ some x
      → Fits hashing x
  unfolding read
  read-Fits id db h e = select-All (Fits hashing) (λ r. r.recovery_id == id) db.operations h e

  change_row-Fits :
      (id : String) (f : Row → Row) (rows : List Row)
      → ((r : Row) → Fits hashing (f r).payload)
      → All (λ r. Fits hashing r.payload) rows
      → All (λ r. Fits hashing r.payload) (map (change_row id f) rows)
  change_row-Fits id f rows k h =
      All-map (λ r. Fits hashing r.payload) (λ r. Fits hashing r.payload) (change_row id f) rows
        (λ r fit. elim (Bool-cases (r.recovery_id == id)) [
          | inl here ↦ rw here (k r)
          | inr there ↦ rw there fit
        ])
        h

  Effect-Fits :
      (limits : Limits) {db db' : Db} → Effect hashing limits db db' → AllFit db → AllFit db'
  unfolding update_operation
  Effect-Fits limits (inserted e) h = rw e.result (refl, h)
  Effect-Fits limits {db} (moved e) h =
      rw e.result
        (change_row-Fits e.id _ db.operations (λ r. e.fits (read-Fits e.id db h e.found)) h)
  Effect-Fits limits {db} (charged e) h = rw e.result (
      change_row-Fits e.id _ db.operations
        (λ r.
          FitsPhase-totals e.current.phase e.now (consumed_units e.id e.costs) e.current
            (read-Fits e.id db h e.found))
        h)
  Effect-Fits limits (unchanged e) h = rw e h

  Reach-Fits : (limits : Limits) {db : Db} → Reach hashing limits db → AllFit db
  Reach-Fits limits start = tt
  Reach-Fits limits (then_step r s) =
      Effect-Fits limits (Step-Effect hashing limits s) (Reach-Fits limits r)

  Committed-valid :
      (r : OperationRecord) → Committed hashing r → validate_operation_commitments hashing r ≡ ok tt
  Committed-valid r c =
      commitments_hold_of hashing r c.has_compute c.has_storage c.has_chain_input c.compute_ok
        c.storage_ok c.chain_ok

  -- In every database that the journal reaches, an operation that may have been sent, or waits for
  -- recovery, carries commitments that pass the journal's own validation.
  pub sent_commitments_valid :
      (limits : Limits) (id : String) (r : OperationRecord) {db : Db}
      → Reach hashing limits db
      → read id db ≡ some r
      → IsInFlight r.phase ⊎ (r.phase ≡ recovery_required)
      → validate_operation_commitments hashing r ≡ ok tt
  sent_commitments_valid limits id r {db} reach found sent =
      Committed-valid r
        (Committed_of_sent r.phase r (read-Fits id db (Reach-Fits limits reach) found) sent)
    where
      Committed_of_sent :
          (p : Phase) (x : OperationRecord)
          → FitsPhase hashing p x
          → IsInFlight p ⊎ (p ≡ recovery_required)
          → Committed hashing x
      Committed_of_sent p x f (inl at_attempt) = f.1
      Committed_of_sent p x f (inl at_hash) = f.1
      Committed_of_sent p x f (inl at_finality) = f.1
      Committed_of_sent p x f (inr e) = subst (λ q. FitsPhase hashing q x) e f
