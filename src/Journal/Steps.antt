-- ===== src/Journal/Steps.antt =====
-- The journal as a transition system: a step is an operation that succeeds. Every step has one of
-- three effects, and the invariant of Journal/Invariant holds in every reachable database.
use g_sentinel.Base.{
  ℕ, String, Bool, false, List, [], ◌∷◌, some, ◌==◌, eq_iff, ◌≡◌, refl, arith, All, inl, inr,
  Bool-cases, Option-cases, ok, any, count_if,
}
use g_sentinel.Journal.Types.{
  PaidStage, PublicWriteOutcome, ComputeCommitment, StorageCommitment, ChainWriteRequest, Finality,
  OperationAdmission, OperationRecord, Limits, BeginResult,
}
use g_sentinel.Journal.Db.{
  Db, Row, CostRow, Disposition, read, read_by_key, update_operation, insert_operation, empty,
  persist_totals, consumed_units, update_costs,
}
use g_sentinel.Journal.Validate.{Hashing}
use g_sentinel.Journal.Admission.{begin, new_row, enforce_admission, is_live_identity}
use g_sentinel.Journal.Costs.{
  reserve_cost, reconcile_cost, release_reserved_costs, reconcile_recovery_costs, insert_cost,
  is_open_stage,
}
use g_sentinel.Journal.Phases.{
  record_compute, record_storage, record_chain_input, record_submission_attempt,
  record_transaction_hash, record_finalized, complete,
}
use g_sentinel.Journal.Invariant.{
  IsWellFormed, map-IsWellFormed, All-Stays_phase, All-Stays_totals, write_totals,
}
use g_sentinel.Journal.Commitments.{Edge-ne_terminal}
use g_sentinel.Journal.Effects.{
  Moves, record_compute-Moves, record_storage-Moves, record_chain_input-Moves,
  record_submission_attempt-Moves, record_transaction_hash-Moves, record_finalized-Moves,
  complete-Moves,
}

-- A step of a journal that was created with `limits`.
pub data Step (hashing : Hashing) (limits : Limits) : Db → Db → Type 0 where
  begins :
      (now : ℕ) (fresh : String) (input : OperationAdmission) {db db' : Db} {r : BeginResult}
      → begin limits now fresh input db ≡ ok (db', r)
      → Step hashing limits db db'
  reserves :
      (now : ℕ) (id : String) (stage : PaidStage) (units : ℕ) {db db' : Db}
      → reserve_cost now id stage units db ≡ ok db'
      → Step hashing limits db db'
  reconciles :
      (now : ℕ) (id : String) (stage : PaidStage) (d : Disposition) {db db' : Db}
      → reconcile_cost now id stage d db ≡ ok db'
      → Step hashing limits db db'
  releases :
      (now : ℕ) (id : String) {db db' : Db}
      → release_reserved_costs now id db ≡ ok db'
      → Step hashing limits db db'
  recovers :
      (now : ℕ) (id : String) (d : Disposition) {db db' : Db}
      → reconcile_recovery_costs now id d db ≡ ok db'
      → Step hashing limits db db'
  computes :
      (now : ℕ) (id : String) (value : ComputeCommitment) {db db' : Db}
      → record_compute hashing now id value db ≡ ok db'
      → Step hashing limits db db'
  stores :
      (now : ℕ) (id : String) (value : StorageCommitment) {db db' : Db}
      → record_storage hashing now id value db ≡ ok db'
      → Step hashing limits db db'
  commits :
      (now : ℕ) (id : String) (value : ChainWriteRequest) {db db' : Db}
      → record_chain_input now id value db ≡ ok db'
      → Step hashing limits db db'
  attempts :
      (now : ℕ) (id : String) {db db' : Db}
      → record_submission_attempt now id db ≡ ok db'
      → Step hashing limits db db'
  learns :
      (now : ℕ) (id hash : String) {db db' : Db}
      → record_transaction_hash now id hash db ≡ ok db'
      → Step hashing limits db db'
  finalizes :
      (now : ℕ) (id : String) (value : Finality) {db db' : Db}
      → record_finalized now id value db ≡ ok db'
      → Step hashing limits db db'
  completes :
      (now : ℕ) (id : String) (outcome : PublicWriteOutcome) {db db' : Db}
      → complete now id outcome db ≡ ok db'
      → Step hashing limits db db'

pub data Reach (hashing : Hashing) (limits : Limits) : Db → Type 0 where
  start : Reach hashing limits empty
  then_step :
      {db db' : Db}
      → Reach hashing limits db
      → Step hashing limits db db'
      → Reach hashing limits db'

-- A new operation was admitted.
pub record Inserts (limits : Limits) (db db' : Db) : Type 0 where
  pub now : ℕ
  pub fresh : String
  pub input : OperationAdmission
  pub admitted : enforce_admission now limits input db ≡ ok tt
  pub fresh_id : any (λ o. o.recovery_id == fresh) db.operations ≡ false
  pub fresh_key : any (λ o. o.idempotency_key == input.idempotency_key) db.operations ≡ false
  pub result : db' ≡ record db { operations = new_row fresh now input ∷ db.operations }

-- Costs were changed, and the totals of one operation were written.
pub record Charges (db db' : Db) : Type 0 where
  pub now : ℕ
  pub id : String
  pub current : OperationRecord
  pub costs : List CostRow
  pub found : read id db ≡ some current
  pub result :
      db'
      ≡ update_operation id
          (write_totals now (consumed_units id costs) current)
          (record db { costs = costs })

pub data Effect (hashing : Hashing) (limits : Limits) (db db' : Db) : Type 0 where
  inserted : Inserts limits db db' → Effect hashing limits db db'
  moved : Moves hashing db db' → Effect hashing limits db db'
  charged : Charges db db' → Effect hashing limits db db'
  unchanged : db' ≡ db → Effect hashing limits db db'

-- `persistTotals` after the costs were set.
persist_totals-Charges :
    (now : ℕ) (id : String) (db : Db) (costs : List CostRow) (db' : Db)
    → persist_totals now id (record db { costs = costs }) ≡ ok db'
    → Charges db db'
unfolding persist_totals
persist_totals-Charges now id db costs db' h = elim (Option-cases (read id db)) [
  | inl missing ↦ absurd (ground arith)
  | inr (current, found) ↦ record {
    now = now;
    id = id;
    current = current;
    costs = costs;
    found = found;
    result = ground arith;
  }
]

reserve_cost-Charges :
    (now : ℕ) (id : String) (stage : PaidStage) (units : ℕ) (db db' : Db)
    → reserve_cost now id stage units db ≡ ok db'
    → Charges db db'
unfolding reserve_cost
reserve_cost-Charges now id stage units db db' h = elim (Option-cases (read id db)) [
  | inl missing ↦ absurd (ground arith)
  | inr (operation, found) ↦
      persist_totals-Charges now id db (insert_cost id stage units db).costs db' (ground arith)
]

begin-Effect :
    (hashing : Hashing) (limits : Limits) (now : ℕ) (fresh : String) (input : OperationAdmission)
    (db db' : Db) {r : BeginResult}
    → begin limits now fresh input db ≡ ok (db', r)
    → Effect hashing limits db db'
unfolding begin insert_operation
begin-Effect hashing limits now fresh input db db' h =
    elim (Option-cases (read_by_key input.idempotency_key db)) [
      | inr (old, known) ↦ unchanged (ground arith)
      | inl new ↦ inserted (record {
        now = now;
        fresh = fresh;
        input = input;
        admitted = ground arith;
        fresh_id = ground arith;
        fresh_key = ground arith;
        result = ground arith;
      })
    ]

reconcile_cost-Charges :
    (now : ℕ) (id : String) (stage : PaidStage) (d : Disposition) (db db' : Db)
    → reconcile_cost now id stage d db ≡ ok db'
    → Charges db db'
unfolding reconcile_cost
reconcile_cost-Charges now id stage d db db' h =
    persist_totals-Charges now id db (update_costs (is_open_stage id stage) (λ c. d) db).costs db'
      (unfold update_costs in ground arith)

module _ (hashing : Hashing) (limits : Limits) where
  pub Step-Effect : {db db' : Db} → Step hashing limits db db' → Effect hashing limits db db'
  unfolding release_reserved_costs reconcile_recovery_costs update_costs
  Step-Effect {db} {db'} (begins now fresh input h) =
      begin-Effect hashing limits now fresh input db db' h
  Step-Effect {db} {db'} (reserves now id stage units h) =
      charged (reserve_cost-Charges now id stage units db db' h)
  Step-Effect {db} {db'} (reconciles now id stage d h) =
      charged (reconcile_cost-Charges now id stage d db db' h)
  Step-Effect {db} {db'} (releases now id h) = charged (persist_totals-Charges now id db _ db' h)
  Step-Effect {db} {db'} (recovers now id d h) = charged (persist_totals-Charges now id db _ db' h)
  Step-Effect {db} {db'} (computes now id value h) =
      moved (record_compute-Moves hashing now id db db' value h)
  Step-Effect {db} {db'} (stores now id value h) =
      moved (record_storage-Moves hashing now id db db' value h)
  Step-Effect {db} {db'} (commits now id value h) =
      moved (record_chain_input-Moves hashing now id db db' value h)
  Step-Effect {db} {db'} (attempts now id h) =
      moved (record_submission_attempt-Moves hashing now id db db' h)
  Step-Effect {db} {db'} (learns now id hash h) =
      moved (record_transaction_hash-Moves hashing now id db db' hash h)
  Step-Effect {db} {db'} (finalizes now id value h) =
      moved (record_finalized-Moves hashing now id db db' value h)
  Step-Effect {db} {db'} (completes now id outcome h) =
      moved (complete-Moves hashing now id db db' outcome h)

-- No row of the table meets a test: each differs from the new one.
All-of_not-any {ℓ} :
    (p : Row → Bool) (P : Row → Type ℓ) (rows : List Row)
    → ((r : Row) → p r ≡ false → P r)
    → any p rows ≡ false
    → All P rows
All-of_not-any p P [] k h = tt
All-of_not-any p P (r ∷ rows) k h = (k r (ground arith), All-of_not-any p P rows k (ground arith))

pub All-of_count_if-zero {ℓ} :
    (p : Row → Bool) (P : Row → Type ℓ) (rows : List Row)
    → ((r : Row) → p r ≡ false → P r)
    → count_if p rows ≡ 0
    → All P rows
unfolding count_if
All-of_count_if-zero p P [] k h = tt
All-of_count_if-zero p P (r ∷ rows) k h = elim (Bool-cases (p r)) [
  | inl here ↦ absurd (ground arith)
  | inr there ↦ (k r there, All-of_count_if-zero p P rows k (ground arith))
]

Inserts-IsWellFormed :
    (limits : Limits) {db db' : Db} → Inserts limits db db' → IsWellFormed db → IsWellFormed db'
unfolding enforce_admission
Inserts-IsWellFormed limits {db} e w = rw e.result (record {
  ids = (
    All-of_not-any (λ o. o.recovery_id == e.fresh) _ db.operations
        (λ r h same. ground (arith, eq_iff r.recovery_id e.fresh)) e.fresh_id,
    w.ids,
  );
  keys = (
    All-of_not-any (λ o. o.idempotency_key == e.input.idempotency_key) _ db.operations
        (λ r h same. ground (arith, eq_iff r.idempotency_key e.input.idempotency_key)) e.fresh_key,
    w.keys,
  );
  one_live = (
    All-of_count_if-zero (is_live_identity e.input.identity_key) _ db.operations
        (λ r h la lb same. ground (arith, eq_iff r.identity_key e.input.identity_key))
        (ground (arith, e.admitted)),
    w.one_live,
  );
  columns = (
    record {
      recovery_id = refl;
      key = refl;
      digest = refl;
      identity = refl;
      operator = refl;
      phase = refl;
      cost = refl;
    },
    w.columns,
  );
})

module _ {hashing : Hashing} {limits : Limits} {db db' : Db} where
  pub Effect-IsWellFormed : Effect hashing limits db db' → IsWellFormed db → IsWellFormed db'
  unfolding update_operation
  Effect-IsWellFormed (inserted e) w = Inserts-IsWellFormed limits e w
  Effect-IsWellFormed (moved e) w = rw e.result (
      map-IsWellFormed db db.costs _
        (All-Stays_phase db e.id w e.found e.now e.next e.updated e.same_admission e.same_id
          (Edge-ne_terminal e.edge))
        w)
  Effect-IsWellFormed (charged e) w = rw e.result (
      map-IsWellFormed db e.costs _
        (All-Stays_totals db e.id w e.found e.now (consumed_units e.id e.costs)) w)
  Effect-IsWellFormed (unchanged e) w = rw e w

-- In every database that a journal reaches, the recovery ids are distinct and so are the idempotency
-- keys, an identity has at most one live operation, and the columns of each row are those of its
-- payload.
pub Reach-IsWellFormed :
    (hashing : Hashing) (limits : Limits) {db : Db} → Reach hashing limits db → IsWellFormed db
Reach-IsWellFormed hashing limits start = record {
  ids = tt;
  keys = tt;
  one_live = tt;
  columns = tt;
}
Reach-IsWellFormed hashing limits (then_step r s) =
    Effect-IsWellFormed (Step-Effect hashing limits s) (Reach-IsWellFormed hashing limits r)
