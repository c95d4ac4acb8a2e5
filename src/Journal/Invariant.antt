-- ===== src/Journal/Invariant.antt =====
-- The journal's invariant: distinct keys, at most one live operation for an identity, and columns
-- that agree with the stored record.
use g_sentinel.Base.{
  List, ℕ, String, true, map, some, ◌==◌, eq_iff, ◌≡◌, refl, ◌≢◌, sym, ap, ◌∙◌, arith, All,
  AllPairs, Bool-cases, inl, inr, not,
}
use g_sentinel.Journal.Types.{OperationRecord, Phase, terminal, is_terminal, same_phase}
use g_sentinel.Journal.Db.{CostRow, Row, Db, read, change_row}
use g_sentinel.Journal.Admission.{is_live}
use g_sentinel.Journal.Phases.{write_phase}
use g_sentinel.Journal.Rows.{payload_of_id, All-map_of, AllPairs-map_of, All-imp, All-both}

-- The columns of a row repeat what its record says.
pub record Agrees (r : Row) : Type 0 where
  pub recovery_id : r.payload.recovery_id ≡ r.recovery_id
  pub key : r.payload.admission.idempotency_key ≡ r.idempotency_key
  pub digest : r.payload.admission.input_digest ≡ r.input_digest
  pub identity : r.payload.admission.identity_key ≡ r.identity_key
  pub operator : r.payload.admission.operator ≡ r.operator_address
  pub phase : r.payload.phase ≡ r.phase
  pub cost : r.payload.admission.reserved_cost_units ≡ r.reserved_cost_units

abbrev pub OneLive : Row → Row → Type 0
OneLive a b = is_live a ≡ true → is_live b ≡ true → a.identity_key ≢ b.identity_key

pub record IsWellFormed (db : Db) : Type 0 where
  pub ids : AllPairs (λ a b. a.recovery_id ≢ b.recovery_id) db.operations
  pub keys : AllPairs (λ a b. a.idempotency_key ≢ b.idempotency_key) db.operations
  pub one_live : AllPairs OneLive db.operations
  pub columns : All Agrees db.operations

-- What an update of a row leaves alone.
pub record Stays (r s : Row) : Type 0 where
  pub recovery_id : s.recovery_id ≡ r.recovery_id
  pub key : s.idempotency_key ≡ r.idempotency_key
  pub identity : s.identity_key ≡ r.identity_key
  pub operator : s.operator_address ≡ r.operator_address
  pub live : is_live s ≡ true → is_live r ≡ true
  pub created : s.created_ms ≡ r.created_ms
  pub cost : s.reserved_cost_units ≡ r.reserved_cost_units
  pub agrees : Agrees r → Agrees s

pub map-IsWellFormed :
    (db : Db) (costs : List CostRow) (f : Row → Row)
    → All (λ r. Stays r (f r)) db.operations
    → IsWellFormed db
    → IsWellFormed (record { operations = map f db.operations; costs = costs })
map-IsWellFormed db costs f s w = record {
  ids =
      AllPairs-map_of (λ r. Stays r (f r)) (λ a b. a.recovery_id ≢ b.recovery_id) f db.operations
        (λ a b sa sb ne e. ne (sym sa.recovery_id ∙ e ∙ sb.recovery_id)) s w.ids;
  keys =
      AllPairs-map_of (λ r. Stays r (f r)) (λ a b. a.idempotency_key ≢ b.idempotency_key) f
        db.operations (λ a b sa sb ne e. ne (sym sa.key ∙ e ∙ sb.key)) s w.keys;
  one_live =
      AllPairs-map_of (λ r. Stays r (f r)) OneLive f db.operations
        (λ a b sa sb one la lb e. one (sa.live la) (sb.live lb) (sym sa.identity ∙ e ∙ sb.identity))
        s w.one_live;
  columns =
      All-map_of (λ r. Stays r (f r)) Agrees Agrees f db.operations (λ r sr a. sr.agrees a) s
        w.columns;
}

Stays-refl : (r : Row) → Stays r r
Stays-refl r = record {
  recovery_id = refl;
  key = refl;
  identity = refl;
  operator = refl;
  live = λ h. h;
  created = refl;
  cost = refl;
  agrees = λ a. a;
}

live_of_ne : (p : Phase) → p ≢ terminal → not (is_terminal p) ≡ true
unfolding is_terminal same_phase
live_of_ne p h = ground arith

-- The row that `change` writes in place of one that holds `current`.
Stays-write_phase :
    (id : String) (now : ℕ) (next : Phase) (current updated : OperationRecord) (r : Row)
    → updated.admission ≡ current.admission
    → updated.recovery_id ≡ current.recovery_id
    → current.phase ≢ terminal
    → (r.recovery_id ≡ id → r.payload ≡ current)
    → Agrees r
    → Stays r (change_row id (write_phase now next updated) r)
Stays-write_phase id now next current updated r ea er live p a =
    elim (Bool-cases (r.recovery_id == id)) [
      | inl here ↦
          let same = p ((eq_iff r.recovery_id id).0 here) in
          let admitted = ea ∙ sym (ap (λ x. x.admission) same) in
          rw here (record {
            recovery_id = refl;
            key = refl;
            identity = refl;
            operator = refl;
            live = λ _. live_of_ne r.phase (λ e. live (sym (ap (λ x. x.phase) same) ∙ a.phase ∙ e));
            created = refl;
            cost = refl;
            agrees = λ b. record {
              recovery_id = er ∙ sym (ap (λ x. x.recovery_id) same) ∙ b.recovery_id;
              key = ap (λ x. x.idempotency_key) admitted ∙ b.key;
              digest = ap (λ x. x.input_digest) admitted ∙ b.digest;
              identity = ap (λ x. x.identity_key) admitted ∙ b.identity;
              operator = ap (λ x. x.operator) admitted ∙ b.operator;
              phase = refl;
              cost = ap (λ x. x.reserved_cost_units) admitted ∙ b.cost;
            };
          })
      | inr there ↦ rw there (Stays-refl r)
    ]

-- The record that `persistTotals` writes.
abbrev pub with_totals : ℕ → ℕ → OperationRecord → OperationRecord
with_totals now units x = record x { reconciled_cost_units = some units; updated_at = now }

abbrev pub write_totals : ℕ → ℕ → OperationRecord → Row → Row
write_totals now units x r = record r {
  reserved_cost_units = x.admission.reserved_cost_units;
  updated_ms = now;
  payload = with_totals now units x;
}

Stays-write_totals :
    (id : String) (now units : ℕ) (current : OperationRecord) (r : Row)
    → (r.recovery_id ≡ id → r.payload ≡ current)
    → Agrees r
    → Stays r (change_row id (write_totals now units current) r)
Stays-write_totals id now units current r p a = elim (Bool-cases (r.recovery_id == id)) [
  | inl here ↦
      let same = p ((eq_iff r.recovery_id id).0 here) in
      let admitted = sym (ap (λ x. x.admission) same) in
      rw here (record {
        recovery_id = refl;
        key = refl;
        identity = refl;
        operator = refl;
        live = λ h. h;
        created = refl;
        cost = ap (λ x. x.reserved_cost_units) admitted ∙ a.cost;
        agrees = λ b. record {
          recovery_id = sym (ap (λ x. x.recovery_id) same) ∙ b.recovery_id;
          key = ap (λ x. x.idempotency_key) admitted ∙ b.key;
          digest = ap (λ x. x.input_digest) admitted ∙ b.digest;
          identity = ap (λ x. x.identity_key) admitted ∙ b.identity;
          operator = ap (λ x. x.operator) admitted ∙ b.operator;
          phase = sym (ap (λ x. x.phase) same) ∙ b.phase;
          cost = refl;
        };
      })
  | inr there ↦ rw there (Stays-refl r)
]

-- Every row stays what it was, but for the phase or the totals, when an update writes the rows of
-- the operation that it read.
module _ (db : Db) (id : String) {current : OperationRecord} (w : IsWellFormed db)
    (found : read id db ≡ some current) where
  holding : All (λ r. (r.recovery_id ≡ id → r.payload ≡ current) × Agrees r) db.operations
  unfolding read
  holding = All-both _ Agrees db.operations (payload_of_id id db.operations w.ids found) w.columns

  pub All-Stays_phase :
      (now : ℕ) (next : Phase) (updated : OperationRecord)
      → updated.admission ≡ current.admission
      → updated.recovery_id ≡ current.recovery_id
      → current.phase ≢ terminal
      → All (λ r. Stays r (change_row id (write_phase now next updated) r)) db.operations
  All-Stays_phase now next updated ea er live =
      All-imp (λ r. (r.recovery_id ≡ id → r.payload ≡ current) × Agrees r) _ db.operations
        (λ r h. Stays-write_phase id now next current updated r ea er live h.0 h.1) holding

  pub All-Stays_totals :
      (now units : ℕ)
      → All (λ r. Stays r (change_row id (write_totals now units current) r)) db.operations
  All-Stays_totals now units =
      All-imp (λ r. (r.recovery_id ≡ id → r.payload ≡ current) × Agrees r) _ db.operations
        (λ r h. Stays-write_totals id now units current r h.0 h.1) holding
