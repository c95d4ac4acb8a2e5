-- ===== src/Journal/Db.antt =====
-- The two tables of the journal's database, and the statements that the journal runs on them.
-- A table is a list of rows. JSON keeps a record, so a row holds its payload as the record.
use g_sentinel.Base.{
  ℕ, String, Bool, true, false, List, [], ◌∷◌, map, Option, none, some, ◌==◌, ◌&&◌, any, sum_of,
  Result, ok, err, if◌then◌else◌,
}
use g_sentinel.Journal.Types.{
  Phase, PaidStage, OperationRecord, Error, unique_constraint, invalid_operation,
}

pub record Row : Type 0 where
  pub recovery_id : String
  pub idempotency_key : String
  pub input_digest : String
  pub identity_key : String
  pub operator_address : String
  pub phase : Phase
  pub reserved_cost_units : ℕ
  pub created_ms : ℕ
  pub updated_ms : ℕ
  pub payload : OperationRecord

pub data Disposition : Type 0 where
  reserved consumed released : Disposition

pub record CostRow : Type 0 where
  pub recovery_id : String
  pub stage : PaidStage
  pub units : ℕ
  pub disposition : Disposition

pub record Db : Type 0 where
  pub operations : List Row
  pub costs : List CostRow

-- The tables as `CREATE TABLE IF NOT EXISTS` makes them.
abbrev pub empty : Db
empty = record { operations = []; costs = [] }

abbrev pub is_reserved : Disposition → Bool
is_reserved reserved = true
is_reserved _ = false

abbrev pub is_consumed : Disposition → Bool
is_consumed consumed = true
is_consumed _ = false

-- The first row for which `p` holds, by its payload.
unfoldable pub select : (Row → Bool) → List Row → Option OperationRecord
select p [] = none
select p (r ∷ rs) = if p r then some r.payload else select p rs

-- `SELECT payload FROM operations WHERE recovery_id=?`
unfoldable pub read : String → Db → Option OperationRecord
unfolding select
read id db = select (λ r. r.recovery_id == id) db.operations

-- `SELECT payload FROM operations WHERE idempotency_key=?`
unfoldable pub read_by_key : String → Db → Option OperationRecord
unfolding select
read_by_key key db = select (λ r. r.idempotency_key == key) db.operations

-- `INSERT INTO operations`, under `PRIMARY KEY` and `UNIQUE`.
unfoldable pub insert_operation : Row → Db → Result Error Db
insert_operation r db =
    if any (λ o. o.recovery_id == r.recovery_id) db.operations
    then err unique_constraint
    else (if any (λ o. o.idempotency_key == r.idempotency_key) db.operations
        then err unique_constraint
        else ok (record db { operations = r ∷ db.operations }))

abbrev pub change_row : String → (Row → Row) → Row → Row
change_row id f r = if r.recovery_id == id then f r else r

-- `UPDATE operations SET … WHERE recovery_id=?`
unfoldable pub update_operation : String → (Row → Row) → Db → Db
update_operation id f db = record db { operations = map (change_row id f) db.operations }

abbrev pub is_cost_of : String → CostRow → Bool
is_cost_of id c = c.recovery_id == id

-- `SELECT COALESCE(SUM(units),0) … FROM operation_costs WHERE recovery_id=?`
unfoldable pub total_units : String → List CostRow → ℕ
total_units id cs = sum_of (λ c. if c.recovery_id == id then c.units else 0) cs

unfoldable pub consumed_units : String → List CostRow → ℕ
consumed_units id cs =
    sum_of (λ c. if c.recovery_id == id && is_consumed c.disposition then c.units else 0) cs

-- `UPDATE operation_costs SET disposition=… WHERE p`
unfoldable pub update_costs : (CostRow → Bool) → (CostRow → Disposition) → Db → Db
update_costs p d db = record db {
  costs = map (λ c. if p c then record c { disposition = d c } else c) db.costs;
}

-- `persistTotals`
unfoldable pub persist_totals : ℕ → String → Db → Result Error Db
unfolding read update_operation consumed_units
persist_totals now id db = elim (read id db) [
  | none ↦ err invalid_operation
  | some operation ↦
      let updated : OperationRecord = record operation {
        reconciled_cost_units = some (consumed_units id db.costs);
        updated_at = now;
      } in
      ok (
        update_operation id
          (λ r. record r {
            reserved_cost_units = operation.admission.reserved_cost_units;
            updated_ms = now;
            payload = updated;
          })
          db)
]
