-- ===== src/Journal/Costs.antt =====
-- The cost operations of operation-journal.ts.
use g_sentinel.Base.{
  ℕ, String, Bool, ◌&&◌, not, none, some, ◌∷◌, ◌==◌, ◌+◌, ltb, eqb, Result, err, ◌>>◌, reject_if,
  if◌then◌else◌, any, count_if,
}
use g_sentinel.Journal.Types.{
  PaidStage, registry, same_stage, Error, invalid_operation, daily_cost_limit,
  cost_already_reserved,
}
use g_sentinel.Journal.Db.{
  Db, CostRow, Disposition, reserved, consumed, released, is_reserved, read, total_units,
  update_costs, persist_totals,
}
use g_sentinel.Journal.Validate.{is_safe_positive}

abbrev pub has_stage : String → PaidStage → CostRow → Bool
has_stage id stage c = c.recovery_id == id && same_stage c.stage stage

-- `INSERT INTO operation_costs(recovery_id,stage,units)`
abbrev pub insert_cost : String → PaidStage → ℕ → Db → Db
insert_cost id stage units db = record db {
  costs =
      (record { recovery_id = id; stage = stage; units = units; disposition = reserved })
      ∷ db.costs;
}

-- `reserveCost`
unfoldable pub reserve_cost : ℕ → String → PaidStage → ℕ → Db → Result Error Db
reserve_cost now id stage units db = do
  reject_if (not (is_safe_positive units)) invalid_operation
  elim (read id db) [
    | none ↦ err invalid_operation
    | some operation ↦ do
      reject_if (any (has_stage id stage) db.costs) cost_already_reserved
      reject_if (ltb operation.admission.reserved_cost_units (total_units id db.costs + units))
          daily_cost_limit
      persist_totals now id (insert_cost id stage units db)
  ]

abbrev pub is_open_stage : String → PaidStage → CostRow → Bool
is_open_stage id stage c = has_stage id stage c && is_reserved c.disposition

-- `reconcileCost`; a disposition is `consumed` or `released`
unfoldable pub reconcile_cost : ℕ → String → PaidStage → Disposition → Db → Result Error Db
reconcile_cost now id stage disposition db = do
  reject_if (not (eqb (count_if (is_open_stage id stage) db.costs) 1)) invalid_operation
  persist_totals now id (update_costs (is_open_stage id stage) (λ c. disposition) db)

abbrev pub is_open : String → CostRow → Bool
is_open id c = c.recovery_id == id && is_reserved c.disposition

-- `releaseReservedCosts`
unfoldable pub release_reserved_costs : ℕ → String → Db → Result Error Db
release_reserved_costs now id db =
    persist_totals now id (update_costs (is_open id) (λ c. released) db)

-- `reconcileRecoveryCosts`
unfoldable pub reconcile_recovery_costs : ℕ → String → Disposition → Db → Result Error Db
reconcile_recovery_costs now id disposition db = persist_totals now id (
    update_costs (is_open id) (λ c. if same_stage c.stage registry then disposition else consumed)
      db)
