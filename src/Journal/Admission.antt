-- ===== src/Journal/Admission.antt =====
-- `lookup`, `begin` and `enforceAdmission` of operation-journal.ts. The clock, the fresh recovery
-- id and the limits are arguments. A transaction that throws is rolled back: the caller keeps the
-- database that it had. The audit callback is left out: what it throws is swallowed.
use g_sentinel.Base.{
  ℕ, String, Bool, ◌&&◌, not, Option, none, some, List, ◌==◌, ◌+◌, ltb, leb, Result, ok, err, ◌>>=◌,
  ◌>>◌, reject_if, if◌then◌else◌, count_if, sum_of,
}
use g_sentinel.Journal.Types.{
  requested, is_terminal, OperationAdmission, OperationRecord, BeginResult, accepted, deduplicated,
  Limits, Error, idempotency_conflict, identity_active, operator_concurrency_limit,
  global_concurrency_limit, rate_limit, daily_ceremony_limit, daily_cost_limit,
}
use g_sentinel.Journal.Db.{Row, Db, read_by_key, insert_operation, consumed_units, CostRow}
use g_sentinel.Journal.Validate.{validate_admission}

-- `phase!='TERMINAL'`
abbrev pub is_live : Row → Bool
is_live r = not (is_terminal r.phase)

abbrev pub is_live_identity : String → Row → Bool
is_live_identity key r = r.identity_key == key && is_live r

abbrev pub is_live_operator : String → Row → Bool
is_live_operator operator r = r.operator_address == operator && is_live r

-- `operator_address=? AND created_ms>=?`, where the bound is `now - window`.
abbrev pub is_recent : String → ℕ → ℕ → Row → Bool
is_recent operator now window r = r.operator_address == operator && leb now (r.created_ms + window)

-- What a row counts towards the day's cost: what it consumed once it is terminal, and all it
-- reserved before.
unfoldable pub row_cost : List CostRow → Row → ℕ
row_cost costs r =
    if is_terminal r.phase then consumed_units r.recovery_id costs else r.reserved_cost_units

abbrev pub day_ms : ℕ
day_ms = 86400000

unfoldable pub day_cost : String → ℕ → Db → ℕ
unfolding row_cost
day_cost operator now db =
    sum_of (λ r. if is_recent operator now day_ms r then row_cost db.costs r else 0) db.operations

unfoldable pub enforce_admission : ℕ → Limits → OperationAdmission → Db → Result Error (Unit {0})
unfolding day_cost
enforce_admission now limits input db = do
  reject_if (ltb 0 (count_if (is_live_identity input.identity_key) db.operations)) identity_active
  reject_if (leb limits.max_concurrency (count_if (is_live_operator input.operator) db.operations))
      operator_concurrency_limit
  reject_if (leb limits.global_max_concurrency (count_if is_live db.operations))
      global_concurrency_limit
  reject_if
      (leb limits.rate_limit
        (count_if (is_recent input.operator now limits.rate_window_ms) db.operations))
      rate_limit
  reject_if
      (leb limits.daily_ceremony_limit
        (count_if (is_recent input.operator now day_ms) db.operations))
      daily_ceremony_limit
  reject_if
      (ltb limits.daily_cost_units_limit
        (day_cost input.operator now db + input.reserved_cost_units))
      daily_cost_limit

unfoldable pub lookup : String → String → Db → Result Error (Option BeginResult)
lookup key digest db = elim (read_by_key key db) [
  | none ↦ ok none
  | some old ↦
      if old.admission.input_digest == digest
      then ok (some (record { kind = deduplicated; operation = old }))
      else err idempotency_conflict
]

abbrev pub new_operation : String → ℕ → OperationAdmission → OperationRecord
new_operation fresh now input = record {
  admission = input;
  recovery_id = fresh;
  phase = requested;
  created_at = now;
  updated_at = now;
  compute = none;
  storage = none;
  chain_input = none;
  transaction_hash = none;
  finality = none;
  terminal_outcome = none;
  reconciled_cost_units = none;
}

abbrev pub new_row : String → ℕ → OperationAdmission → Row
new_row fresh now input = record {
  recovery_id = fresh;
  idempotency_key = input.idempotency_key;
  input_digest = input.input_digest;
  identity_key = input.identity_key;
  operator_address = input.operator;
  phase = requested;
  reserved_cost_units = input.reserved_cost_units;
  created_ms = now;
  updated_ms = now;
  payload = new_operation fresh now input;
}

-- `begin`
unfoldable pub begin :
    Limits → ℕ → String → OperationAdmission → Db → Result Error (Db × BeginResult)
begin limits now fresh input db = do
  validate_admission input
  elim (read_by_key input.idempotency_key db) [
    | some old ↦
        if old.admission.input_digest == input.input_digest
        then ok (db, record { kind = deduplicated; operation = old })
        else err idempotency_conflict
    | none ↦ do
      enforce_admission now limits input db
      db' ← insert_operation (new_row fresh now input) db
      ok (db', record { kind = accepted; operation = new_operation fresh now input })
  ]
