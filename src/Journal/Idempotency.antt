-- ===== src/Journal/Idempotency.antt =====
-- A second request under the same idempotency key.
use g_sentinel.Base.{ℕ, String, true, some, ◌==◌, ◌≡◌, arith, if◌then◌else◌, ok, err, eq_refl}
use g_sentinel.Journal.Types.{
  OperationAdmission, Limits, BeginResult, deduplicated, idempotency_conflict,
}
use g_sentinel.Journal.Db.{Db, select, read_by_key, insert_operation}
use g_sentinel.Journal.Validate.{validate_admission}
use g_sentinel.Journal.Admission.{lookup, begin}

-- The operation of a successful `begin` is found by its key afterwards.
read_by_key-begin :
    (limits : Limits) (now : ℕ) (fresh : String) (input : OperationAdmission) (db db' : Db)
    (r : BeginResult)
    → begin limits now fresh input db ≡ ok (db', r)
    → read_by_key input.idempotency_key db' ≡ some r.operation
unfolding begin insert_operation read_by_key select
read_by_key-begin limits now fresh input db db' r h = ground (arith, eq_refl input.idempotency_key)

-- After a `begin` that succeeded, a valid request under the same key changes nothing: it is answered
-- with the same operation, or refused where its input digest is another. That holds whatever the
-- limits, the clock and the fresh id are by then.
pub begin_twice :
    (limits limits' : Limits) (now now' : ℕ) (fresh fresh' : String)
    (input input' : OperationAdmission) (db db' : Db) (r : BeginResult)
    → begin limits now fresh input db ≡ ok (db', r)
    → input'.idempotency_key ≡ input.idempotency_key
    → validate_admission input' ≡ ok tt
    → begin limits' now' fresh' input' db' ≡ (
        if r.operation.admission.input_digest == input'.input_digest
        then ok (db', record { kind = deduplicated; operation = r.operation })
        else err idempotency_conflict)
unfolding begin
begin_twice limits limits' now now' fresh fresh' input input' db db' r h same valid =
    let e : read_by_key input'.idempotency_key db' ≡ some r.operation =
      rw same (read_by_key-begin limits now fresh input db db' r h) in
    rw (valid, e)

same_digest-begin :
    (limits : Limits) (now : ℕ) (fresh : String) (input : OperationAdmission) (db db' : Db)
    (r : BeginResult)
    → begin limits now fresh input db ≡ ok (db', r)
    → r.operation.admission.input_digest == input.input_digest ≡ true
unfolding begin
same_digest-begin limits now fresh input db db' r h = ground (arith, eq_refl input.input_digest)

-- What a `begin` that succeeded gave is what `lookup` finds afterwards under the same key and digest.
pub lookup-begin :
    (limits : Limits) (now : ℕ) (fresh : String) (input : OperationAdmission) (db db' : Db)
    (r : BeginResult)
    → begin limits now fresh input db ≡ ok (db', r)
    → lookup input.idempotency_key input.input_digest db'
      ≡ ok (some (record { kind = deduplicated; operation = r.operation }))
unfolding lookup
lookup-begin limits now fresh input db db' r h =
    let found = read_by_key-begin limits now fresh input db db' r h in
    let same = same_digest-begin limits now fresh input db db' r h in ground arith
