-- ===== src/Drift/Demand.antt =====
-- `runOnDemandDriftCheck` of drift.ts, with the dependencies that it is handed.
use g_sentinel.Base.{
  ℕ, String, Bool, true, false, not, ◌||◌, Option, none, some, ◌==◌, ltb, eqb, Result, ok, ◌>>=◌,
  ◌>>◌, reject_if, if◌then◌else◌,
}
use g_sentinel.Drift.{
  DriftFingerprint, DriftError, invalid_snapshot, unverified_write, Reason, allowed, drifted,
  subject_changed, runtime_code_drift, Tools, bytes32, zero_bytes32, build_drift_fingerprint,
  DriftComparison, compare_drift_fingerprints,
}

pub record SealedDriftSnapshot : Type 0 where
  pub identity_key : String
  pub version : ℕ
  pub fingerprint : DriftFingerprint

pub record VerifiedDriftWrite : Type 0 where
  pub transaction_hash : String
  pub version : ℕ
  pub reason : ℕ

pub record DriftRequest : Type 0 where
  pub identity_key : String
  pub expected_version : ℕ
  pub reason : ℕ

pub record Dependencies : Type 0 where
  pub read_sealed_snapshot : String → Result DriftError SealedDriftSnapshot
  pub resolve_current_fingerprint : String → Result DriftError DriftFingerprint
  pub mark_drift : DriftRequest → Result DriftError VerifiedDriftWrite

-- The numbers of `GATE_REASON`.
abbrev pub reason_code : Reason → ℕ
reason_code allowed = 0
reason_code drifted = 3
reason_code subject_changed = 5
reason_code runtime_code_drift = 6

pub record OnDemandDriftResult : Type 0 where
  pub comparison : DriftComparison
  pub marked : Bool
  pub transaction_hash : Option String
  pub version : ℕ

-- `UINT64_MAX` is `2 ^ 64 - 1`.
unfoldable pub assert_snapshot : Tools → SealedDriftSnapshot → String → Result DriftError (Unit {0})
assert_snapshot tools snapshot identity_key = do
  key ← bytes32 snapshot.identity_key false "snapshot identity key"
  reject_if
      (not (key == identity_key)
        || ltb snapshot.version 1
        || ltb 18446744073709551615 snapshot.version)
      invalid_snapshot
  f ← build_drift_fingerprint tools snapshot.fingerprint
  ok tt

unfoldable pub assert_verified_write : VerifiedDriftWrite → ℕ → ℕ → Result DriftError (Unit {0})
assert_verified_write write version reason = do
  hash ← bytes32 write.transaction_hash false "drift transaction hash"
  reject_if
      (hash == zero_bytes32 || not (eqb write.version version) || not (eqb write.reason reason))
      unverified_write

-- What follows the comparison.
unfoldable pub settle_drift :
    Dependencies → String → ℕ → DriftComparison → Bool → Result DriftError OnDemandDriftResult
settle_drift dependencies identity_key version comparison mark =
    if not comparison.is_drifted || not mark
    then ok (record {
      comparison = comparison;
      marked = false;
      transaction_hash = none;
      version = version;
    })
    else (do
      write ← dependencies.mark_drift (record {
        identity_key = identity_key;
        expected_version = version;
        reason = reason_code comparison.reason;
      })
      assert_verified_write write version (reason_code comparison.reason)
      ok (record {
        comparison = comparison;
        marked = true;
        transaction_hash = some write.transaction_hash;
        version = write.version;
      }))

unfoldable pub run_on_demand_drift_check :
    Tools → Dependencies → String → Bool → Result DriftError OnDemandDriftResult
run_on_demand_drift_check tools dependencies identity_key_input mark = do
  identity_key ← bytes32 identity_key_input false "identity key"
  snapshot ← dependencies.read_sealed_snapshot identity_key
  assert_snapshot tools snapshot identity_key
  current ← dependencies.resolve_current_fingerprint identity_key
  comparison ← compare_drift_fingerprints tools snapshot.fingerprint current
  settle_drift dependencies identity_key snapshot.version comparison mark
