-- ===== src/Drift/Checks.antt =====
-- What the check on demand of drift.ts does when it succeeds.
use g_sentinel.Base.{
  ℕ, String, Bool, true, false, not, ◌&&◌, ◌||◌, ok, ◌≡◌, sym, ap, ◌∙◌, arith, Bool-cases, inl, inr,
  returned-through,
}
use g_sentinel.Drift.{DriftFingerprint, Tools, bytes32, DriftComparison, compare_drift_fingerprints}
use g_sentinel.Drift.Demand.{
  SealedDriftSnapshot, VerifiedDriftWrite, DriftRequest, Dependencies, reason_code,
  OnDemandDriftResult, assert_snapshot, assert_verified_write, run_on_demand_drift_check,
  settle_drift,
}

-- A mark that was written for the comparison and the version that the result reports.
pub record Written (dependencies : Dependencies) (r : OnDemandDriftResult) : Type 0 where
  pub request : DriftRequest
  pub write : VerifiedDriftWrite
  pub made : dependencies.mark_drift request ≡ ok write
  pub of_version : request.expected_version ≡ r.version
  pub of_reason : request.reason ≡ reason_code r.comparison.reason
  pub same_version : write.version ≡ request.expected_version
  pub same_reason : write.reason ≡ request.reason

-- A write that passed the check has the version and the reason that were asked for.
write-fits :
    (write : VerifiedDriftWrite) (version reason : ℕ)
    → assert_verified_write write version reason ≡ ok tt
    → (write.version ≡ version) × (write.reason ≡ reason)
unfolding assert_verified_write
write-fits write version reason h =
    let (hash, checked, _) =
      returned-through (bytes32 write.transaction_hash false "drift transaction hash") _ h in
    (ground arith, ground arith)

-- What a successful check says about its mark.
abbrev pub Settled : Dependencies → Bool → OnDemandDriftResult → Type 0
Settled dependencies mark r =
    (r.marked ≡ (r.comparison.is_drifted && mark)) × (r.marked ≡ true → Written dependencies r)

settle_drift-Settled :
    (dependencies : Dependencies) (key : String) (version : ℕ) (comparison : DriftComparison)
    (mark : Bool) (r : OnDemandDriftResult)
    → settle_drift dependencies key version comparison mark ≡ ok r
    → (r.comparison ≡ comparison) × Settled dependencies mark r
unfolding settle_drift
settle_drift-Settled dependencies key version comparison mark r h =
    elim (Bool-cases (not comparison.is_drifted || not mark)) [
      | inl quiet ↦ (ground arith, (ground arith, λ m. absurd (ground arith)))
      | inr loud ↦
          let (write, rest, made) = returned-through (dependencies.mark_drift _) _ (rw loud at h) in
          let (_, done, fits) =
            returned-through (assert_verified_write write version (reason_code comparison.reason)) _
              rest in
          let (v, n) = write-fits write version (reason_code comparison.reason) fits in
          (
            ground arith,
            (
              ground arith,
              λ _. record {
                request = record {
                  identity_key = key;
                  expected_version = version;
                  reason = reason_code comparison.reason;
                };
                write = write;
                made = made;
                of_version = ground (arith, done, v);
                of_reason = ground (arith, done);
                same_version = v;
                same_reason = n;
              },
            ),
          )
    ]

-- A check on demand that succeeds reports the comparison of the snapshot and the current fingerprint
-- that it read under the normalised identity key; it has marked drift exactly when the fingerprints differ and marking was asked for,
-- and then a write was made for the version and the reason that it reports.
pub run_on_demand_drift_check-Settled :
    (tools : Tools) (dependencies : Dependencies) (identity_key : String) (mark : Bool)
    (r : OnDemandDriftResult)
    → run_on_demand_drift_check tools dependencies identity_key mark ≡ ok r
    → ((key : String) × (s : SealedDriftSnapshot) × (current : DriftFingerprint) × (bytes32
            identity_key false "identity key"
          ≡ ok key)
        × (dependencies.read_sealed_snapshot key ≡ ok s)
        × (dependencies.resolve_current_fingerprint key ≡ ok current)
        × (compare_drift_fingerprints tools s.fingerprint current ≡ ok r.comparison))
      × Settled dependencies mark r
unfolding run_on_demand_drift_check
run_on_demand_drift_check-Settled tools dependencies identity_key mark r h =
    let (key, h₁, e₁) = returned-through (bytes32 identity_key false "identity key") _ h in
    let (s, h₂, e₂) = returned-through (dependencies.read_sealed_snapshot key) _ h₁ in
    let (_, h₃, _) = returned-through (assert_snapshot tools s key) _ h₂ in
    let (current, h₄, e₄) = returned-through (dependencies.resolve_current_fingerprint key) _ h₃ in
    let (comparison, h₅, compared) =
      returned-through (compare_drift_fingerprints tools s.fingerprint current) _ h₄ in
    let (same, settled) = settle_drift-Settled dependencies key s.version comparison mark r h₅ in
    ((key, s, current, e₁, e₂, e₄, compared ∙ ap (λ c. ok c) (sym same)), settled)
