-- ===== src/Tests/DriftRun.antt =====
-- A fingerprint whose policy version went up.
use g_sentinel.Base.{
  String, ℕ, ◌≡◌, ◌≢◌, refl, ok, some, none, [], ◌∷◌, Bool, true, false, ◌⊎◌, ◌↔◌,
}
use g_sentinel.Drift.{
  DriftFingerprint, eoa, Tools, DriftComparison, compare_drift_fingerprints, policy_version,
  drifted, allowed, subject_changed, build_drift_fingerprint, zero_bytes32, bytes32, SubjectKind,
}
use g_sentinel.Drift.Demand.{
  SealedDriftSnapshot, Dependencies, OnDemandDriftResult, run_on_demand_drift_check,
}
use g_sentinel.Drift.Checks.{Settled, run_on_demand_drift_check-Settled}
use g_sentinel.Drift.Laws.{compare_drift_fingerprints_sound}

abbrev tools : Tools
tools = record {
  get_address = λ s. some s;
  canonical_hash = λ f. some "0xeeeeeeeeeeeeeeeeeeeeeeeeeeeeeeeeeeeeeeeeeeeeeeeeeeeeeeeeeeeeeeee";
}

abbrev wallet_at : ℕ → DriftFingerprint
wallet_at v = record {
  owner = "0x1111111111111111111111111111111111111111";
  agent_wallet = "0x2222222222222222222222222222222222222222";
  registration_digest = "0x3333333333333333333333333333333333333333333333333333333333333333";
  subject_kind = eoa;
  runtime_code_hash = zero_bytes32;
  delegation_target = none;
  delegation_code_hash = none;
  proxy_implementation = none;
  proxy_implementation_code_hash = none;
  policy_version = v;
}

abbrev comparison : DriftComparison
comparison = record {
  is_drifted = true;
  changed_fields = policy_version ∷ [];
  expected_digest = "0xeeeeeeeeeeeeeeeeeeeeeeeeeeeeeeeeeeeeeeeeeeeeeeeeeeeeeeeeeeeeeeee";
  current_digest = "0xeeeeeeeeeeeeeeeeeeeeeeeeeeeeeeeeeeeeeeeeeeeeeeeeeeeeeeeeeeeeeeee";
  reason = drifted;
}

comparison_run : compare_drift_fingerprints tools (wallet_at 2) (wallet_at 3) ≡ ok comparison
unfolding compare_drift_fingerprints build_drift_fingerprint g_sentinel.Drift.address
    g_sentinel.Base.is_hex g_sentinel.Base.lower g_sentinel.Base.is_zero_hex
    g_sentinel.Drift.bytes32 g_sentinel.Drift.optional_binding g_sentinel.Drift.version
    g_sentinel.Drift.validate_shape g_sentinel.Drift.hash_fingerprint
    g_sentinel.Drift.changed_fields g_sentinel.Drift.drift_reason
comparison_run = refl

compare_drift_example :
    (a b : DriftFingerprint) × (build_drift_fingerprint tools (wallet_at 2) ≡ ok a)
    × (build_drift_fingerprint tools (wallet_at 3) ≡ ok b)
    × ((true ≡ false) ↔ (a ≡ b))
    × ((drifted ≡ allowed) ↔ (a ≡ b))
    × ((drifted ≡ subject_changed)
        ↔ ((a.agent_wallet ≢ b.agent_wallet) ⊎ (a.subject_kind ≢ b.subject_kind)))
compare_drift_example =
    compare_drift_fingerprints_sound tools (wallet_at 2) (wallet_at 3) comparison comparison_run

abbrev dependencies : Dependencies
dependencies = record {
  read_sealed_snapshot =
      λ key. ok (record { identity_key = key; version = 4; fingerprint = wallet_at 2 });
  resolve_current_fingerprint = λ key. ok (wallet_at 3);
  mark_drift = λ q. ok (record {
    transaction_hash = "0x9999999999999999999999999999999999999999999999999999999999999999";
    version = q.expected_version;
    reason = q.reason;
  });
}

abbrev marked_result : OnDemandDriftResult
marked_result = record {
  comparison = comparison;
  marked = true;
  transaction_hash = some "0x9999999999999999999999999999999999999999999999999999999999999999";
  version = 4;
}

marked_run :
    run_on_demand_drift_check tools dependencies
      "0xaaaaaaaaaaaaaaaaaaaaaaaaaaaaaaaaaaaaaaaaaaaaaaaaaaaaaaaaaaaaaaaa" true
    ≡ ok marked_result
unfolding run_on_demand_drift_check bytes32 g_sentinel.Base.is_hex g_sentinel.Base.is_zero_hex
    g_sentinel.Drift.Demand.assert_snapshot g_sentinel.Base.lower build_drift_fingerprint
    g_sentinel.Drift.address g_sentinel.Drift.optional_binding g_sentinel.Drift.version
    g_sentinel.Drift.validate_shape compare_drift_fingerprints g_sentinel.Drift.hash_fingerprint
    g_sentinel.Drift.Demand.settle_drift g_sentinel.Drift.changed_fields
    g_sentinel.Drift.Demand.assert_verified_write g_sentinel.Drift.drift_reason
marked_run = refl

run_on_demand_drift_check-Settled_example :
    ((key : String) × (s : SealedDriftSnapshot) × (current : DriftFingerprint) × (bytes32
          "0xaaaaaaaaaaaaaaaaaaaaaaaaaaaaaaaaaaaaaaaaaaaaaaaaaaaaaaaaaaaaaaaa" false "identity key"
        ≡ ok key)
      × (dependencies.read_sealed_snapshot key ≡ ok s)
      × (dependencies.resolve_current_fingerprint key ≡ ok current)
      × (compare_drift_fingerprints tools s.fingerprint current ≡ ok comparison))
    × Settled dependencies true marked_result
run_on_demand_drift_check-Settled_example =
    run_on_demand_drift_check-Settled tools dependencies
      "0xaaaaaaaaaaaaaaaaaaaaaaaaaaaaaaaaaaaaaaaaaaaaaaaaaaaaaaaaaaaaaaaa" true marked_result
      marked_run
