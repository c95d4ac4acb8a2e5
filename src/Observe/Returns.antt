-- ===== src/Observe/Returns.antt =====
-- Building the observations never fails, whatever the four reads gave.
use g_sentinel.Base.{
  ℕ, String, Bool, true, false, not, Option, none, some, ◌≡◌, refl, ok, Result, ◌>>=◌, arith, eqb,
  lower, ◌==◌, ◌≢◌, if◌then◌else◌,
}
use g_sentinel.Status.{GateReasonCode, gate_reason_meta}
use g_sentinel.Status.Laws.{gate_reason_meta-allowed}
use g_sentinel.Recovery.Inspect.{LockRecord}
use g_sentinel.Observe.Assert.{
  Subsystem, identity, lease, gate, consumer, ReasonCode, gate_code, evidence_mismatch,
  ProofLockObservation, is_current_only, assert_observation, is_fresh_coordinate, is_allowed_code,
}
use g_sentinel.Observe.Assert.Accepts.{
  blocked-accepted, unavailable-accepted, mismatch-accepted, identity-accepted, lease-accepted,
  gate-accepted, consumer-accepted,
}
use g_sentinel.Observe.Reads.{
  Settled, fulfilled, rejected, ResolvedAgentIdentity, GateRead, ConsumerRead, SettledReads,
  valid_gate, valid_consumer,
}
use g_sentinel.Observe.Entries.{
  CurrentCapability, erc8004_identity, registry_v2_lease, agent_gate_v2, guarded_consumer,
  CurrentReason, observed, of_gate, current_identity_unavailable, current_lease_unavailable,
  current_lease_mismatch, current_gate_unavailable, current_gate_mismatch,
  current_consumer_unavailable, current_consumer_mismatch, guarded_consumer_blocked, gate_value,
  consumer_value, Metadata, entry, unavailable_entry, mismatch_entry, blocked_entry,
  lease_block_reason, identity_entry, checked_lease_entry, lease_entry, gate_entry, consumer_entry,
  allowed_payload, accepted_payload, snapshot_gate, snapshot_consumer, build_observations,
}

abbrev pub Returns : {E A : Type 0} → Result E A → Type 0
Returns {A = A} r = (a : A) × (r ≡ ok a)

pub then-Returns :
    {E A B : Type 0} (m : Result E A) (k : A → Result E B)
    → Returns m
    → ((a : A) → Returns (k a))
    → Returns (m >>= k)
then-Returns m k r s = let (a, e) = r in rw e (s a)

if-Returns :
    {E A : Type 0} {x y : Result E A} (b : Bool)
    → (b ≡ true → Returns x)
    → (b ≡ false → Returns y)
    → Returns (if b then x else y)
if-Returns true then_x else_y = then_x refl
if-Returns false then_x else_y = else_y refl

abbrev pub IsFreshMetadata : Metadata → Type 0
IsFreshMetadata m = is_fresh_coordinate m.observed_at m.coordinate ≡ true

-- There is no reason, or one that the assertion takes for a blocked observation.
abbrev may_block : Option GateReasonCode → Bool
may_block none = true
may_block (some c) = not (is_allowed_code (some (gate_code c)))

lease_block_reason-may_block :
    (lock : LockRecord) (timestamp : ℕ) → may_block (lease_block_reason lock timestamp) ≡ true
unfolding lease_block_reason
lease_block_reason-may_block lock timestamp = ground arith

not_of_may_block :
    (c : GateReasonCode) → may_block (some c) ≡ true → is_allowed_code (some (gate_code c)) ≡ false
not_of_may_block c h = ground arith

gate_code-may_block : (c : GateReasonCode) → c ≢ GateReasonCode.allowed → may_block (some c) ≡ true
gate_code-may_block c h = ground arith

gate_reason_meta-may_block :
    (value : GateRead)
    → valid_gate value ≡ true
    → value.allowed ≡ false
    → may_block (some (gate_reason_meta value.reason).code) ≡ true
unfolding valid_gate
gate_reason_meta-may_block value v d =
    gate_code-may_block (gate_reason_meta value.reason).code
      λ e. let z = gate_reason_meta-allowed value.reason e in ground arith

module _ (m : Metadata) (fresh : IsFreshMetadata m) where
  entry-Returns :
      {V : Type 0} (capability : CurrentCapability) (reason : CurrentReason)
      (o : ProofLockObservation) (value : Option V)
      → assert_observation o ≡ ok o
      → Returns (entry capability reason o value)
  unfolding entry
  entry-Returns capability reason o value h =
      then-Returns (assert_observation o) _ (o, h) (λ p. (_, refl))

  unavailable_entry-Returns :
      {V : Type 0} (capability : CurrentCapability) (reason : CurrentReason) (s : Subsystem)
      (code : ReasonCode)
      → Returns (unavailable_entry m {V = V} capability reason s code)
  unavailable_entry-Returns capability reason s code =
      entry-Returns capability reason _ none
        (unavailable-accepted m.observed_at m.coordinate fresh s (some code))

  mismatch_entry-Returns :
      {V : Type 0} (capability : CurrentCapability) (reason : CurrentReason) (s : Subsystem)
      → Returns (mismatch_entry m {V = V} capability reason s)
  mismatch_entry-Returns capability reason s =
      entry-Returns capability reason _ none
        (mismatch-accepted m.observed_at m.coordinate fresh s (some evidence_mismatch))

  blocked_entry-Returns :
      {V : Type 0} (capability : CurrentCapability) (reason : CurrentReason) (s : Subsystem)
      (code : GateReasonCode) (value : Option V)
      → is_current_only s ≡ true
      → is_allowed_code (some (gate_code code)) ≡ false
      → Returns (blocked_entry m capability reason s code value)
  blocked_entry-Returns capability reason s code value h d =
      entry-Returns capability reason _ value
        (blocked-accepted m.observed_at m.coordinate fresh s (gate_code code) h d)

  identity_entry-Returns : (read : Settled ResolvedAgentIdentity) → Returns (identity_entry read m)
  unfolding identity_entry
  identity_entry-Returns rejected =
      unavailable_entry-Returns erc8004_identity current_identity_unavailable identity _
  identity_entry-Returns (fulfilled value) =
      entry-Returns erc8004_identity observed _ (some value)
        (identity-accepted m.observed_at m.coordinate fresh)

  checked_lease_entry-Returns :
      (lock : LockRecord) (code : Option GateReasonCode)
      → may_block code ≡ true
      → Returns (checked_lease_entry m lock code)
  checked_lease_entry-Returns lock none h =
      entry-Returns registry_v2_lease observed _ (some lock)
        (lease-accepted m.observed_at m.coordinate fresh)
  checked_lease_entry-Returns lock (some c) h =
      blocked_entry-Returns registry_v2_lease (of_gate c) lease c (some lock) refl
        (not_of_may_block c h)

  lease_entry-Returns :
      (read : Settled LockRecord) (key : String) (timestamp : ℕ)
      → Returns (lease_entry read key m timestamp)
  unfolding lease_entry
  lease_entry-Returns rejected key timestamp =
      unavailable_entry-Returns registry_v2_lease current_lease_unavailable lease _
  lease_entry-Returns (fulfilled lock) key timestamp =
      if-Returns (eqb lock.fields.version 0)
        (λ v.
          blocked_entry-Returns registry_v2_lease (of_gate GateReasonCode.no_proof) lease
            GateReasonCode.no_proof none refl refl)
        λ v.
          if-Returns (not (lower lock.fields.identity_key == key))
            (λ d. mismatch_entry-Returns registry_v2_lease current_lease_mismatch lease)
            λ d.
              checked_lease_entry-Returns lock (lease_block_reason lock timestamp)
                (lease_block_reason-may_block lock timestamp)

  gate_entry-Returns : (read : Settled GateRead) → Returns (gate_entry read m)
  unfolding gate_entry
  gate_entry-Returns rejected =
      unavailable_entry-Returns agent_gate_v2 current_gate_unavailable gate _
  gate_entry-Returns (fulfilled value) =
      if-Returns (not (valid_gate value))
        (λ v. mismatch_entry-Returns agent_gate_v2 current_gate_mismatch gate)
        λ v.
          if-Returns value.allowed
            (λ d.
              entry-Returns agent_gate_v2 _ _ (some (gate_value value))
                (gate-accepted m.observed_at m.coordinate fresh allowed_payload refl))
            λ d.
              blocked_entry-Returns agent_gate_v2 _ gate _ (some (gate_value value)) refl
                (not_of_may_block _ (gate_reason_meta-may_block value (ground arith) d))

  consumer_entry-Returns : (read : Settled ConsumerRead) → Returns (consumer_entry read m)
  unfolding consumer_entry
  consumer_entry-Returns rejected =
      unavailable_entry-Returns guarded_consumer current_consumer_unavailable consumer _
  consumer_entry-Returns (fulfilled value) =
      if-Returns (not (valid_consumer value))
        (λ v. mismatch_entry-Returns guarded_consumer current_consumer_mismatch consumer)
        λ v.
          if-Returns value.accepted
            (λ d.
              entry-Returns guarded_consumer observed _ (some (consumer_value value))
                (consumer-accepted m.observed_at m.coordinate fresh accepted_payload refl))
            λ d.
              blocked_entry-Returns guarded_consumer guarded_consumer_blocked consumer
                GateReasonCode.unknown_reason (some (consumer_value value)) refl refl

  snapshot_gate-Returns : (b : Bool) (read : Settled GateRead) → Returns (snapshot_gate b read m)
  snapshot_gate-Returns true read = gate_entry-Returns read
  snapshot_gate-Returns false read = mismatch_entry-Returns agent_gate_v2 current_gate_mismatch gate

  snapshot_consumer-Returns :
      (b : Bool) (read : Settled ConsumerRead) → Returns (snapshot_consumer b read m)
  snapshot_consumer-Returns true read = consumer_entry-Returns read
  snapshot_consumer-Returns false read =
      mismatch_entry-Returns guarded_consumer current_consumer_mismatch consumer

  pub build_observations-Returns :
      (reads : SettledReads) (key : String) (timestamp : ℕ)
      → Returns (build_observations reads key m timestamp)
  unfolding build_observations
  build_observations-Returns reads key timestamp =
      then-Returns _ _ (identity_entry-Returns reads.identity) λ i.
        then-Returns _ _ (lease_entry-Returns reads.lease key timestamp) λ l.
          then-Returns _ _ (snapshot_gate-Returns _ reads.gate)
            λ g. then-Returns _ _ (snapshot_consumer-Returns _ reads.consumer) λ c. (_, refl)
