-- ===== src/Observe/Sound.antt =====
-- What a verified entry shows of its read.
use g_sentinel.Base.{
  ℕ, String, Bool, true, false, not, Option, none, some, ◌≡◌, ◌≢◌, ◌⊎◌, refl, ok, Result, arith,
  eqb, ◌<◌, ◌==◌, lower, eq_iff, returned-through, inl, inr, if◌then◌else◌,
}
use g_sentinel.Verdict.{verified}
use g_sentinel.Recovery.Inspect.{LockRecord}
use g_sentinel.Observe.Assert.{ProofLockObservation, assert_observation}
use g_sentinel.Observe.Reads.{
  Settled, fulfilled, rejected, ResolvedAgentIdentity, GateRead, ConsumerRead, valid_gate,
  valid_consumer,
}
use g_sentinel.Observe.Entries.{
  CurrentCapability, CurrentReason, Entry, Metadata, entry, lease_block_reason, identity_entry,
  checked_lease_entry, lease_entry, gate_entry, consumer_entry, snapshot_gate, snapshot_consumer,
}

-- An assertion gives back what it was given.
assert_observation-same : (o p : ProofLockObservation) → assert_observation o ≡ ok p → o ≡ p
unfolding assert_observation
assert_observation-same o p returns = ground arith

entry-observation :
    {V : Type 0} (capability : CurrentCapability) (reason : CurrentReason)
    (o : ProofLockObservation) (value : Option V) (e : Entry V)
    → entry capability reason o value ≡ ok e
    → e.observation ≡ o
unfolding entry
entry-observation capability reason o value e returns =
    let (p, a, b) = returned-through (assert_observation o) _ returns in
    let s = assert_observation-same o p b in cc

abbrev pub IsVerified : {V : Type 0} → Entry V → Type 0
IsVerified e = e.observation.status ≡ verified

-- An entry of another status is not verified.
not_verified :
    {V : Type 0} {C : Type 0} (capability : CurrentCapability) (reason : CurrentReason)
    (o : ProofLockObservation) (value : Option V) (e : Entry V)
    → entry capability reason o value ≡ ok e
    → IsVerified e
    → o.status ≢ verified
    → C
not_verified capability reason o value e returns v n =
    let s = entry-observation capability reason o value e returns in elim (n (cc)) [ ]

pub identity_entry-fulfilled :
    (read : Settled ResolvedAgentIdentity) (m : Metadata) (e : Entry ResolvedAgentIdentity)
    → identity_entry read m ≡ ok e
    → IsVerified e
    → (i : ResolvedAgentIdentity) × (read ≡ fulfilled i)
unfolding identity_entry
identity_entry-fulfilled rejected m e h v = not_verified _ _ _ _ e h v λ n. cc
identity_entry-fulfilled (fulfilled i) m e h v = (i, refl)

pub lease_block_reason-none :
    (lock : LockRecord) (timestamp : ℕ)
    → lease_block_reason lock timestamp ≡ none
    → (lock.state ≡ 1) × (lock.fields.coverage ≡ 127) × (timestamp < lock.fields.valid_until)
unfolding lease_block_reason
lease_block_reason-none lock timestamp h = ground arith

checked_lease_entry-none :
    (m : Metadata) (lock : LockRecord) (code : Option _) (e : Entry LockRecord)
    → checked_lease_entry m lock code ≡ ok e
    → IsVerified e
    → code ≡ none
checked_lease_entry-none m lock none e h v = refl
checked_lease_entry-none m lock (some c) e h v = not_verified _ _ _ _ e h v λ n. cc

module _ {E A : Type 0} {x y : Result E A} {a : A} where
  if-returned :
      (b : Bool)
      → (if b then x else y) ≡ ok a
      → ((b ≡ true) × (x ≡ ok a)) ⊎ ((b ≡ false) × (y ≡ ok a))
  if-returned true h = inl (refl, h)
  if-returned false h = inr (refl, h)

-- The lease that was read, with what its entry looks at.
abbrev IsLive : Settled LockRecord → String → ℕ → Type 0
IsLive read key timestamp =
    (lock : LockRecord) × (read ≡ fulfilled lock)
    × (lock.fields.version ≢ 0)
    × (lower lock.fields.identity_key ≡ key)
    × (lease_block_reason lock timestamp ≡ none)

pub lease_entry-IsLive :
    (read : Settled LockRecord) (key : String) (m : Metadata) (timestamp : ℕ) (e : Entry LockRecord)
    → lease_entry read key m timestamp ≡ ok e
    → IsVerified e
    → IsLive read key timestamp
unfolding lease_entry
lease_entry-IsLive rejected key m timestamp e h v = not_verified _ _ _ _ e h v λ n. cc
lease_entry-IsLive (fulfilled lock) key m timestamp e h v =
    elim (if-returned (eqb lock.fields.version 0) h) [
      | inl (z, k) ↦ not_verified _ _ _ _ e k v λ n. cc
      | inr (z, k) ↦ elim (if-returned (not (lower lock.fields.identity_key == key)) k) [
        | inl (d, l) ↦ not_verified _ _ _ _ e l v λ n. cc
        | inr (d, l) ↦ (
          lock,
          refl,
          (λ q. ground arith),
          (eq_iff _ _).0 (ground arith),
          checked_lease_entry-none m lock (lease_block_reason lock timestamp) e l v,
        )
      ]
    ]

pub gate_entry-allowed :
    (read : Settled GateRead) (m : Metadata) (e : Entry GateRead)
    → gate_entry read m ≡ ok e
    → IsVerified e
    → (g : GateRead) × (read ≡ fulfilled g) × (valid_gate g ≡ true) × (g.allowed ≡ true)
unfolding gate_entry
gate_entry-allowed rejected m e h v = not_verified _ _ _ _ e h v λ n. cc
gate_entry-allowed (fulfilled g) m e h v = elim (if-returned (not (valid_gate g)) h) [
  | inl (z, k) ↦ not_verified _ _ _ _ e k v λ n. cc
  | inr (z, k) ↦ elim (if-returned g.allowed k) [
    | inl (a, l) ↦ (g, refl, ground arith, a)
    | inr (a, l) ↦ not_verified _ _ _ _ e l v λ n. cc
  ]
]

pub consumer_entry-accepted :
    (read : Settled ConsumerRead) (m : Metadata) (e : Entry ConsumerRead)
    → consumer_entry read m ≡ ok e
    → IsVerified e
    → (c : ConsumerRead) × (read ≡ fulfilled c) × (valid_consumer c ≡ true) × (c.accepted ≡ true)
unfolding consumer_entry
consumer_entry-accepted rejected m e h v = not_verified _ _ _ _ e h v λ n. cc
consumer_entry-accepted (fulfilled c) m e h v = elim (if-returned (not (valid_consumer c)) h) [
  | inl (z, k) ↦ not_verified _ _ _ _ e k v λ n. cc
  | inr (z, k) ↦ elim (if-returned c.accepted k) [
    | inl (a, l) ↦ (c, refl, ground arith, a)
    | inr (a, l) ↦ not_verified _ _ _ _ e l v λ n. cc
  ]
]

pub snapshot_gate-consistent :
    (b : Bool) (read : Settled GateRead) (m : Metadata) (e : Entry GateRead)
    → snapshot_gate b read m ≡ ok e
    → IsVerified e
    → (b ≡ true) × (gate_entry read m ≡ ok e)
snapshot_gate-consistent true read m e h v = (refl, h)
snapshot_gate-consistent false read m e h v = not_verified _ _ _ _ e h v λ n. cc

pub snapshot_consumer-consistent :
    (b : Bool) (read : Settled ConsumerRead) (m : Metadata) (e : Entry ConsumerRead)
    → snapshot_consumer b read m ≡ ok e
    → IsVerified e
    → (b ≡ true) × (consumer_entry read m ≡ ok e)
snapshot_consumer-consistent true read m e h v = (refl, h)
snapshot_consumer-consistent false read m e h v = not_verified _ _ _ _ e h v λ n. cc
