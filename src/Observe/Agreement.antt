-- ===== src/Observe/Agreement.antt =====
-- What an access whose four observations are verified shows of the four reads together.
use g_sentinel.Base.{
  ℕ, String, true, none, ◌≡◌, ◌≢◌, sym, subst, ◌∙◌, ok, arith, ◌≤◌, ◌<◌, lower, same_text, eq_iff,
  returned-through,
}
use g_sentinel.Recovery.Inspect.{LockRecord}
use g_sentinel.Observe.Reads.{
  fulfilled, ResolvedAgentIdentity, GateRead, ConsumerRead, SettledReads, valid_gate,
  valid_consumer, is_identity_failure, gate_provenance_consistent, consumer_provenance_consistent,
  gate_is_consistent, pair_matches, gate_matches_lease, intrinsic_gate_reason,
}
use g_sentinel.Observe.Entries.{
  Metadata, lease_block_reason, identity_entry, lease_entry, AccessObservations, snapshot_gate,
  snapshot_consumer, build_observations,
}
use g_sentinel.Observe.Sound.{
  IsVerified, identity_entry-fulfilled, lease_block_reason-none, lease_entry-IsLive,
  gate_entry-allowed, consumer_entry-accepted, snapshot_gate-consistent,
  snapshot_consumer-consistent,
}

-- The four reads name one wallet and one version, and the lease is live at the block's time.
abbrev pub Agree :
    ResolvedAgentIdentity → LockRecord → GateRead → ConsumerRead → String → ℕ → Type 0
Agree i lock g c key timestamp =
    (g.allowed ≡ true)
    × (c.accepted ≡ true)
    × (lower g.subject ≡ lower i.agent_wallet)
    × (lower c.subject ≡ lower i.agent_wallet)
    × (lower lock.fields.subject ≡ lower g.subject)
    × (g.version ≡ lock.fields.version)
    × (c.version ≡ lock.fields.version)
    × (lock.fields.version ≢ 0)
    × (lower lock.fields.identity_key ≡ key)
    × (lock.state ≡ 1)
    × (lock.fields.coverage ≡ 127)
    × (lock.fields.issued_at ≤ timestamp)
    × (timestamp < lock.fields.valid_until)

intrinsic-none :
    (gate : GateRead) (lease : LockRecord) (key : String) (timestamp : ℕ)
    → gate_matches_lease gate lease key timestamp ≡ true
    → gate.reason ≡ 0
    → (gate.version ≡ lease.fields.version)
      × (lower lease.fields.subject ≡ lower gate.subject)
      × (lease.fields.issued_at ≤ timestamp)
unfolding gate_matches_lease intrinsic_gate_reason same_text
intrinsic-none gate lease key timestamp h z =
    let q = eq_iff (lower lease.fields.subject) (lower gate.subject) in ground arith

gate_provenance-agrees :
    (reads : SettledReads) (i : ResolvedAgentIdentity) (lock : LockRecord) (g : GateRead)
    (c : ConsumerRead) (key : String) (timestamp : ℕ)
    → reads.identity ≡ fulfilled i
    → reads.lease ≡ fulfilled lock
    → reads.gate ≡ fulfilled g
    → reads.consumer ≡ fulfilled c
    → valid_gate g ≡ true
    → valid_consumer c ≡ true
    → g.allowed ≡ true
    → gate_provenance_consistent reads key timestamp ≡ true
    → (same_text g.subject i.agent_wallet ≡ true)
      × (gate_matches_lease g lock key timestamp ≡ true)
      × (same_text g.subject c.subject ≡ true)
      × (g.version ≡ c.version)
unfolding gate_provenance_consistent gate_is_consistent pair_matches is_identity_failure
gate_provenance-agrees reads i lock g c key timestamp ri rl rg rc vg vc a h =
    let k = rw (ri, rl, rg, rc, vg, vc, a) at h in ground arith

valid_gate-reason : (g : GateRead) → valid_gate g ≡ true → g.allowed ≡ true → g.reason ≡ 0
unfolding valid_gate
valid_gate-reason g v a = ground arith

module _ (reads : SettledReads) (key : String) (timestamp : ℕ) where
  values-Agree :
      (i : ResolvedAgentIdentity) (lock : LockRecord) (g : GateRead) (c : ConsumerRead)
      → (reads.identity ≡ fulfilled i)
        × (reads.lease ≡ fulfilled lock)
        × (reads.gate ≡ fulfilled g)
        × (reads.consumer ≡ fulfilled c)
      → valid_gate g ≡ true
      → valid_consumer c ≡ true
      → g.allowed ≡ true
      → c.accepted ≡ true
      → gate_provenance_consistent reads key timestamp ≡ true
      → lock.fields.version ≢ 0
      → lower lock.fields.identity_key ≡ key
      → lease_block_reason lock timestamp ≡ none
      → Agree i lock g c key timestamp
  unfolding same_text
  values-Agree i lock g c (ri, rl, rg, rc) valid_g valid_c allowed accepted gp version identity_key
        live =
      let (wallet, matches, subjects, versions) =
        gate_provenance-agrees reads i lock g c key timestamp ri rl rg rc valid_g valid_c allowed
          gp in
      let (version_eq, subject, issued) =
        intrinsic-none g lock key timestamp matches (valid_gate-reason g valid_g allowed) in
      let (state, coverage, valid_until) = lease_block_reason-none lock timestamp live in
      let w : lower g.subject ≡ lower i.agent_wallet = (eq_iff _ _).0 wallet in
      let s : lower g.subject ≡ lower c.subject = (eq_iff _ _).0 subjects in
      (
        allowed,
        accepted,
        w,
        sym s ∙ w,
        subject,
        version_eq,
        sym versions ∙ version_eq,
        version,
        identity_key,
        state,
        coverage,
        issued,
        valid_until,
      )

  -- The four reads gave values that agree.
  abbrev pub AllAgree : Type 0
  AllAgree =
      (i : ResolvedAgentIdentity) × (lock : LockRecord) × (g : GateRead) × (c : ConsumerRead)
      × ((reads.identity ≡ fulfilled i)
          × (reads.lease ≡ fulfilled lock)
          × (reads.gate ≡ fulfilled g)
          × (reads.consumer ≡ fulfilled c))
      × Agree i lock g c key timestamp

  entries-agree :
      (m : Metadata) (o : AccessObservations)
      → identity_entry reads.identity m ≡ ok o.identity
      → lease_entry reads.lease key m timestamp ≡ ok o.lease
      → snapshot_gate (gate_provenance_consistent reads key timestamp) reads.gate m ≡ ok o.gate
      → snapshot_consumer (consumer_provenance_consistent reads) reads.consumer m ≡ ok o.consumer
      → IsVerified o.identity
      → IsVerified o.lease
      → IsVerified o.gate
      → IsVerified o.consumer
      → AllAgree
  entries-agree m o hi hl hg hc vi vl vg vc =
      let (i, ri) = identity_entry-fulfilled reads.identity m o.identity hi vi in
      let (lock, rl, version, identity_key, live) =
        lease_entry-IsLive reads.lease key m timestamp o.lease hl vl in
      let (gp, hg2) = snapshot_gate-consistent _ reads.gate m o.gate hg vg in
      let (_, hc2) = snapshot_consumer-consistent _ reads.consumer m o.consumer hc vc in
      let (g, rg, valid_g, allowed) = gate_entry-allowed reads.gate m o.gate hg2 vg in
      let (c, rc, valid_c, accepted) = consumer_entry-accepted reads.consumer m o.consumer hc2 vc in
      (
        i,
        lock,
        g,
        c,
        (ri, rl, rg, rc),
        values-Agree i lock g c (ri, rl, rg, rc) valid_g valid_c allowed accepted gp version
            identity_key live,
      )

  pub build_observations-entries :
      (m : Metadata) (o : AccessObservations)
      → build_observations reads key m timestamp ≡ ok o
      → (identity_entry reads.identity m ≡ ok o.identity)
        × (lease_entry reads.lease key m timestamp ≡ ok o.lease)
        × (snapshot_gate (gate_provenance_consistent reads key timestamp) reads.gate m ≡ ok o.gate)
        × (snapshot_consumer (consumer_provenance_consistent reads) reads.consumer m
            ≡ ok o.consumer)
  unfolding build_observations
  build_observations-entries m o h =
      let (ei, h1, hi) = returned-through (identity_entry reads.identity m) _ h in
      let (el, h2, hl) = returned-through (lease_entry reads.lease key m timestamp) _ h1 in
      let (eg, h3, hg) = returned-through (snapshot_gate _ reads.gate m) _ h2 in
      let (ec, h4, hc) = returned-through (snapshot_consumer _ reads.consumer m) _ h3 in
      let same : record { identity = ei; lease = el; gate = eg; consumer = ec } ≡ o = cc in
      subst
        (λ q.
          (identity_entry reads.identity m ≡ ok q.identity)
          × (lease_entry reads.lease key m timestamp ≡ ok q.lease)
          × (snapshot_gate (gate_provenance_consistent reads key timestamp) reads.gate m
              ≡ ok q.gate)
          × (snapshot_consumer (consumer_provenance_consistent reads) reads.consumer m
              ≡ ok q.consumer))
        same (hi, hl, hg, hc)

  pub build_observations-agree :
      (m : Metadata) (o : AccessObservations)
      → build_observations reads key m timestamp ≡ ok o
      → IsVerified o.identity
      → IsVerified o.lease
      → IsVerified o.gate
      → IsVerified o.consumer
      → AllAgree
  build_observations-agree m o h vi vl vg vc =
      let (hi, hl, hg, hc) = build_observations-entries m o h in
      entries-agree m o hi hl hg hc vi vl vg vc
