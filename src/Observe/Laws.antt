-- ===== src/Observe/Laws.antt =====
-- What observing the current access shows when all four observations are verified.
use g_sentinel.Base.{
  Option, ℕ, String, Bool, true, false, not, ◌≡◌, refl, ok, err, Result, ◌+◌, sym, ap, subst,
  returned-through, reject_if,
}
use g_sentinel.Observe.Assert.{ObservationError}
use g_sentinel.Observe.Reads.{Settled, fulfilled, rejected, SettledReads}
use g_sentinel.Observe.Agreement.{AllAgree, build_observations-agree}
use g_sentinel.Observe.Sound.{IsVerified}
use g_sentinel.Observe.Entries.{AccessObservations, build_observations}
use g_sentinel.Observe.{
  IdentityTools, Options, PinnedBlock, Dependencies, CurrentAccess, validate_input_binding,
  validate_options, validate_pinned_block, assert_resolved_binding, metadata_of, build_snapshot,
  proof_mismatch, observe_current_access, from_call, settle_reads, from_assertion,
}

confirmed_of :
    (call : Settled Bool) (b : Bool) → from_call call ≡ ok b → b ≡ true → call ≡ fulfilled true
confirmed_of (fulfilled b) c h e = cc
confirmed_of rejected c h e = cc

from_assertion-ok :
    {A : Type 0} (r : Result ObservationError A) (a : A) → from_assertion r ≡ ok a → r ≡ ok a
from_assertion-ok (ok b) a h = cc
from_assertion-ok (err e) a h = cc

module _ (agent_id key : String) (block : PinnedBlock) (reads : SettledReads) (options : Options)
    (now_ms : ℕ) where
  abbrev access_of : AccessObservations → CurrentAccess
  access_of o = record {
    agent_id = agent_id;
    identity_key = key;
    block = block;
    observed_at = now_ms;
    freshness_expires_at = now_ms + options.ttl_ms;
    observations = o;
  }

  build_snapshot-access :
      (access : CurrentAccess)
      → build_snapshot agent_id key block reads options now_ms ≡ ok access
      → (o : AccessObservations) × (build_observations reads key
            (metadata_of block options now_ms)
            block.timestamp
          ≡ ok o)
        × (access ≡ access_of o)
  unfolding build_snapshot
  build_snapshot-access access h =
      let (o, k, e) =
        returned-through
          (from_assertion
            (build_observations reads key (metadata_of block options now_ms) block.timestamp))
          _ h in
      (o, from_assertion-ok _ o e, cc)

module _ (agent_id key : String) (block : PinnedBlock) (reads : SettledReads) (options : Options)
    (now_ms : ℕ) where
  build_snapshot-agree :
      (access : CurrentAccess)
      → build_snapshot agent_id key block reads options now_ms ≡ ok access
      → IsVerified access.observations.identity
      → IsVerified access.observations.lease
      → IsVerified access.observations.gate
      → IsVerified access.observations.consumer
      → AllAgree reads key block.timestamp × (block ≡ access.block) × (key ≡ access.identity_key)
  build_snapshot-agree access h vi vl vg vc =
      let (o, ho, same) = build_snapshot-access agent_id key block reads options now_ms access h in
      let agree =
        build_observations-agree reads key block.timestamp (metadata_of block options now_ms) o ho
          (rw same at vi) (rw same at vl) (rw same at vg) (rw same at vc) in
      (agree, sym (ap (λ q. q.block) same), sym (ap (λ q. q.identity_key) same))

true_of_passed : {E : Type 0} (b : Bool) (e : E) → reject_if (not b) e ≡ ok tt → b ≡ true
true_of_passed true e h = refl
true_of_passed false e h = cc

module _ (tools : IdentityTools) (dependencies : Dependencies) (options : Options)
    (clock : Option ℕ) (agent_id key_input : String) (access : CurrentAccess) where
  -- Observing that returns has confirmed the block that it builds the snapshot at.
  observe_current_access-snapshot :
      observe_current_access tools dependencies options clock agent_id key_input ≡ ok access
      → (key : String) × (block : PinnedBlock) × (now_ms : ℕ) × (dependencies.confirm_pinned_block
            block.number block.hash
          ≡ fulfilled true)
        × (build_snapshot agent_id key block
              (settle_reads dependencies agent_id key block.number)
              options
              now_ms
            ≡ ok access)
  unfolding observe_current_access
  observe_current_access-snapshot h =
      let (key, h1, e1) = returned-through (validate_input_binding tools agent_id key_input) _ h in
      let (now_ms, h2, e2) = returned-through (validate_options options clock) _ h1 in
      let (pinned, h3, e3) = returned-through (from_call dependencies.pin_finalized_block) _ h2 in
      let (block, h4, e4) = returned-through (validate_pinned_block pinned) _ h3 in
      let (_, h5, e5) =
        returned-through
          (assert_resolved_binding tools
            (settle_reads dependencies agent_id key block.number).identity agent_id key block)
          _ h4 in
      let (confirmed, h6, e6) =
        returned-through (from_call (dependencies.confirm_pinned_block block.number block.hash)) _
          h5 in
      let (_, h7, e7) = returned-through (reject_if (not confirmed) _) _ h6 in
      (
        key,
        block,
        now_ms,
        confirmed_of _ confirmed e6 (true_of_passed confirmed proof_mismatch e7),
        h7,
      )

snapshot-agree :
    (dependencies : Dependencies) (agent_id key : String) (block : PinnedBlock) (options : Options)
    (now_ms : ℕ) (access : CurrentAccess)
    → dependencies.confirm_pinned_block block.number block.hash ≡ fulfilled true
    → build_snapshot agent_id key block
        (settle_reads dependencies agent_id key block.number)
        options
        now_ms
      ≡ ok access
    → IsVerified access.observations.identity
    → IsVerified access.observations.lease
    → IsVerified access.observations.gate
    → IsVerified access.observations.consumer
    → (dependencies.confirm_pinned_block access.block.number access.block.hash ≡ fulfilled true)
      × AllAgree
          (settle_reads dependencies agent_id access.identity_key access.block.number)
          access.identity_key
          access.block.timestamp
snapshot-agree dependencies agent_id key block options now_ms access confirmed h vi vl vg vc =
    let (agrees, same_block, same_id) =
      build_snapshot-agree agent_id key block _ options now_ms access h vi vl vg vc in
    subst
      (λ b.
        (dependencies.confirm_pinned_block b.number b.hash ≡ fulfilled true)
        × AllAgree (settle_reads dependencies agent_id access.identity_key b.number)
            access.identity_key b.timestamp)
      same_block
      (
        confirmed,
        subst (λ k. AllAgree (settle_reads dependencies agent_id k block.number) k block.timestamp)
            same_id agrees,
      )

-- When observing gives an access whose four observations are verified, the four reads gave values at
-- the block of the access, that block was confirmed, and the values agree: the gate allows and the
-- consumer accepts the wallet of the identity, in the version of the lease, which belongs to the
-- identity and is active, fully covered and within its time at the block.
pub observe_current_access-Agree :
    (tools : IdentityTools) (dependencies : Dependencies) (options : Options) (clock : Option ℕ)
    (agent_id key_input : String) (access : CurrentAccess)
    → observe_current_access tools dependencies options clock agent_id key_input ≡ ok access
    → IsVerified access.observations.identity
    → IsVerified access.observations.lease
    → IsVerified access.observations.gate
    → IsVerified access.observations.consumer
    → (dependencies.confirm_pinned_block access.block.number access.block.hash ≡ fulfilled true)
      × AllAgree
          (settle_reads dependencies agent_id access.identity_key access.block.number)
          access.identity_key
          access.block.timestamp
observe_current_access-Agree tools dependencies options clock agent_id key_input access h vi vl vg
      vc =
    let (key, block, now_ms, confirmed, returns) =
      observe_current_access-snapshot tools dependencies options clock agent_id key_input access
        h in
    snapshot-agree dependencies agent_id key block options now_ms access confirmed returns vi vl vg
      vc
