-- ===== src/Observe/Total.antt =====
-- When observing the current access returns.
use g_sentinel.Base.{
  ℕ, String, true, Option, ◌+◌, ◌≡◌, refl, ok, arith, ◌≤◌, decimal, decimal_value-decimal,
  decimal-positive, lower, lower-hex, lower-zero_hex,
}
use g_sentinel.Observe.Assert.{max_iso_ms, is_fresh_coordinate, is_positive_uint64, is_nonzero_hash}
use g_sentinel.Observe.Reads.{fulfilled, SettledReads}
use g_sentinel.Observe.Entries.{build_observations}
use g_sentinel.Observe.Returns.{Returns, then-Returns, IsFreshMetadata, build_observations-Returns}
use g_sentinel.Observe.{
  IdentityTools, Options, PinnedBlock, Dependencies, validate_input_binding, validate_options,
  validate_pinned_block, assert_resolved_binding, metadata_of, build_snapshot,
  observe_current_access, settle_reads, from_assertion,
}

decimal-uint64 : (n : ℕ) → 1 ≤ n → n ≤ 9007199254740991 → is_positive_uint64 (decimal n) ≡ true
unfolding is_positive_uint64
decimal-uint64 n l h = rw (decimal-positive n l, decimal_value-decimal n) (ground arith)

lower-nonzero_hash : (s : String) → is_nonzero_hash s ≡ true → is_nonzero_hash (lower s) ≡ true
unfolding is_nonzero_hash
lower-nonzero_hash s h =
    let e = lower-hex 64 s (ground arith) in let z = lower-zero_hex s in ground arith

lowered_block : PinnedBlock → PinnedBlock
lowered_block block = record block { hash = lower block.hash }

validate_pinned_block-block :
    (pinned block : PinnedBlock)
    → validate_pinned_block pinned ≡ ok block
    → (is_positive_uint64 (decimal block.number) ≡ true) × (is_nonzero_hash block.hash ≡ true)
unfolding validate_pinned_block lowered_block
validate_pinned_block-block pinned block h =
    let e : block ≡ lowered_block pinned = ground arith in
    let n : is_nonzero_hash pinned.hash ≡ true = ground arith in
    let l : 1 ≤ pinned.number = ground arith in
    let u : pinned.number ≤ 9007199254740991 = ground arith in
    rw e (decimal-uint64 pinned.number l u, lower-nonzero_hash pinned.hash n)

metadata_of-fresh :
    (options : Options) (clock : Option ℕ) (pinned block : PinnedBlock) (now_ms : ℕ)
    → validate_options options clock ≡ ok now_ms
    → now_ms + options.ttl_ms ≤ max_iso_ms
    → validate_pinned_block pinned ≡ ok block
    → IsFreshMetadata (metadata_of block options now_ms)
unfolding is_fresh_coordinate validate_options
metadata_of-fresh options clock pinned block now_ms o y p =
    let (n, h) = validate_pinned_block-block pinned block p in rw (n, h) (ground arith)

build_snapshot-Returns :
    (agent_id key : String) (block : PinnedBlock) (reads : SettledReads) (options : Options)
    (now_ms : ℕ)
    → IsFreshMetadata (metadata_of block options now_ms)
    → Returns (build_snapshot agent_id key block reads options now_ms)
unfolding build_snapshot
build_snapshot-Returns agent_id key block reads options now_ms fresh =
    let (o, e) =
      build_observations-Returns (metadata_of block options now_ms) fresh reads key
        block.timestamp in
    then-Returns
      (from_assertion
        (build_observations reads key (metadata_of block options now_ms) block.timestamp))
      _ (o, rw e refl) λ a. (_, refl)

-- With a valid input, valid options, a clock that tells a time and an end of the freshness up to the
-- year 9999, observing returns an access whenever a valid finalized block was pinned, the identity that was read is bound to the input, and the block was confirmed, whatever
-- the reads of the lease, the gate and the consumer answer, and if the identity could not be read.
pub observe_current_access-Returns :
    (tools : IdentityTools) (dependencies : Dependencies) (options : Options) (clock : Option ℕ)
    (now_ms : ℕ) (agent_id key_input key : String) (pinned block : PinnedBlock)
    → validate_input_binding tools agent_id key_input ≡ ok key
    → validate_options options clock ≡ ok now_ms
    → now_ms + options.ttl_ms ≤ max_iso_ms
    → dependencies.pin_finalized_block ≡ fulfilled pinned
    → validate_pinned_block pinned ≡ ok block
    → assert_resolved_binding tools
        (dependencies.resolve_identity agent_id block.number)
        agent_id
        key
        block
      ≡ ok tt
    → dependencies.confirm_pinned_block block.number block.hash ≡ fulfilled true
    → Returns (observe_current_access tools dependencies options clock agent_id key_input)
unfolding observe_current_access settle_reads
observe_current_access-Returns tools dependencies options clock now_ms agent_id key_input key pinned
      block i o y p b r c =
    rw (i, o, p, b, r, c)
      (build_snapshot-Returns agent_id key block _ options now_ms
        (metadata_of-fresh options clock pinned block now_ms o y b))
