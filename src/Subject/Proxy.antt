-- ===== src/Subject/Proxy.antt =====
-- checks/contract.ts: which proxy the subject may be, and the metadata that binds a candidate.
use Prim.Native.String.{slice, len}
use text.Mathlib.Text.{starts_with}
use g_sentinel.Base.{
  ℕ, String, Bool, true, false, not, ◌&&◌, Option, none, some, ◌==◌, eqb, decimal, lower,
}
use g_sentinel.Drift.{zero_bytes32}
use g_sentinel.Subject.Chain.{
  no_live_code, invalid_word, zero_target, self_target, invalid_response, binding_mismatch, Block,
  Adapter, Tools, Chain, ◌>>=◌, ◌>>◌, pure, throw_if, given, ask,
}
use g_sentinel.Subject.Classify.{
  zero_address, normalize_runtime_code, address_of, is_lower_hex40, validate_expected_source_block,
}
use g_sentinel.Subject.Source.{
  number_is, text_is, flag_is_set, bound_address, nonzero_bytes32, bounded_text,
}

pub data ProxyKind : Type 0 where
  eip1967_implementation eip1167_minimal eip1967_beacon : ProxyKind

pub record Beacon : Type 0 where
  pub beacon_address : String
  pub beacon_code_hash : String

-- `ImplementationProxy` and `BeaconProxy`; only the second has a beacon.
pub record Proxy : Type 0 where
  pub kind : ProxyKind
  pub implementation_address : String
  pub implementation_code_hash : String
  pub beacon : Option Beacon

-- The response of a metadata resolver.
pub record RawProxy : Type 0 where
  pub chain_id : Option ℕ
  pub subject_address : Option String
  pub source_block_number : Option String
  pub source_block_hash : Option String
  pub subject_runtime_code_hash : Option String
  pub kind : Option String
  pub implementation_address : Option String
  pub implementation_code_hash : Option String
  pub beacon_address : Option String
  pub beacon_code_hash : Option String
  pub verified_proxy_match : Option Bool
  pub provider : Option String
  pub uri : Option String
  pub raw_response_digest : Option String

-- `BoundProxyMetadata`, without the three fields that are constants
pub record BoundProxyMetadata : Type 0 where
  pub subject_address : String
  pub source_block_number : String
  pub source_block_hash : String
  pub subject_runtime_code_hash : String
  pub proxy : Proxy
  pub provider : String
  pub uri : String
  pub raw_response_digest : String

-- `BoundProxyMetadataResolver`: the moment, the subject's address and code hash, the block, and the
-- candidate.
abbrev pub MetadataResolver : Type 0
MetadataResolver = ℕ → String → String → Block → Proxy → Option (Option RawProxy)

abbrev kind_text : ProxyKind → String
kind_text eip1967_implementation = "EIP1967_IMPLEMENTATION"
kind_text eip1167_minimal = "EIP1167_MINIMAL"
kind_text eip1967_beacon = "EIP1967_BEACON"

abbrev pub implementation_slot : String
implementation_slot = "0x360894a13ba1a3210667c828492db98dca3e2076cc3735a920a3ca505d382bbc"

abbrev pub beacon_slot : String
beacon_slot = "0xa3f0ad74e5423aebfd80d3ef4346578335a9a72aeaee59ff6cb3582b35133d50"

module _ (tools : Tools) where
  abbrev assert_beacon : RawProxy → Option Beacon → Chain (Unit {0})
  assert_beacon raw none = pure tt
  assert_beacon raw (some beacon) = do
    beacon_address ← bound_address tools raw.beacon_address
    throw_if (not (beacon_address == beacon.beacon_address)) binding_mismatch
    beacon_code_hash ← nonzero_bytes32 raw.beacon_code_hash
    throw_if (not (beacon_code_hash == beacon.beacon_code_hash)) binding_mismatch

  -- `assertProxyMetadataBindings`
  unfoldable pub assert_proxy_metadata_bindings :
      RawProxy → String → String → Block → Proxy → Chain (Unit {0})
  assert_proxy_metadata_bindings raw subject_address subject_hash source_block candidate = do
    throw_if (not (number_is raw.chain_id 16661)) binding_mismatch
    address ← bound_address tools raw.subject_address
    throw_if (not (address == subject_address)) binding_mismatch
    throw_if (not (text_is raw.source_block_number (decimal source_block.number))) binding_mismatch
    block_hash ← nonzero_bytes32 raw.source_block_hash
    throw_if (not (block_hash == source_block.hash)) binding_mismatch
    code_hash ← nonzero_bytes32 raw.subject_runtime_code_hash
    throw_if (not (code_hash == subject_hash)) binding_mismatch
    throw_if (not (text_is raw.kind (kind_text candidate.kind))) binding_mismatch
    implementation ← bound_address tools raw.implementation_address
    throw_if (not (implementation == candidate.implementation_address)) binding_mismatch
    implementation_hash ← nonzero_bytes32 raw.implementation_code_hash
    throw_if (not (implementation_hash == candidate.implementation_code_hash)) binding_mismatch
    throw_if (not (flag_is_set raw.verified_proxy_match)) binding_mismatch
    assert_beacon raw candidate.beacon

  -- `resolveBoundProxyMetadata`
  unfoldable pub resolve_bound_proxy_metadata :
      MetadataResolver → String → String → Proxy → Block → Chain BoundProxyMetadata
  resolve_bound_proxy_metadata resolver address code_hash candidate source_block_input = do
    source_block ← validate_expected_source_block source_block_input
    response ← ask (λ moment. resolver moment address code_hash source_block candidate)
    raw ← given response invalid_response
    assert_proxy_metadata_bindings raw address code_hash source_block candidate
    provider ← bounded_text raw.provider
    uri ← bounded_text raw.uri
    raw_response_digest ← nonzero_bytes32 raw.raw_response_digest
    pure (record {
      subject_address = address;
      source_block_number = decimal source_block.number;
      source_block_hash = source_block.hash;
      subject_runtime_code_hash = code_hash;
      proxy = candidate;
      provider = provider;
      uri = uri;
      raw_response_digest = raw_response_digest;
    })

  abbrev word_address : Bool → String → Chain (Option String)
  word_address true value = pure none
  word_address false value = do
    throw_if (not (starts_with (lower value) "0x000000000000000000000000")) invalid_word
    address_of tools true (slice value 26 66)

  -- `addressFromWord`
  unfoldable pub address_from_word : String → Chain (Option String)
  address_from_word value = do
    throw_if (not (tools.is_hex_string value && eqb (len value) 66)) invalid_word
    word_address (lower value == zero_bytes32) value

  module _ (adapter : Adapter) (subject : String) (block_tag : ℕ) where
    -- `liveCodeHash`, with `assertTargetAddress`
    unfoldable pub live_code_hash : String → Chain String
    live_code_hash target = do
      throw_if (lower target == zero_address) zero_target
      throw_if (target == subject) self_target
      answer ← ask (λ moment. adapter.get_code moment target block_tag)
      code ← normalize_runtime_code tools answer
      throw_if (code == "0x") no_live_code
      pure (tools.keccak code)

    -- A proxy of this kind with a live implementation, where there is an address.
    unfoldable pub implementation_of : ProxyKind → Option String → Chain (Option Proxy)
    implementation_of kind none = pure none
    implementation_of kind (some address) = do
      code_hash ← live_code_hash address
      pure (
          some (record {
            kind = kind;
            implementation_address = address;
            implementation_code_hash = code_hash;
            beacon = none;
          }))

    -- `implementationProxy`
    unfoldable pub implementation_proxy : Chain (Option Proxy)
    implementation_proxy = do
      word ← ask (λ moment. adapter.get_storage moment subject implementation_slot block_tag)
      address ← address_from_word word
      implementation_of eip1967_implementation address

    unfoldable pub beacon_at : Option String → Chain (Option Proxy)
    beacon_at none = pure none
    beacon_at (some beacon_address) = do
      beacon_code_hash ← live_code_hash beacon_address
      result ← ask (λ moment. adapter.call moment beacon_address "0x5c60da1b" block_tag)
      found ← address_from_word result
      implementation ← given found zero_target
      throw_if (implementation == beacon_address) self_target
      code_hash ← live_code_hash implementation
      pure (
          some (record {
            kind = eip1967_beacon;
            implementation_address = implementation;
            implementation_code_hash = code_hash;
            beacon =
                some
                  (record { beacon_address = beacon_address; beacon_code_hash = beacon_code_hash });
          }))

    -- `beaconProxy`
    unfoldable pub beacon_proxy : Chain (Option Proxy)
    beacon_proxy = do
      word ← ask (λ moment. adapter.get_storage moment subject beacon_slot block_tag)
      address ← address_from_word word
      beacon_at address

  -- `minimalProxyTarget`
  unfoldable pub minimal_proxy_target : String → Chain (Option String)
  minimal_proxy_target runtime_code =
      address_of tools
        (eqb (len runtime_code) 92
          && starts_with runtime_code "0x363d3d373d3d3d363d73"
          && is_lower_hex40 (slice runtime_code 22 62)
          && slice runtime_code 62 92 == "5af43d82803e903d91602b57fd5bf3")
        (slice runtime_code 22 62)
