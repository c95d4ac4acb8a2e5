-- ===== src/Subject/Source.antt =====
-- checks/contract.ts: `resolveVerifiedSource`. A field of a response is `none` where it is missing or
-- of another type, and a response is `none` where it is no object.
use g_sentinel.Base.{
  ℕ, String, Bool, false, not, ◌||◌, Option, none, some, ◌==◌, ltb, eqb, decimal, lower, is_hex,
  is_blank, text_length,
}
use g_sentinel.Drift.{zero_bytes32}
use g_sentinel.Subject.Chain.{
  invalid_address, invalid_response, binding_mismatch, Block, Tools, Chain, ◌>>=◌, ◌>>◌, pure,
  throw_if, given, ask,
}
use g_sentinel.Subject.Classify.{validate_expected_source_block}

pub record RawSource : Type 0 where
  pub chain_id : Option ℕ
  pub address : Option String
  pub source_block_number : Option String
  pub source_block_hash : Option String
  pub runtime_code_hash : Option String
  pub verified_runtime_match : Option Bool
  pub provider : Option String
  pub uri : Option String
  pub raw_response_digest : Option String
  pub source : Option String

-- `ResolvedVerifiedSource`, without the three fields that are constants
pub record ResolvedVerifiedSource : Type 0 where
  pub address : String
  pub source_block_number : String
  pub source_block_hash : String
  pub runtime_code_hash : String
  pub provider : String
  pub uri : String
  pub raw_response_digest : String
  pub source : String

-- `VerifiedSourceResolver`: the moment, the address, the hash of its code, and the block.
abbrev pub VerifiedSourceResolver : Type 0
VerifiedSourceResolver = ℕ → String → String → Block → Option (Option RawSource)

abbrev pub number_is : Option ℕ → ℕ → Bool
number_is none n = false
number_is (some m) n = eqb m n

abbrev pub text_is : Option String → String → Bool
text_is none t = false
text_is (some s) t = s == t

abbrev pub flag_is_set : Option Bool → Bool
flag_is_set none = false
flag_is_set (some b) = b

-- `normalizeAddress` of contract.ts
abbrev pub bound_address : Tools → Option String → Chain String
bound_address tools value = do
  text ← given value invalid_address
  given (tools.get_address text) invalid_address

-- `normalizeNonZeroBytes32`
abbrev pub nonzero_bytes32 : Option String → Chain String
nonzero_bytes32 value = do
  text ← given value invalid_response
  throw_if (not (is_hex 64 text) || lower text == zero_bytes32) invalid_response
  pure (lower text)

-- `boundedText`
abbrev pub bounded_text : Option String → Chain String
bounded_text value = do
  text ← given value invalid_response
  throw_if (is_blank text || ltb 4096 (text_length text)) invalid_response
  pure text

-- `resolveVerifiedSource`
unfoldable pub resolve_verified_source :
    Tools → VerifiedSourceResolver → String → String → Block → Chain ResolvedVerifiedSource
resolve_verified_source tools resolver target_address runtime_code_hash source_block_input = do
  source_block ← validate_expected_source_block source_block_input
  address ← bound_address tools (some target_address)
  response ← ask (λ moment. resolver moment address runtime_code_hash source_block)
  raw ← given response invalid_response
  source ← given raw.source invalid_response
  throw_if (is_blank source) invalid_response
  throw_if (ltb 262144 (tools.byte_length source)) invalid_response
  throw_if (not (number_is raw.chain_id 16661)) binding_mismatch
  raw_address ← bound_address tools raw.address
  throw_if (not (raw_address == address)) binding_mismatch
  throw_if (not (text_is raw.source_block_number (decimal source_block.number))) binding_mismatch
  raw_block_hash ← nonzero_bytes32 raw.source_block_hash
  throw_if (not (raw_block_hash == source_block.hash)) binding_mismatch
  raw_code_hash ← nonzero_bytes32 raw.runtime_code_hash
  throw_if (not (raw_code_hash == runtime_code_hash)) binding_mismatch
  throw_if (not (flag_is_set raw.verified_runtime_match)) binding_mismatch
  provider ← bounded_text raw.provider
  uri ← bounded_text raw.uri
  raw_response_digest ← nonzero_bytes32 raw.raw_response_digest
  pure (record {
    address = address;
    source_block_number = decimal source_block.number;
    source_block_hash = source_block.hash;
    runtime_code_hash = runtime_code_hash;
    provider = provider;
    uri = uri;
    raw_response_digest = raw_response_digest;
    source = source;
  })
