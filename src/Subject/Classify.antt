-- ===== src/Subject/Classify.antt =====
-- subject/classify.ts: the source block, and the kind of the subject at it.
use g_sentinel.Base.{
  String, Bool, true, false, not, ◌&&◌, ◌||◌, Option, none, some, ◌==◌, ltb, eqb, ◌%◌,
  if◌then◌else◌, lower, is_hex, decimal, text_length,
}
use Prim.Native.String.{◌++◌, slice, len}
use text.Mathlib.Text.{starts_with}
use g_sentinel.Drift.{SubjectKind, eoa, eip7702_delegated_eoa, contract, zero_bytes32}
use g_sentinel.Subject.Chain.{
  invalid_address, malformed_code, invalid_block_hash, invalid_block_number, block_replaced,
  block_reorganized, invalid_delegation, no_live_code, Block, Adapter, Tools, Chain, ◌>>=◌, ◌>>◌,
  pure, throw_if, given, ask,
}

-- `ClassifiedSubject`
pub record ClassifiedSubject : Type 0 where
  pub address : String
  pub kind : SubjectKind
  pub source_block_number : String
  pub source_block_hash : String
  pub runtime_code : String
  pub runtime_code_hash : String
  pub delegation_target : Option String
  pub delegation_code : Option String
  pub delegation_code_hash : Option String

abbrev pub zero_address : String
zero_address = "0x0000000000000000000000000000000000000000"

module _ (tools : Tools) where
  -- `normalizeAddress`
  abbrev pub normalize_address : String → Chain String
  normalize_address value = given (tools.get_address value) invalid_address

  -- `normalizeRuntimeCode`
  unfoldable pub normalize_runtime_code : String → Chain String
  normalize_runtime_code value = do
    throw_if (not (tools.is_hex_string value) || not (eqb (text_length value % 2) 0)) malformed_code
    pure (lower value)

-- `normalizeBlockHash`
unfoldable pub normalize_block_hash : String → Chain String
normalize_block_hash value = do
  throw_if (not (is_hex 64 value) || lower value == zero_bytes32) invalid_block_hash
  pure (lower value)

-- `validateExpectedSourceBlock`
unfoldable pub validate_expected_source_block : Block → Chain Block
validate_expected_source_block value = do
  throw_if (ltb 18446744073709551615 value.number) invalid_block_number
  hash ← normalize_block_hash value.hash
  pure (record { number = value.number; hash = hash })

-- `assertExpectedSourceBlock`
unfoldable pub assert_expected_source_block : Adapter → Block → Chain Block
assert_expected_source_block adapter expected_input = do
  expected ← validate_expected_source_block expected_input
  answer ← ask (λ moment. adapter.get_block moment expected.number)
  actual ← given answer block_replaced
  throw_if (not (eqb actual.number expected.number)) block_replaced
  hash ← normalize_block_hash actual.hash
  throw_if (not (hash == expected.hash)) block_reorganized
  pure expected

-- Exactly forty digits of `[0-9a-f]`.
unfoldable pub is_lower_hex40 : String → Bool
is_lower_hex40 digits = is_hex 40 ("0x" ++ digits) && lower digits == digits

module _ (tools : Tools) where
  -- The address of `digits`, where there are such digits.
  abbrev pub address_of : Bool → String → Chain (Option String)
  address_of false digits = pure none
  address_of true digits = do target ← normalize_address tools ("0x" ++ digits); pure (some target)

  -- `delegationTarget`
  unfoldable pub delegation_target_of : String → Chain (Option String)
  delegation_target_of runtime_code =
      address_of
        (eqb (len runtime_code) 48
          && starts_with runtime_code "0xef0100"
          && is_lower_hex40 (slice runtime_code 8 48))
        (slice runtime_code 8 48)

  module _ (adapter : Adapter) (normalized_address : String) (source_block : Block) where
    abbrev base_subject : SubjectKind → String → String → ClassifiedSubject
    base_subject kind runtime_code runtime_code_hash = record {
      address = normalized_address;
      kind = kind;
      source_block_number = decimal source_block.number;
      source_block_hash = source_block.hash;
      runtime_code = runtime_code;
      runtime_code_hash = runtime_code_hash;
      delegation_target = none;
      delegation_code = none;
      delegation_code_hash = none;
    }

    -- A subject, once the source block was seen again.
    unfoldable pub confirm_subject : ClassifiedSubject → Chain ClassifiedSubject
    confirm_subject subject = do
      again ← assert_expected_source_block adapter source_block
      pure subject

    unfoldable pub classify_delegated : String → String → Chain ClassifiedSubject
    classify_delegated runtime_code target = do
      throw_if (lower target == zero_address || target == normalized_address) invalid_delegation
      answer ← ask (λ moment. adapter.get_code moment target source_block.number)
      delegation_code ← normalize_runtime_code tools answer
      throw_if (delegation_code == "0x") no_live_code
      confirm_subject
          (record (base_subject eip7702_delegated_eoa runtime_code (tools.keccak runtime_code)) {
            delegation_target = some target;
            delegation_code = some delegation_code;
            delegation_code_hash = some (tools.keccak delegation_code);
          })

    abbrev pub classify_executable : String → Option String → Chain ClassifiedSubject
    classify_executable runtime_code none =
        confirm_subject (base_subject contract runtime_code (tools.keccak runtime_code))
    classify_executable runtime_code (some target) = classify_delegated runtime_code target

    unfoldable pub classify_code : String → Option String → Chain ClassifiedSubject
    classify_code runtime_code target =
        if runtime_code == "0x"
        then confirm_subject (base_subject eoa runtime_code zero_bytes32)
        else classify_executable runtime_code target

  -- `classifySubject`
  unfoldable pub classify_subject : Adapter → String → Block → Chain ClassifiedSubject
  classify_subject adapter address source_block_input = do
    source_block ← assert_expected_source_block adapter source_block_input
    normalized_address ← normalize_address tools address
    answer ← ask (λ moment. adapter.get_code moment normalized_address source_block.number)
    runtime_code ← normalize_runtime_code tools answer
    target ← delegation_target_of runtime_code
    classify_code adapter normalized_address source_block runtime_code target
