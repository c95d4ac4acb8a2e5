-- ===== src/Drift.antt =====
-- frontend/server/prooflock/drift.ts: the fingerprint of a sealed agent, its comparison with the
-- current one, and the check on demand. `getAddress` and the hash of the canonical JSON come from
-- packages, so they are a parameter. Safe integers and bigints are native numbers, and a promise
-- that rejects is an error.
pub mod Laws
pub mod Demand
pub mod Checks
use g_sentinel.Base.{
  ℕ, String, Bool, true, false, not, ◌&&◌, ◌||◌, Option, none, some, List, [], ◌∷◌, ◌==◌, ltb, leb,
  eqb, Result, ok, err, ◌>>=◌, ◌>>◌, reject_if, if◌then◌else◌, is_some, any, filter, lower, is_hex,
  is_zero_hex,
}

pub data SubjectKind : Type 0 where
  eoa eip7702_delegated_eoa contract : SubjectKind

pub record DriftFingerprint : Type 0 where
  pub owner : String
  pub agent_wallet : String
  pub registration_digest : String
  pub subject_kind : SubjectKind
  pub runtime_code_hash : String
  pub delegation_target : Option String
  pub delegation_code_hash : Option String
  pub proxy_implementation : Option String
  pub proxy_implementation_code_hash : Option String
  pub policy_version : ℕ

pub data DriftField : Type 0 where
  owner agent_wallet registration_digest subject_kind runtime_code_hash : DriftField
  delegation_target delegation_code_hash proxy_implementation : DriftField
  proxy_implementation_code_hash policy_version : DriftField

pub data Reason : Type 0 where
  allowed drifted subject_changed runtime_code_drift : Reason

-- What drift.ts throws, by its message.
pub data DriftError : Type 0 where
  invalid : String → DriftError
  unpaired_delegation unpaired_proxy eoa_code_not_zero eoa_has_target : DriftError
  delegation_only contract_has_delegation executable_code_zero : DriftError
  not_canonical invalid_snapshot unverified_write dependency_failed : DriftError

-- `getAddress` of ethers, `none` where it throws; and `keccak256(toUtf8Bytes(canonicalize(…)))`,
-- `none` where `canonicalize` gives no text.
pub record Tools : Type 0 where
  pub get_address : String → Option String
  pub canonical_hash : DriftFingerprint → Option String

unfoldable pub address : Tools → String → String → Result DriftError String
address tools value label = elim (tools.get_address value) [
  | none ↦ err (invalid label)
  | some normalized ↦
      if is_hex 40 (lower normalized) && is_zero_hex (lower normalized)
      then err (invalid label)
      else ok (lower normalized)
]

unfoldable pub bytes32 : String → Bool → String → Result DriftError String
bytes32 value allow_zero label =
    if not (is_hex 64 value) || (not allow_zero && is_zero_hex value)
    then err (invalid label)
    else ok (lower value)

unfoldable pub version : ℕ → Result DriftError ℕ
version value =
    if ltb value 1 || ltb 4294967295 value then err (invalid "policy version") else ok value

-- `...(value ? { field: check(value) } : {})`; an empty text is falsy.
unfoldable pub optional_binding :
    (String → Result DriftError String) → Option String → Result DriftError (Option String)
optional_binding check none = ok none
optional_binding check (some value) =
    if value == ""
    then ok none
    else elim (check value) [ ok normalized ↦ ok (some normalized) | err e ↦ err e ]

-- `value.runtimeCodeHash !== ZERO_BYTES32`, for a hash in lower case
abbrev pub zero_bytes32 : String
zero_bytes32 = "0x0000000000000000000000000000000000000000000000000000000000000000"

abbrev pub same_bool : Bool → Bool → Bool
same_bool true b = b
same_bool false b = not b

abbrev pub is_eoa : SubjectKind → Bool
is_eoa eoa = true
is_eoa _ = false

abbrev pub is_delegated : SubjectKind → Bool
is_delegated eip7702_delegated_eoa = true
is_delegated _ = false

abbrev pub is_contract : SubjectKind → Bool
is_contract contract = true
is_contract _ = false

unfoldable pub validate_shape : DriftFingerprint → Result DriftError (Unit {0})
validate_shape value =
    let delegation = is_some value.delegation_target || is_some value.delegation_code_hash in
    let proxy =
      is_some value.proxy_implementation || is_some value.proxy_implementation_code_hash in
    let code_is_zero = value.runtime_code_hash == zero_bytes32 in
    do
      reject_if
          (not (same_bool (is_some value.delegation_target) (is_some value.delegation_code_hash)))
          unpaired_delegation
      reject_if
          (not (
            same_bool (is_some value.proxy_implementation)
              (is_some value.proxy_implementation_code_hash)))
          unpaired_proxy
      reject_if (is_eoa value.subject_kind && not code_is_zero) eoa_code_not_zero
      reject_if (is_eoa value.subject_kind && (delegation || proxy)) eoa_has_target
      reject_if (is_delegated value.subject_kind && (not delegation || proxy)) delegation_only
      reject_if (is_contract value.subject_kind && delegation) contract_has_delegation
      reject_if (not (is_eoa value.subject_kind) && code_is_zero) executable_code_zero

module _ (tools : Tools) where
  unfoldable pub build_drift_fingerprint : DriftFingerprint → Result DriftError DriftFingerprint
  build_drift_fingerprint input = do
    o ← address tools input.owner "owner"
    w ← address tools input.agent_wallet "agent wallet"
    r ← bytes32 input.registration_digest false "registration digest"
    c ← bytes32 input.runtime_code_hash true "runtime code hash"
    dt ← optional_binding (λ v. address tools v "delegation target") input.delegation_target
    dh ← optional_binding (λ v. bytes32 v false "delegation code hash") input.delegation_code_hash
    pi ← optional_binding (λ v. address tools v "proxy implementation") input.proxy_implementation
    ph ←
        optional_binding (λ v. bytes32 v false "proxy implementation code hash")
          input.proxy_implementation_code_hash
    v ← version input.policy_version
    let fingerprint : DriftFingerprint = record {
      owner = o;
      agent_wallet = w;
      registration_digest = r;
      subject_kind = input.subject_kind;
      runtime_code_hash = c;
      delegation_target = dt;
      delegation_code_hash = dh;
      proxy_implementation = pi;
      proxy_implementation_code_hash = ph;
      policy_version = v;
    }
    validate_shape fingerprint
    ok fingerprint

  unfoldable pub hash_fingerprint : DriftFingerprint → Result DriftError String
  hash_fingerprint value = do
    normalized ← build_drift_fingerprint value
    elim (tools.canonical_hash normalized) [ none ↦ err not_canonical | some digest ↦ ok digest ]

abbrev pub fields : List DriftField
fields =
    owner ∷ agent_wallet ∷ registration_digest ∷ subject_kind ∷ runtime_code_hash
    ∷ delegation_target ∷ delegation_code_hash ∷ proxy_implementation
    ∷ proxy_implementation_code_hash ∷ policy_version ∷ []

abbrev pub same_option : Option String → Option String → Bool
same_option none none = true
same_option (some a) (some b) = a == b
same_option _ _ = false

abbrev pub kind_index : SubjectKind → ℕ
kind_index eoa = 0
kind_index eip7702_delegated_eoa = 1
kind_index contract = 2

-- `expected[field] === current[field]`
unfoldable pub agrees_on : DriftFingerprint → DriftFingerprint → DriftField → Bool
agrees_on a b owner = a.owner == b.owner
agrees_on a b agent_wallet = a.agent_wallet == b.agent_wallet
agrees_on a b registration_digest = a.registration_digest == b.registration_digest
agrees_on a b subject_kind = eqb (kind_index a.subject_kind) (kind_index b.subject_kind)
agrees_on a b runtime_code_hash = a.runtime_code_hash == b.runtime_code_hash
agrees_on a b delegation_target = same_option a.delegation_target b.delegation_target
agrees_on a b delegation_code_hash = same_option a.delegation_code_hash b.delegation_code_hash
agrees_on a b proxy_implementation = same_option a.proxy_implementation b.proxy_implementation
agrees_on a b proxy_implementation_code_hash =
    same_option a.proxy_implementation_code_hash b.proxy_implementation_code_hash
agrees_on a b policy_version = eqb a.policy_version b.policy_version

abbrev pub is_field : DriftField → DriftField → Bool
is_field agent_wallet agent_wallet = true
is_field subject_kind subject_kind = true
is_field runtime_code_hash runtime_code_hash = true
is_field _ _ = false

-- `changed.includes(field)`, for the three fields that are looked for.
abbrev pub includes : DriftField → List DriftField → Bool
includes field changed = any (is_field field) changed

unfoldable pub drift_reason : List DriftField → Reason
drift_reason [] = allowed
drift_reason (f ∷ fs) =
    if includes agent_wallet (f ∷ fs) || includes subject_kind (f ∷ fs)
    then subject_changed
    else (if includes runtime_code_hash (f ∷ fs) then runtime_code_drift else drifted)

pub record DriftComparison : Type 0 where
  pub is_drifted : Bool
  pub changed_fields : List DriftField
  pub expected_digest : String
  pub current_digest : String
  pub reason : Reason

abbrev pub is_empty : List DriftField → Bool
is_empty [] = true
is_empty (_ ∷ _) = false

-- `fields.filter((field) => expected[field] !== current[field])`
unfoldable pub changed_fields : DriftFingerprint → DriftFingerprint → List DriftField
unfolding agrees_on
changed_fields expected current = filter (λ f. not (agrees_on expected current f)) fields

unfoldable pub compare_drift_fingerprints :
    Tools → DriftFingerprint → DriftFingerprint → Result DriftError DriftComparison
compare_drift_fingerprints tools expected_input current_input = do
  expected ← build_drift_fingerprint tools expected_input
  current ← build_drift_fingerprint tools current_input
  expected_digest ← hash_fingerprint tools expected
  current_digest ← hash_fingerprint tools current
  let changed : List DriftField = changed_fields expected current
  ok (record {
    is_drifted = not (is_empty changed);
    changed_fields = changed;
    expected_digest = expected_digest;
    current_digest = current_digest;
    reason = drift_reason changed;
  })
