-- ===== src/Recovery/Inspect.antt =====
-- What recovery.ts reads of the chain: `trustedHash`, `inspect`, `eventMatches`, `recordMatches`. The
-- adapter of the chain is what each of its calls answers, and `none` where the call throws.
use g_sentinel.Base.{
  ℕ, String, Bool, false, not, ◌&&◌, ◌||◌, Option, none, some, List, [], ◌∷◌, ◌==◌, ◌+◌, eqb, ltb,
  Result, ok, err, if◌then◌else◌, or_else, lower, same_text, is_hex_i, decimal,
}
use g_sentinel.Journal.Types.{
  submission_attempted, recovery_required, same_phase, OutcomeStatus, not_broadcast,
  submission_outcome_unknown, finalized_readback_unavailable, sealed, reverted, PublicWriteOutcome,
  seal, reseal, ChainWriteRequest, Finality, OperationRecord,
}
use g_sentinel.Journal.Validate.{expected_version}

pub record Transaction : Type 0 where
  pub hash : String
  pub to : String
  pub data' : String
  pub from : String

-- `RegistryLog`
pub record Log : Type 0 where
  pub address : String
  pub topics : List String
  pub data' : String

-- The arguments of a `ProofLocked` event.
pub record LockEvent : Type 0 where
  pub identity_key : String
  pub subject : String
  pub version : ℕ
  pub issued_at : ℕ
  pub valid_until : ℕ
  pub envelope_digest : String
  pub storage_root : String
  pub compute_root : String
  pub artifact_hash : String
  pub runtime_code_hash : String
  pub policy_version : ℕ
  pub behavioral_score : ℕ
  pub code_risk : ℕ
  pub coverage : ℕ

-- `RegistryReceipt`
pub record Receipt : Type 0 where
  pub transaction_hash : String
  pub status : ℕ
  pub block_number : ℕ
  pub block_hash : String
  pub confirmations : ℕ
  pub logs : List Log

-- `RegistryProofLockRecord`
pub record LockRecord : Type 0 where
  pub fields : LockEvent
  pub state : ℕ
  pub state_reason : ℕ

-- The adapter, and of ethers `getAddress`, the encoding of the two calls, and the parsing of a log,
-- which is `none` where it throws or names another event. A look for hashes that the adapter does not
-- offer gives no hash.
pub record Chain : Type 0 where
  pub chain_id : Option ℕ
  pub get_transaction : String → Option (Option Transaction)
  pub wait_for_receipt : String → ℕ → Option (Option Receipt)
  pub find_hashes : ChainWriteRequest → ℕ → Option (List String)
  pub get_proof_lock : String → Option LockRecord
  pub get_address : String → Option String
  pub encode_seal : ChainWriteRequest → Option String
  pub encode_reseal : ChainWriteRequest → Option String
  pub parse_log : Log → Option LockEvent

pub data Inspection : Type 0 where
  not_known was_reverted : Inspection
  was_finalized : Finality → Inspection

-- The hash that an outcome names.
abbrev outcome_hash : OutcomeStatus → Option String
outcome_hash not_broadcast = none
outcome_hash (submission_outcome_unknown h) = h
outcome_hash (finalized_readback_unavailable h k v) = some h
outcome_hash (sealed h k v) = some h
outcome_hash (reverted h) = some h

abbrev terminal_hash : Option PublicWriteOutcome → Option String
terminal_hash none = none
terminal_hash (some outcome) = outcome_hash outcome.status

abbrev lowered : Option String → Option String
lowered none = none
lowered (some hash) = some (lower hash)

-- An empty text is falsy.
abbrev truthy : Option String → Option String
truthy none = none
truthy (some hash) = if hash == "" then none else some hash

abbrev disagree : Option String → Option String → Bool
disagree none known = false
disagree (some supplied) none = false
disagree (some supplied) (some known) = not (lower supplied == known)

abbrev only_one : List String → Option String
only_one [] = none
only_one (hash ∷ []) = some hash
only_one (hash ∷ other ∷ rest) = none

-- The look for the transaction where no hash is known.
search_hash : Chain → ℕ → OperationRecord → Result (Unit {0}) (Option String)
search_hash chain confirmations operation =
    if same_phase operation.phase submission_attempted
      || same_phase operation.phase recovery_required
    then elim operation.chain_input [
      | none ↦ ok none
      | some input ↦ elim (chain.find_hashes input confirmations) [
        | none ↦ err tt
        | some candidates ↦ ok (only_one candidates)
      ]
    ]
    else ok none

unfoldable pub trusted_hash :
    Chain → ℕ → OperationRecord → Option String → Result (Unit {0}) (Option String)
unfolding search_hash
trusted_hash chain confirmations operation supplied =
    let known =
      lowered (or_else operation.transaction_hash (terminal_hash operation.terminal_outcome)) in
    if disagree (truthy supplied) (truthy known)
    then ok none
    else elim (truthy (or_else (lowered supplied) known)) [
      | some selected ↦ ok (some selected)
      | none ↦ search_hash chain confirmations operation
    ]

-- `address`
unfoldable pub address : Chain → String → String
address chain value = elim (chain.get_address value) [
  | none ↦ ""
  | some normalized ↦ lower normalized
]

unfoldable pub encode_write : Chain → ChainWriteRequest → Option String
encode_write chain input = elim input.mode [
  | seal ↦ chain.encode_seal input
  | reseal ↦ chain.encode_reseal input
]

-- The fields that `eventMatches` and `recordMatches` both compare.
unfoldable pub fields_match : ChainWriteRequest → LockEvent → ℕ → Bool
fields_match input event version =
    same_text event.identity_key input.identity_key
    && same_text event.subject input.subject
    && eqb event.version version
    && eqb event.valid_until (event.issued_at + input.valid_for_seconds)
    && same_text event.envelope_digest input.envelope_digest
    && same_text event.storage_root input.storage_root
    && same_text event.compute_root input.compute_root
    && same_text event.artifact_hash input.artifact_hash
    && same_text event.runtime_code_hash input.runtime_code_hash
    && eqb event.policy_version input.policy_version
    && eqb event.behavioral_score input.behavioral_score
    && eqb event.code_risk input.code_risk
    && eqb event.coverage input.coverage

lock_events : Chain → String → List Log → List LockEvent
unfolding address
lock_events chain registry [] = []
lock_events chain registry (log ∷ rest) =
    let others = lock_events chain registry rest in
    if address chain log.address == registry
    then elim (chain.parse_log log) [ none ↦ others | some event ↦ event ∷ others ]
    else others

only_event_matches : ChainWriteRequest → ℕ → List LockEvent → Bool
only_event_matches input version [] = false
only_event_matches input version (event ∷ []) = fields_match input event version
only_event_matches input version (event ∷ other ∷ rest) = false

-- `eventMatches`
unfoldable pub event_matches : Chain → Receipt → ChainWriteRequest → ℕ → Bool
unfolding lock_events only_event_matches
event_matches chain receipt input version =
    only_event_matches input version (lock_events chain input.registry_address receipt.logs)

-- `recordMatches`, on what `getProofLock` answers
unfoldable pub record_matches : Chain → ChainWriteRequest → ℕ → Bool
record_matches chain input version = elim (chain.get_proof_lock input.identity_key) [
  | none ↦ false
  | some lock ↦
      fields_match input lock.fields version && eqb lock.state 1 && eqb lock.state_reason 0
]

transaction_fits : Chain → ChainWriteRequest → String → Transaction → Bool
unfolding address encode_write
transaction_fits chain input hash transaction = elim (encode_write chain input) [
  | none ↦ false
  | some encoded ↦
      lower transaction.hash == hash
      && address chain transaction.to == input.registry_address
      && address chain transaction.from == input.scanner
      && transaction.data' == encoded
]

-- The judgement of a receipt.
judge_receipt : Chain → ℕ → ChainWriteRequest → String → Receipt → Inspection
judge_receipt chain confirmations input hash receipt =
    if not (lower receipt.transaction_hash == hash) || ltb receipt.confirmations confirmations
    then not_known
    else (if eqb receipt.status 0 then was_reverted else elim (expected_version input) [
      | none ↦ not_known
      | some version ↦
          if eqb receipt.status 1
            && event_matches chain receipt input version
            && is_hex_i 64 receipt.block_hash
          then was_finalized (record {
            transaction_hash = hash;
            block_hash = lower receipt.block_hash;
            block_number = decimal receipt.block_number;
            confirmations = receipt.confirmations;
          })
          else not_known
    ])

-- `inspect`; what throws in it is unknown
unfoldable pub inspect : Chain → ℕ → ChainWriteRequest → String → Inspection
unfolding transaction_fits judge_receipt
inspect chain confirmations input hash = elim chain.chain_id [
  | none ↦ not_known
  | some n ↦
      if eqb n 16661
      then elim (chain.get_transaction hash) [
        | none ↦ not_known
        | some none ↦ not_known
        | some (some transaction) ↦
            if transaction_fits chain input hash transaction
            then elim (chain.wait_for_receipt hash confirmations) [
              | none ↦ not_known
              | some none ↦ not_known
              | some (some receipt) ↦ judge_receipt chain confirmations input hash receipt
            ]
            else not_known
      ]
      else not_known
]
