-- ===== src/Subject/Account.antt =====
-- checks/eoa.ts: the snapshot of an externally owned account.
use g_sentinel.Base.{
  ℕ, String, Bool, false, not, ◌||◌, ◌&&◌, Option, none, some, List, [], ◌∷◌, ◌==◌, ltb, leb,
  if◌then◌else◌, decimal,
}
use g_sentinel.Drift.{is_eoa}
use g_sentinel.Subject.Chain.{
  wrong_kind, block_mismatch, out_of_range, Block, AccountHistory, Adapter, Chain, ◌>>=◌, ◌>>◌,
  pure, throw_if, ask,
}
use g_sentinel.Subject.Classify.{ClassifiedSubject, assert_expected_source_block}

pub data UnknownHistory : Type 0 where
  history_source_unavailable history_incomplete history_query_failed : UnknownHistory

pub data EoaHistory : Type 0 where
  available : ℕ → EoaHistory
  unknown : UnknownHistory → EoaHistory

pub data EoaFinding : Type 0 where
  no_history_observed : EoaFinding
  of_unknown : UnknownHistory → EoaFinding

-- `EoaCheckReport`; the status is PASS and the assessment OBSERVED when `is_observed` is true.
pub record EoaCheckReport : Type 0 where
  pub is_observed : Bool
  pub source_block_number : String
  pub source_block_hash : String
  pub nonce : ℕ
  pub balance_wei : ℕ
  pub history : EoaHistory
  pub findings : List EoaFinding

-- The test that the subject was classified at this block.
abbrev pub is_bound : ClassifiedSubject → Block → Bool
is_bound subject source_block =
    subject.source_block_number == decimal source_block.number
    && subject.source_block_hash == source_block.hash

-- `validateEoa`
unfoldable pub validate_eoa : ClassifiedSubject → Block → Chain (Unit {0})
validate_eoa subject source_block = do
  throw_if (not (is_eoa subject.kind)) wrong_kind
  throw_if (not (is_bound subject source_block)) block_mismatch

-- What a history says, where the query did not throw.
abbrev history_of : Option AccountHistory → EoaHistory
history_of none = unknown history_query_failed
history_of (some history) =
    if not history.is_complete || not (leb history.observed_transactions 9007199254740991)
    then unknown history_incomplete
    else available history.observed_transactions

-- `loadHistory`
unfoldable pub load_history :
    Option (ℕ → String → ℕ → Option AccountHistory) → String → ℕ → Chain EoaHistory
load_history none address block_tag = pure (unknown history_source_unavailable)
load_history (some get_history) address block_tag =
    ask (λ moment. some (history_of (get_history moment address block_tag)))

abbrev is_observed_history : EoaHistory → Bool
is_observed_history (available n) = ltb 0 n
is_observed_history (unknown reason) = false

abbrev findings_of : EoaHistory → List EoaFinding
findings_of (available n) = if ltb 0 n then [] else no_history_observed ∷ []
findings_of (unknown reason) = of_unknown reason ∷ []

-- `inspectEoa`
unfoldable pub inspect_eoa : Adapter → ClassifiedSubject → Block → Chain EoaCheckReport
inspect_eoa adapter subject source_block_input = do
  source_block ← assert_expected_source_block adapter source_block_input
  validate_eoa subject source_block
  nonce ← ask (λ moment. adapter.get_transaction_count moment subject.address source_block.number)
  balance ← ask (λ moment. adapter.get_balance moment subject.address source_block.number)
  history ← load_history adapter.get_history subject.address source_block.number
  throw_if (ltb 18446744073709551615 nonce) out_of_range
  throw_if
      (ltb 115792089237316195423570985008687907853269984665640564039457584007913129639935 balance)
      out_of_range
  again ← assert_expected_source_block adapter source_block
  pure (record {
    is_observed = is_observed_history history;
    source_block_number = decimal source_block.number;
    source_block_hash = source_block.hash;
    nonce = nonce;
    balance_wei = balance;
    history = history;
    findings = findings_of history;
  })
