-- ===== src/Subject/Checks.antt =====
-- checks/delegated-eoa.ts and checks/index.ts: the checks of a subject of any kind, and the subject
-- that the evidence names.
use g_sentinel.Base.{
  String, Bool, false, not, ◌||◌, ◌&&◌, Option, none, some, ◌==◌, decimal, if◌then◌else◌, Result,
  ok, err,
}
use g_sentinel.Drift.{SubjectKind, eoa, eip7702_delegated_eoa, contract, is_delegated}
use g_sentinel.Subject.Chain.{
  SubjectError, wrong_kind, block_mismatch, code_drift, report_mismatch, Block, Adapter, Tools,
  Chain, ◌>>=◌, ◌>>◌, pure, throw_if, given, ask,
}
use g_sentinel.Subject.Classify.{
  ClassifiedSubject, normalize_runtime_code, assert_expected_source_block,
}
use g_sentinel.Subject.Account.{EoaCheckReport, is_bound, inspect_eoa}
use g_sentinel.Subject.Proxy.{Proxy}
use g_sentinel.Subject.Contract.{ContractCheckOptions, ContractCheckReport, inspect_contract}

pub record Delegation : Type 0 where
  pub target : String
  pub code_hash : String

-- `DelegatedEoaCheckReport`; drift monitoring is always required, and the one possible finding, by
-- which the status is WARN, is ACCOUNT_HISTORY_CAUTION.
pub record DelegatedEoaCheckReport : Type 0 where
  pub has_caution : Bool
  pub source_block_number : String
  pub source_block_hash : String
  pub account : EoaCheckReport
  pub delegation : Delegation
  pub target_analysis : ContractCheckReport

-- `SubjectCheckReport`
pub data SubjectCheckReport : Type 0 where
  eoa_snapshot : EoaCheckReport → SubjectCheckReport
  contract_analysis : ContractCheckReport → SubjectCheckReport
  delegated_eoa_analysis : DelegatedEoaCheckReport → SubjectCheckReport

-- A text that is there and, as the source tests it, not empty.
abbrev pub present : Option String → Option String
present none = none
present (some s) = if s == "" then none else some s

module _ (tools : Tools) (adapter : Adapter) where
  -- `inspectDelegatedEoa`
  unfoldable pub inspect_delegated_eoa :
      ClassifiedSubject → ContractCheckOptions → Chain DelegatedEoaCheckReport
  inspect_delegated_eoa subject options = do
    throw_if (not (is_delegated subject.kind)) wrong_kind
    target ← given (present subject.delegation_target) wrong_kind
    sealed_code ← given (present subject.delegation_code) wrong_kind
    code_hash ← given (present subject.delegation_code_hash) wrong_kind
    source_block ← assert_expected_source_block adapter options.source_block
    throw_if (not (is_bound subject source_block)) block_mismatch
    answer ← ask (λ moment. adapter.get_code moment target source_block.number)
    live_code ← normalize_runtime_code tools answer
    throw_if (live_code == "0x" || not (tools.keccak live_code == code_hash)) code_drift
    account ← inspect_eoa adapter (record subject { kind = eoa }) source_block
    target_analysis ←
        inspect_contract tools adapter
          (record {
            address = target;
            kind = contract;
            source_block_number = subject.source_block_number;
            source_block_hash = subject.source_block_hash;
            runtime_code = sealed_code;
            runtime_code_hash = code_hash;
            delegation_target = none;
            delegation_code = none;
            delegation_code_hash = none;
          })
          options
    again ← assert_expected_source_block adapter source_block
    pure (record {
      has_caution = not account.is_observed;
      source_block_number = decimal source_block.number;
      source_block_hash = source_block.hash;
      account = account;
      delegation = record { target = target; code_hash = code_hash };
      target_analysis = target_analysis;
    })

  abbrev pub checks_of :
      ClassifiedSubject → ContractCheckOptions → Block → SubjectKind → Chain SubjectCheckReport
  checks_of subject options source_block eoa = do
    report ← inspect_eoa adapter subject source_block
    pure (eoa_snapshot report)
  checks_of subject options source_block contract = do
    report ← inspect_contract tools adapter subject options
    pure (contract_analysis report)
  checks_of subject options source_block eip7702_delegated_eoa = do
    report ← inspect_delegated_eoa subject options
    pure (delegated_eoa_analysis report)

  -- `runSubjectChecks`
  unfoldable pub run_subject_checks :
      ClassifiedSubject → ContractCheckOptions → Chain SubjectCheckReport
  run_subject_checks subject options = do
    source_block ← assert_expected_source_block adapter options.source_block
    report ← checks_of subject options source_block subject.kind
    again ← assert_expected_source_block adapter source_block
    pure report

-- `EvidenceEnvelopeV1["subject"]`
pub record EvidenceSubject : Type 0 where
  pub address : String
  pub kind : SubjectKind
  pub runtime_code_hash : String
  pub delegation_target : Option String
  pub delegation_code_hash : Option String
  pub proxy_implementation : Option String
  pub proxy_implementation_code_hash : Option String

abbrev pub base_of : ClassifiedSubject → EvidenceSubject
base_of subject = record {
  address = subject.address;
  kind = subject.kind;
  runtime_code_hash = subject.runtime_code_hash;
  delegation_target = none;
  delegation_code_hash = none;
  proxy_implementation = none;
  proxy_implementation_code_hash = none;
}

abbrev pub report_block_number : SubjectCheckReport → String
report_block_number (eoa_snapshot report) = report.source_block_number
report_block_number (contract_analysis report) = report.source_block_number
report_block_number (delegated_eoa_analysis report) = report.source_block_number

abbrev pub report_block_hash : SubjectCheckReport → String
report_block_hash (eoa_snapshot report) = report.source_block_hash
report_block_hash (contract_analysis report) = report.source_block_hash
report_block_hash (delegated_eoa_analysis report) = report.source_block_hash

abbrev pub present_text : Option String → String → Bool
present_text none t = false
present_text (some s) t = not (s == "") && t == s

abbrev pub with_proxy : ClassifiedSubject → Option Proxy → EvidenceSubject
with_proxy subject none = base_of subject
with_proxy subject (some proxy) = record (base_of subject) {
  proxy_implementation = some proxy.implementation_address;
  proxy_implementation_code_hash = some proxy.implementation_code_hash;
}

-- The evidence for a subject, by its kind and the kind of the report, which have to agree.
unfoldable pub evidence_of :
    ClassifiedSubject → SubjectKind → SubjectCheckReport → Result SubjectError EvidenceSubject
evidence_of subject eoa (eoa_snapshot report) = ok (base_of subject)
evidence_of subject contract (contract_analysis report) =
    if not (report.runtime_code_hash == subject.runtime_code_hash)
    then err report_mismatch
    else ok (with_proxy subject report.proxy)
evidence_of subject eip7702_delegated_eoa (delegated_eoa_analysis report) =
    if not (present_text subject.delegation_target report.delegation.target)
      || not (present_text subject.delegation_code_hash report.delegation.code_hash)
    then err report_mismatch
    else ok (record (base_of subject) {
      delegation_target = subject.delegation_target;
      delegation_code_hash = subject.delegation_code_hash;
    })
evidence_of subject kind report = err report_mismatch

-- `toEvidenceSubject`, with `assertReportBinding`
unfoldable pub to_evidence_subject :
    ClassifiedSubject → SubjectCheckReport → Result SubjectError EvidenceSubject
to_evidence_subject subject report =
    if not (subject.source_block_number == report_block_number report)
      || not (subject.source_block_hash == report_block_hash report)
    then err report_mismatch
    else evidence_of subject subject.kind report
