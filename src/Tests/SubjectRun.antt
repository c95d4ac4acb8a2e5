-- ===== src/Tests/SubjectRun.antt =====
-- A delegated account, classified and checked at one block.
use g_sentinel.Base.{
  String, ℕ, ◌≡◌, ◌≢◌, refl, ok, err, some, none, true, false, Result, Option, eq_iff, ◌==◌, [],
  List,
}
use g_sentinel.Drift.{eip7702_delegated_eoa, DriftFingerprint, eoa, zero_bytes32, validate_shape}
use g_sentinel.Subject.Chain.{Block, AccountHistory, Adapter, Tools}
use g_sentinel.Subject.Classify.{ClassifiedSubject, classify_subject}
use g_sentinel.Subject.Account.{EoaCheckReport, available}
use g_sentinel.Subject.Contract.{ContractCheckOptions, ContractCheckReport}
use g_sentinel.Subject.Checks.{
  SubjectCheckReport, delegated_eoa_analysis, run_subject_checks, EvidenceSubject,
  to_evidence_subject,
}
use g_sentinel.Subject.Evidence.{run_subject_checks-to_evidence_subject}
use g_sentinel.Subject.Kinds.{WasClassified, classify_subject-WasClassified}
use g_sentinel.Subject.Shape.{with_subject, to_evidence_subject-shape}

abbrev account : String
account = "0x1111111111111111111111111111111111111111"

abbrev target : String
target = "0x2222222222222222222222222222222222222222"

abbrev hash : String
hash = "0xcccccccccccccccccccccccccccccccccccccccccccccccccccccccccccccccc"

abbrev tools : Tools
tools = record {
  get_address = λ a. some a;
  keccak = λ code. hash;
  is_hex_string = λ s. true;
  byte_length = λ s. 0;
}

abbrev zero_word : String
zero_word = "0x0000000000000000000000000000000000000000000000000000000000000000"

abbrev block : Block
block = record {
  number = 900;
  hash = "0xbbbbbbbbbbbbbbbbbbbbbbbbbbbbbbbbbbbbbbbbbbbbbbbbbbbbbbbbbbbbbbbb";
}

abbrev runtime_code : String
runtime_code = "0xef01002222222222222222222222222222222222222222"

abbrev code_of : String → String
code_of address = elim (address == account) [ true ↦ runtime_code | false ↦ "0x6001" ]

abbrev adapter : Adapter
adapter = record {
  get_block = λ moment number. some (some block);
  get_code = λ moment address number. some (code_of address);
  get_storage = λ moment address slot number. some zero_word;
  call = λ moment address input number. none;
  get_transaction_count = λ moment address number. some 4;
  get_balance = λ moment address number. some 10;
  get_history =
      some
        (λ moment address number. some (record { is_complete = true; observed_transactions = 4 }));
}

abbrev subject : ClassifiedSubject
subject = record {
  address = account;
  kind = eip7702_delegated_eoa;
  source_block_number = "900";
  source_block_hash = block.hash;
  runtime_code = runtime_code;
  runtime_code_hash = hash;
  delegation_target = some target;
  delegation_code = some "0x6001";
  delegation_code_hash = some hash;
}

classified : classify_subject tools adapter account block 0 ≡ ok (subject, 4)
unfolding classify_subject g_sentinel.Subject.Chain.then_at
    g_sentinel.Subject.Classify.assert_expected_source_block
    g_sentinel.Subject.Classify.validate_expected_source_block g_sentinel.Subject.Chain.throw_if_at
    g_sentinel.Subject.Classify.normalize_block_hash g_sentinel.Base.is_hex g_sentinel.Base.lower
    g_sentinel.Subject.Classify.normalize_runtime_code g_sentinel.Base.text_length
    g_sentinel.Subject.Classify.delegation_target_of g_sentinel.Subject.Classify.is_lower_hex40
    g_sentinel.Subject.Classify.classify_code g_sentinel.Subject.Classify.classify_delegated
    g_sentinel.Subject.Classify.confirm_subject g_sentinel.Base.decimal
classified = refl

classify_subject-WasClassified_example : WasClassified tools adapter account block 0 subject 4
classify_subject-WasClassified_example =
    classify_subject-WasClassified tools adapter account block 0 4 subject classified

abbrev options : ContractCheckOptions
options = record { source_block = block; source_resolver = none; proxy_metadata_resolver = none }

abbrev report : SubjectCheckReport
report = delegated_eoa_analysis (record {
  has_caution = false;
  source_block_number = "900";
  source_block_hash = block.hash;
  account = record {
    is_observed = true;
    source_block_number = "900";
    source_block_hash = block.hash;
    nonce = 4;
    balance_wei = 10;
    history = available 4;
    findings = [];
  };
  delegation = record { target = target; code_hash = hash };
  target_analysis = record {
    source_block_number = "900";
    source_block_hash = block.hash;
    runtime_code_hash = hash;
    proxy_candidate = none;
    proxy = none;
    bound_proxy_metadata = none;
    resolved_source = none;
  };
})

checked : run_subject_checks tools adapter subject options 4 ≡ ok (report, 18)
unfolding run_subject_checks g_sentinel.Subject.Chain.then_at
    g_sentinel.Subject.Classify.assert_expected_source_block
    g_sentinel.Subject.Classify.validate_expected_source_block g_sentinel.Subject.Chain.throw_if_at
    g_sentinel.Subject.Classify.normalize_block_hash g_sentinel.Base.is_hex g_sentinel.Base.lower
    g_sentinel.Base.decimal g_sentinel.Base.ascii g_sentinel.Base.is_digit
    g_sentinel.Base.text_length g_sentinel.Subject.Checks.inspect_delegated_eoa
    g_sentinel.Subject.Classify.normalize_runtime_code g_sentinel.Subject.Account.inspect_eoa
    g_sentinel.Subject.Account.validate_eoa g_sentinel.Subject.Account.load_history
    g_sentinel.Subject.Contract.inspect_contract g_sentinel.Subject.Contract.detect_proxy
    g_sentinel.Subject.Classify.is_lower_hex40 g_sentinel.Subject.Proxy.address_from_word
    g_sentinel.Subject.Proxy.beacon_at g_sentinel.Subject.Proxy.beacon_proxy
    g_sentinel.Subject.Proxy.implementation_of g_sentinel.Subject.Proxy.implementation_proxy
    g_sentinel.Subject.Proxy.minimal_proxy_target g_sentinel.Subject.Proxy.live_code_hash
checked = refl

run_subject_checks-to_evidence_subject_example :
    (e : EvidenceSubject) × (to_evidence_subject subject report ≡ ok e)
run_subject_checks-to_evidence_subject_example =
    run_subject_checks-to_evidence_subject tools adapter subject options 4 18 report checked

abbrev evidence : EvidenceSubject
evidence = record {
  address = account;
  kind = eip7702_delegated_eoa;
  runtime_code_hash = hash;
  delegation_target = some target;
  delegation_code_hash = some hash;
  proxy_implementation = none;
  proxy_implementation_code_hash = none;
}

evidence_made : to_evidence_subject subject report ≡ ok evidence
unfolding to_evidence_subject g_sentinel.Subject.Checks.evidence_of
evidence_made = refl

hash_is_not_zero : (code : String) → hash ≢ zero_bytes32
hash_is_not_zero code e = let k = (eq_iff hash zero_bytes32).1 e in cc

abbrev fingerprint : DriftFingerprint
fingerprint = record {
  owner = account;
  agent_wallet = account;
  registration_digest = hash;
  subject_kind = eoa;
  runtime_code_hash = hash;
  delegation_target = none;
  delegation_code_hash = none;
  proxy_implementation = none;
  proxy_implementation_code_hash = none;
  policy_version = 2;
}

to_evidence_subject-shape_example : validate_shape (with_subject fingerprint evidence) ≡ ok tt
to_evidence_subject-shape_example =
    to_evidence_subject-shape tools hash_is_not_zero fingerprint adapter account block 0 4 subject
      report evidence classified evidence_made
