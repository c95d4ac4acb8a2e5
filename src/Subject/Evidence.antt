-- ===== src/Subject/Evidence.antt =====
-- Checks that returned have a report from which the evidence can be made.
use g_sentinel.Base.{
  ℕ, String, true, false, not, Option, none, some, ◌==◌, eq_refl, Bool-cases, inl, inr, decimal,
  ◌≡◌, refl, sym, ok, arith,
}
use g_sentinel.Drift.{SubjectKind, eoa, eip7702_delegated_eoa, contract}
use g_sentinel.Subject.Chain.{
  SubjectError, Block, Adapter, Tools, Yields, pure-Yields, then-Yields, throw_if-Yields,
  throw_if_at-false, given_at,
}
use g_sentinel.Subject.Classify.{ClassifiedSubject}
use g_sentinel.Subject.Account.{is_bound, validate_eoa, inspect_eoa}
use g_sentinel.Subject.Contract.{ContractCheckOptions, inspect_contract}
use g_sentinel.Subject.Checks.{
  SubjectCheckReport, eoa_snapshot, contract_analysis, delegated_eoa_analysis, present,
  present_text, base_of, with_proxy, checks_of, inspect_delegated_eoa, run_subject_checks,
  EvidenceSubject, evidence_of, to_evidence_subject, report_block_number, report_block_hash,
}

-- A report at the block of the subject.
abbrev IsAtBlock : ClassifiedSubject → String → String → Type 0
IsAtBlock subject number hash =
    (subject.source_block_number == number ≡ true) × (subject.source_block_hash == hash ≡ true)

bound-IsAtBlock :
    (subject : ClassifiedSubject) (block : Block)
    → not (is_bound subject block) ≡ false
    → IsAtBlock subject (decimal block.number) block.hash
bound-IsAtBlock subject block h = (ground arith, ground arith)

validate_eoa-bound :
    (subject : ClassifiedSubject) (block : Block) (start : ℕ)
    → Yields (validate_eoa subject block start) λ u after. not (is_bound subject block) ≡ false
unfolding validate_eoa
validate_eoa-bound subject block start =
    throw_if-Yields _ _ _
      λ kind. record { holds = λ u after e. (throw_if_at-false _ _ _ u after e).0 }

present-given :
    (o : Option String) (s : String) (e : SubjectError) (moment after : ℕ)
    → given_at (present o) e moment ≡ ok (s, after)
    → present_text o s ≡ true
present-given none s e moment after h = cc
present-given (some t) s e moment after h = elim (Bool-cases (t == "")) [
  | inl empty ↦ let k = rw empty at h in cc
  | inr full ↦ let k = rw full at h in let same : t ≡ s = cc in rw full (rw same (eq_refl s))
]

module _ (adapter : Adapter) where
  inspect_eoa-block :
      (subject : ClassifiedSubject) (input : Block) (start : ℕ)
      → Yields
          (inspect_eoa adapter subject input start)
          λ report after. IsAtBlock subject report.source_block_number report.source_block_hash
  unfolding inspect_eoa
  inspect_eoa-block subject input start = then-Yields _ λ block m1 e1. then-Yields _ λ u m2 valid.
      then-Yields _ λ nonce m3 e3. then-Yields _ λ balance m4 e4. then-Yields _ λ history m5 e5.
        throw_if-Yields _ _ _ λ n. throw_if-Yields _ _ _ λ b. then-Yields _ λ again m6 e6.
          pure-Yields
            (bound-IsAtBlock subject block ((validate_eoa-bound subject block m1).holds u m2 valid))

  module _ (tools : Tools) where
    inspect_contract-block :
        (subject : ClassifiedSubject) (options : ContractCheckOptions) (start : ℕ)
        → Yields (inspect_contract tools adapter subject options start) λ report after.
          IsAtBlock subject report.source_block_number report.source_block_hash
          × (report.runtime_code_hash ≡ subject.runtime_code_hash)
    unfolding inspect_contract
    inspect_contract-block subject options start = throw_if-Yields _ _ _ λ kind.
        then-Yields _ λ block m1 e1. throw_if-Yields _ _ _ λ bound.
          then-Yields _ λ observation m2 e2. then-Yields _ λ metadata m3 e3.
            then-Yields _ λ resolved m4 e4.
              then-Yields _ λ again m5 e5. pure-Yields (bound-IsAtBlock subject block bound, refl)

    inspect_delegated_eoa-block :
        (subject : ClassifiedSubject) (options : ContractCheckOptions) (start : ℕ)
        → Yields (inspect_delegated_eoa tools adapter subject options start) λ report after.
          IsAtBlock subject report.source_block_number report.source_block_hash
          × (present_text subject.delegation_target report.delegation.target ≡ true)
          × (present_text subject.delegation_code_hash report.delegation.code_hash ≡ true)
    unfolding inspect_delegated_eoa
    inspect_delegated_eoa-block subject options start = throw_if-Yields _ _ _ λ kind.
        then-Yields _ λ target m1 e1. then-Yields _ λ code m2 e2. then-Yields _ λ code_hash m3 e3.
          then-Yields _ λ block m4 e4. throw_if-Yields _ _ _ λ bound. then-Yields _ λ answer m5 e5.
            then-Yields _ λ live m6 e6. throw_if-Yields _ _ _ λ drift.
              then-Yields _ λ account m7 e7. then-Yields _ λ analysis m8 e8.
                then-Yields _ λ again m9 e9. pure-Yields (
                  bound-IsAtBlock subject block bound,
                  present-given subject.delegation_target target _ _ _ e1,
                  present-given subject.delegation_code_hash code_hash _ _ _ e3,
                )

abbrev HasEvidence : ClassifiedSubject → SubjectCheckReport → Type 0
HasEvidence subject report = (e : EvidenceSubject) × (to_evidence_subject subject report ≡ ok e)

evidence_of-HasEvidence :
    (subject : ClassifiedSubject) (report : SubjectCheckReport) (e : EvidenceSubject)
    → IsAtBlock subject (report_block_number report) (report_block_hash report)
    → evidence_of subject subject.kind report ≡ ok e
    → HasEvidence subject report
unfolding to_evidence_subject
evidence_of-HasEvidence subject report e (n, b) h = (e, rw (n, b) h)

module _ (tools : Tools) (adapter : Adapter) where
  checks_of-evidence :
      (subject : ClassifiedSubject) (options : ContractCheckOptions) (block : Block)
      (kind : SubjectKind) (start : ℕ)
      → kind ≡ subject.kind
      → Yields
          (checks_of tools adapter subject options block kind start)
          λ report after. HasEvidence subject report
  unfolding evidence_of
  checks_of-evidence subject options block eoa start k = then-Yields _ λ report m e. pure-Yields (
      evidence_of-HasEvidence subject (eoa_snapshot report) (base_of subject)
        ((inspect_eoa-block adapter subject block start).holds report m e) (rw (sym k) refl))
  checks_of-evidence subject options block contract start k = then-Yields _ λ report m e.
      let (at_block, same) =
        (inspect_contract-block adapter tools subject options start).holds report m e in
      pure-Yields (
        evidence_of-HasEvidence subject (contract_analysis report) (with_proxy subject report.proxy)
          at_block (rw (sym k, same, eq_refl subject.runtime_code_hash) refl))
  checks_of-evidence subject options block eip7702_delegated_eoa start k =
      then-Yields _ λ report m e.
        let (at_block, target, code_hash) =
          (inspect_delegated_eoa-block adapter tools subject options start).holds report m e in
        pure-Yields (
          evidence_of-HasEvidence subject (delegated_eoa_analysis report)
            (record (base_of subject) {
              delegation_target = subject.delegation_target;
              delegation_code_hash = subject.delegation_code_hash;
            })
            at_block (rw (sym k, target, code_hash) refl))

  run_subject_checks-evidence :
      (subject : ClassifiedSubject) (options : ContractCheckOptions) (start : ℕ)
      → Yields
          (run_subject_checks tools adapter subject options start)
          λ report after. HasEvidence subject report
  unfolding run_subject_checks
  run_subject_checks-evidence subject options start = then-Yields _ λ block m1 e1.
      then-Yields _ λ report m2 e2. then-Yields _ λ again m3 e3.
        pure-Yields
          ((checks_of-evidence subject options block subject.kind m1 refl).holds report m2 e2)

  -- When the checks of a subject return, the evidence can be made from the subject and their report:
  -- no test of the report against the subject fails.
  pub run_subject_checks-to_evidence_subject :
      (subject : ClassifiedSubject) (options : ContractCheckOptions) (start after : ℕ)
      (report : SubjectCheckReport)
      → run_subject_checks tools adapter subject options start ≡ ok (report, after)
      → (e : EvidenceSubject) × (to_evidence_subject subject report ≡ ok e)
  run_subject_checks-to_evidence_subject subject options start after report h =
      (run_subject_checks-evidence subject options start).holds report after h
