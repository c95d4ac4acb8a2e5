-- ===== src/Subject/Shape.antt =====
-- The evidence of a classified subject is a subject that drift detection accepts.
use g_sentinel.Base.{
  ℕ, String, Bool, true, false, Option, none, some, ◌==◌, eq_iff, ◌≡◌, ◌≢◌, refl, sym, subst, ◌∙◌,
  Result, ok, err, if◌then◌else◌, Bool-cases, inl, inr,
}
use g_sentinel.Drift.{
  SubjectKind, eoa, eip7702_delegated_eoa, contract, zero_bytes32, DriftFingerprint, validate_shape,
}
use g_sentinel.Subject.Chain.{SubjectError, Block, Adapter, Tools}
use g_sentinel.Subject.Classify.{ClassifiedSubject, classify_subject}
use g_sentinel.Subject.Proxy.{Proxy}
use g_sentinel.Subject.Checks.{
  SubjectCheckReport, eoa_snapshot, contract_analysis, delegated_eoa_analysis, EvidenceSubject,
  base_of, with_proxy, evidence_of, to_evidence_subject,
}
use g_sentinel.Subject.Kinds.{HasShape, classify_subject-WasClassified}

-- A fingerprint with the subject of the evidence.
abbrev pub with_subject : DriftFingerprint → EvidenceSubject → DriftFingerprint
with_subject f e = record f {
  subject_kind = e.kind;
  runtime_code_hash = e.runtime_code_hash;
  delegation_target = e.delegation_target;
  delegation_code_hash = e.delegation_code_hash;
  proxy_implementation = e.proxy_implementation;
  proxy_implementation_code_hash = e.proxy_implementation_code_hash;
}

module _ (tools : Tools) (keccak_nonzero : (code : String) → tools.keccak code ≢ zero_bytes32)
    (f : DriftFingerprint) where
  hash_is_not_zero : (h code : String) → h ≡ tools.keccak code → h == zero_bytes32 ≡ false
  hash_is_not_zero h code e = elim (Bool-cases (h == zero_bytes32)) [
    | inl same ↦
        let k = (eq_iff h zero_bytes32).0 same in elim (keccak_nonzero code (sym e ∙ k)) [ ]
    | inr other ↦ other
  ]

  with_proxy-shape :
      (s : ClassifiedSubject) (p : Option Proxy)
      → s.kind ≡ contract
      → s.runtime_code_hash == zero_bytes32 ≡ false
      → validate_shape (with_subject f (with_proxy s p)) ≡ ok tt
  unfolding validate_shape
  with_proxy-shape s none k h = rw (k, h) refl
  with_proxy-shape s (some p) k h = rw (k, h) refl

  base_of-shape :
      (s : ClassifiedSubject)
      → s.kind ≡ eoa
      → s.runtime_code_hash ≡ zero_bytes32
      → validate_shape (with_subject f (base_of s)) ≡ ok tt
  unfolding validate_shape
  base_of-shape s k h = let z = (eq_iff s.runtime_code_hash zero_bytes32).1 h in rw (k, z) refl

  abbrev with_delegation : ClassifiedSubject → EvidenceSubject
  with_delegation s = record (base_of s) {
    delegation_target = s.delegation_target;
    delegation_code_hash = s.delegation_code_hash;
  }

  with_delegation-shape :
      (s : ClassifiedSubject) (target hash : String)
      → s.kind ≡ eip7702_delegated_eoa
      → s.runtime_code_hash == zero_bytes32 ≡ false
      → s.delegation_target ≡ some target
      → s.delegation_code_hash ≡ some hash
      → validate_shape (with_subject f (with_delegation s)) ≡ ok tt
  unfolding validate_shape
  with_delegation-shape s target hash k h t d = rw (k, h, t, d) refl

  of_same :
      (e : EvidenceSubject) (r : Result SubjectError EvidenceSubject) (d : EvidenceSubject)
      → r ≡ ok e
      → r ≡ ok d
      → validate_shape (with_subject f d) ≡ ok tt
      → validate_shape (with_subject f e) ≡ ok tt
  of_same e r d he hd v =
      let same : d ≡ e = cc in subst (λ q. validate_shape (with_subject f q) ≡ ok tt) same v

  accepted :
      (b : Bool) (d e : EvidenceSubject)
      → (if b then err SubjectError.report_mismatch else ok d) ≡ ok e
      → validate_shape (with_subject f d) ≡ ok tt
      → validate_shape (with_subject f e) ≡ ok tt
  accepted true d e h v = cc
  accepted false d e h v = of_same e (ok d) d h refl v

  past_the_test :
      (b : Bool) (r : Result SubjectError EvidenceSubject) (e : EvidenceSubject)
      → (if b then err SubjectError.report_mismatch else r) ≡ ok e
      → r ≡ ok e
  past_the_test true r e h = cc
  past_the_test false r e h = h

  evidence_of-shape :
      (s : ClassifiedSubject) (kind : SubjectKind) (report : SubjectCheckReport)
      (e : EvidenceSubject)
      → s.kind ≡ kind
      → HasShape tools s kind
      → evidence_of s kind report ≡ ok e
      → validate_shape (with_subject f e) ≡ ok tt
  unfolding evidence_of
  evidence_of-shape s eoa (eoa_snapshot r) e k shape h =
      of_same e (ok (base_of s)) (base_of s) h refl (base_of-shape s k shape.1)
  evidence_of-shape s contract (contract_analysis r) e k shape h =
      accepted _ (with_proxy s r.proxy) e h
        (with_proxy-shape s r.proxy k (hash_is_not_zero s.runtime_code_hash s.runtime_code shape.1))
  evidence_of-shape s eip7702_delegated_eoa (delegated_eoa_analysis r) e k shape h =
      let (_, hash, (target, code, t, d, _, _, _)) = shape in
      accepted _ (with_delegation s) e h (
        with_delegation-shape s target (tools.keccak code) k
          (hash_is_not_zero s.runtime_code_hash s.runtime_code hash) t d)
  evidence_of-shape s kind report e k shape h = cc

  -- If no code hashes to zero, the evidence that is made of a classified subject and a report gives a
  -- drift fingerprint of a shape that drift detection accepts.
  pub to_evidence_subject-shape :
      (adapter : Adapter) (address : String) (input : Block) (start after : ℕ)
      (s : ClassifiedSubject) (report : SubjectCheckReport) (e : EvidenceSubject)
      → classify_subject tools adapter address input start ≡ ok (s, after)
      → to_evidence_subject s report ≡ ok e
      → validate_shape (with_subject f e) ≡ ok tt
  unfolding to_evidence_subject
  to_evidence_subject-shape adapter address input start after s report e c h =
      let (_, _, _, _, _, _, _, (_, _, _, _, shape, _)) =
        classify_subject-WasClassified tools adapter address input start after s c in
      evidence_of-shape s s.kind report e refl shape (past_the_test _ _ e h)
