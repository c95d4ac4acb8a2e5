-- ===== src/Subject/Kinds.antt =====
-- What the classification of a subject found.
use g_sentinel.Base.{
  ℕ, String, false, Option, none, some, ◌==◌, eq_iff, decimal, ◌≡◌, ◌≢◌, refl, sym, ap, ◌∙◌, ok,
  arith, lower, ◌+◌, subst,
}
use g_sentinel.Drift.{SubjectKind, eoa, eip7702_delegated_eoa, contract, zero_bytes32}
use g_sentinel.Subject.Chain.{
  Block, Adapter, Tools, Yields, pure-Yields, then-Yields, throw_if-Yields, if-Yields,
  given_at-some,
}
use g_sentinel.Subject.Delegation.{DelegatesTo, delegation_target_of-DelegatesTo}
use g_sentinel.Subject.Classify.{
  ClassifiedSubject, normalize_runtime_code, confirm_subject, classify_delegated,
  classify_executable, classify_code, classify_subject, zero_address,
}
use g_sentinel.Subject.Blocks.{HasBlock, assert_expected_source_block-HasBlock}

module _ (tools : Tools) where
  -- The codes and hashes of a subject of this kind.
  abbrev pub HasShape : ClassifiedSubject → SubjectKind → Type 0
  HasShape s eoa =
      (s.runtime_code ≡ "0x")
      × (s.runtime_code_hash ≡ zero_bytes32)
      × (s.delegation_target ≡ none)
      × (s.delegation_code_hash ≡ none)
  HasShape s contract =
      (s.runtime_code ≢ "0x")
      × (s.runtime_code_hash ≡ tools.keccak s.runtime_code)
      × (s.delegation_target ≡ none)
      × (s.delegation_code_hash ≡ none)
  HasShape s eip7702_delegated_eoa =
      (s.runtime_code ≢ "0x")
      × (s.runtime_code_hash ≡ tools.keccak s.runtime_code)
      × ((target : String) × (code : String) × (s.delegation_target ≡ some target)
          × (s.delegation_code_hash ≡ some (tools.keccak code))
          × (target ≢ s.address)
          × (lower target ≢ zero_address)
          × (code ≢ "0x"))

  -- The delegation of a subject is what its own code says, and the code of the target is what the
  -- chain answered for it at the moment before the block was seen again.
  abbrev pub HasDelegation : Adapter → ℕ → ClassifiedSubject → ℕ → SubjectKind → Type 0
  HasDelegation adapter number s last eoa = s.delegation_code ≡ none
  HasDelegation adapter number s last contract =
      (s.delegation_code ≡ none) × DelegatesTo tools s.runtime_code none
  HasDelegation adapter number s last eip7702_delegated_eoa =
      (target : String) × (raw : String) × (moment : ℕ) × (s.delegation_target ≡ some target)
      × DelegatesTo tools s.runtime_code (some target)
      × (last ≡ moment + 1)
      × (adapter.get_code moment target number ≡ some raw)
      × (s.delegation_code ≡ some (lower raw))
      × (s.delegation_code_hash ≡ some (tools.keccak (lower raw)))

  -- What is known of a subject that was classified at a block.
  abbrev pub IsClassified : Adapter → String → Block → String → ClassifiedSubject → ℕ → Type 0
  IsClassified adapter address block code s after =
      (s.address ≡ address)
      × (s.runtime_code ≡ code)
      × (s.source_block_number ≡ decimal block.number)
      × (s.source_block_hash ≡ block.hash)
      × HasShape s s.kind
      × ((last : ℕ) × (after ≡ last + 1)
          × HasBlock adapter last (record block { hash = lower block.hash })
          × HasDelegation adapter block.number s last s.kind)

  normalize_runtime_code-lower :
      (value : String) (start : ℕ)
      → Yields
          (normalize_runtime_code tools value start)
          λ code after. (code ≡ lower value) × (start ≡ after)
  unfolding normalize_runtime_code
  normalize_runtime_code-lower value start = throw_if-Yields _ _ _ λ h. pure-Yields (refl, refl)

  module _ (adapter : Adapter) (address : String) (block : Block) where
    confirm_subject-last :
        (s : ClassifiedSubject) (start : ℕ)
        → Yields (confirm_subject tools adapter address block s start) λ t after.
          (s ≡ t)
          × (after ≡ start + 1)
          × HasBlock adapter start (record block { hash = lower block.hash })
    unfolding confirm_subject
    confirm_subject-last s start = then-Yields _ λ again m e.
        let (seen, next, same) =
          (assert_expected_source_block-HasBlock adapter block start).holds again m e in
        pure-Yields (refl, next, subst (λ b. HasBlock adapter start b) same seen)

    -- A subject of the right shape is classified once the block was seen again.
    confirmed-IsClassified :
        (s : ClassifiedSubject) (code : String) (start : ℕ)
        → s.address ≡ address
        → s.runtime_code ≡ code
        → s.source_block_number ≡ decimal block.number
        → s.source_block_hash ≡ block.hash
        → HasShape s s.kind
        → HasDelegation adapter block.number s start s.kind
        → Yields
            (confirm_subject tools adapter address block s start)
            (IsClassified adapter address block code)
    confirmed-IsClassified s code start a c n h shape delegation = record {
      holds = λ t after e.
          let (same, next, seen) = (confirm_subject-last s start).holds t after e in
          subst (λ q. IsClassified adapter address block code q after) same
            (a, c, n, h, shape, (start, next, seen, delegation));
    }

    not_same : (a b : String) → a == b ≡ false → a ≢ b
    not_same a b h e = let k = (eq_iff a b).1 e in cc

    classify_delegated-IsClassified :
        (runtime_code target : String) (start : ℕ)
        → runtime_code ≢ "0x"
        → DelegatesTo tools runtime_code (some target)
        → Yields
            (classify_delegated tools adapter address block runtime_code target start)
            (IsClassified adapter address block runtime_code)
    unfolding classify_delegated
    classify_delegated-IsClassified runtime_code target start n d = throw_if-Yields _ _ _ λ valid.
        then-Yields _ λ raw m1 e1. then-Yields _ λ code m2 e2. throw_if-Yields _ _ _ λ live.
          let (answered, t1) = given_at-some _ _ _ _ _ e1 in
          let (lowered, t2) = (normalize_runtime_code-lower raw m1).holds code m2 e2 in
          confirmed-IsClassified _ runtime_code m2 refl refl refl refl
            (
              n,
              refl,
              (
                target,
                code,
                refl,
                refl,
                not_same target address (ground arith),
                not_same (lower target) zero_address (ground arith),
                not_same code "0x" live,
              ),
            )
            (
              target,
              raw,
              start,
              refl,
              d,
              sym t2 ∙ sym t1,
              answered,
              ap some lowered,
              ap (λ c. some (tools.keccak c)) lowered,
            )

    classify_executable-IsClassified :
        (runtime_code : String) (target : Option String) (start : ℕ)
        → runtime_code ≢ "0x"
        → DelegatesTo tools runtime_code target
        → Yields
            (classify_executable tools adapter address block runtime_code target start)
            (IsClassified adapter address block runtime_code)
    classify_executable-IsClassified runtime_code none start n d =
        confirmed-IsClassified _ runtime_code start refl refl refl refl (n, refl, refl, refl)
          (refl, d)
    classify_executable-IsClassified runtime_code (some target) start n d =
        classify_delegated-IsClassified runtime_code target start n d

    classify_code-IsClassified :
        (runtime_code : String) (target : Option String) (start : ℕ)
        → DelegatesTo tools runtime_code target
        → Yields
            (classify_code tools adapter address block runtime_code target start)
            (IsClassified adapter address block runtime_code)
    unfolding classify_code
    classify_code-IsClassified runtime_code target start d =
        if-Yields (runtime_code == "0x") _ _
          (λ e.
            confirmed-IsClassified _ runtime_code start refl refl refl refl
              ((eq_iff runtime_code "0x").0 e, refl, refl, refl) refl)
          (λ n.
            classify_executable-IsClassified runtime_code target start
              (not_same runtime_code "0x" n) d)

  abbrev pub WasClassified : Adapter → String → Block → ℕ → ClassifiedSubject → ℕ → Type 0
  WasClassified adapter address input start s after =
      (code : String) × (normalized : String) × (block : Block) × (block
        ≡ record input { hash = lower input.hash })
      × (tools.get_address address ≡ some normalized)
      × (adapter.get_code (start + 1) normalized block.number ≡ some code)
      × HasBlock adapter start block
      × IsClassified adapter normalized block (lower code) s after

  classify_subject-yields :
      (adapter : Adapter) (address : String) (input : Block) (start : ℕ)
      → Yields
          (classify_subject tools adapter address input start)
          (WasClassified adapter address input start)
  unfolding classify_subject
  classify_subject-yields adapter address input start = then-Yields _ λ block m1 e1.
      then-Yields _ λ normalized m2 e2. then-Yields _ λ answer m3 e3. then-Yields _ λ code m4 e4.
        then-Yields _ λ target m5 e5.
          let (seen, next, same) =
            (assert_expected_source_block-HasBlock adapter input start).holds block m1 e1 in
          let (a, t2) = given_at-some _ _ _ _ _ e2 in
          let (c, t3) = given_at-some _ _ _ _ _ e3 in
          let (lowered, _) = (normalize_runtime_code-lower answer m3).holds code m4 e4 in
          let (delegates, _) =
            (delegation_target_of-DelegatesTo tools code m4).holds target m5 e5 in
          record {
            holds = λ s after e.
                let k =
                  (classify_code-IsClassified adapter normalized block code target m5
                      delegates).holds
                    s after e in
                (
                  answer,
                  normalized,
                  block,
                  same,
                  a,
                  subst (λ t. adapter.get_code t normalized block.number ≡ some answer)
                      (sym t2 ∙ next) c,
                  seen,
                  subst (λ l. IsClassified adapter normalized block l s after) lowered k,
                );
          }

  -- A subject that is classified was classified at the source block: the chain had that block at the
  -- first moment and at the last one, the code is what the chain answered for the subject's address
  -- at that block, in lower case, and the kind, the hash and the delegation are those of this code: it
  -- is an account without code, or a delegated one exactly if the code is 0xef0100 and the forty
  -- digits of an address, which is the target then, and the code of the target is what the chain
  -- answered for it at that block, in lower case.
  pub classify_subject-WasClassified :
      (adapter : Adapter) (address : String) (input : Block) (start after : ℕ)
      (s : ClassifiedSubject)
      → classify_subject tools adapter address input start ≡ ok (s, after)
      → WasClassified adapter address input start s after
  classify_subject-WasClassified adapter address input start after s h =
      (classify_subject-yields adapter address input start).holds s after h
