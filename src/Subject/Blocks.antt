-- ===== src/Subject/Blocks.antt =====
-- When the source block was asserted, the chain had it.
use g_sentinel.Base.{
  ℕ, String, true, false, not, Option, some, ◌==◌, eqb, eq_iff, ◌≡◌, refl, sym, ap, ◌∙◌, arith,
  lower, ◌+◌, subst,
}
use g_sentinel.Subject.Chain.{
  Block, Adapter, Yields, given_at-some, pure-Yields, then-Yields, throw_if-Yields,
}
use g_sentinel.Subject.Classify.{
  normalize_block_hash, validate_expected_source_block, assert_expected_source_block,
}

-- At this moment the chain had this block, by its number and its hash.
pub HasBlock : Adapter → ℕ → Block → Type 0
HasBlock adapter moment block =
    (hash : String) × (adapter.get_block moment block.number
      ≡ some (some (record { number = block.number; hash = hash })))
    × (lower hash ≡ block.hash)

normalize_block_hash-lower :
    (value : String) (start : ℕ)
    → Yields (normalize_block_hash value start) λ hash after. (hash ≡ lower value) × (after ≡ start)
unfolding normalize_block_hash
normalize_block_hash-lower value start = throw_if-Yields _ _ _ λ ok_hash. pure-Yields (refl, refl)

validate_expected_source_block-lower :
    (input : Block) (start : ℕ)
    → Yields
        (validate_expected_source_block input start)
        λ block after. (block ≡ record input { hash = lower input.hash }) × (after ≡ start)
unfolding validate_expected_source_block
validate_expected_source_block-lower input start = throw_if-Yields _ _ _ λ small.
    then-Yields _ λ hash m e.
      let (h, t) = (normalize_block_hash-lower input.hash start).holds hash m e in
      pure-Yields (rw h refl, t)

block_of_answer :
    (adapter : Adapter) (expected actual : Block) (answer : Option Block) (moment : ℕ)
    (hash : String)
    → adapter.get_block moment expected.number ≡ some answer
    → answer ≡ some actual
    → not (eqb actual.number expected.number) ≡ false
    → hash ≡ lower actual.hash
    → not (hash == expected.hash) ≡ false
    → HasBlock adapter moment expected
unfolding HasBlock
block_of_answer adapter expected actual answer moment hash a b n h s =
    let number : actual.number ≡ expected.number = ground arith in
    let t : hash == expected.hash ≡ true = ground arith in
    let same : hash ≡ expected.hash = (eq_iff hash expected.hash).0 t in
    (
      actual.hash,
      a ∙ ap (λ o. some o) (b ∙ ap (λ k. some (record { number = k; hash = actual.hash })) number),
      sym h ∙ same,
    )

pub assert_expected_source_block-HasBlock :
    (adapter : Adapter) (input : Block) (start : ℕ)
    → Yields (assert_expected_source_block adapter input start) λ block after.
      HasBlock adapter start block
      × (after ≡ start + 1)
      × (block ≡ record input { hash = lower input.hash })
unfolding assert_expected_source_block
assert_expected_source_block-HasBlock adapter input start = then-Yields _ λ expected m1 e1.
    then-Yields _ λ answer m2 e2. then-Yields _ λ actual m3 e3. throw_if-Yields _ _ _ λ number.
      then-Yields _ λ hash m4 e4. throw_if-Yields _ _ _ λ same.
        let (x, t1) = (validate_expected_source_block-lower input start).holds expected m1 e1 in
        let (a, t2) = given_at-some _ _ _ _ _ e2 in
        let (b, t3) = given_at-some _ _ _ _ _ e3 in
        let (h, t4) = (normalize_block_hash-lower actual.hash m3).holds hash m4 e4 in
        pure-Yields (
          subst (λ t. HasBlock adapter t expected) t1
              (block_of_answer adapter expected actual answer m1 hash a b number h same),
          omega arith,
          x,
        )
