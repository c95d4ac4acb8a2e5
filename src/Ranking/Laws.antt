-- ===== src/Ranking/Laws.antt =====
-- The riskiest first, and nothing lost.
use Prim.Native.Nat.{Ordering}
use g_sentinel.Base.{
  ℕ, String, Bool, true, false, some, List, [], ◌∷◌, ◌≤◌, ◌<◌, ◌≡◌, refl, arith, All, AllPairs,
  count_if, Bool-cases, inl, inr, ◌⊎◌, ◌↔◌,
}
use g_sentinel.Ranking.{
  Agent, Item, Scores, risk_key, level_of, proof_lock_risk_key, place, compare_agents,
  compare_items, is_after, insert, sorted, rank_by_risk, rank_proof_locks_by_risk, min,
}

-- A sort by an order that decides by a height first.
module _ {A : Type 0} (order : A → A → Ordering) (height : A → ℕ)
    (stays : (x y : A) → is_after (order x y) ≡ false → height y ≤ height x)
    (moves : (x y : A) → is_after (order x y) ≡ true → height x ≤ height y) where
  insert-All :
      (h : ℕ) (x : A) (xs : List A)
      → height x ≤ h
      → All (λ y. height y ≤ h) xs
      → All (λ y. height y ≤ h) (insert order x xs)
  unfolding insert
  insert-All h x [] p a = (p, tt)
  insert-All h x (y ∷ ys) p a = elim (Bool-cases (is_after (order x y))) [
    | inl after ↦ rw after (a.0, insert-All h x ys p a.1)
    | inr before ↦ rw before (p, a)
  ]

  All-below :
      (h k : ℕ) (xs : List A) → h ≤ k → All (λ y. height y ≤ h) xs → All (λ y. height y ≤ k) xs
  All-below h k [] p a = tt
  All-below h k (x ∷ xs) p a = (omega arith, All-below h k xs p a.1)

  -- Each element is at least as high as every later one.
  abbrev pub IsRanked : List A → Type 0
  IsRanked = AllPairs (λ x y. height y ≤ height x)

  insert-IsRanked : (x : A) (xs : List A) → IsRanked xs → IsRanked (insert order x xs)
  unfolding insert
  insert-IsRanked x [] r = (tt, tt)
  insert-IsRanked x (y ∷ ys) r = elim (Bool-cases (is_after (order x y))) [
    | inl after ↦
        rw after (insert-All (height y) x ys (moves x y after) r.0, insert-IsRanked x ys r.1)
    | inr before ↦
        let low = stays x y before in
        rw before ((low, All-below (height y) (height x) ys low r.0), r)
  ]

  sorted-IsRanked : (xs : List A) → IsRanked (sorted order xs)
  unfolding sorted
  sorted-IsRanked [] = tt
  sorted-IsRanked (x ∷ xs) = insert-IsRanked x (sorted order xs) (sorted-IsRanked xs)

module _ {A : Type 0} (order : A → A → Ordering) where
  insert-count :
      (p : A → Bool) (x : A) (xs : List A) → count_if p (insert order x xs) ≡ count_if p (x ∷ xs)
  unfolding insert count_if
  insert-count p x [] = refl
  insert-count p x (y ∷ ys) = elim (Bool-cases (is_after (order x y))) [
    | inl after ↦ rw after (let k = insert-count p x ys in ground arith)
    | inr before ↦ rw before refl
  ]

  sorted-count : (p : A → Bool) (xs : List A) → count_if p (sorted order xs) ≡ count_if p xs
  unfolding sorted count_if
  sorted-count p [] = refl
  sorted-count p (x ∷ xs) =
      let c = sorted-count p xs in let i = insert-count p x (sorted order xs) in ground arith

agents-stay :
    (x y : Agent) → is_after (compare_agents x y) ≡ false → place (risk_key y) ≤ place (risk_key x)
unfolding compare_agents
agents-stay x y h = ground arith

items-move :
    (x y : Item)
    → is_after (compare_items x y) ≡ true
    → place (proof_lock_risk_key x) ≤ place (proof_lock_risk_key y)
unfolding compare_items
items-move x y h = ground arith

agents-move :
    (x y : Agent) → is_after (compare_agents x y) ≡ true → place (risk_key x) ≤ place (risk_key y)
unfolding compare_agents
agents-move x y h = ground arith

items-stay :
    (x y : Item)
    → is_after (compare_items x y) ≡ false
    → place (proof_lock_risk_key y) ≤ place (proof_lock_risk_key x)
unfolding compare_items
items-stay x y h = ground arith

-- Ranking the agents puts each before those of a smaller risk key, and keeps every agent as often as
-- it was there.
pub rank_by_risk-ranked :
    (agents : List Agent)
    → AllPairs (λ x y. place (risk_key y) ≤ place (risk_key x)) (rank_by_risk agents)
      × ((p : Agent → Bool) → count_if p (rank_by_risk agents) ≡ count_if p agents)
unfolding rank_by_risk
rank_by_risk-ranked agents = (
  sorted-IsRanked compare_agents (λ x. place (risk_key x)) agents-stay agents-move agents,
  λ p. sorted-count compare_agents p agents,
)

-- Ranking the sealed records puts each before those of a smaller risk key, those without enrichment
-- last, and keeps every record as often as it was there.
pub rank_proof_locks_by_risk-ranked :
    (items : List Item)
    → AllPairs
        (λ x y. place (proof_lock_risk_key y) ≤ place (proof_lock_risk_key x))
        (rank_proof_locks_by_risk items)
      × ((p : Item → Bool) → count_if p (rank_proof_locks_by_risk items) ≡ count_if p items)
unfolding rank_proof_locks_by_risk
rank_proof_locks_by_risk-ranked items = (
  sorted-IsRanked compare_items (λ x. place (proof_lock_risk_key x)) items-stay items-move items,
  λ p. sorted-count compare_items p items,
)

-- Between two verified records the key compares the levels first, and the scores, cut at a hundred,
-- only within a level.
pub proof_lock_risk_key-lexicographic :
    (a b : Scores) (n m : ℕ) (k l : String)
    → (place (proof_lock_risk_key (record { scores = some a; block_number = n; identity_key = k }))
        < place
            (proof_lock_risk_key (record { scores = some b; block_number = m; identity_key = l })))
      ↔ ((level_of a < level_of b)
          ⊎ ((level_of a ≡ level_of b) × (min 100 a.behavioral_score < min 100 b.behavioral_score)))
unfolding proof_lock_risk_key level_of
proof_lock_risk_key-lexicographic a b n m k l = ((λ h. ground arith), λ h. ground arith)
