-- ===== src/Ranking.antt =====
-- frontend/lib/ranking.ts: the risk keys and the two rankings. A key is `none` for −1 and a number
-- otherwise, a comparison is its sign, and `sort` is a stable sort. Of an item the fields are kept
-- that the ranking reads.
pub mod Laws
use Prim.Native.Nat.{compare, Ordering}
use Prim.Native.String
use g_sentinel.Base.{
  ℕ, String, Bool, true, false, Option, none, some, List, [], ◌∷◌, ◌+◌, ◌*◌, leb, ltb, eqb,
  if◌then◌else◌, lower,
}
use g_sentinel.Status.{then_by}

-- What `riskKey` and `rankByRisk` read of an `AgentWithAttestation`
pub record Agent : Type 0 where
  pub has_attestation : Bool
  pub threat_level : ℕ
  pub code_risk : ℕ
  pub behavioral_score : ℕ
  pub attestation_timestamp : ℕ

pub record Scores : Type 0 where
  pub behavioral_score : ℕ
  pub code_risk : ℕ

-- What the ranking reads of a `ProofLockInventoryItem`; only a verified one has scores.
pub record Item : Type 0 where
  pub scores : Option Scores
  pub block_number : ℕ
  pub identity_key : String

abbrev pub max : ℕ → ℕ → ℕ
max a b = if leb a b then b else a

abbrev pub min : ℕ → ℕ → ℕ
min a b = if leb a b then a else b

-- `riskKey`
unfoldable pub risk_key : Agent → Option ℕ
risk_key a =
    if a.has_attestation
    then some (max a.threat_level a.code_risk * 1000 + a.behavioral_score)
    else none

-- `behavioralLevel`
unfoldable pub behavioral_level : ℕ → ℕ
behavioral_level score = if leb 70 score then 2 else (if leb 34 score then 1 else 0)

-- `codeRiskLevel`
unfoldable pub code_risk_level : ℕ → ℕ
code_risk_level code_risk = if leb 2 code_risk then 2 else (if eqb code_risk 1 then 1 else 0)

-- The `level` of `proofLockRiskKey`
unfoldable pub level_of : Scores → ℕ
level_of scores = max (behavioral_level scores.behavioral_score) (code_risk_level scores.code_risk)

abbrev key_of_scores : Option Scores → Option ℕ
key_of_scores none = none
key_of_scores (some scores) = some (level_of scores * 1000 + min 100 scores.behavioral_score)

-- `proofLockRiskKey`
unfoldable pub proof_lock_risk_key : Item → Option ℕ
proof_lock_risk_key item = key_of_scores item.scores

-- The place of a key among the others.
abbrev pub place : Option ℕ → ℕ
place none = 0
place (some key) = key + 1

-- The sign of the comparison in `rankByRisk`
unfoldable pub compare_agents : Agent → Agent → Ordering
compare_agents a b =
    then_by (compare (place (risk_key b)) (place (risk_key a)))
      (compare b.attestation_timestamp a.attestation_timestamp)

-- The sign of the comparison in `rankProofLocksByRisk`
unfoldable pub compare_items : Item → Item → Ordering
compare_items left right =
    then_by (compare (place (proof_lock_risk_key right)) (place (proof_lock_risk_key left))) (
      then_by (compare right.block_number left.block_number)
        (String.compare (lower left.identity_key) (lower right.identity_key)))

abbrev pub is_after : Ordering → Bool
is_after Ordering.gt = true
is_after _ = false

module _ {A : Type 0} (order : A → A → Ordering) where
  insert : A → List A → List A
  insert x [] = x ∷ []
  insert x (y ∷ ys) =
      let rest = insert x ys in if is_after (order x y) then y ∷ rest else x ∷ y ∷ ys

  -- `[...items].sort(order)`
  unfoldable pub sorted : List A → List A
  unfolding insert
  sorted [] = []
  sorted (x ∷ xs) = insert x (sorted xs)

unfoldable pub rank_by_risk : List Agent → List Agent
rank_by_risk agents = sorted compare_agents agents

unfoldable pub rank_proof_locks_by_risk : List Item → List Item
rank_proof_locks_by_risk items = sorted compare_items items
