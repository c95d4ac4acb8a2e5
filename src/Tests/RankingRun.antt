-- ===== src/Tests/RankingRun.antt =====
-- A flagged record before a caution one of the same score band, and one without enrichment.
use g_sentinel.Base.{
  Bool, true, some, none, List, [], ◌∷◌, ◌≡◌, ◌≤◌, ◌<◌, ◌↔◌, ◌⊎◌, AllPairs, count_if, refl,
}
use g_sentinel.Ranking.{
  Agent, Item, Scores, risk_key, level_of, proof_lock_risk_key, place, min, rank_by_risk,
  rank_proof_locks_by_risk,
}
use g_sentinel.Ranking.Laws.{
  rank_by_risk-ranked, rank_proof_locks_by_risk-ranked, proof_lock_risk_key-lexicographic,
}

abbrev caution : Scores
caution = record { behavioral_score = 69; code_risk = 0 }

abbrev flagged : Scores
flagged = record { behavioral_score = 10; code_risk = 2 }

abbrev plain : Item
plain = record { scores = none; block_number = 9; identity_key = "0xc" }

abbrev risky : Item
risky = record { scores = some flagged; block_number = 7; identity_key = "0xa" }

abbrev mild : Item
mild = record { scores = some caution; block_number = 8; identity_key = "0xB" }

abbrev items : List Item
items = plain ∷ mild ∷ risky ∷ []

ranking_run : rank_proof_locks_by_risk items ≡ risky ∷ mild ∷ plain ∷ []
unfolding rank_proof_locks_by_risk g_sentinel.Ranking.sorted g_sentinel.Ranking.compare_items
    proof_lock_risk_key level_of g_sentinel.Ranking.behavioral_level
    g_sentinel.Ranking.code_risk_level
ranking_run = refl

rank_proof_locks_by_risk-ranked_example :
    AllPairs
      (λ x y. place (proof_lock_risk_key y) ≤ place (proof_lock_risk_key x))
      (rank_proof_locks_by_risk items)
    × ((p : Item → Bool) → count_if p (rank_proof_locks_by_risk items) ≡ count_if p items)
rank_proof_locks_by_risk-ranked_example = rank_proof_locks_by_risk-ranked items

abbrev agents : List Agent
agents =
    record {
      has_attestation = true;
      threat_level = 1;
      code_risk = 0;
      behavioral_score = 40;
      attestation_timestamp = 5;
    }
    ∷ record {
      has_attestation = true;
      threat_level = 2;
      code_risk = 0;
      behavioral_score = 95;
      attestation_timestamp = 4;
    }
    ∷ []

rank_by_risk-ranked_example :
    AllPairs (λ x y. place (risk_key y) ≤ place (risk_key x)) (rank_by_risk agents)
    × ((p : Agent → Bool) → count_if p (rank_by_risk agents) ≡ count_if p agents)
rank_by_risk-ranked_example = rank_by_risk-ranked agents

proof_lock_risk_key-lexicographic_example :
    (place (proof_lock_risk_key mild) < place (proof_lock_risk_key risky)) ↔ (
      (level_of caution < level_of flagged)
      ⊎ ((level_of caution ≡ level_of flagged) × (min 100 69 < min 100 10)))
proof_lock_risk_key-lexicographic_example =
    proof_lock_risk_key-lexicographic caution flagged 8 7 "0xB" "0xa"
