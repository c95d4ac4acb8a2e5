-- ===== src/Detail/Laws.antt =====
-- When the page shows a current decision as verified.
use g_sentinel.Base.{ℕ, ◌<◌, true, false, List, [], ◌∷◌, map, ◌≡◌, refl, arith, ◌↔◌, All, any, all}
use g_sentinel.Verdict.{
  ObservationStatus, verified, blocked, unavailable, stale, mismatch, not_applicable,
}
use g_sentinel.Detail.{
  Observation, Observations, entries, observation_status_at, same_status, precedence, first_of,
  current_decision,
}

status-verified :
    (now_ms : ℕ) (o : Observation)
    → (observation_status_at now_ms o ≡ verified)
      ↔ ((o.status ≡ verified) × (now_ms < o.freshness_expires_at))
unfolding observation_status_at
status-verified now_ms o = ((λ h. ground arith), λ h. ground arith)

all-All :
    (xs : List ObservationStatus)
    → all (same_status verified) xs ≡ true
    → All (λ s. s ≡ verified) xs
all-All [] h = tt
all-All (verified ∷ xs) h = (refl, all-All xs h)
all-All (blocked ∷ xs) h = cc
all-All (unavailable ∷ xs) h = cc
all-All (stale ∷ xs) h = cc
all-All (mismatch ∷ xs) h = cc
all-All (not_applicable ∷ xs) h = cc

All-all :
    (xs : List ObservationStatus)
    → All (λ s. s ≡ verified) xs
    → all (same_status verified) xs ≡ true
All-all [] h = refl
All-all (x ∷ xs) h = rw h.0 (All-all xs h.1)

All-none :
    (s : ObservationStatus) (xs : List ObservationStatus)
    → same_status s verified ≡ false
    → All (λ x. x ≡ verified) xs
    → any (same_status s) xs ≡ false
All-none s [] d h = refl
All-none s (x ∷ xs) d h = let k = All-none s xs d h.1 in rw (h.0, d) k

first_of-verified :
    (xs : List ObservationStatus) → (first_of precedence xs ≡ verified) ↔ All (λ s. s ≡ verified) xs
unfolding first_of
first_of-verified xs = (
  (λ h. all-All xs (ground arith)),
  λ h.
      rw
        (
          All-none mismatch xs refl h,
          All-none stale xs refl h,
          All-none blocked xs refl h,
          All-none not_applicable xs refl h,
          All-none unavailable xs refl h,
          All-all xs h,
        )
        refl,
)

-- An observation that is verified and has not expired.
abbrev pub IsFresh : ℕ → Observation → Type 0
IsFresh now_ms o = (o.status ≡ verified) × (now_ms < o.freshness_expires_at)

-- The page shows a current decision as VERIFIED exactly while all four observations, of the identity,
-- the lease, the gate and the consumer, are VERIFIED and none of them has expired.
pub current_decision-verified :
    (o : Observations) (now_ms : ℕ)
    → ((current_decision o now_ms).status ≡ verified) ↔ (
        IsFresh now_ms o.identity
        × IsFresh now_ms o.lease
        × IsFresh now_ms o.gate
        × IsFresh now_ms o.consumer)
unfolding current_decision
current_decision-verified o now_ms =
    let f = first_of-verified (map (observation_status_at now_ms) (entries o)) in
    (
      (λ h.
          let (i, (l, (g, (c, _)))) = f.0 h in
          (
            (status-verified now_ms o.identity).0 i,
            (status-verified now_ms o.lease).0 l,
            (status-verified now_ms o.gate).0 g,
            (status-verified now_ms o.consumer).0 c,
          )),
      λ h.
          let (i, l, g, c) = h in
          f.1 (
            (status-verified now_ms o.identity).1 i,
            (
              (status-verified now_ms o.lease).1 l,
              ((status-verified now_ms o.gate).1 g, ((status-verified now_ms o.consumer).1 c, tt)),
            ),
          ),
    )
