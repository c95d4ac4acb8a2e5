-- ===== src/Verdict/Laws.antt =====
-- What the shown verdict says of the gate's decision, and the count of the safety checks.
use g_sentinel.Base.{
  ℕ, zero, suc, ◌<◌, String, Bool, true, false, Option, none, some, ◌≡◌, refl, arith, ◌↔◌, ◌⊎◌, inl,
  inr, eqb, ◌≤◌, if◌then◌else◌,
}
use g_sentinel.Status.{ProofLockRecord, LeaseStatus}
use g_sentinel.Verdict.{
  AgentVerdict, VerdictTone, GateVerdict, good, neutral, CurrentDecision, unavailable, blocked,
  verified, agent_verdict, session_verdict, coverage_gloss,
}

-- The gate was not read, or its reading failed.
abbrev pub is_unread : Option GateVerdict → Bool
is_unread none = true
is_unread (some GateVerdict.unknown) = true
is_unread (some (GateVerdict.verified allows reason)) = false

-- There is no session to speak of.
abbrev pub HasNoSession : Option CurrentDecision → Type 0
HasNoSession current =
    (current ≡ none)
    ⊎ ((c : CurrentDecision) × (current ≡ some c)
        × ((c.status ≡ unavailable) ⊎ (c.status ≡ blocked)))

abbrev pub SessionTone : AgentVerdict → Option CurrentDecision → Type 0
SessionTone v current =
    ((v.tone ≡ good) ↔ ((c : CurrentDecision) × (current ≡ some c) × (c.status ≡ verified)))
    × ((v.tone ≡ neutral) ↔ HasNoSession current)
    × (HasNoSession current
        → (v.headline ≡ "No live access session right now")
          × (v.plain
              ≡ "This is normal. No one is currently requesting live access for this agent. The agent's sealed evidence is shown below.")
          × (v.technical_detail ≡ ""))

session_verdict-tone :
    (agent_id : String) (current : Option CurrentDecision) (lease : LeaseStatus)
    → SessionTone (session_verdict agent_id current lease) current
unfolding session_verdict
session_verdict-tone agent_id none lease =
    (((λ h. cc), λ h. cc (h.1)), ((λ _. inl refl), λ _. refl), λ _. (refl, refl, refl))
session_verdict-tone agent_id (some c) lease = (
  ((λ h. (c, refl, ground arith)), λ h. ground arith),
  ((λ h. inr (c, refl, ground arith)), λ h. ground arith),
  λ h. (ground arith, ground arith, ground arith),
)

-- Where the gate was not read, or its reading failed, the tone is good exactly when the live decision
-- is VERIFIED, and neutral exactly when there is no decision, or it is unavailable or blocked; then
-- the texts are that there is no live access session and that this is normal, with no technical
-- detail. Where the gate was read, the tone is good if it allows and that of a block if not, whatever
-- the session says.
pub agent_verdict-tone :
    (agent_id : String) (gate : Option GateVerdict) (current : Option CurrentDecision)
    (lock : ProofLockRecord) (now_seconds : ℕ)
    → let v = agent_verdict agent_id gate current lock now_seconds in
      (is_unread gate ≡ true → SessionTone v current)
      × ((allows : Bool) (reason : ℕ)
          → gate ≡ some (GateVerdict.verified allows reason)
          → v.tone ≡ (if allows then good else VerdictTone.blocked))
unfolding agent_verdict
agent_verdict-tone agent_id none current lock now_seconds =
    ((λ u. session_verdict-tone agent_id current _), λ a r e. cc)
agent_verdict-tone agent_id (some GateVerdict.unknown) current lock now_seconds =
    ((λ u. session_verdict-tone agent_id current _), λ a r e. cc)
agent_verdict-tone agent_id (some (GateVerdict.verified true reason)) current lock now_seconds =
    ((λ u. cc), λ a r e. ground arith)
agent_verdict-tone agent_id (some (GateVerdict.verified false reason)) current lock now_seconds =
    ((λ u. cc), λ a r e. ground arith)

abbrev same_bool : Bool → Bool → Bool
same_bool true b = b
same_bool false true = false
same_bool false false = true

-- The two ways to say that a mask is complete agree on it.
gloss_agrees : ℕ → Bool
gloss_agrees mask =
    same_bool (eqb (coverage_gloss (some mask)).ran 7) (coverage_gloss (some mask)).complete

-- They agree on a mask and on the smaller ones.
agree_to : ℕ → Bool
agree_to zero = gloss_agrees zero
agree_to (suc mask) = if gloss_agrees (suc mask) then agree_to mask else false

agree_to-le : (top mask : ℕ) → mask ≤ top → agree_to top ≡ true → gloss_agrees mask ≡ true
unfolding agree_to
agree_to-le zero zero le t = t
agree_to-le zero (suc mask) le t = absurd (omega arith)
agree_to-le (suc top) mask le t = ground (arith, agree_to-le top mask)

-- For each mask of seven bits, all seven checks are counted exactly when the mask is complete.
agree_to-127 : agree_to 127 ≡ true
unfolding agree_to gloss_agrees coverage_gloss
agree_to-127 = refl

agreed :
    (ran : ℕ) (complete : Bool)
    → same_bool (eqb ran 7) complete ≡ true
    → (ran ≡ 7) ↔ (complete ≡ true)
agreed ran complete h = ((λ e. ground arith), λ e. ground arith)

-- Of a coverage mask of seven bits, all seven checks ran exactly when the mask is the complete one.
pub coverage_gloss-complete :
    (coverage : ℕ)
    → coverage < 128
    → ((coverage_gloss (some coverage)).ran ≡ 7)
      ↔ ((coverage_gloss (some coverage)).complete ≡ true)
unfolding gloss_agrees
coverage_gloss-complete coverage h =
    agreed (coverage_gloss (some coverage)).ran (coverage_gloss (some coverage)).complete
      (agree_to-le 127 coverage (omega arith) agree_to-127)
