-- ===== src/Verdict.antt =====
-- frontend/lib/prooflock-verdict.ts: the verdict that a page shows for an agent. The texts are those
-- of the source.
pub mod Laws
use Prim.Native.String
use g_sentinel.Base.{
  ℕ, zero, suc, ltb, ◌+◌, ◌/◌, ◌%◌, String, Bool, true, false, not, ◌&&◌, Option, none, some, ◌==◌,
  leb, eqb, if◌then◌else◌, decimal, is_canonical_decimal, decimal_value, text_length,
}
use g_sentinel.Status.{
  ProofLockRecord, GateReasonCode, LeaseStatus, active, expiring, expired, revoked, drifted,
  incomplete, gate_reason_meta, lease_status,
}

pub data VerdictTone : Type 0 where
  good caution blocked neutral : VerdictTone

pub record AgentVerdict : Type 0 where
  pub tone : VerdictTone
  pub headline : String
  pub plain : String
  pub technical_detail : String

-- `GATE_PLAIN`
unfoldable pub gate_plain : GateReasonCode → String
gate_plain GateReasonCode.allowed =
    "This agent currently holds an active, verified pass and is admitted."
gate_plain GateReasonCode.no_proof = "This agent has no admission pass on record yet."
gate_plain GateReasonCode.revoked =
    "This agent's pass was withdrawn, so it is not admitted right now."
gate_plain GateReasonCode.drifted =
    "The agent changed since it was last checked, so its pass no longer applies."
gate_plain GateReasonCode.expired =
    "The agent's time-limited pass has run out and needs to be renewed."
gate_plain GateReasonCode.subject_changed =
    "The agent's wallet changed, so the old pass no longer matches it."
gate_plain GateReasonCode.runtime_code_drift =
    "The agent's running code changed since it was checked."
gate_plain GateReasonCode.policy_too_old =
    "This pass was issued under an older safety policy and needs a fresh check."
gate_plain GateReasonCode.coverage_incomplete =
    "Not every safety check finished, so admission is on hold."
gate_plain GateReasonCode.compute_unverified =
    "The behavioral analysis could not be independently confirmed."
gate_plain GateReasonCode.storage_unverified =
    "The saved evidence could not be independently confirmed."
gate_plain GateReasonCode.behavioral_risk =
    "The agent's behavior scored too high on risk for the current policy."
gate_plain GateReasonCode.code_risk =
    "The agent's code scored too high on risk for the current policy."
gate_plain GateReasonCode.identity_unavailable =
    "The agent's identity could not be read at this moment."
gate_plain GateReasonCode.agent_not_found = "No agent was found for this identity."
gate_plain GateReasonCode.agent_wallet_unset =
    "This agent has not published a wallet to check against."
gate_plain GateReasonCode.identity_mismatch =
    "The identity on file did not match the one being checked."
gate_plain GateReasonCode.unknown_reason = "The reason for this decision could not be read."

-- The spelling of a reason code.
unfoldable pub code_text : GateReasonCode → String
code_text GateReasonCode.allowed = "ALLOWED"
code_text GateReasonCode.no_proof = "NO_PROOF"
code_text GateReasonCode.revoked = "REVOKED"
code_text GateReasonCode.drifted = "DRIFTED"
code_text GateReasonCode.expired = "EXPIRED"
code_text GateReasonCode.subject_changed = "SUBJECT_CHANGED"
code_text GateReasonCode.runtime_code_drift = "RUNTIME_CODE_DRIFT"
code_text GateReasonCode.policy_too_old = "POLICY_TOO_OLD"
code_text GateReasonCode.coverage_incomplete = "COVERAGE_INCOMPLETE"
code_text GateReasonCode.compute_unverified = "COMPUTE_UNVERIFIED"
code_text GateReasonCode.storage_unverified = "STORAGE_UNVERIFIED"
code_text GateReasonCode.behavioral_risk = "BEHAVIORAL_RISK"
code_text GateReasonCode.code_risk = "CODE_RISK"
code_text GateReasonCode.identity_unavailable = "IDENTITY_UNAVAILABLE"
code_text GateReasonCode.agent_not_found = "AGENT_NOT_FOUND"
code_text GateReasonCode.agent_wallet_unset = "AGENT_WALLET_UNSET"
code_text GateReasonCode.identity_mismatch = "IDENTITY_MISMATCH"
code_text GateReasonCode.unknown_reason = "UNKNOWN_REASON"

unfoldable pub gate_plain_sentence : ℕ → String
unfolding gate_plain
gate_plain_sentence reason = gate_plain (gate_reason_meta reason).code

pub record PlainStatus : Type 0 where
  pub label : String
  pub tone : VerdictTone
  pub detail : String

unfoldable pub lease_plain : LeaseStatus → PlainStatus
lease_plain active = record {
  label = "Active pass";
  tone = good;
  detail = "Its time-limited pass is valid.";
}
lease_plain expiring = record {
  label = "Pass expiring soon";
  tone = caution;
  detail = "Its pass is valid but runs out within a day.";
}
lease_plain expired = record {
  label = "Pass expired";
  tone = blocked;
  detail = "Its time-limited pass has run out.";
}
lease_plain revoked = record {
  label = "Pass withdrawn";
  tone = blocked;
  detail = "Its pass was revoked.";
}
lease_plain drifted = record {
  label = "Agent changed";
  tone = blocked;
  detail = "The agent changed after it was checked.";
}
lease_plain incomplete = record {
  label = "Checks incomplete";
  tone = caution;
  detail = "Not every safety check finished.";
}

-- `gate` of the input
pub data GateVerdict : Type 0 where
  verified : Bool → ℕ → GateVerdict
  unknown : GateVerdict

pub data ObservationStatus : Type 0 where
  verified blocked unavailable stale mismatch not_applicable : ObservationStatus

-- The `CurrentDecisionView` fields that the verdict reads.
pub record CurrentDecision : Type 0 where
  pub status : ObservationStatus
  pub reason : String

unfoldable pub status_text : ObservationStatus → String
status_text ObservationStatus.verified = "VERIFIED"
status_text ObservationStatus.blocked = "BLOCKED"
status_text ObservationStatus.unavailable = "UNAVAILABLE"
status_text ObservationStatus.stale = "STALE"
status_text ObservationStatus.mismatch = "MISMATCH"
status_text ObservationStatus.not_applicable = "NOT_APPLICABLE"

abbrev pub no_session : AgentVerdict
no_session = record {
  tone = neutral;
  headline = "No live access session right now";
  plain =
      "This is normal. No one is currently requesting live access for this agent. The agent's sealed evidence is shown below.";
  technical_detail = "";
}

-- `Number.isInteger(Number(reason)) && String(Number(reason)) === reason`, up to the safe integers.
abbrev is_integer_text : String → Bool
is_integer_text reason = is_canonical_decimal reason && leb (decimal_value reason) 9007199254740991

-- `currentReasonPlain`
unfoldable pub current_reason_plain : String → LeaseStatus → String
unfolding gate_plain_sentence lease_plain
current_reason_plain reason lease =
    if is_integer_text reason
    then gate_plain_sentence (decimal_value reason)
    else (if reason == "OBSERVATION_EXPIRED"
        then "The last live reading has aged out. Refresh to check again."
        else (lease_plain lease).detail)

-- `safeReason`
unfoldable pub safe_reason : String → String
safe_reason reason =
    if ltb 0 (text_length reason) && leb (text_length reason) 40 then reason else "unavailable"

infixr 65 ◌+++◌
abbrev ◌+++◌ : String → String → String
a +++ b = String.◌++◌ a b

abbrev headline : String → String → String
headline agent_id text = "Agent #" +++ agent_id +++ text

-- The verdict when the gate was not read.
unfoldable pub session_verdict : String → Option CurrentDecision → LeaseStatus → AgentVerdict
unfolding current_reason_plain safe_reason status_text
session_verdict agent_id none lease = no_session
session_verdict agent_id (some current) lease = elim current.status [
  | unavailable ↦ no_session
  | blocked ↦ no_session
  | verified ↦ record {
    tone = good;
    headline = headline agent_id " is admitted";
    plain =
        "This agent currently holds an active, verified pass. Behavioral and code checks passed and its time-limited pass is still valid.";
    technical_detail = "Gate reason ALLOWED";
  }
  | stale ↦ record {
    tone = caution;
    headline = headline agent_id ": reading is out of date";
    plain = current_reason_plain current.reason lease;
    technical_detail = "Status STALE, reason " +++ safe_reason current.reason;
  }
  | mismatch ↦ record {
    tone = VerdictTone.blocked;
    headline = headline agent_id " is not admitted right now";
    plain = current_reason_plain current.reason lease;
    technical_detail = "Status MISMATCH, reason " +++ safe_reason current.reason;
  }
  | not_applicable ↦ record {
    tone = VerdictTone.blocked;
    headline = headline agent_id " is not admitted right now";
    plain = current_reason_plain current.reason lease;
    technical_detail = "Status NOT_APPLICABLE, reason " +++ safe_reason current.reason;
  }
]

-- `agentVerdict`
unfoldable pub agent_verdict :
    String → Option GateVerdict → Option CurrentDecision → ProofLockRecord → ℕ → AgentVerdict
unfolding session_verdict gate_plain_sentence code_text
agent_verdict agent_id (some (GateVerdict.verified true reason)) current record' now_seconds =
    record {
      tone = good;
      headline = headline agent_id " is admitted";
      plain =
          "The gate admits this agent right now. Behavioral and code checks passed and its time-limited pass is still valid.";
      technical_detail = "Gate reason ALLOWED";
    }
agent_verdict agent_id (some (GateVerdict.verified false reason)) current record' now_seconds =
    record {
      tone = VerdictTone.blocked;
      headline = headline agent_id " is not admitted";
      plain = gate_plain_sentence reason;
      technical_detail = "Gate reason " +++ code_text (gate_reason_meta reason).code;
    }
agent_verdict agent_id (some GateVerdict.unknown) current record' now_seconds =
    session_verdict agent_id current (lease_status record' now_seconds)
agent_verdict agent_id none current record' now_seconds =
    session_verdict agent_id current (lease_status record' now_seconds)

-- `coverageGloss`; `none` is a coverage that is missing or not finite.
pub record CoverageGloss : Type 0 where
  pub ran : ℕ
  pub total : ℕ
  pub complete : Bool

-- The loop over the bits; `(coverage & (1 << bit)) !== 0` is the parity of `coverage / 2 ^ bit`.
count_bits : ℕ → ℕ → ℕ
count_bits zero coverage = 0
count_bits (suc bits) coverage = coverage % 2 + count_bits bits (coverage / 2)

unfoldable pub coverage_gloss : Option ℕ → CoverageGloss
unfolding count_bits
coverage_gloss none = record { ran = 0; total = 7; complete = false }
coverage_gloss (some coverage) = record {
  ran = count_bits 7 coverage;
  total = 7;
  complete = eqb coverage 127;
}
