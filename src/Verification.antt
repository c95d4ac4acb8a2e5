-- ===== src/Verification.antt =====
-- frontend/lib/verification-state.ts: the reducer of a proof's verification state. The proof that a
-- match carries is a type of its own, which the reducer only stores.
pub mod Coordinator
pub mod Mirror
pub mod Laws
use g_sentinel.Base.{ℕ, String, Bool, true, false, not, ◌&&◌, ◌||◌, leb, eqb, if◌then◌else◌}

pub data HistoricalFailure : Type 0 where
  mismatch hint_required unavailable timeout canceled : HistoricalFailure

pub data CurrentFailure : Type 0 where
  unavailable timeout canceled : CurrentFailure

pub data Access : Type 0 where
  admitted blocked : Access

module _ (Proof : Type 0) where
  pub data Historical : Type 0 where
    idle verifying retrying : Historical
    failed : HistoricalFailure → Historical
    match : Proof → Historical

pub data Current : Type 0 where
  idle reading : Current
  failed : CurrentFailure → Current
  decided : Access → String → Current

pub record VerificationState (Proof : Type 0) : Type 0 where
  pub generation : ℕ
  pub historical : Historical Proof
  pub current : Current

pub data VerificationAction (Proof : Type 0) : Type 0 where
  reset : ℕ → VerificationAction Proof
  start : ℕ → Bool → VerificationAction Proof
  historical_match : ℕ → Proof → VerificationAction Proof
  historical_failure : ℕ → HistoricalFailure → VerificationAction Proof
  current_start : ℕ → VerificationAction Proof
  current_result : ℕ → Access → String → VerificationAction Proof
  current_failure : ℕ → CurrentFailure → VerificationAction Proof

module _ {Proof : Type 0} where
  abbrev pub is_active : Historical Proof → Bool
  is_active verifying = true
  is_active retrying = true
  is_active _ = false

  abbrev pub is_match : Historical Proof → Bool
  is_match (match p) = true
  is_match _ = false

  -- `reset`
  reset_state : VerificationState Proof → ℕ → VerificationState Proof
  reset_state state generation =
      if leb generation state.generation
      then state
      else record { generation = generation; historical = idle; current = idle }

  -- `start`
  start_state : VerificationState Proof → ℕ → Bool → VerificationState Proof
  start_state state generation retry = if leb generation state.generation then state else record {
    generation = generation;
    historical = if retry then retrying else verifying;
    current = idle;
  }

abbrev pub is_idle : Current → Bool
is_idle idle = true
is_idle _ = false

abbrev pub is_reading : Current → Bool
is_reading reading = true
is_reading _ = false

module _ {Proof : Type 0} where
  unfoldable pub verification_reducer :
      VerificationState Proof → VerificationAction Proof → VerificationState Proof
  unfolding reset_state start_state
  verification_reducer state (reset generation) = reset_state state generation
  verification_reducer state (start generation retry) = start_state state generation retry
  verification_reducer state (historical_match generation proof) =
      if eqb generation state.generation && is_active state.historical
      then record state { historical = match proof; current = idle }
      else state
  verification_reducer state (historical_failure generation status) =
      if eqb generation state.generation && is_active state.historical
      then record state { historical = failed status; current = idle }
      else state
  verification_reducer state (current_start generation) =
      if eqb generation state.generation && is_match state.historical && is_idle state.current
      then record state { current = reading }
      else state
  verification_reducer state (current_result generation access reason) =
      if eqb generation state.generation && is_match state.historical && is_reading state.current
      then record state { current = decided access reason }
      else state
  verification_reducer state (current_failure generation status) =
      if eqb generation state.generation && is_match state.historical && is_reading state.current
      then record state { current = failed status }
      else state

  abbrev pub initial_verification_state : VerificationState Proof
  initial_verification_state = record { generation = 0; historical = idle; current = idle }
