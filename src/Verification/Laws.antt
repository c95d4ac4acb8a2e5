-- ===== src/Verification/Laws.antt =====
-- What the reducer of the verification state keeps.
use g_sentinel.Base.{ℕ, ◌≤◌, ◌<◌, true, List, [], ◌∷◌, ◌≡◌, refl, ◌≢◌, arith}
use g_sentinel.Verification.{
  Current, VerificationState, VerificationAction, reset, start, historical_match,
  historical_failure, current_start, current_result, current_failure, verification_reducer,
  initial_verification_state, is_match,
}

module _ {Proof : Type 0} where
  -- The current plane is only used under a sealed proof that matched.
  abbrev pub IsOrdered : VerificationState Proof → Type 0
  IsOrdered s = s.current ≢ Current.idle → is_match s.historical ≡ true

  -- The generation that an action carries.
  abbrev pub generation_of : VerificationAction Proof → ℕ
  generation_of (reset g) = g
  generation_of (start g r) = g
  generation_of (historical_match g p) = g
  generation_of (historical_failure g f) = g
  generation_of (current_start g) = g
  generation_of (current_result g a r) = g
  generation_of (current_failure g f) = g

  -- The states that some actions lead to, from the initial one.
  unfoldable pub run :
      VerificationState Proof → List (VerificationAction Proof) → VerificationState Proof
  run s [] = s
  run s (a ∷ as') = run (verification_reducer s a) as'

  reducer-IsOrdered :
      (s : VerificationState Proof) (a : VerificationAction Proof)
      → IsOrdered s
      → IsOrdered (verification_reducer s a)
  unfolding verification_reducer
  reducer-IsOrdered s (reset g) h = ground arith
  reducer-IsOrdered s _ h = ground arith

  run-IsOrdered_from :
      (s : VerificationState Proof) (as' : List (VerificationAction Proof))
      → IsOrdered s
      → IsOrdered (run s as')
  unfolding run
  run-IsOrdered_from s [] h = h
  run-IsOrdered_from s (a ∷ as') h =
      run-IsOrdered_from (verification_reducer s a) as' (reducer-IsOrdered s a h)

  -- Whatever actions arrive, in whatever order, the current plane leaves IDLE only while the sealed
  -- proof is a MATCH.
  pub run-IsOrdered :
      (as' : List (VerificationAction Proof)) → IsOrdered (run initial_verification_state as')
  run-IsOrdered as' = run-IsOrdered_from initial_verification_state as' (λ h. absurd (h refl))

  -- An action of an earlier generation changes nothing, and no action lowers the generation.
  pub stale_ignored :
      (s : VerificationState Proof) (a : VerificationAction Proof)
      → (generation_of a < s.generation → verification_reducer s a ≡ s)
        × (s.generation ≤ (verification_reducer s a).generation)
  unfolding verification_reducer
  stale_ignored s (reset g) = (λ h. ground arith, ground arith)
  stale_ignored s _ = (λ h. ground arith, ground arith)
