-- ===== src/Drift/Laws.antt =====
-- What the comparison of two fingerprints tells, and what a check on demand may write.
use g_sentinel.Base.{
  String, Bool, true, false, not, ◌&&◌, ◌||◌, Option, none, some, List, [], ◌∷◌, eq_iff, ◌≡◌, refl,
  ◌≢◌, sym, ap, ◌∙◌, arith, ◌↔◌, ◌⊎◌, inl, inr, All, any, filter, ok, Result-cases, Bool-cases,
  eq_refl, eqb,
}
use g_sentinel.Drift.{
  DriftFingerprint, DriftField, SubjectKind, same_option, kind_index, is_empty, includes, is_field,
  agent_wallet, subject_kind, runtime_code_hash, owner, registration_digest, delegation_target,
  delegation_code_hash, proxy_implementation, proxy_implementation_code_hash, policy_version,
  Reason, allowed, subject_changed, Tools, build_drift_fingerprint, agrees_on, fields,
  changed_fields, drift_reason, DriftComparison, compare_drift_fingerprints,
}

filter-eq-nil {ℓ} :
    {A : Type ℓ} (p : A → Bool) (xs : List A) → filter p xs ≡ [] → All (λ x. p x ≡ false) xs
filter-eq-nil p [] h = tt
filter-eq-nil p (x ∷ xs) h = elim (Bool-cases (p x)) [
  | inl here ↦ absurd (ground arith)
  | inr there ↦ (there, filter-eq-nil p xs (ground arith))
]

any-filter {ℓ} :
    {A : Type ℓ} (q p : A → Bool) (xs : List A) → any q (filter p xs) ≡ any (λ x. q x && p x) xs
any-filter q p [] = refl
any-filter q p (x ∷ xs) = ground (arith, any-filter q p xs)

filter-nil {ℓ} :
    {A : Type ℓ} (p : A → Bool) (xs : List A) → ((x : A) → p x ≡ false) → filter p xs ≡ []
filter-nil p [] h = refl
filter-nil p (x ∷ xs) h = rw (h x) (filter-nil p xs h)

same_option_refl : (o : Option String) → same_option o o ≡ true
same_option_refl none = refl
same_option_refl (some s) = eq_refl s

eq_of_same_option : (a b : Option String) → same_option a b ≡ true → a ≡ b
eq_of_same_option none none h = refl
eq_of_same_option (some a) (some b) h = ap some ((eq_iff a b).0 h)
eq_of_same_option none (some b) h = cc
eq_of_same_option (some a) none h = cc

eq_of_kind_index : (a b : SubjectKind) → eqb (kind_index a) (kind_index b) ≡ true → a ≡ b
eq_of_kind_index a b h = ground arith

-- A fingerprint agrees with itself on every field.
agrees_on_refl : (a : DriftFingerprint) (f : DriftField) → agrees_on a a f ≡ true
unfolding agrees_on
agrees_on_refl a owner = eq_refl a.owner
agrees_on_refl a agent_wallet = eq_refl a.agent_wallet
agrees_on_refl a registration_digest = eq_refl a.registration_digest
agrees_on_refl a subject_kind = ground arith
agrees_on_refl a runtime_code_hash = eq_refl a.runtime_code_hash
agrees_on_refl a delegation_target = same_option_refl a.delegation_target
agrees_on_refl a delegation_code_hash = same_option_refl a.delegation_code_hash
agrees_on_refl a proxy_implementation = same_option_refl a.proxy_implementation
agrees_on_refl a proxy_implementation_code_hash = same_option_refl a.proxy_implementation_code_hash
agrees_on_refl a policy_version = ground arith

false_of_ne : (b : Bool) → b ≢ true → b ≡ false
false_of_ne true h = absurd (h refl)
false_of_ne false h = refl

true_of_not : (b : Bool) → not b ≡ false → b ≡ true
true_of_not true h = refl
true_of_not false h = sym h

-- Fingerprints that agree on every field are equal.
eq_of_agrees : (a b : DriftFingerprint) → ((f : DriftField) → agrees_on a b f ≡ true) → a ≡ b
unfolding agrees_on
eq_of_agrees a b h =
    let e₁ = (eq_iff a.owner b.owner).0 (h owner) in
    let e₂ = (eq_iff a.agent_wallet b.agent_wallet).0 (h agent_wallet) in
    let e₃ = (eq_iff a.registration_digest b.registration_digest).0 (h registration_digest) in
    let e₄ = eq_of_kind_index a.subject_kind b.subject_kind (h subject_kind) in
    let e₅ = (eq_iff a.runtime_code_hash b.runtime_code_hash).0 (h runtime_code_hash) in
    let e₆ = eq_of_same_option a.delegation_target b.delegation_target (h delegation_target) in
    let e₇ =
      eq_of_same_option a.delegation_code_hash b.delegation_code_hash (h delegation_code_hash) in
    let e₈ =
      eq_of_same_option a.proxy_implementation b.proxy_implementation (h proxy_implementation) in
    let e₉ =
      eq_of_same_option a.proxy_implementation_code_hash b.proxy_implementation_code_hash
        (h proxy_implementation_code_hash) in
    let e₀ : a.policy_version ≡ b.policy_version = ground (arith, h policy_version) in
    λ i. record {
      owner = e₁ i;
      agent_wallet = e₂ i;
      registration_digest = e₃ i;
      subject_kind = e₄ i;
      runtime_code_hash = e₅ i;
      delegation_target = e₆ i;
      delegation_code_hash = e₇ i;
      proxy_implementation = e₈ i;
      proxy_implementation_code_hash = e₉ i;
      policy_version = e₀ i;
    }

-- What holds of all the listed fields holds of every field.
fields_complete : (P : DriftField → Type 0) → All P fields → (f : DriftField) → P f
fields_complete P h owner = h.0
fields_complete P h agent_wallet = h.1.0
fields_complete P h registration_digest = h.1.1.0
fields_complete P h subject_kind = h.1.1.1.0
fields_complete P h runtime_code_hash = h.1.1.1.1.0
fields_complete P h delegation_target = h.1.1.1.1.1.0
fields_complete P h delegation_code_hash = h.1.1.1.1.1.1.0
fields_complete P h proxy_implementation = h.1.1.1.1.1.1.1.0
fields_complete P h proxy_implementation_code_hash = h.1.1.1.1.1.1.1.1.0
fields_complete P h policy_version = h.1.1.1.1.1.1.1.1.1.0

-- No field is reported exactly when the two fingerprints are equal.
changed_fields-eq-nil : (a b : DriftFingerprint) → (changed_fields a b ≡ []) ↔ (a ≡ b)
unfolding changed_fields
changed_fields-eq-nil a b = (
  λ h. eq_of_agrees a b (λ f. true_of_not (agrees_on a b f) (
      fields_complete (λ f. not (agrees_on a b f) ≡ false)
        (filter-eq-nil (λ f. not (agrees_on a b f)) fields h) f)),
  λ e. rw (← e) (filter-nil (λ f. not (agrees_on a a f)) fields (λ f. ap not (agrees_on_refl a f))),
)

or_false : (b : Bool) → (b || false) ≡ b
or_false true = refl
or_false false = refl

-- Of the three fields that decide the reason, each is reported exactly when it differs.
includes-changed_fields :
    (a b : DriftFingerprint)
    → (includes agent_wallet (changed_fields a b) ≡ not (agrees_on a b agent_wallet))
      × (includes subject_kind (changed_fields a b) ≡ not (agrees_on a b subject_kind))
      × (includes runtime_code_hash (changed_fields a b) ≡ not (agrees_on a b runtime_code_hash))
unfolding changed_fields
includes-changed_fields a b =
    let p = λ (f : DriftField). not (agrees_on a b f) in
    (
      any-filter (is_field agent_wallet) p fields ∙ or_false (p agent_wallet),
      any-filter (is_field subject_kind) p fields ∙ or_false (p subject_kind),
      any-filter (is_field runtime_code_hash) p fields ∙ or_false (p runtime_code_hash),
    )

drift_reason-eq-allowed : (fs : List DriftField) → (drift_reason fs ≡ allowed) ↔ (fs ≡ [])
unfolding drift_reason
drift_reason-eq-allowed [] = ((λ _. refl), λ _. refl)
drift_reason-eq-allowed (f ∷ fs) = ((λ h. absurd (ground arith)), λ h. cc)

-- The wallet and the kind of the subject come before everything else.
drift_reason-eq-subject_changed :
    (fs : List DriftField)
    → (drift_reason fs ≡ subject_changed)
      ↔ ((includes agent_wallet fs ≡ true) ⊎ (includes subject_kind fs ≡ true))
unfolding drift_reason
drift_reason-eq-subject_changed [] = ((λ h. cc), λ h. ground arith)
drift_reason-eq-subject_changed (f ∷ fs) = ((λ h. ground arith), λ h. ground arith)

wallet_agrees :
    (a b : DriftFingerprint)
    → (agrees_on a b agent_wallet ≡ true) ↔ (a.agent_wallet ≡ b.agent_wallet)
unfolding agrees_on
wallet_agrees a b = eq_iff a.agent_wallet b.agent_wallet

kind_agrees :
    (a b : DriftFingerprint)
    → (agrees_on a b subject_kind ≡ true) ↔ (a.subject_kind ≡ b.subject_kind)
unfolding agrees_on
kind_agrees a b = (eq_of_kind_index a.subject_kind b.subject_kind, λ e. rw e (ground arith))

nil_of_is_empty : (fs : List DriftField) → is_empty fs ≡ true → fs ≡ []
nil_of_is_empty [] h = refl
nil_of_is_empty (f ∷ fs) h = cc

subject_part :
    (a b : DriftFingerprint) (r : Reason)
    → r ≡ drift_reason (changed_fields a b)
    → (r ≡ subject_changed)
      ↔ ((a.agent_wallet ≢ b.agent_wallet) ⊎ (a.subject_kind ≢ b.subject_kind))
subject_part a b r e =
    let (wallet, kind, _) = includes-changed_fields a b in
    let (to, from) = drift_reason-eq-subject_changed (changed_fields a b) in
    (
      λ h. elim (to (sym e ∙ h)) [
        | inl w ↦ inl (λ same. ground (arith, (wallet_agrees a b).1 same))
        | inr k ↦ inr (λ same. ground (arith, (kind_agrees a b).1 same))
      ],
      λ h.
          e
          ∙ from (elim h [
            | inl w ↦ inl (wallet ∙ ap not (false_of_ne _ (λ t. w ((wallet_agrees a b).0 t))))
            | inr k ↦ inr (kind ∙ ap not (false_of_ne _ (λ t. k ((kind_agrees a b).0 t))))
          ]),
    )

-- A comparison that succeeds speaks of the two normalised fingerprints: it reports no drift exactly
-- when they are equal, its reason is ALLOWED exactly then, and it is SUBJECT_CHANGED exactly when
-- the wallet or the kind of the subject differs.
pub compare_drift_fingerprints_sound :
    (tools : Tools) (expected_input current_input : DriftFingerprint) (c : DriftComparison)
    → compare_drift_fingerprints tools expected_input current_input ≡ ok c
    → (a b : DriftFingerprint) × (build_drift_fingerprint tools expected_input ≡ ok a)
      × (build_drift_fingerprint tools current_input ≡ ok b)
      × ((c.is_drifted ≡ false) ↔ (a ≡ b))
      × ((c.reason ≡ allowed) ↔ (a ≡ b))
      × ((c.reason ≡ subject_changed)
          ↔ ((a.agent_wallet ≢ b.agent_wallet) ⊎ (a.subject_kind ≢ b.subject_kind)))
unfolding compare_drift_fingerprints
compare_drift_fingerprints_sound tools x y c h =
    elim (Result-cases (build_drift_fingerprint tools x)) [
      | inr (e, bad) ↦ absurd (ground arith)
      | inl (a, ea) ↦ elim (Result-cases (build_drift_fingerprint tools y)) [
        | inr (e, bad) ↦ absurd (ground arith)
        | inl (b, eb) ↦
            let fs = changed_fields a b in
            let drifted : c.is_drifted ≡ not (is_empty fs) = ground arith in
            let reason : c.reason ≡ drift_reason fs = ground arith in
            let (same, equal) = changed_fields-eq-nil a b in
            let (none_of, allowed_of) = drift_reason-eq-allowed fs in
            let (wallet, kind, _) = includes-changed_fields a b in
            (
              a,
              b,
              ea,
              eb,
              ((λ h. same (nil_of_is_empty fs (ground arith))), λ e. ground (arith, equal e)),
              ((λ h. same (none_of (sym reason ∙ h))), λ e. reason ∙ allowed_of (equal e)),
              subject_part a b c.reason reason,
            )
      ]
    ]
