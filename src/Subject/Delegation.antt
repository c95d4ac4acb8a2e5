-- ===== src/Subject/Delegation.antt =====
-- What `delegationTarget` of subject/classify.ts takes for a delegation: the code of EIP-7702.
use g_sentinel.Base.{
  ℕ, String, Bool, true, false, ◌&&◌, Option, none, some, ◌≡◌, refl, sym, arith, eqb, subst,
}
use Prim.Native.String.{◌++◌, slice, len}
use text.Mathlib.Text.{starts_with}
use text.Mathlib.TextEquality.{starts_with_iff}
use text.Mathlib.TextPositions.{len-append, slice-append_right, starts_with-append}
use g_sentinel.Subject.Chain.{Tools, Yields, pure-Yields, then-Yields, given_at-some}
use g_sentinel.Subject.Classify.{is_lower_hex40, address_of, delegation_target_of}

-- The code is 0xef0100 and the forty lower-case hexadecimal digits of an address.
abbrev pub IsDelegation : String → String → Type 0
IsDelegation digits code =
    (code ≡ "0xef0100" ++ digits) × (len digits ≡ 40) × (is_lower_hex40 digits ≡ true)

-- The test of the regular expression
abbrev fits : String → Bool
fits code = eqb (len code) 48 && starts_with code "0xef0100" && is_lower_hex40 (slice code 8 48)

slice_digits : (digits : String) → len digits ≡ 40 → slice ("0xef0100" ++ digits) 8 48 ≡ digits
slice_digits digits l = let e = slice-append_right "0xef0100" digits in rw l at e

fits-IsDelegation : (code : String) → fits code ≡ true → IsDelegation (slice code 8 48) code
fits-IsDelegation code h =
    let (digits, e) = (starts_with_iff code "0xef0100").0 (ground arith) in
    let long : len code ≡ 48 = ground arith in
    let sum = len-append "0xef0100" digits in
    let short : len digits ≡ 40 =
      (let total : len ("0xef0100" ++ digits) ≡ 48 = rw e long in omega arith) in
    let same : slice code 8 48 ≡ digits =
      subst (λ c. slice c 8 48 ≡ digits) e (slice_digits digits short) in
    let lower_hex : is_lower_hex40 (slice code 8 48) ≡ true = ground arith in
    rw same (sym e, short, rw same at lower_hex)

IsDelegation-fits : (digits code : String) → IsDelegation digits code → fits code ≡ true
IsDelegation-fits digits code (e, l, h) =
    let sum = len-append "0xef0100" digits in
    let total : len ("0xef0100" ++ digits) ≡ 48 = omega arith in
    rw (e, total, starts_with-append "0xef0100" digits, slice_digits digits l, h) refl

module _ (tools : Tools) where
  -- The target of a code, or that it is no delegation.
  abbrev pub DelegatesTo : String → Option String → Type 0
  DelegatesTo code none = ¬ ((digits : String) × IsDelegation digits code)
  DelegatesTo code (some target) =
      (digits : String) × IsDelegation digits code
      × (tools.get_address ("0x" ++ digits) ≡ some target)

  address_of-DelegatesTo :
      (b : Bool) (code : String) (start : ℕ)
      → fits code ≡ b
      → Yields
          (address_of tools b (slice code 8 48) start)
          λ t after. DelegatesTo code t × (start ≡ after)
  address_of-DelegatesTo false code start h =
      pure-Yields ((λ (digits, d). let e = IsDelegation-fits digits code d in cc), refl)
  address_of-DelegatesTo true code start h = then-Yields _ λ target m e.
      let (a, t) = given_at-some _ _ _ _ _ e in
      pure-Yields ((slice code 8 48, fits-IsDelegation code h, a), t)

  -- A target is given exactly for the code of a delegation, and is its address.
  pub delegation_target_of-DelegatesTo :
      (code : String) (start : ℕ)
      → Yields
          (delegation_target_of tools code start)
          λ t after. DelegatesTo code t × (start ≡ after)
  unfolding delegation_target_of
  delegation_target_of-DelegatesTo code start = address_of-DelegatesTo (fits code) code start refl
