-- ===== src/Base/Text/Lowered.antt =====
-- What lower case leaves as it is: hexadecimal texts and their zeros.
use Prim.Native.Nat.{ℕ, zero, suc, ◌+◌, ◌<◌}
use Prim.Native.Char.{Char, code}
use Prim.Native.String.{String, [], ◌∷◌}
use mathlib.Core.Path.{◌≡◌, refl, ap₂}
use mathlib.Core.Bool.{true, ◌&&◌}
use mathlib.Core.Logic.{inl, inr}
use native.Mathlib.Omega.{arith}
use g_sentinel.Base.Tests.{eqb, if◌then◌else◌, Bool-cases}
use g_sentinel.Base.Text.{
  ascii, lower_char, lower, is_upper, is_digit, is_hex_digit, hex_run, is_hex, zero_run,
  is_zero_hex,
}

pub code_ascii : (n : ℕ) → n < 128 → code (ascii n) ≡ n
unfolding ascii
code_ascii n h = omega arith

upper_below : (n : ℕ) → is_upper n ≡ true → n + 32 < 128
unfolding is_upper
upper_below n h = ground arith

code-lower_char :
    (c : Char) → code (lower_char c) ≡ (if is_upper (code c) then code c + 32 else code c)
unfolding lower_char
code-lower_char c = elim (Bool-cases (is_upper (code c))) [
  | inl up ↦ rw up (code_ascii (code c + 32) (upper_below (code c) up))
  | inr low ↦ rw low refl
]

lower_char-hex :
    (c : Char) → is_hex_digit (code c) ≡ true → is_hex_digit (code (lower_char c)) ≡ true
unfolding is_hex_digit is_upper is_digit
lower_char-hex c h = let e = code-lower_char c in ground arith

lower-hex_run : (n : ℕ) (s : String) → hex_run n s ≡ true → hex_run n (lower s) ≡ true
unfolding hex_run lower
lower-hex_run zero [] h = refl
lower-hex_run zero (c ∷ s) h = cc
lower-hex_run (suc n) [] h = cc
lower-hex_run (suc n) (c ∷ s) h =
    rw (lower_char-hex c (ground arith), lower-hex_run n s (ground arith)) refl

lower_char-zero : (c : Char) → eqb (code (lower_char c)) b'0' ≡ eqb (code c) b'0'
unfolding is_upper
lower_char-zero c = let e = code-lower_char c in ground arith

lower-zero_run : (s : String) → zero_run (lower s) ≡ zero_run s
unfolding zero_run lower
lower-zero_run [] = refl
lower-zero_run (c ∷ s) = ap₂ (λ x y. x && y) (lower_char-zero c) (lower-zero_run s)

-- A hexadecimal text is one in lower case too.
pub lower-hex : (n : ℕ) (s : String) → is_hex n s ≡ true → is_hex n (lower s) ≡ true
unfolding is_hex lower is_upper
lower-hex n [] h = h
lower-hex n (a ∷ []) h = h
lower-hex n (a ∷ b ∷ s) h =
    let ea = code-lower_char a in
    let eb = code-lower_char b in let r = lower-hex_run n s (ground arith) in ground arith

pub lower-zero_hex : (s : String) → is_zero_hex (lower s) ≡ is_zero_hex s
unfolding is_zero_hex lower
lower-zero_hex [] = refl
lower-zero_hex (a ∷ []) = refl
lower-zero_hex (a ∷ b ∷ s) = lower-zero_run s
