-- ===== src/Base/Text.antt =====
-- Text as the source treats it: `toLowerCase` on ASCII and the patterns of its regular expressions.
pub mod Lowered
use Prim.Native.Nat.{ℕ, zero, suc, ◌+◌, ◌-◌, ◌*◌, ◌/◌, ◌%◌, ◌<◌}
use Prim.Native.Char.{Char, char, code, IsScalar}
use Prim.Native.String.{String, [], ◌∷◌}
use mathlib.Core.Path.{◌≡◌, refl, ap₂}
use mathlib.Core.Bool.{Bool, true, false, ◌&&◌, ◌||◌}
use mathlib.Core.Logic.{inl, inr}
use native.Mathlib.Omega.{arith}
use text.Mathlib.Text.{◌==◌}
use g_sentinel.Base.Tests.{leb, eqb, ltb, if◌then◌else◌, Bool-cases}

IsScalar-below : (n : ℕ) → n < 55296 → IsScalar n
IsScalar-below n h = ground arith

-- The ASCII character of a code.
unfoldable pub ascii : ℕ → Char
unfolding IsScalar-below
ascii n = char (n % 128) (IsScalar-below (n % 128) (omega arith))

is_upper : ℕ → Bool
is_upper c = leb b'A' c && leb c b'Z'

-- `toLowerCase` of one character; outside ASCII it is left as it is.
lower_char : Char → Char
unfolding ascii
lower_char c = if is_upper (code c) then ascii (code c + 32) else c

-- `s.toLowerCase()` for ASCII text.
unfoldable pub lower : String → String
unfolding lower_char is_upper
lower [] = []
lower (c ∷ s) = lower_char c ∷ lower s

not_upper_of_lowered : (n : ℕ) → is_upper n ≡ true → is_upper ((n + 32) % 128) ≡ false
unfolding is_upper
not_upper_of_lowered n h = ground arith

lower_char_idem : (c : Char) → lower_char (lower_char c) ≡ lower_char c
unfolding lower_char
lower_char_idem c = elim (Bool-cases (is_upper (code c))) [
  | inl up ↦ rw up (rw (not_upper_of_lowered (code c) up))
  | inr low ↦ rw (low, low)
]

-- Lower case is lower case already.
pub lower_idem : (s : String) → lower (lower s) ≡ lower s
unfolding lower
lower_idem [] = refl
lower_idem (c ∷ s) = ap₂ (λ x y. x ∷ y) (lower_char_idem c) (lower_idem s)

-- `a.toLowerCase() === b.toLowerCase()`
unfoldable pub same_text : String → String → Bool
unfolding lower
same_text a b = lower a == lower b

unfoldable pub is_digit : ℕ → Bool
is_digit c = leb b'0' c && leb c b'9'

is_hex_digit : ℕ → Bool
unfolding is_digit
is_hex_digit c = is_digit c || (leb b'a' c && leb c b'f') || (leb b'A' c && leb c b'F')

-- Exactly `n` hexadecimal digits.
hex_run : ℕ → String → Bool
unfolding is_hex_digit
hex_run zero [] = true
hex_run zero (c ∷ s) = false
hex_run (suc n) [] = false
hex_run (suc n) (c ∷ s) = is_hex_digit (code c) && hex_run n s

-- `/^0x[0-9a-fA-F]{n}$/`
unfoldable pub is_hex : ℕ → String → Bool
unfolding hex_run
is_hex n (a ∷ b ∷ s) = eqb (code a) b'0' && eqb (code b) b'x' && hex_run n s
is_hex n _ = false

-- `/^0x[0-9a-f]{n}$/i`, which allows `0X` too
unfoldable pub is_hex_i : ℕ → String → Bool
unfolding hex_run
is_hex_i n (a ∷ b ∷ s) =
    eqb (code a) b'0' && (eqb (code b) b'x' || eqb (code b) b'X') && hex_run n s
is_hex_i n _ = false

-- `s.trim() === ""`, for ASCII text
unfoldable pub is_blank : String → Bool
is_blank [] = true
is_blank (c ∷ s) = (eqb (code c) 32 || (leb 9 (code c) && leb (code c) 13)) && is_blank s

-- Between `n` and `n + extra` hexadecimal digits.
hex_between : ℕ → ℕ → String → Bool
unfolding is_hex_digit
hex_between zero zero [] = true
hex_between zero zero (c ∷ s) = false
hex_between zero (suc extra) [] = true
hex_between zero (suc extra) (c ∷ s) = is_hex_digit (code c) && hex_between zero extra s
hex_between (suc n) extra [] = false
hex_between (suc n) extra (c ∷ s) = is_hex_digit (code c) && hex_between n extra s

-- `/^rec_[0-9a-f]{16,64}$/i`
unfoldable pub is_recovery_id : String → Bool
unfolding hex_between lower
is_recovery_id (a ∷ b ∷ c ∷ d ∷ s) = lower (a ∷ b ∷ c ∷ d ∷ []) == "rec_" && hex_between 16 48 s
is_recovery_id _ = false

zero_run : String → Bool
zero_run [] = true
zero_run (c ∷ s) = eqb (code c) b'0' && zero_run s

-- After two characters only zeros: on text that `is_hex` or `is_hex_i` accepts, the test
-- `/^0x0{n}$/i`.
unfoldable pub is_zero_hex : String → Bool
unfolding zero_run
is_zero_hex (a ∷ b ∷ s) = zero_run s
is_zero_hex _ = false

-- `/^[A-Za-z0-9._:-]{8,128}$/`
is_key_char : ℕ → Bool
unfolding is_digit is_upper
is_key_char c =
    is_upper c
    || (leb b'a' c && leb c b'z')
    || is_digit c
    || eqb c b'.'
    || eqb c b'_'
    || eqb c b':'
    || eqb c b'-'

key_run : String → Bool
unfolding is_key_char
key_run [] = true
key_run (c ∷ s) = is_key_char (code c) && key_run s

unfoldable pub text_length : String → ℕ
text_length [] = 0
text_length (c ∷ s) = suc (text_length s)

unfoldable pub is_idempotency_key : String → Bool
unfolding key_run text_length
is_idempotency_key s = key_run s && leb 8 (text_length s) && leb (text_length s) 128

lower_test : lower "0xAbC" ≡ "0xabc"
unfolding lower
lower_test = refl
