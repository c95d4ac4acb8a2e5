-- ===== src/Base/Decimal.antt =====
-- Numbers in decimal: the patterns of the source's regular expressions, `Number(s)`, and `String(n)`.
use Prim.Native.Nat.{ℕ, zero, suc, ◌+◌, ◌-◌, ◌*◌, ◌/◌, ◌%◌, ◌<◌, ◌≤◌}
use Prim.Native.Char.{Char, code}
use Prim.Native.String.{String, [], ◌∷◌}
use mathlib.Core.Path.{◌≡◌, refl, ap}
use mathlib.Core.Bool.{Bool, true, false, ◌&&◌, ◌||◌}
use mathlib.Core.Logic.{inl, inr}
use native.Mathlib.Omega.{arith}
use text.Mathlib.Text.{◌==◌}
use g_sentinel.Base.Tests.{leb, eqb, ltb, if◌then◌else◌, Bool-cases}
use g_sentinel.Base.Text.Lowered.{code_ascii}
use g_sentinel.Base.Text.{is_digit, ascii}

-- `/^[1-9]\d*$/`
digit_run : String → Bool
unfolding is_digit
digit_run [] = true
digit_run (c ∷ s) = is_digit (code c) && digit_run s

unfoldable pub is_positive_decimal : String → Bool
unfolding digit_run
is_positive_decimal [] = false
is_positive_decimal (c ∷ s) = leb b'1' (code c) && leb (code c) b'9' && digit_run s

-- `/^(0|[1-9]\d*)$/`
unfoldable pub is_canonical_decimal : String → Bool
unfolding digit_run
is_canonical_decimal [] = false
is_canonical_decimal (c ∷ s) =
    (eqb (code c) b'0' && s == "") || (leb b'1' (code c) && leb (code c) b'9' && digit_run s)

decimal_value_from : ℕ → String → ℕ
decimal_value_from acc [] = acc
decimal_value_from acc (c ∷ s) = decimal_value_from (acc * 10 + (code c - b'0')) s

-- `Number(s)` of a decimal text, exactly; JavaScript rounds beyond the safe integers.
unfoldable pub decimal_value : String → ℕ
unfolding decimal_value_from
decimal_value s = decimal_value_from 0 s

-- `String(n)` for a bigint that is not negative; `n + 1` rounds are more than it has digits.
decimal_from : ℕ → ℕ → String → String
decimal_from zero n acc = acc
decimal_from (suc fuel) n acc =
    let next : String = ascii (48 + n % 10) ∷ acc in
    let rest = decimal_from fuel (n / 10) next in if ltb n 10 then next else rest

unfoldable pub decimal : ℕ → String
unfolding decimal_from
decimal n = decimal_from (suc n) n ""

decimal_test : decimal 907 ≡ "907"
unfolding decimal ascii decimal_from
decimal_test = refl

module _ (n : ℕ) where
  abbrev last_digit : Char
  last_digit = ascii (48 + n % 10)

  code-last_digit : code (ascii (48 + n % 10)) ≡ 48 + n % 10
  code-last_digit = code_ascii (48 + n % 10) (omega arith)

decimal_from-value :
    (fuel n : ℕ) (acc : String)
    → n < fuel
    → decimal_value_from 0 (decimal_from fuel n acc) ≡ decimal_value_from n acc
unfolding decimal_from decimal_value_from
decimal_from-value zero n acc h = omega arith
decimal_from-value (suc fuel) n acc h = elim (Bool-cases (ltb n 10)) [
  | inl small ↦
      rw small (ap (λ k. decimal_value_from k acc) (let e = code-last_digit n in ground arith))
  | inr large ↦
      rw (large, decimal_from-value fuel (n / 10) (last_digit n ∷ acc) (ground arith))
        (ap (λ k. decimal_value_from k acc) (let e = code-last_digit n in ground arith))
]

decimal_from-digits :
    (fuel n : ℕ) (acc : String)
    → 1 ≤ n
    → n < fuel
    → digit_run acc ≡ true
    → is_positive_decimal (decimal_from fuel n acc) ≡ true
unfolding decimal_from is_positive_decimal digit_run is_digit
decimal_from-digits zero n acc p h d = ground arith
decimal_from-digits (suc fuel) n acc p h d = elim (Bool-cases (ltb n 10)) [
  | inl small ↦ rw (small, code-last_digit n, d) (ground arith)
  | inr large ↦ rw large (
      decimal_from-digits fuel (n / 10) (last_digit n ∷ acc) (ground arith) (ground arith)
        (rw (code-last_digit n, d) (ground arith)))
]

-- A number is read back from its decimal spelling.
pub decimal_value-decimal : (n : ℕ) → decimal_value (decimal n) ≡ n
unfolding decimal_value decimal decimal_value_from
decimal_value-decimal n = decimal_from-value (suc n) n "" (omega arith)

pub decimal-positive : (n : ℕ) → 1 ≤ n → is_positive_decimal (decimal n) ≡ true
unfolding decimal digit_run
decimal-positive n p = decimal_from-digits (suc n) n "" p (omega arith) refl
