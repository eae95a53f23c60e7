-- ===== src/Base/Decimal.antt =====
-- Decimal numbers as the standard library's package strconv reads and prints them, over native
-- text.
use Prim.Native.Char.{Char, code}
use Prim.Native.String.{String, [], ◌∷◌}
use Prim.Native.Nat.{ℕ, zero, suc, ◌+◌, ◌*◌, ◌-◌, ◌/◌, ◌%◌, ◌<◌}
use mathlib.Core.Path.{◌≡◌, refl, ◌∙◌}
use mathlib.Core.Bool.{Bool, ◌&&◌, true}
use mathlib.Core.Option.{Option, none, some}
use native.Mathlib.Omega.{arith}
use dfl.Base.Tests.{leb, ◌==◌, if◌then◌else◌, Bool-cases, ==_iff}
use mathlib.Core.Logic.{inl, inr, ◌⊎◌, ◌≢◌}

unfoldable pub is_digit : Char → Bool
is_digit c = leb 48 (code c) && leb (code c) 57

unfoldable pub digit_char : ℕ → Char
digit_char zero = "0"
digit_char (suc zero) = "1"
digit_char (suc (suc zero)) = "2"
digit_char (suc (suc (suc zero))) = "3"
digit_char (suc (suc (suc (suc zero)))) = "4"
digit_char (suc (suc (suc (suc (suc zero))))) = "5"
digit_char (suc (suc (suc (suc (suc (suc zero)))))) = "6"
digit_char (suc (suc (suc (suc (suc (suc (suc zero))))))) = "7"
digit_char (suc (suc (suc (suc (suc (suc (suc (suc zero)))))))) = "8"
digit_char _ = "9"

-- The value of a run of digits behind the number read so far; `none` at any other character.
unfoldable pub scan : String → ℕ → Option ℕ
unfolding is_digit
scan [] n = some n
scan (c ∷ s) n = let rest = scan s (n * 10 + (code c - 48)) in if is_digit c then rest else none

-- The digits of a number in front of a text. The fuel is above the number.
unfoldable pub emit : ℕ → ℕ → String → String
emit zero n out = out
emit (suc f) n out =
    let more = emit f (n / 10) (digit_char (n % 10) ∷ out) in if n == 0 then out else more

-- strconv.Itoa of a number that is not negative.
unfoldable pub itoa : ℕ → String
itoa n = if n == 0 then "0" else emit (suc n) n []

digit_char-code : (d : ℕ) → d < 10 → code (digit_char d) ≡ 48 + d
unfolding digit_char
digit_char-code zero h = refl
digit_char-code (suc zero) h = refl
digit_char-code (suc (suc zero)) h = refl
digit_char-code (suc (suc (suc zero))) h = refl
digit_char-code (suc (suc (suc (suc zero)))) h = refl
digit_char-code (suc (suc (suc (suc (suc zero))))) h = refl
digit_char-code (suc (suc (suc (suc (suc (suc zero)))))) h = refl
digit_char-code (suc (suc (suc (suc (suc (suc (suc zero))))))) h = refl
digit_char-code (suc (suc (suc (suc (suc (suc (suc (suc zero)))))))) h = refl
digit_char-code (suc (suc (suc (suc (suc (suc (suc (suc (suc zero))))))))) h = refl
digit_char-code (suc (suc (suc (suc (suc (suc (suc (suc (suc (suc d)))))))))) h =
    absurd (omega arith)

scan-digit : (d n : ℕ) (s : String) → d < 10 → scan (digit_char d ∷ s) n ≡ scan s (n * 10 + d)
unfolding scan
scan-digit d n s h = ground (arith, digit_char-code d h)

-- Reading the digits of `n` in front of a text is reading the text behind `n`.
scan-emit : (f n : ℕ) (out : String) → n < f → scan (emit f n out) 0 ≡ scan out n
unfolding emit
scan-emit zero n out h = absurd (omega arith)
scan-emit (suc f) n out h = elim (Bool-cases (n == 0)) [
  | inl stop ↦ rw stop (let e : n ≡ 0 = (==_iff n 0).0 stop in rw e)
  | inr more ↦ rw more (
      scan-emit f (n / 10) (digit_char (n % 10) ∷ out) (ground arith)
      ∙ scan-digit (n % 10) (n / 10) out (omega arith)
      ∙ (let e : n / 10 * 10 + n % 10 ≡ n = omega arith in rw e))
]

-- Printing a number and reading it back gives the number.
pub scan-itoa : (n : ℕ) → scan (itoa n) 0 ≡ some n
unfolding itoa scan
scan-itoa n = elim (Bool-cases (n == 0)) [
  | inl stop ↦ rw stop (let e : n ≡ 0 = (==_iff n 0).0 stop in rw e)
  | inr more ↦ rw more (scan-emit (suc n) n [] (omega arith))
]

-- The text begins with a digit.
abbrev pub StartsDigit : String → Type 0
StartsDigit [] = ⊥
StartsDigit (c ∷ s) = is_digit c ≡ true

digit_char-is_digit : (d : ℕ) → d < 10 → is_digit (digit_char d) ≡ true
unfolding is_digit
digit_char-is_digit d h = ground (arith, digit_char-code d h)

emit-StartsDigit :
    (f n : ℕ) (out : String) → n < f → (n ≢ 0) ⊎ StartsDigit out → StartsDigit (emit f n out)
unfolding emit
emit-StartsDigit zero n out h k = absurd (omega arith)
emit-StartsDigit (suc f) n out h k = elim (Bool-cases (n == 0)) [
  | inl stop ↦ rw stop (elim k [ inl pos ↦ absurd (ground arith) | inr starts ↦ starts ])
  | inr more ↦ rw more (
      emit-StartsDigit f (n / 10) (digit_char (n % 10) ∷ out) (ground arith)
        (inr (digit_char-is_digit (n % 10) (omega arith))))
]

-- A printed number begins with a digit.
pub itoa-StartsDigit : (n : ℕ) → StartsDigit (itoa n)
unfolding itoa is_digit
itoa-StartsDigit n = elim (Bool-cases (n == 0)) [
  | inl stop ↦ rw stop refl
  | inr more ↦ rw more (emit-StartsDigit (suc n) n [] (omega arith) (inl (ground arith)))
]
