-- ===== src/Http/Parser/Numbers/Laws.antt =====
-- When a field of some width keeps a number, and printed numbers read back.
use Prim.Native.Char.{code}
use Prim.Native.String.{[], ◌∷◌}
use mathlib.Core.Option.{some-injective}
use native.Mathlib.Nat.{mod-lt, mod-eq_of_lt, pow-le-pow_right}
use dfl.Base.{
  ℕ, ◌≤◌, inl, inr, Bool-cases, suc, ◌+◌, ◌-◌, ◌*◌, ◌^◌, ◌%◌, ◌<◌, ◌≡◌, refl, ap, String, true,
  false, Option, none, some, lt→ltb, is_digit, itoa, scan, scan-itoa, StartsDigit, itoa-StartsDigit,
  arith,
}
use dfl.Http.Parser.Numbers.{
  ℤ, pos, negsuc, parsed, scan_uint, parse_uint, parse_int, signed_of, wrap_int, of_bits,
}

-- The number is one of w + 1 bits, in two's complement.
abbrev pub Fits : ℕ → ℤ → Type 0
Fits w (pos n) = n < 2 ^ w
Fits w (negsuc n) = n < 2 ^ w

-- strconv.FormatInt in base 10.
unfoldable pub int_text : ℤ → String
int_text (pos n) = itoa n
int_text (negsuc n) = "-" ∷ itoa (suc n)

pow-suc : (w : ℕ) → 2 ^ suc w ≡ 2 ^ w + 2 ^ w
pow-suc w = omega arith

pow_pos : (w : ℕ) → 0 < 2 ^ w
pow_pos w =
    let least = pow-le-pow_right {n = 2} (omega arith) {i = 0} {j = w} (omega arith) in
    omega (arith, least)

pub of_bits-Fits : (w u : ℕ) → u < 2 ^ suc w → Fits w (of_bits (suc w) u)
of_bits-Fits w u h = ground (arith, pow-suc w)

pub wrap_int-Fits : (w : ℕ) (z : ℤ) → Fits w (wrap_int (suc w) z)
unfolding wrap_int
wrap_int-Fits w (pos n) = of_bits-Fits w (n % 2 ^ suc w) (mod-lt n (pow_pos (suc w)))
wrap_int-Fits w (negsuc n) =
    of_bits-Fits w (2 ^ suc w - 1 - n % 2 ^ suc w) (ground (arith, mod-lt n (pow_pos (suc w))))

pub wrap_int-Fits_self : (w : ℕ) (z : ℤ) → Fits w z → wrap_int (suc w) z ≡ z
unfolding wrap_int
wrap_int-Fits_self w (pos n) h =
    rw (mod-eq_of_lt {n = n} {m = 2 ^ suc w} (ground (arith, pow-suc w)))
      (ground (arith, pow-suc w))
wrap_int-Fits_self w (negsuc n) h =
    rw (mod-eq_of_lt {n = n} {m = 2 ^ suc w} (ground (arith, pow-suc w)))
      (ground (arith, pow-suc w))

scan_le : (s : String) (m n : ℕ) → scan s m ≡ some n → m ≤ n
unfolding scan
scan_le [] m n h = let e : m ≡ n = some-injective _ _ h in omega (arith, e)
scan_le (c ∷ s) m n h = elim (Bool-cases (is_digit c)) [
  | inl digit ↦
      let rest : scan s (m * 10 + (code c - 48)) ≡ some n = rw digit at h in
      omega (arith, scan_le s (m * 10 + (code c - 48)) n rest)
  | inr other ↦ (let bad : ◌≡◌ {A = Option ℕ} none (some n) = rw other at h in cc)
]

scan-scan_uint : (s : String) (m n : ℕ) → scan s m ≡ some n → n < 2 ^ 64 → scan_uint s m ≡ parsed n
unfolding scan scan_uint
scan-scan_uint [] m n h k = ap parsed (some-injective _ _ h)
scan-scan_uint (c ∷ s) m n h k = elim (Bool-cases (is_digit c)) [
  | inl digit ↦
      let rest : scan s (m * 10 + (code c - 48)) ≡ some n = rw digit at h in
      let fits = scan_le s (m * 10 + (code c - 48)) n rest in
      rw digit (
        rw (lt→ltb (m * 10 + (code c - 48)) (2 ^ 64) (omega (arith, fits, k)))
          (scan-scan_uint s (m * 10 + (code c - 48)) n rest k))
  | inr other ↦ (let bad : ◌≡◌ {A = Option ℕ} none (some n) = rw other at h in cc)
]

-- A text of digits, as strconv prints them, is read as the number when that is below 2 ^ 64.
parse_uint-digits :
    (s : String) (n : ℕ) → StartsDigit s → scan s 0 ≡ some n → n < 2 ^ 64 → parse_uint s ≡ parsed n
unfolding parse_uint
parse_uint-digits [] n starts h k = absurd starts
parse_uint-digits (c ∷ s) n starts h k = scan-scan_uint (c ∷ s) 0 n h k

pub parse_uint-itoa : (n : ℕ) → n < 2 ^ 64 → parse_uint (itoa n) ≡ parsed n
parse_uint-itoa n k = parse_uint-digits (itoa n) n (itoa-StartsDigit n) (scan-itoa n) k

unsigned : (s : String) → StartsDigit s → parse_int s ≡ signed_of false (parse_uint s)
unfolding parse_int is_digit
unsigned [] starts = absurd starts
unsigned (c ∷ s) starts = ground arith

minus : (s : String) → parse_int ("-" ∷ s) ≡ signed_of true (parse_uint s)
unfolding parse_int
minus s = refl

-- A printed integer of 64 bits reads back.
pub parse_int-int_text : (z : ℤ) → Fits 63 z → parse_int (int_text z) ≡ parsed z
unfolding int_text
parse_int-int_text (pos n) h =
    rw (unsigned (itoa n) (itoa-StartsDigit n))
      (rw (parse_uint-itoa n (omega arith)) (ground arith))
parse_int-int_text (negsuc n) h =
    rw (minus (itoa (suc n))) (rw (parse_uint-itoa (suc n) (omega arith)) (ground arith))
