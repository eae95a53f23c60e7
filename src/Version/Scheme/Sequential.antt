-- ===== src/Version/Scheme/Sequential.antt =====
-- The counted versions of http/version/version.go: seqScheme. A version is never negative, since
-- Parse reads digits alone; strconv.Atoi fails above the 64-bit int.
use Prim.Native.Char.{code}
use Prim.Native.Nat.{compare}
use dfl.Base.{
  ℕ, ◌^◌, ◌<◌, ◌≡◌, String, true, false, ◌||◌, Option, none, some, if◌then◌else◌, str_eq, eq_iff,
  ltb, ◌==◌, scan, itoa, arith, lt→ltb, Bool-cases, inl, inr, is_digit, scan-itoa, itoa-StartsDigit,
  StartsDigit, ◌+s◌,
}
use text.Mathlib.TextLemmas.{cons-ne-nil}
use dfl.GoErrors.{Error, plain, Result, ok, failed}
use dfl.Version.Scheme.{Scheme, IsOrder}

-- strings.ToLower and strings.TrimPrefix of "v". No other letter turns into a v or a digit, and
-- digits have no case.
unfoldable pub trim_v : String → String
trim_v String.[] = String.[]
trim_v (String.◌∷◌ c s) = if code c == b'v' || code c == b'V' then s else String.◌∷◌ c s

abbrev pub bad_sequence : String → Error
bad_sequence raw = plain 0 ("not a version number like v2: " +s raw)

-- What Atoi gives for the digits read.
abbrev pub in_range : String → Option ℕ → Result ℕ
in_range raw none = failed (bad_sequence raw)
in_range raw (some n) = if ltb n (2 ^ 63) then ok n else failed (bad_sequence raw)

unfoldable pub parse : String → Result ℕ
parse raw =
    let digits = trim_v raw in
    if str_eq digits "" then failed (bad_sequence raw) else in_range raw (scan digits 0)

unfoldable pub format : ℕ → String
format v = String.◌∷◌ "v" (itoa v)

-- Sequential
abbrev pub sequential : Scheme ℕ
sequential = record { parse = parse; compare = compare; format = format }

-- The versions are totally ordered.
pub sequential-IsOrder : IsOrder sequential.compare
sequential-IsOrder = record {
  equal_self = λ a. ground arith;
  swapped = λ a b. ground arith;
  le_trans = λ a b c h k. ground arith;
}

-- A text that begins with a digit is not empty, and keeps its first character.
digits-trim_v : (s : String) → StartsDigit s → (trim_v s ≡ s) × (str_eq s "" ≡ false)
unfolding trim_v is_digit
digits-trim_v String.[] h = absurd h
digits-trim_v (String.◌∷◌ c s) h =
    (ground arith, ground (arith, eq_iff (String.◌∷◌ c s) "", cons-ne-nil c s))

-- Every version below 2 ^ 63 prints to a text that parses to it again, and the v may be left off or be a capital.
pub parse-format :
    (n : ℕ)
    → n < 2 ^ 63
    → (parse (format n) ≡ ok n) × (parse (itoa n) ≡ ok n) × (parse (String.◌∷◌ "V" (itoa n)) ≡ ok n)
unfolding parse format trim_v
parse-format n h =
    let (kept, full) = digits-trim_v (itoa n) (itoa-StartsDigit n) in
    let below : ltb n (2 ^ 63) ≡ true = lt→ltb n (2 ^ 63) h in
    (
      rw (full, scan-itoa n, below),
      rw (kept) (rw (full, scan-itoa n, below)),
      rw (full, scan-itoa n, below),
    )

in_range-lt : (raw : String) (o : Option ℕ) (n : ℕ) → in_range raw o ≡ ok n → n < 2 ^ 63
in_range-lt raw none n h = cc
in_range-lt raw (some m) n h = ground arith

-- Whatever parses is a 64-bit version.
pub parse-lt : (raw : String) (n : ℕ) → parse raw ≡ ok n → n < 2 ^ 63
unfolding parse
parse-lt raw n h = elim (Bool-cases (str_eq (trim_v raw) "")) [
  | inl empty ↦ (let bad : failed (bad_sequence raw) ≡ ok n = rw empty at h in cc)
  | inr full ↦ in_range-lt raw (scan (trim_v raw) 0) n (rw full at h)
]
