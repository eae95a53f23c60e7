-- ===== src/Http/Parser/Numbers.antt =====
-- What strconv reads from a text and what reflect keeps of it in a field: ParseBool, ParseInt and
-- ParseUint in base 10 with 64 bits, SetInt and SetUint. A machine integer is its value; a field of w
-- bits keeps it modulo 2 ^ w, in two's complement when it is signed.
pub mod Laws
use Prim.Native.Char.{code}
use Prim.Native.String.{[], ◌∷◌}
use dfl.Base.{
  ℕ, zero, suc, ◌+◌, ◌-◌, ◌*◌, ◌^◌, ◌%◌, String, Bool, true, false, List, Option, none, some, ltb,
  leb, ◌==◌, contains, if◌then◌else◌, is_digit,
}

-- An integer: `negsuc n` is - (n + 1).
pub data ℤ : Type 0 where
  pos : ℕ → ℤ
  negsuc : ℕ → ℤ

-- Why strconv refuses a text: ErrSyntax or ErrRange.
pub data NumError : Type 0 where
  syntax_error : NumError
  range_error : NumError

pub data Parsed (A : Type 0) : Type 0 where
  parsed : A → Parsed A
  refused : NumError → Parsed A

-- One more digit: past 64 bits the reading ends there, whatever follows.
abbrev pub if_fits : ℕ → Parsed ℕ → Parsed ℕ
if_fits n rest = if ltb n (2 ^ 64) then rest else refused range_error

-- The loop of ParseUint, behind the number read so far.
unfoldable pub scan_uint : String → ℕ → Parsed ℕ
unfolding is_digit
scan_uint [] n = parsed n
scan_uint (c ∷ s) n =
    let next = n * 10 + (code c - 48) in
    let rest = scan_uint s next in if is_digit c then if_fits next rest else refused syntax_error

unfoldable pub parse_uint : String → Parsed ℕ
unfolding scan_uint
parse_uint [] = refused syntax_error
parse_uint (c ∷ s) = scan_uint (c ∷ s) 0

-- ParseInt behind the sign, which is + where the flag is false.
abbrev pub signed_of : Bool → Parsed ℕ → Parsed ℤ
signed_of neg (refused e) = refused e
signed_of false (parsed n) = if ltb n (2 ^ 63) then parsed (pos n) else refused range_error
signed_of true (parsed zero) = parsed (pos 0)
signed_of true (parsed (suc n)) = if ltb n (2 ^ 63) then parsed (negsuc n) else refused range_error

unfoldable pub parse_int : String → Parsed ℤ
unfolding parse_uint
parse_int [] = refused syntax_error
parse_int (c ∷ s) =
    let plain = signed_of false (parse_uint (c ∷ s)) in
    let plus = signed_of false (parse_uint s) in
    let minus = signed_of true (parse_uint s) in
    if code c == 43 then plus else if code c == 45 then minus else plain

unfoldable pub true_texts : List String
true_texts =
    List.◌∷◌ "1"
      (List.◌∷◌ "t" (List.◌∷◌ "T" (List.◌∷◌ "TRUE" (List.◌∷◌ "true" (List.◌∷◌ "True" List.[])))))

unfoldable pub false_texts : List String
false_texts =
    List.◌∷◌ "0"
      (List.◌∷◌ "f" (List.◌∷◌ "F" (List.◌∷◌ "FALSE" (List.◌∷◌ "false" (List.◌∷◌ "False" List.[])))))

unfoldable pub parse_bool : String → Parsed Bool
unfolding contains true_texts false_texts
parse_bool s =
    if contains true_texts s
    then parsed true
    else if contains false_texts s
    then parsed false
    else refused syntax_error

-- SetUint on a field of w bits.
unfoldable pub wrap_uint : ℕ → ℕ → ℕ
wrap_uint w n = n % 2 ^ w

-- The signed number of a pattern of w bits.
abbrev pub of_bits : ℕ → ℕ → ℤ
of_bits w u = if ltb u (2 ^ (w - 1)) then pos u else negsuc (2 ^ w - 1 - u)

-- SetInt on a field of w bits.
unfoldable pub wrap_int : ℕ → ℤ → ℤ
wrap_int w (pos n) = of_bits w (n % 2 ^ w)
wrap_int w (negsuc n) = of_bits w (2 ^ w - 1 - n % 2 ^ w)
