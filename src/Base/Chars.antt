-- ===== src/Base/Chars.antt =====
-- Texts character by character: strings.ToLower, and what maps and filters of a text keep.
use Prim.Native.Nat.{ℕ, zero, suc, ◌-◌}
use Prim.Native.Char.{Char, code}
use Prim.Native.String.{String, [], ◌∷◌}
use mathlib.Core.Path.{◌≡◌, refl}
use mathlib.Core.Bool.{Bool, true, false, ◌&&◌}
use native.Mathlib.Omega.{arith}
use dfl.Base.Tests.{◌==◌, leb, if◌then◌else◌, Bool-cases}
use mathlib.Core.Logic.{inl, inr}

unfoldable pub map_text : (Char → Char) → String → String
map_text f [] = []
map_text f (c ∷ s) = f c ∷ map_text f s

unfoldable pub all_chars : (Char → Bool) → String → Bool
all_chars p [] = true
all_chars p (c ∷ s) = p c && all_chars p s

unfoldable pub keep_chars : (Char → Bool) → String → String
keep_chars p [] = []
keep_chars p (c ∷ s) = let rest = keep_chars p s in if p c then c ∷ rest else rest

-- The character at a place, a hyphen past the end.
unfoldable pub nth_char : String → ℕ → Char
nth_char [] k = "-"
nth_char (c ∷ s) zero = c
nth_char (c ∷ s) (suc k) = nth_char s k

unfoldable pub small_letters : String
small_letters = "abcdefghijklmnopqrstuvwxyz"

-- unicode.ToLower, as far as its result is an ASCII character: of all others only U+0130 and U+212A
-- have one there. Every other character stays, and its lower case is not ASCII either.
unfoldable pub lower : Char → Char
unfolding nth_char small_letters
lower c =
    if leb 65 (code c) && leb (code c) 90
    then nth_char small_letters (code c - 65)
    else if code c == 0x130
    then "i"
    else if code c == 0x212A
    then "k"
    else c

pub all_chars-nth_char :
    (p : Char → Bool) (s : String) (k : ℕ)
    → all_chars p s ≡ true
    → p "-" ≡ true
    → p (nth_char s k) ≡ true
unfolding all_chars nth_char
all_chars-nth_char p [] k h d = d
all_chars-nth_char p (c ∷ s) zero h d = ground (arith, h)
all_chars-nth_char p (c ∷ s) (suc k) h d = all_chars-nth_char p s k (ground (arith, h)) d

pub all_chars-map_text :
    (p : Char → Bool) (f : Char → Char) (s : String)
    → ((c : Char) → p (f c) ≡ true)
    → all_chars p (map_text f s) ≡ true
unfolding all_chars map_text
all_chars-map_text p f [] h = refl
all_chars-map_text p f (c ∷ s) h = ground (arith, h c, all_chars-map_text p f s h)

-- A map that leaves each of a text's characters leaves the text.
pub map_text_same :
    (p : Char → Bool) (f : Char → Char) (s : String)
    → ((c : Char) → p c ≡ true → f c ≡ c)
    → all_chars p s ≡ true
    → map_text f s ≡ s
unfolding all_chars map_text
map_text_same p f [] h k = refl
map_text_same p f (c ∷ s) h k = elim (Bool-cases (p c)) [
  | inl here ↦ rw (h c here, map_text_same p f s h (rw here at k)) refl
  | inr not_here ↦ (let bad : false ≡ true = rw not_here at k in cc)
]

pub all_chars-keep_chars : (p : Char → Bool) (s : String) → all_chars p (keep_chars p s) ≡ true
unfolding all_chars keep_chars
all_chars-keep_chars p [] = refl
all_chars-keep_chars p (c ∷ s) = ground (arith, all_chars-keep_chars p s)
