-- ===== src/Base/Texts.antt =====
-- The functions of Go's package strings that the sources call. A Go string is read as its sequence
-- of code points.
use Prim.Native.Nat.{ℕ}
use Prim.Native.Char.{code}
use Prim.Native.String
use Prim.Native.String.{String, [], ◌∷◌}
use mathlib.Core.Bool.{Bool, false, ◌&&◌, ◌||◌}
use mathlib.Core.List.{List}
use text.Mathlib.Text.{◌==◌ as text_eq}
use dfl.Base.Tests.{◌==◌, leb, if◌then◌else◌}

abbrev pub str_eq : String → String → Bool
str_eq = text_eq

infixl 65 ◌+s◌
-- `a + b` on strings.
abbrev pub ◌+s◌ : String → String → String
◌+s◌ = String.◌++◌

-- unicode.IsSpace
unfoldable pub is_space : ℕ → Bool
is_space c =
    (leb 9 c && leb c 13)
    || c == 0x20
    || c == 0x85
    || c == 0xA0
    || c == 0x1680
    || (leb 0x2000 c && leb c 0x200A)
    || c == 0x2028
    || c == 0x2029
    || c == 0x202F
    || c == 0x205F
    || c == 0x3000

unfoldable pub trim_left : String → String
trim_left [] = []
trim_left (c ∷ s) = let rest = trim_left s in if is_space (code c) then rest else c ∷ s

unfoldable pub trim_right : String → String
trim_right [] = []
trim_right (c ∷ s) =
    let rest = trim_right s in if is_space (code c) && str_eq rest [] then [] else c ∷ rest

-- strings.TrimSpace
unfoldable pub trim_space : String → String
unfolding trim_left trim_right is_space
trim_space s = trim_right (trim_left s)

-- The part before the separator that strings.Cut returns, all of the text when there is none.
unfoldable pub cut_before : ℕ → String → String
cut_before sep [] = []
cut_before sep (c ∷ s) = let rest = cut_before sep s in if code c == sep then [] else c ∷ rest

-- strings.Join
unfoldable pub join : String → List String → String
join sep List.[] = []
join sep (List.◌∷◌ x List.[]) = x
join sep (List.◌∷◌ x (List.◌∷◌ y ys)) = x +s sep +s join sep (List.◌∷◌ y ys)

-- slices.Contains on a slice of strings.
unfoldable pub contains : List String → String → Bool
contains List.[] x = false
contains (List.◌∷◌ y ys) x = str_eq y x || contains ys x

-- strings.HasSuffix
unfoldable pub has_suffix : String → String → Bool
has_suffix [] suffix = str_eq [] suffix
has_suffix (c ∷ s) suffix = str_eq (c ∷ s) suffix || has_suffix s suffix
