-- ===== src/Events/Headers/Tally.antt =====
-- An encoding of headers that keeps what the package relies on of encoding/json: a tally of the
-- headers in front of their texts, each character under a mark.
use Prim.Native.Char.{Char, code}
use Prim.Native.String
use dfl.Base.{
  ℕ, zero, suc, ◌+◌, ◌≡◌, ◌≢◌, refl, ap, ◌∙◌, String, List, [], ◌∷◌, some, if◌then◌else◌, ◌==◌,
  length, arith,
}
use dfl.Events.Headers.{HeaderJson, IsFaithful}

unfoldable pub put_text : String → String → String
put_text Prim.Native.String.[] out = Prim.Native.String.◌∷◌ "e" out
put_text (Prim.Native.String.◌∷◌ c s) out =
    Prim.Native.String.◌∷◌ "x" (Prim.Native.String.◌∷◌ c (put_text s out))

abbrev add_char : Char → String × String → String × String
add_char c (s, rest) = (Prim.Native.String.◌∷◌ c s, rest)

-- The text in front, and what stands behind it.
unfoldable pub take_text : String → String × String
take_text Prim.Native.String.[] = (Prim.Native.String.[], Prim.Native.String.[])
take_text (Prim.Native.String.◌∷◌ m Prim.Native.String.[]) =
    (Prim.Native.String.[], Prim.Native.String.[])
take_text (Prim.Native.String.◌∷◌ m (Prim.Native.String.◌∷◌ c s)) =
    let rest = take_text s in
    if code m == 120 then add_char c rest else (Prim.Native.String.[], Prim.Native.String.◌∷◌ c s)

unfoldable pub put_headers : List (String × String) → String
unfolding put_text
put_headers [] = "."
put_headers ((k, v) ∷ h) = put_text k (put_text v (put_headers h))

unfoldable pub take_headers : ℕ → String → List (String × String)
unfolding take_text
take_headers zero s = []
take_headers (suc n) s =
    let (k, rest) = take_text s in let (v, rest') = take_text rest in (k, v) ∷ take_headers n rest'

unfoldable pub put_tally : List (String × String) → String → String
put_tally [] out = Prim.Native.String.◌∷◌ "0" out
put_tally (e ∷ h) out = Prim.Native.String.◌∷◌ "1" (put_tally h out)

unfoldable pub take_tally : String → ℕ → List (String × String)
unfolding take_headers
take_tally Prim.Native.String.[] n = []
take_tally (Prim.Native.String.◌∷◌ c s) n =
    let more = take_tally s (suc n) in if code c == 49 then more else take_headers n s

abbrev pub tally_json : HeaderJson
tally_json = record {
  marshal = λ h. some (put_tally h (put_headers h));
  unmarshal = λ s. some (take_tally s 0);
}

take_text-put_text :
    (s : String) (d : Char) (out : String)
    → take_text (put_text s (Prim.Native.String.◌∷◌ d out)) ≡ (s, Prim.Native.String.◌∷◌ d out)
unfolding take_text put_text
take_text-put_text Prim.Native.String.[] d out = refl
take_text-put_text (Prim.Native.String.◌∷◌ c s) d out = ap (add_char c) (take_text-put_text s d out)

-- Every text behind another begins with some character.
abbrev StartsSome : String → Type 0
StartsSome s = (d : Char) × (out : String) × (s ≡ Prim.Native.String.◌∷◌ d out)

put_text-StartsSome : (s out : String) → StartsSome (put_text s out)
unfolding put_text
put_text-StartsSome Prim.Native.String.[] out = ("e", out, refl)
put_text-StartsSome (Prim.Native.String.◌∷◌ c s) out = ("x", _, refl)

put_headers-StartsSome : (h : List (String × String)) → StartsSome (put_headers h)
unfolding put_headers
put_headers-StartsSome [] = (".", Prim.Native.String.[], refl)
put_headers-StartsSome ((k, v) ∷ h) = put_text-StartsSome k (put_text v (put_headers h))

take_behind : (s out : String) → StartsSome out → take_text (put_text s out) ≡ (s, out)
take_behind s out (d, rest, e) = rw e (take_text-put_text s d rest)

take_headers-put_headers :
    (h : List (String × String)) → take_headers (length h) (put_headers h) ≡ h
unfolding take_headers put_headers
take_headers-put_headers [] = refl
take_headers-put_headers ((k, v) ∷ h) =
    rw (take_behind k (put_text v (put_headers h)) (put_text-StartsSome v (put_headers h))) (
      rw (take_behind v (put_headers h) (put_headers-StartsSome h))
        (ap (λ t. (k, v) ∷ t) (take_headers-put_headers h)))

take_tally-put_tally :
    (h : List (String × String)) (out : String) (n : ℕ)
    → take_tally (put_tally h out) n ≡ take_headers (n + length h) out
unfolding take_tally put_tally
take_tally-put_tally [] out n = (let e : n + 0 ≡ n = omega arith in rw e refl)
take_tally-put_tally (x ∷ h) out n =
    let e : n + suc (length h) ≡ suc n + length h = omega arith in
    rw e (take_tally-put_tally h out (suc n))

put_tally-nonempty : (h : List (String × String)) (out : String) → put_tally h out ≢ ""
unfolding put_tally
put_tally-nonempty [] out e = cc
put_tally-nonempty (x ∷ h) out e = cc

pub tally_json-IsFaithful : IsFaithful tally_json
tally_json-IsFaithful = record {
  encodes = λ h. (
    put_tally h (put_headers h),
    refl,
    ap some (
        take_tally-put_tally h (put_headers h) 0
        ∙ (let e : 0 + length h ≡ length h = omega arith in rw e (take_headers-put_headers h))),
    put_tally-nonempty h (put_headers h),
  );
}
