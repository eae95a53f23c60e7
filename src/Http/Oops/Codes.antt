-- ===== src/Http/Oops/Codes.antt =====
-- The error codes that are made of messages, and the responses they go into.
use Prim.Native.Char.{code}
use Prim.Native.String.{[], ◌∷◌}
use dfl.Base.{
  ◌≡◌, refl, String, Bool, true, false, not, ◌&&◌, ◌==◌, if◌then◌else◌, arith, Bool-cases, inl, inr,
  all_chars, all_chars-keep_chars, keep_chars, map_text, lower, trim_space,
}
use dfl.Http.Oops.{
  is_code, underscored, starts_underscore, collapse, drop_first, drop_last, code_from_message,
}

-- No two underscores stand side by side.
unfoldable pub apart : String → Bool
apart [] = true
apart (c ∷ s) = not (code c == 95 && starts_underscore s) && apart s

unfoldable pub ends_underscore : String → Bool
ends_underscore [] = false
ends_underscore (c ∷ []) = code c == 95
ends_underscore (c ∷ d ∷ s) = ends_underscore (d ∷ s)

collapse-apart : (s : String) → apart (collapse s) ≡ true
unfolding collapse apart
collapse-apart [] = refl
collapse-apart (c ∷ s) = elim (Bool-cases (code c == 95 && starts_underscore (collapse s))) [
  | inl run ↦ rw run (collapse-apart s)
  | inr one ↦ rw one (rw one (collapse-apart s))
]

and_left : (a b : Bool) → (a && b) ≡ true → a ≡ true
and_left a b h = ground (arith, h)

and_right : (a b : Bool) → (a && b) ≡ true → b ≡ true
and_right a b h = ground (arith, h)

both : (a b : Bool) → a ≡ true → b ≡ true → (a && b) ≡ true
both a b h k = ground (arith, h, k)

-- A test of texts that passes on both sides of a choice passes on what is chosen.
if_passes :
    (p : String → Bool) (c : Bool) (x y : String)
    → p x ≡ true
    → p y ≡ true
    → p (if c then x else y) ≡ true
if_passes p true x y h k = h
if_passes p false x y h k = k

collapse-all_chars :
    (s : String) → all_chars is_code s ≡ true → all_chars is_code (collapse s) ≡ true
unfolding collapse all_chars
collapse-all_chars [] h = refl
collapse-all_chars (c ∷ s) h =
    let rest = collapse-all_chars s (and_right (is_code c) (all_chars is_code s) h) in
    let here = and_left (is_code c) (all_chars is_code s) h in
    if_passes (all_chars is_code) (code c == 95 && starts_underscore (collapse s)) (collapse s)
      (c ∷ collapse s) rest (both (is_code c) (all_chars is_code (collapse s)) here rest)

drop_first-all_chars :
    (s : String) → all_chars is_code s ≡ true → all_chars is_code (drop_first s) ≡ true
unfolding all_chars
drop_first-all_chars [] h = refl
drop_first-all_chars (c ∷ s) h =
    if_passes (all_chars is_code) (code c == 95) s (c ∷ s)
      (and_right (is_code c) (all_chars is_code s) h) h

drop_last-all_chars :
    (s : String) → all_chars is_code s ≡ true → all_chars is_code (drop_last s) ≡ true
unfolding drop_last all_chars
drop_last-all_chars [] h = refl
drop_last-all_chars (c ∷ []) h = if_passes (all_chars is_code) (code c == 95) [] (c ∷ []) refl h
drop_last-all_chars (c ∷ d ∷ s) h =
    both (is_code c) (all_chars is_code (drop_last (d ∷ s)))
      (and_left (is_code c) (all_chars is_code (d ∷ s)) h)
      (drop_last-all_chars (d ∷ s) (and_right (is_code c) (all_chars is_code (d ∷ s)) h))

drop_first-apart :
    (s : String)
    → apart s ≡ true
    → (apart (drop_first s) ≡ true) × (starts_underscore (drop_first s) ≡ false)
unfolding apart starts_underscore
drop_first-apart [] h = (refl, refl)
drop_first-apart (c ∷ s) h = elim (Bool-cases (code c == 95)) [
  | inl dash ↦ rw dash (
    and_right (not (code c == 95 && starts_underscore s)) (apart s) h,
    no_second (code c == 95) (starts_underscore s) dash
        (and_left (not (code c == 95 && starts_underscore s)) (apart s) h),
  )
  | inr word ↦ rw word (h, word)
]
  where
    no_second : (a b : Bool) → a ≡ true → not (a && b) ≡ true → b ≡ false
    no_second a b k l = ground (arith, k, l)

drop_last-starts :
    (s : String) → starts_underscore s ≡ false → starts_underscore (drop_last s) ≡ false
unfolding drop_last starts_underscore
drop_last-starts [] h = refl
drop_last-starts (c ∷ []) h = rw h h
drop_last-starts (c ∷ d ∷ s) h = h

no_first : (a b : Bool) → b ≡ true → not (a && b) ≡ true → a ≡ false
no_first a b k l = ground (arith, k, l)

drop_last-ends : (s : String) → apart s ≡ true → ends_underscore (drop_last s) ≡ false
unfolding drop_last ends_underscore apart starts_underscore
drop_last-ends [] h = refl
drop_last-ends (c ∷ []) h = elim (Bool-cases (code c == 95)) [
  | inl dash ↦ rw dash refl
  | inr word ↦ rw word word
]
drop_last-ends (c ∷ d ∷ []) h = elim (Bool-cases (code d == 95)) [
  | inl dash ↦ rw dash (no_first (code c == 95) (code d == 95) dash (and_left _ (apart (d ∷ [])) h))
  | inr word ↦ rw word word
]
drop_last-ends (c ∷ d ∷ e ∷ s) h = drop_last-ends (d ∷ e ∷ s) (and_right _ (apart (d ∷ e ∷ s)) h)

drop_last-apart : (s : String) → apart s ≡ true → apart (drop_last s) ≡ true
unfolding drop_last apart starts_underscore
drop_last-apart [] h = refl
drop_last-apart (c ∷ []) h = if_passes apart (code c == 95) [] (c ∷ []) refl h
drop_last-apart (c ∷ d ∷ s) h =
    let later = drop_last-apart (d ∷ s) (and_right _ (apart (d ∷ s)) h) in
    both (not (code c == 95 && starts_underscore (drop_last (d ∷ s)))) (apart (drop_last (d ∷ s)))
      (still_apart (code c == 95) (starts_underscore (d ∷ s))
        (starts_underscore (drop_last (d ∷ s))) (drop_last-starts (d ∷ s))
        (and_left _ (apart (d ∷ s)) h))
      later
  where
    still_apart :
        (a b b' : Bool) → (b ≡ false → b' ≡ false) → not (a && b) ≡ true → not (a && b') ≡ true
    still_apart false b b' h k = refl
    still_apart true false b' h k = rw (h refl) refl
    still_apart true true b' h k = cc

-- The code that is made of a message has none but the characters a to z, 0 to 9 and underscore, no
-- underscore at its start or its end, and no two underscores side by side.
pub code_from_message-is_code :
    (msg : String)
    → (all_chars is_code (code_from_message msg) ≡ true)
      × (starts_underscore (code_from_message msg) ≡ false)
      × (ends_underscore (code_from_message msg) ≡ false)
      × (apart (code_from_message msg) ≡ true)
unfolding code_from_message
code_from_message-is_code msg =
    let kept = keep_chars is_code (map_text underscored (map_text lower (trim_space msg))) in
    let coded =
      collapse-all_chars kept
        (all_chars-keep_chars is_code (map_text underscored (map_text lower (trim_space msg)))) in
    let (tidy, starts) = drop_first-apart (collapse kept) (collapse-apart kept) in
    let first = drop_first (collapse kept) in
    (
      drop_last-all_chars first (drop_first-all_chars (collapse kept) coded),
      drop_last-starts first starts,
      drop_last-ends first tidy,
      drop_last-apart first tidy,
    )
