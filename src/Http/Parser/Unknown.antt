-- ===== src/Http/Parser/Unknown.antt =====
-- The body keys that a binder refuses.
use Prim.Native.String
use dfl.Base.{
  Bool-cases, inl, inr, ◌+◌, ℕ, ◌≡◌, refl, String, Bool, true, false, not, ◌||◌, List, [], ◌∷◌,
  contains, keys, keep, if◌then◌else◌, str_eq, arith, eq_iff,
}
use dfl.Http.Parser.Plan.{Binder}
use dfl.Http.Parser.Bind.{str_leb, insert_sorted, sort, unknown_keys}

str_leb_total : (s t : String) → (str_leb s t || str_leb t s) ≡ true
unfolding str_leb
str_leb_total Prim.Native.String.[] t = refl
str_leb_total (Prim.Native.String.◌∷◌ c s) Prim.Native.String.[] = refl
str_leb_total (Prim.Native.String.◌∷◌ c s) (Prim.Native.String.◌∷◌ d t) =
    ground (arith, str_leb_total s t)

-- Every two neighbours are in order.
abbrev pub IsSorted : List String → Type 0
IsSorted [] = Unit
IsSorted (x ∷ []) = Unit
IsSorted (x ∷ y ∷ ys) = (str_leb x y ≡ true) × IsSorted (y ∷ ys)

-- How often a text stands in a list.
abbrev pub count : String → List String → ℕ
count x [] = 0
count x (y ∷ ys) = (if str_eq y x then 1 else 0) + count x ys

from_total : (x y : String) → str_leb x y ≡ false → str_leb y x ≡ true
from_total x y h = let either = str_leb_total x y in ground (arith, either, h)

insert_behind :
    (y x : String) (ys : List String)
    → str_leb y x ≡ true
    → IsSorted (y ∷ ys)
    → IsSorted (y ∷ insert_sorted x ys)
unfolding insert_sorted
insert_behind y x [] h k = (h, tt)
insert_behind y x (z ∷ zs) h (below, k) = elim (Bool-cases (str_leb x z)) [
  | inl here ↦ rw here (h, (here, k))
  | inr later ↦ rw later (below, insert_behind z x zs (from_total x z later) k)
]

insert_sorted-IsSorted :
    (x : String) (ys : List String) → IsSorted ys → IsSorted (insert_sorted x ys)
unfolding insert_sorted
insert_sorted-IsSorted x [] h = tt
insert_sorted-IsSorted x (y ∷ ys) h = elim (Bool-cases (str_leb x y)) [
  | inl here ↦ rw here (here, h)
  | inr later ↦ rw later (insert_behind y x ys (from_total x y later) h)
]

sort-IsSorted : (xs : List String) → IsSorted (sort xs)
unfolding sort
sort-IsSorted [] = tt
sort-IsSorted (x ∷ xs) = insert_sorted-IsSorted x (sort xs) (sort-IsSorted xs)

count-insert_sorted :
    (k x : String) (ys : List String) → count k (insert_sorted x ys) ≡ count k (x ∷ ys)
unfolding insert_sorted
count-insert_sorted k x [] = refl
count-insert_sorted k x (y ∷ ys) = ground (arith, count-insert_sorted k x ys)

count-sort : (k : String) (xs : List String) → count k (sort xs) ≡ count k xs
unfolding sort
count-sort k [] = refl
count-sort k (x ∷ xs) = ground (arith, count-insert_sorted k x (sort xs), count-sort k xs)

count-keep :
    (k : String) (p : String → Bool) (xs : List String)
    → count k (keep p xs) ≡ (if p k then count k xs else 0)
count-keep k p [] = ground arith
count-keep k p (x ∷ xs) = ground (arith, count-keep k p xs, eq_iff x k)

module _ (b : Binder) (raw : List (String × String)) where
  -- The keys of a body that no field claims, sorted: each as often as the body has it, none that a
  -- field claims.
  pub unknown_keys-IsSorted :
      IsSorted (unknown_keys b raw)
      × ((key : String)
          → count key (unknown_keys b raw)
            ≡ (if contains b.known_body key then 0 else count key (keys raw)))
  unfolding unknown_keys
  unknown_keys-IsSorted =
      let kept = keep (λ key. not (contains b.known_body key)) (keys raw) in
      (
        sort-IsSorted kept,
        λ key.
            rw (count-sort key kept)
              (rw (count-keep key (λ k. not (contains b.known_body k)) (keys raw)) (ground arith)),
      )
