-- ===== src/Version/Search.antt =====
-- The binary search of slices.BinarySearchFunc and slices.Insert, over which an Endpoint keeps its
-- variants in order.
pub mod Laws
use Prim.Native.Nat.{Ordering}
use dfl.Base.{
  ℕ, zero, suc, ◌+◌, ◌/◌, Bool, true, false, List, [], ◌∷◌, Option, none, some, ltb, if◌then◌else◌,
  get_elem?, length,
}
use dfl.Version.Scheme.{is_lt, is_eq}

module _ {A : Type 0} (xs : List A) (cmp : A → Ordering) where
  -- Whether the element at an index compares below the target. The loop stays inside the list.
  abbrev pub below_at : ℕ → Bool
  below_at h = elim (get_elem? xs h) [ none ↦ false | some x ↦ is_lt (cmp x) ]

  abbrev pub equal_at : ℕ → Bool
  equal_at h = elim (get_elem? xs h) [ none ↦ false | some x ↦ is_eq (cmp x) ]

  -- `for i < j`, with fuel above j - i.
  unfoldable pub search_loop : ℕ → ℕ → ℕ → ℕ
  search_loop zero i j = i
  search_loop (suc f) i j =
      let h = (i + j) / 2 in
      let right = search_loop f (h + 1) j in
      let left = search_loop f i h in if ltb i j then (if below_at h then right else left) else i

  unfoldable pub binary_search : ℕ × Bool
  unfolding search_loop
  binary_search = let i = search_loop (suc (length xs)) 0 (length xs) in (i, equal_at i)

-- slices.Insert at an index that is at most the length.
unfoldable pub insert_at {ℓ} : {A : Type ℓ} → ℕ → A → List A → List A
insert_at zero v xs = v ∷ xs
insert_at (suc i) v [] = v ∷ []
insert_at (suc i) v (x ∷ xs) = x ∷ insert_at i v xs
