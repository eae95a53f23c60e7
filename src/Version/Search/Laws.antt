-- ===== src/Version/Search/Laws.antt =====
-- Where a binary search ends, and what an insertion at that place does to a list.
use Prim.Native.Nat.{Ordering}
use dfl.Base.{
  inl, inr, ℕ, zero, suc, ◌+◌, ◌-◌, ◌/◌, ◌≤◌, ◌<◌, ◌≡◌, refl, true, false, List, [], ◌∷◌, some, ltb,
  if◌then◌else◌, get_elem?, length, arith, Bool-cases, Option-cases, ◌==◌,
}
use dfl.Version.Search.{below_at, equal_at, search_loop, binary_search, insert_at, is_eq, is_lt}

pub get_elem?-some_of_lt {ℓ} :
    {A : Type ℓ} (xs : List A) (i : ℕ) → i < length xs → (x : A) × (get_elem? xs i ≡ some x)
get_elem?-some_of_lt [] i h = absurd (omega arith)
get_elem?-some_of_lt (x ∷ xs) zero h = (x, refl)
get_elem?-some_of_lt (x ∷ xs) (suc i) h = get_elem?-some_of_lt xs i (omega arith)

pub lt_of_get_elem? {ℓ} :
    {A : Type ℓ} (xs : List A) (i : ℕ) {x : A} → get_elem? xs i ≡ some x → i < length xs
lt_of_get_elem? [] i h = cc
lt_of_get_elem? (x ∷ xs) zero h = omega arith
lt_of_get_elem? (x ∷ xs) (suc i) h = omega (arith, lt_of_get_elem? xs i h)

pub is_lt-eq : (o : Ordering) → is_lt o ≡ true → o ≡ Ordering.lt
is_lt-eq o h = ground arith

pub is_eq-eq : (o : Ordering) → is_eq o ≡ true → o ≡ Ordering.eq
is_eq-eq o h = ground arith

module _ {A : Type 0} (xs : List A) (cmp : A → Ordering) where
  pub below_at-some : (k : ℕ) {x : A} → get_elem? xs k ≡ some x → below_at xs cmp k ≡ is_lt (cmp x)
  below_at-some k e = rw (e, below_at)

  pub equal_at-some : (k : ℕ) {x : A} → get_elem? xs k ≡ some x → equal_at xs cmp k ≡ is_eq (cmp x)
  equal_at-some k e = rw (e, equal_at)

  pub of_below_at :
      (k : ℕ)
      → below_at xs cmp k ≡ true
      → (x : A) × (get_elem? xs k ≡ some x) × (cmp x ≡ Ordering.lt)
  of_below_at k h = elim (Option-cases (get_elem? xs k)) [
    | inl e ↦ (let bad : false ≡ true = rw (e, below_at) at h in cc)
    | inr (x, e) ↦ (x, e, is_lt-eq (cmp x) (rw (e, below_at) at h))
  ]

  pub of_equal_at :
      (k : ℕ)
      → equal_at xs cmp k ≡ true
      → (x : A) × (get_elem? xs k ≡ some x) × (cmp x ≡ Ordering.eq)
  of_equal_at k h = elim (Option-cases (get_elem? xs k)) [
    | inl e ↦ (let bad : false ≡ true = rw (e, equal_at) at h in cc)
    | inr (x, e) ↦ (x, e, is_eq-eq (cmp x) (rw (e, equal_at) at h))
  ]

  -- Elements below the target come first.
  abbrev pub IsPartitioned : Type 0
  IsPartitioned = (k l : ℕ) → k ≤ l → below_at xs cmp l ≡ true → below_at xs cmp k ≡ true

  -- The index that the search stands for.
  pub record IsSearchPoint (i : ℕ) : Type 0 where
    pub in_range : i ≤ length xs
    pub before : (k : ℕ) → k < i → below_at xs cmp k ≡ true
    pub after : (k : ℕ) → i ≤ k → below_at xs cmp k ≡ false

  below_at-past : (k : ℕ) → length xs ≤ k → below_at xs cmp k ≡ false
  below_at-past k h = elim (Option-cases (get_elem? xs k)) [
    | inl e ↦ rw (e, below_at)
    | inr (x, e) ↦ absurd (omega (arith, lt_of_get_elem? xs k e))
  ]

  search_loop-IsSearchPoint :
      (part : IsPartitioned) (f i j : ℕ)
      → j < f + i
      → i ≤ j
      → j ≤ length xs
      → ((k : ℕ) → k < i → below_at xs cmp k ≡ true)
      → ((k : ℕ) → j ≤ k → below_at xs cmp k ≡ false)
      → IsSearchPoint (search_loop xs cmp f i j)
  unfolding search_loop
  search_loop-IsSearchPoint part zero i j fuel le fits lo hi = absurd (omega arith)
  search_loop-IsSearchPoint part (suc f) i j fuel le fits lo hi = elim (Bool-cases (ltb i j)) [
    | inr stop ↦
        rw stop (record { in_range = omega arith; before = lo; after = λ k h. hi k (ground arith) })
    | inl go ↦ rw go (elim (Bool-cases (below_at xs cmp ((i + j) / 2))) [
      | inl below ↦ rw below (
          search_loop-IsSearchPoint part f ((i + j) / 2 + 1) j (ground arith) (ground arith) fits
            (λ k h. part k ((i + j) / 2) (omega arith) below) hi)
      | inr other ↦ rw other (
          search_loop-IsSearchPoint part f i ((i + j) / 2) (ground arith) (ground arith)
            (ground arith) lo (λ k h. ground (arith, part ((i + j) / 2) k h)))
    ])
  ]

  -- On a partitioned list the search ends at the first element that is not below the target, and
  -- reports whether that element equals it.
  pub binary_search-IsSearchPoint :
      IsPartitioned
      → IsSearchPoint (binary_search xs cmp).0
        × ((binary_search xs cmp).1 ≡ equal_at xs cmp (binary_search xs cmp).0)
  unfolding binary_search
  binary_search-IsSearchPoint part = (
    search_loop-IsSearchPoint part (suc (length xs)) 0 (length xs) (omega arith) (omega arith)
        (omega arith) (λ k h. absurd (omega arith)) below_at-past,
    refl,
  )

module _ {ℓ} {A : Type ℓ} where
  -- What stands where after an insertion.
  pub get_elem?-insert_at :
      (i : ℕ) (v : A) (xs : List A) (k : ℕ)
      → i ≤ length xs
      → get_elem? (insert_at i v xs) k
        ≡ (if ltb k i then get_elem? xs k else if k == i then some v else get_elem? xs (k - 1))
  unfolding insert_at
  get_elem?-insert_at zero v xs zero h = refl
  get_elem?-insert_at zero v xs (suc k) h = ground arith
  get_elem?-insert_at (suc i) v [] k h = absurd (omega arith)
  get_elem?-insert_at (suc i) v (x ∷ xs) zero h = ground arith
  get_elem?-insert_at (suc i) v (x ∷ xs) (suc zero) h =
      ground (arith, get_elem?-insert_at i v xs zero)
  get_elem?-insert_at (suc i) v (x ∷ xs) (suc (suc k)) h =
      ground (arith, get_elem?-insert_at i v xs (suc k))

  pub length-insert_at : (i : ℕ) (v : A) (xs : List A) → length (insert_at i v xs) ≡ suc (length xs)
  unfolding insert_at
  length-insert_at zero v xs = refl
  length-insert_at (suc i) v [] = refl
  length-insert_at (suc i) v (x ∷ xs) = omega (arith, length-insert_at i v xs)
