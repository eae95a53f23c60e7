-- ===== src/Version/Endpoint/Order.antt =====
-- The order of the variants of an Endpoint of http/version/endpoint.go.
use Prim.Native.Nat.{Ordering}
use dfl.Base.{
  ℕ, ◌-◌, ◌<◌, ◌≤◌, ◌≡◌, refl, sym, subst, ◌↔◌, Bool, true, false, List, Option, none, some,
  get_elem?, ltb, ltb→lt, ap, ◌∙◌, arith, Bool-cases, inl, inr, ◌⊎◌, ◌≢◌, String, contains, is_none,
  ◌||◌,
}
use mathlib.Core.Option.{some-injective}
use dfl.GoErrors.{Result, ok, failed}
use dfl.Http.Wire.{HandlerFunc}
use dfl.Version.Scheme.{IsOrder, is_lt, is_eq, is_gt, lt-le_trans}
use dfl.Version.Search.{equal_at, insert_at}
use dfl.Version.Search.Laws.{
  IsPartitioned, IsSearchPoint, below_at-some, equal_at-some, is_lt-eq, of_below_at, of_equal_at,
  binary_search-IsSearchPoint, get_elem?-insert_at, get_elem?-some_of_lt, lt_of_get_elem?,
}
use dfl.Version.Resolver.{Resolved, Resolver}
use dfl.Version.Endpoint.{
  Variant, Endpoint, Match, new_endpoint, search_version, insert_found, insert_parsed,
  insert_variant, handle_func, withdraw,
}

module _ {V : Type 0} (cmp : V → V → Ordering) where
  -- Each variant is older than those behind it.
  abbrev pub IsSorted : List (Variant V) → Type 0
  IsSorted xs =
      (k l : ℕ) (x y : Variant V)
      → k < l
      → get_elem? xs k ≡ some x
      → get_elem? xs l ≡ some y
      → cmp x.version y.version ≡ Ordering.lt

  module _ (o : IsOrder cmp) where
    IsSorted-IsPartitioned :
        (xs : List (Variant V)) (v : V) → IsSorted xs → IsPartitioned xs (λ x. cmp x.version v)
    IsSorted-IsPartitioned xs v sorted k l h below =
        let (y, at_l, less) = of_below_at xs (λ x. cmp x.version v) l below in
        let (x, at_k) = get_elem?-some_of_lt xs k (omega (arith, lt_of_get_elem? xs l at_l)) in
        below_at-some xs (λ x. cmp x.version v) k at_k ∙ elim (Bool-cases (ltb k l)) [
          | inl apart ↦ ap is_lt (
              lt-le_trans cmp o x.version y.version v (sorted k l x y (ltb→lt k l apart) at_k at_l)
                (ap is_gt less))
          | inr same ↦
              let e : k ≡ l = ground arith in
              sym (below_at-some xs (λ x. cmp x.version v) k at_k) ∙ rw e below
        ]

    module _ (xs : List (Variant V)) (x : Variant V) (i : ℕ) (sorted : IsSorted xs)
        (point : IsSearchPoint xs (λ y. cmp y.version x.version) i)
        (missed : equal_at xs (λ y. cmp y.version x.version) i ≡ false) where
      before_lt :
          (k : ℕ) (a : Variant V)
          → k < i
          → get_elem? xs k ≡ some a
          → cmp a.version x.version ≡ Ordering.lt
      before_lt k a h at_k =
          is_lt-eq _
            (sym (below_at-some xs (λ y. cmp y.version x.version) k at_k) ∙ point.before k h)

      here_lt : (a : Variant V) → get_elem? xs i ≡ some a → cmp x.version a.version ≡ Ordering.lt
      here_lt a at_i = ground (
        arith,
        o.swapped a.version x.version,
        sym (below_at-some xs (λ y. cmp y.version x.version) i at_i) ∙ point.after i (omega arith),
        sym (equal_at-some xs (λ y. cmp y.version x.version) i at_i) ∙ missed,
      )

      after_lt :
          (k : ℕ) (b : Variant V)
          → i ≤ k
          → get_elem? xs k ≡ some b
          → cmp x.version b.version ≡ Ordering.lt
      after_lt k b h at_k =
          let (y, at_i) = get_elem?-some_of_lt xs i (omega (arith, lt_of_get_elem? xs k at_k)) in
          elim (Bool-cases (ltb i k)) [
            | inl apart ↦
                lt-le_trans cmp o x.version y.version b.version (here_lt y at_i)
                  (ap is_gt (sorted i k y b (ltb→lt i k apart) at_i at_k))
            | inr same ↦ let e : i ≡ k = ground arith in here_lt b (rw e at_k)
          ]

      -- Where an element of the new list stood before.
      placed :
          (k : ℕ) (a : Variant V)
          → get_elem? (insert_at i x xs) k ≡ some a
          → ((k < i) × (get_elem? xs k ≡ some a))
            ⊎ (((k ≡ i) × (a ≡ x)) ⊎ ((i ≤ k - 1) × (k ≢ 0) × (get_elem? xs (k - 1) ≡ some a)))
      placed k a at_k =
          let at_k' = sym (get_elem?-insert_at i x xs k point.in_range) ∙ at_k in ground arith

      -- An insertion at the place of a search that found nothing keeps the order.
      insert_at-IsSorted : IsSorted (insert_at i x xs)
      insert_at-IsSorted k l a b h at_k at_l = elim (placed k a at_k) [
        | inl (k_low, a_at) ↦ elim (placed l b at_l) [
          | inl (l_low, b_at) ↦ sorted k l a b h a_at b_at
          | inr (inl (l_here, same)) ↦ rw same (before_lt k a k_low a_at)
          | inr (inr (l_high, l_pos, b_at)) ↦ sorted k (l - 1) a b (omega arith) a_at b_at
        ]
        | inr (inl (k_here, same)) ↦ elim (placed l b at_l) [
          | inl (l_low, b_at) ↦ absurd (omega arith)
          | inr (inl (l_here, _)) ↦ absurd (omega arith)
          | inr (inr (l_high, l_pos, b_at)) ↦ rw same (after_lt (l - 1) b l_high b_at)
        ]
        | inr (inr (k_high, k_pos, a_at)) ↦ elim (placed l b at_l) [
          | inl (l_low, b_at) ↦ absurd (omega arith)
          | inr (inl (l_here, _)) ↦ absurd (omega arith)
          | inr (inr (l_high, l_pos, b_at)) ↦ sorted (k - 1) (l - 1) a b (omega arith) a_at b_at
        ]
      ]

-- The versions of an Endpoint under its own scheme.
abbrev pub IsOrdered : {V : Type 0} → Endpoint V → Type 0
IsOrdered e = IsSorted e.resolver.scheme.compare e.variants

-- A new Endpoint is in order.
pub new_endpoint-IsOrdered :
    {V : Type 0} (rv : Resolver V) (m : Match) → IsOrdered (new_endpoint rv m)
unfolding new_endpoint
new_endpoint-IsOrdered rv m k l x y h at_k at_l = cc

module _ {V : Type 0} (e : Endpoint V) (o : IsOrder e.resolver.scheme.compare)
    (sorted : IsOrdered e) where
  -- Where the search for a version ends.
  pub search_version_lem :
      (v : V) (i : ℕ) (found : Bool)
      → search_version e v ≡ (i, found)
      → IsSearchPoint e.variants (λ y. e.resolver.scheme.compare y.version v) i
        × (found ≡ equal_at e.variants (λ y. e.resolver.scheme.compare y.version v) i)
  unfolding search_version
  search_version_lem v i found ends =
      let (point, same) =
        binary_search-IsSearchPoint e.variants (λ y. e.resolver.scheme.compare y.version v)
          (IsSorted-IsPartitioned e.resolver.scheme.compare o e.variants v sorted) in
      (
        subst (λ s. IsSearchPoint e.variants (λ y. e.resolver.scheme.compare y.version v) s.0) ends
            point,
        sym (ap (λ s. s.1) ends)
            ∙ same
            ∙ ap (λ s. equal_at e.variants (λ y. e.resolver.scheme.compare y.version v) s.0) ends,
      )

  insert_found-IsOrdered :
      (x : Variant V) (s : ℕ × Bool) (e' : Endpoint V)
      → search_version e x.version ≡ s
      → insert_found e x s ≡ some e'
      → IsOrdered e'
  insert_found-IsOrdered x (i, true) e' ends done = cc
  insert_found-IsOrdered x (i, false) e' ends done =
      let (point, missed) = search_version_lem x.version i false ends in
      subst IsOrdered (some-injective _ _ done)
        (insert_at-IsSorted e.resolver.scheme.compare o e.variants x i sorted point (sym missed))

  insert_parsed-IsOrdered :
      (h : Option (HandlerFunc (Resolved V))) (p : Result V) (e' : Endpoint V)
      → insert_parsed e h p ≡ some e'
      → IsOrdered e'
  insert_parsed-IsOrdered h (failed err) e' done = cc
  insert_parsed-IsOrdered h (ok v) e' done =
      insert_found-IsOrdered (record { version = v; handle = h }) (search_version e v) e' refl done

  -- A dated registration that succeeds keeps the order.
  pub insert_variant-IsOrdered :
      (raw : String) (h : Option (HandlerFunc (Resolved V))) (e' : Endpoint V)
      → insert_variant e raw h ≡ some e'
      → IsOrdered e'
  unfolding insert_variant
  insert_variant-IsOrdered raw h e' done =
      insert_parsed-IsOrdered h (e.resolver.scheme.parse raw) e' done

  -- On an endpoint whose versions are in strict order, under a scheme with a total order, a
  -- registration that does not panic keeps them in strict order.
  pub handle_func-IsOrdered :
      (raw : String) (h : HandlerFunc (Resolved V)) (e' : Endpoint V)
      → handle_func e raw h ≡ some e'
      → IsOrdered e'
  unfolding handle_func
  handle_func-IsOrdered raw h e' done = elim (Bool-cases (contains e.resolver.preview raw)) [
    | inl overlay ↦ elim (Bool-cases (is_none e.preview)) [
      | inl free ↦ subst IsOrdered (some-injective _ _ (rw (overlay, free) at done)) sorted
      | inr taken ↦
          (let bad : ◌≡◌ {A = Option (Endpoint V)} none (some e') = rw (overlay, taken) at done in
            cc)
    ]
    | inr dated ↦ insert_variant-IsOrdered raw (some h) e' (rw dated at done)
  ]

  -- A withdrawal keeps the order as a registration does.
  pub withdraw-IsOrdered :
      (raw : String) (e' : Endpoint V) → withdraw e raw ≡ some e' → IsOrdered e'
  unfolding withdraw
  withdraw-IsOrdered raw e' done =
      elim (Bool-cases (contains e.resolver.preview raw || contains e.resolver.latest raw)) [
        | inl literal ↦
            (let bad : ◌≡◌ {A = Option (Endpoint V)} none (some e') = rw literal at done in cc)
        | inr dated ↦ insert_variant-IsOrdered raw none e' (rw dated at done)
      ]

  -- No element equals a target that the search has missed.
  pub missed-ne :
      (v : V) (i : ℕ)
      → search_version e v ≡ (i, false)
      → (k : ℕ) (y : Variant V) → get_elem? e.variants k ≡ some y
      → e.resolver.scheme.compare y.version v ≢ Ordering.eq
  missed-ne v i ends k y at_k same =
      let cmp = e.resolver.scheme.compare in
      let (point, missed) = search_version_lem v i false ends in
      elim (Bool-cases (ltb k i)) [
        | inl low ↦
            let less : is_lt (cmp y.version v) ≡ true =
              sym (below_at-some e.variants (λ y. cmp y.version v) k at_k)
              ∙ point.before k (ltb→lt k i low) in
            ground arith
        | inr high ↦
            let (z, at_i) =
              get_elem?-some_of_lt e.variants i
                (ground (arith, lt_of_get_elem? e.variants k at_k)) in
            let not_below : is_lt (cmp z.version v) ≡ false =
              sym (below_at-some e.variants (λ y. cmp y.version v) i at_i)
              ∙ point.after i (omega arith) in
            let not_equal : is_eq (cmp z.version v) ≡ false =
              sym (equal_at-some e.variants (λ y. cmp y.version v) i at_i) ∙ sym missed in
            elim (Bool-cases (ltb i k)) [
              | inl apart ↦
                  let less : cmp z.version v ≡ Ordering.lt =
                    lt-le_trans cmp o z.version y.version v
                      (sorted i k z y (ltb→lt i k apart) at_i at_k) (ap is_gt same) in
                  ground arith
              | inr here ↦
                  let at : i ≡ k = ground arith in
                  let one : z ≡ y =
                    some-injective _ _ (sym at_i ∙ ap (get_elem? e.variants) at ∙ at_k) in
                  ground arith
            ]
      ]

  insert_found-none :
      (x : Variant V) (s : ℕ × Bool)
      → search_version e x.version ≡ s
      → (insert_found e x s ≡ none) ↔ (
          (k : ℕ) × (y : Variant V) × (get_elem? e.variants k ≡ some y)
          × (e.resolver.scheme.compare y.version x.version ≡ Ordering.eq))
  insert_found-none x (i, true) ends =
      let (point, hit) = search_version_lem x.version i true ends in
      let (y, at_i, same) =
        of_equal_at e.variants (λ y. e.resolver.scheme.compare y.version x.version) i (sym hit) in
      (λ _. (i, y, at_i, same), λ _. refl)
  insert_found-none x (i, false) ends =
      (λ h. cc, λ (k, y, at_k, same). absurd (missed-ne x.version i ends k y at_k same))

  -- On an endpoint in order, a dated registration or withdrawal at a version that parses panics
  -- exactly when a variant with an equal version is there already.
  pub insert_variant-none :
      (raw : String) (v : V) (h : Option (HandlerFunc (Resolved V)))
      → e.resolver.scheme.parse raw ≡ ok v
      → (insert_variant e raw h ≡ none) ↔ (
          (k : ℕ) × (y : Variant V) × (get_elem? e.variants k ≡ some y)
          × (e.resolver.scheme.compare y.version v ≡ Ordering.eq))
  unfolding insert_variant
  insert_variant-none raw v h parsed =
      rw parsed (insert_found-none (record { version = v; handle = h }) (search_version e v) refl)
