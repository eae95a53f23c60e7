-- ===== src/Version/Endpoint/Pick.antt =====
-- What the two match rules serve.
use Prim.Native.Nat.{Ordering}
use mathlib.Core.Option.{some-injective}
use dfl.Base.{
  ℕ, ◌-◌, ◌<◌, ◌≤◌, ◌≡◌, ◌≢◌, refl, sym, ap, ◌∙◌, Bool, true, false, Option, none, some, get_elem?,
  ltb, ltb→lt, ◌==◌, arith, Bool-cases, inl, inr,
}
use dfl.Version.Scheme.{IsOrder, is_lt, is_gt, flip}
use dfl.Version.Search.Laws.{
  below_at-some, equal_at-some, is_lt-eq, is_eq-eq, of_equal_at, get_elem?-some_of_lt,
}
use dfl.Version.Endpoint.{Variant, Endpoint, compatible, exact, search_version, pick, pick_found}
use dfl.Version.Endpoint.Order.{IsOrdered, search_version_lem, missed-ne}

module _ {V : Type 0} (e : Endpoint V) where
  abbrev pub IsMember : Variant V → Type 0
  IsMember x = (k : ℕ) × (get_elem? e.variants k ≡ some x)

  -- `x` is not newer than the version asked for, and no other variant that is not newer is newer
  -- than `x`.
  pub record IsNewestUpTo (v : V) (x : Variant V) : Type 0 where
    pub member : IsMember x
    pub not_newer : is_gt (e.resolver.scheme.compare x.version v) ≡ false
    pub newest :
        (y : Variant V)
        → IsMember y
        → is_gt (e.resolver.scheme.compare y.version v) ≡ false
        → is_gt (e.resolver.scheme.compare y.version x.version) ≡ false

  module _ (o : IsOrder e.resolver.scheme.compare) (sorted : IsOrdered e) (v : V) where
    -- Behind the place of a search no version is older than the one asked for.
    beyond_place :
        (i : ℕ) (found : Bool) (k : ℕ) (y : Variant V)
        → search_version e v ≡ (i, found)
        → i ≤ k
        → get_elem? e.variants k ≡ some y
        → is_lt (e.resolver.scheme.compare y.version v) ≡ false
    beyond_place i found k y ends h at_k =
        let (point, _) = search_version_lem e o sorted v i found ends in
        sym (below_at-some e.variants (λ y. e.resolver.scheme.compare y.version v) k at_k)
        ∙ point.after k h

    before_place :
        (i : ℕ) (found : Bool) (k : ℕ) (y : Variant V)
        → search_version e v ≡ (i, found)
        → k < i
        → get_elem? e.variants k ≡ some y
        → e.resolver.scheme.compare y.version v ≡ Ordering.lt
    before_place i found k y ends h at_k =
        let (point, _) = search_version_lem e o sorted v i found ends in
        is_lt-eq _ (
          sym (below_at-some e.variants (λ y. e.resolver.scheme.compare y.version v) k at_k)
          ∙ point.before k h)

    -- In the order, a place that is not behind is not newer.
    pub not_newer_of_le :
        (k l : ℕ) (x y : Variant V)
        → k ≤ l
        → get_elem? e.variants k ≡ some x
        → get_elem? e.variants l ≡ some y
        → is_gt (e.resolver.scheme.compare x.version y.version) ≡ false
    not_newer_of_le k l x y h at_k at_l = elim (Bool-cases (ltb k l)) [
      | inl apart ↦ ap is_gt (sorted k l x y (ltb→lt k l apart) at_k at_l)
      | inr same ↦
          let at : k ≡ l = ground arith in
          let one : x ≡ y = some-injective _ _ (sym at_k ∙ ap (get_elem? e.variants) at ∙ at_l) in
          rw one (ap is_gt (o.equal_self y.version))
    ]

    hit-IsNewestUpTo :
        (i : ℕ) (x : Variant V)
        → search_version e v ≡ (i, true)
        → get_elem? e.variants i ≡ some x
        → IsNewestUpTo v x × (e.resolver.scheme.compare x.version v ≡ Ordering.eq)
    hit-IsNewestUpTo i x ends at_i =
        let (_, hit) = search_version_lem e o sorted v i true ends in
        let same : e.resolver.scheme.compare x.version v ≡ Ordering.eq = is_eq-eq _ (
          sym (equal_at-some e.variants (λ y. e.resolver.scheme.compare y.version v) i at_i)
          ∙ sym hit) in
        (
          record {
            member = (i, at_i);
            not_newer = ap is_gt same;
            newest = λ y _ h.
                o.le_trans y.version v x.version h
                  (ap is_gt (o.swapped x.version v ∙ ap flip same));
          },
          same,
        )

    miss-IsNewestUpTo :
        (i : ℕ) (x : Variant V)
        → search_version e v ≡ (i, false)
        → i ≢ 0
        → get_elem? e.variants (i - 1) ≡ some x
        → IsNewestUpTo v x
    miss-IsNewestUpTo i x ends pos at_i = record {
      member = (i - 1, at_i);
      not_newer = ap is_gt (before_place i false (i - 1) x ends (omega arith) at_i);
      newest = λ y (k, at_k) h. elim (Bool-cases (ltb k i)) [
        | inl low ↦ not_newer_of_le k (i - 1) y x (ground arith) at_k at_i
        | inr high ↦ ground (
          arith,
          beyond_place i false k y ends (ground arith) at_k,
          missed-ne e o sorted v i ends k y at_k,
        )
      ];
    }

    found_by_miss :
        (i : ℕ) (x : Variant V)
        → pick_found e (i, false) ≡ some x
        → (e.match ≡ compatible) × (i ≢ 0) × (get_elem? e.variants (i - 1) ≡ some x)
    found_by_miss i x got = ground arith

    pick_found_sound :
        (s : ℕ × Bool) (x : Variant V)
        → search_version e v ≡ s
        → pick_found e s ≡ some x
        → IsNewestUpTo v x × (e.match ≡ exact → e.resolver.scheme.compare x.version v ≡ Ordering.eq)
    pick_found_sound (i, true) x ends got =
        let (best, same) = hit-IsNewestUpTo i x ends got in (best, λ _. same)
    pick_found_sound (i, false) x ends got =
        let (rule, pos, at_i) = found_by_miss i x got in
        (miss-IsNewestUpTo i x ends pos at_i, λ other. cc)

    pick_found_complete :
        (s : ℕ × Bool) (k : ℕ) (y : Variant V)
        → search_version e v ≡ s
        → pick_found e s ≡ none
        → get_elem? e.variants k ≡ some y
        → (e.match ≡ compatible → e.resolver.scheme.compare y.version v ≡ Ordering.gt)
          × (e.resolver.scheme.compare y.version v ≢ Ordering.eq)
    pick_found_complete (i, true) k y ends missed at_k =
        let (_, hit) = search_version_lem e o sorted v i true ends in
        let (x, at_i, _) =
          of_equal_at e.variants (λ y. e.resolver.scheme.compare y.version v) i (sym hit) in
        let bad : ◌≡◌ {A = Option (Variant V)} none (some x) = sym missed ∙ at_i in absurd (cc)
    pick_found_complete (i, false) k y ends missed at_k = (
      λ rule.
          let (point, _) = search_version_lem e o sorted v i false ends in
          elim (Bool-cases (i == 0)) [
            | inl start ↦ ground (
              arith,
              beyond_place i false k y ends (ground arith) at_k,
              missed-ne e o sorted v i ends k y at_k,
            )
            | inr later ↦
                let (x, at_i) = get_elem?-some_of_lt e.variants (i - 1) (ground arith) in
                absurd (ground arith)
          ],
      missed-ne e o sorted v i ends k y at_k,
    )

    -- On an endpoint in order, a variant that is picked is the newest that is not newer than the
    -- version asked for; under MatchExact it has an equal version.
    pub pick_sound :
        (x : Variant V)
        → pick e v ≡ some x
        → IsNewestUpTo v x × (e.match ≡ exact → e.resolver.scheme.compare x.version v ≡ Ordering.eq)
    unfolding pick
    pick_sound x got = pick_found_sound (search_version e v) x refl got

    -- On an endpoint in order, nothing is picked only if no variant has an equal version and, under
    -- MatchCompatible, every variant is newer than the version asked for.
    pub pick_complete :
        pick e v ≡ none
        → (y : Variant V) → IsMember y
        → (e.match ≡ compatible → e.resolver.scheme.compare y.version v ≡ Ordering.gt)
          × (e.resolver.scheme.compare y.version v ≢ Ordering.eq)
    unfolding pick
    pick_complete missed y (k, at_k) = pick_found_complete (search_version e v) k y refl missed at_k
