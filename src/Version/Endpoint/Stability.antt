-- ===== src/Version/Endpoint/Stability.antt =====
-- Older pins of http/version/endpoint.go when a variant is added.
use Prim.Native.Nat.{Ordering}
use mathlib.Core.Option.{some-injective}
use dfl.Base.{
  ℕ, ◌+◌, ◌-◌, ◌≤◌, ◌≡◌, ◌≢◌, refl, sym, subst, ap, ◌∙◌, Bool, true, false, Option, none, some,
  if◌then◌else◌, get_elem?, length, ltb, ltb→lt, ◌==◌, arith, Bool-cases, Option-cases, inl, inr,
  ◌⊎◌, String,
}
use dfl.GoErrors.{Result, ok, failed}
use dfl.Http.Wire.{HandlerFunc}
use dfl.Version.Resolver.{Resolved}
use dfl.Version.Scheme.{IsOrder, is_gt}
use dfl.Version.Search.{insert_at}
use dfl.Version.Search.Laws.{get_elem?-insert_at}
use dfl.Version.Endpoint.{
  Variant, Endpoint, Match, compatible, exact, pick, search_version, insert_found, insert_parsed,
  insert_variant,
}
use dfl.Version.Endpoint.Order.{IsOrdered, search_version_lem, insert_variant-IsOrdered}
use dfl.Version.Endpoint.Pick.{IsMember, IsNewestUpTo, pick_sound, pick_complete}

Match-cases : (m : Match) → (m ≡ compatible) ⊎ (m ≡ exact)
Match-cases compatible = inl refl
Match-cases exact = inr refl

module _ {V : Type 0} (e : Endpoint V) (o : IsOrder e.resolver.scheme.compare)
    (sorted : IsOrdered e) where
  -- What a registration that succeeds does.
  found-some :
      (x : Variant V) (s : ℕ × Bool) (e' : Endpoint V)
      → search_version e x.version ≡ s
      → insert_found e x s ≡ some e'
      → (i : ℕ) × (i ≤ length e.variants) × (e' ≡ record e { variants = insert_at i x e.variants })
  found-some x (i, true) e' ends h = cc
  found-some x (i, false) e' ends h =
      let (point, _) = search_version_lem e o sorted x.version i false ends in
      (i, point.in_range, sym (some-injective _ _ h))

  parsed-some :
      (h : Option (HandlerFunc (Resolved V))) (p : Result V) (v : V) (e' : Endpoint V)
      → p ≡ ok v
      → insert_parsed e h p ≡ some e'
      → (i : ℕ) × (i ≤ length e.variants)
        × (e' ≡ record e { variants = insert_at i (record { version = v; handle = h }) e.variants })
  parsed-some h (failed err) v e' same done = cc
  parsed-some h (ok u) v e' same done =
      let one : u ≡ v = cc in
      subst
        (λ t.
          (i : ℕ) × (i ≤ length e.variants)
          × (e' ≡ record e {
            variants = insert_at i (record { version = t; handle = h }) e.variants;
          }))
        one (found-some (record { version = u; handle = h }) (search_version e u) e' refl done)

  -- Two members that are not newer than one another are one.
  same_member :
      (x y : Variant V)
      → IsMember e x
      → IsMember e y
      → is_gt (e.resolver.scheme.compare x.version y.version) ≡ false
      → is_gt (e.resolver.scheme.compare y.version x.version) ≡ false
      → x ≡ y
  same_member x y (k, at_k) (l, at_l) h g = elim (Bool-cases (ltb k l)) [
    | inl low ↦
        absurd
          (ground (arith, o.swapped x.version y.version, sorted k l x y (ltb→lt k l low) at_k at_l))
    | inr not_low ↦ elim (Bool-cases (ltb l k)) [
      | inl high ↦ absurd (
          ground (arith, o.swapped y.version x.version, sorted l k y x (ltb→lt l k high) at_l at_k))
      | inr not_high ↦
          let at : k ≡ l = ground arith in
          some-injective _ _ (sym at_k ∙ ap (get_elem? e.variants) at ∙ at_l)
    ]
  ]

  module _ (x : Variant V) (i : ℕ) (fits : i ≤ length e.variants) (e' : Endpoint V)
      (grown : e' ≡ record e { variants = insert_at i x e.variants }) where
    old-IsMember : (y : Variant V) → IsMember e y → IsMember e' y
    old-IsMember y (k, at_k) =
        subst (λ f. IsMember f y) (sym grown)
          (elim (Bool-cases (ltb k i)) [
            | inl low ↦ (k, ground (arith, get_elem?-insert_at i x e.variants k fits))
            | inr high ↦ (k + 1, ground (arith, get_elem?-insert_at i x e.variants (k + 1) fits))
          ])

    new-IsMember : (y : Variant V) → IsMember e' y → IsMember e y ⊎ (y ≡ x)
    new-IsMember y m = placed (subst (λ f. IsMember f y) grown m)
      where
        placed :
            IsMember (record e { variants = insert_at i x e.variants }) y → IsMember e y ⊎ (y ≡ x)
        placed (k, at_k) =
            let at : (if ltb k i
                  then get_elem? e.variants k
                  else if k == i
                  then some x
                  else get_elem? e.variants (k - 1))
                ≡ some y =
              sym (get_elem?-insert_at i x e.variants k fits) ∙ at_k in
            elim (Bool-cases (ltb k i)) [
              | inl low ↦ inl (k, rw low at at)
              | inr high ↦ elim (Bool-cases (k == i)) [
                | inl here ↦ inr (sym (some-injective _ _ (rw (high, here) at at)))
                | inr past ↦ inl (k - 1, rw (high, past) at at)
              ]
            ]

    module _ (o' : IsOrder e'.resolver.scheme.compare) (sorted' : IsOrdered e') (pin : V)
        (newer : e.resolver.scheme.compare x.version pin ≡ Ordering.gt) where
      same_rule : e'.match ≡ e.match
      same_rule = ap (λ f. f.match) grown

      same_order : (a b : V) → e'.resolver.scheme.compare a b ≡ e.resolver.scheme.compare a b
      same_order a b = ap (λ f. f.resolver.scheme.compare a b) grown

      -- What is picked afterwards was there before.
      picked_is_old : (y : Variant V) → IsNewestUpTo e' pin y → IsMember e y
      picked_is_old y best = elim (new-IsMember y best.member) [
        | inl old ↦ old
        | inr fresh ↦ absurd (ground (arith, same_order y.version pin, best.not_newer))
      ]

      pick_both : (y z : Variant V) → pick e pin ≡ some y → pick e' pin ≡ some z → y ≡ z
      pick_both y z got got' =
          let (best, _) = pick_sound e o sorted pin y got in
          let (best', _) = pick_sound e' o' sorted' pin z got' in
          same_member y z best.member (picked_is_old z best')
            (sym (ap is_gt (same_order y.version z.version))
              ∙ best'.newest y (old-IsMember y best.member)
                  (ap is_gt (same_order y.version pin) ∙ best.not_newer))
            (best.newest z (picked_is_old z best')
              (sym (ap is_gt (same_order z.version pin)) ∙ best'.not_newer))

      not_lost : (y : Variant V) → pick e pin ≡ some y → pick e' pin ≢ none
      not_lost y got missed =
          let (best, rule) = pick_sound e o sorted pin y got in
          let (gone, other) =
            pick_complete e' o' sorted' pin missed y (old-IsMember y best.member) in
          elim (Match-cases e.match) [
            | inl c ↦ ground (arith, gone (same_rule ∙ c), same_order y.version pin, best.not_newer)
            | inr x ↦ other (same_order y.version pin ∙ rule x)
          ]

      not_gained : (z : Variant V) → pick e' pin ≡ some z → pick e pin ≢ none
      not_gained z got missed =
          let (best, rule) = pick_sound e' o' sorted' pin z got in
          let (gone, other) = pick_complete e o sorted pin missed z (picked_is_old z best) in
          elim (Match-cases e.match) [
            | inl c ↦ ground (arith, gone c, same_order z.version pin, best.not_newer)
            | inr x ↦ other (sym (same_order z.version pin) ∙ rule (same_rule ∙ x))
          ]

      pick_grown : pick e' pin ≡ pick e pin
      pick_grown = elim (Option-cases (pick e pin)) [
        | inl missed ↦ elim (Option-cases (pick e' pin)) [
          | inl missed' ↦ missed' ∙ sym missed
          | inr (z, got) ↦ absurd (not_gained z got missed)
        ]
        | inr (y, got) ↦ elim (Option-cases (pick e' pin)) [
          | inl missed ↦ absurd (not_lost y got missed)
          | inr (z, got') ↦ got' ∙ ap some (sym (pick_both y z got got')) ∙ sym got
        ]
      ]

  -- On an endpoint in order, registering a variant, or a withdrawal, that is newer than a pin changes
  -- nothing for that pin, under either match rule.
  pub insert_variant-pick :
      (raw : String) (v pin : V) (h : Option (HandlerFunc (Resolved V))) (e' : Endpoint V)
      → e.resolver.scheme.parse raw ≡ ok v
      → e.resolver.scheme.compare v pin ≡ Ordering.gt
      → insert_variant e raw h ≡ some e'
      → pick e' pin ≡ pick e pin
  unfolding insert_variant
  insert_variant-pick raw v pin h e' parsed newer done =
      let (i, fits, grown) = parsed-some h (e.resolver.scheme.parse raw) v e' parsed done in
      let o' : IsOrder e'.resolver.scheme.compare =
        subst (λ f. IsOrder f.resolver.scheme.compare) (sym grown) o in
      pick_grown (record { version = v; handle = h }) i fits e' grown o'
        (insert_variant-IsOrdered e o sorted raw h e' done) pin newer
