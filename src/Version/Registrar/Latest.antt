-- ===== src/Version/Registrar/Latest.antt =====
-- The API-wide latest version.
use Prim.Native.Nat.{Ordering}
use dfl.Base.{
  ◌≡◌, refl, sym, ◌∙◌, subst, false, List, [], ◌∷◌, ◌++◌, Option, none, some, All, ◌⊎◌, inl, inr,
  arith, Bool-cases,
}
use dfl.Version.Scheme.{IsOrder, is_gt}
use dfl.Version.Endpoint.{Endpoint, versions}
use dfl.Version.Registrar.{RouteKey, Registrar, newer, latest_of, latest_routes, latest}

module _ {V : Type 0} where
  -- One version of a list.
  abbrev pub OneOf : V → List V → Type 0
  OneOf v [] = ⊥
  OneOf v (u ∷ us) = (u ≡ v) ⊎ OneOf v us

  -- Every version that is declared on some route.
  unfoldable pub declared : List (RouteKey × Endpoint V) → List V
  declared [] = []
  declared ((k, e) ∷ routes) = versions e ++ declared routes

module _ {V : Type 0} (cmp : V → V → Ordering) (o : IsOrder cmp) where
  open o use {equal_self, swapped, le_trans}

  abbrev pub NotNewer : V → V → Type 0
  NotNewer v u = is_gt (cmp u v) ≡ false

  -- The version so far is not newer than what newer keeps, nor is the version at hand.
  newer-NotNewer : (v l : V) → NotNewer (newer cmp v (some l)) l × NotNewer (newer cmp v (some l)) v
  newer-NotNewer v l = ground (arith, equal_self v, equal_self l, swapped v l)

  newer-cases : (v l : V) → (newer cmp v (some l) ≡ l) ⊎ (newer cmp v (some l) ≡ v)
  newer-cases v l = elim (Bool-cases (is_gt (cmp v l))) [
    | inl gt ↦ inr (rw gt refl)
    | inr le ↦ inl (rw le refl)
  ]

  Tops : V → List V → V → Type 0
  Tops l vs m = ((m ≡ l) ⊎ OneOf m vs) × NotNewer m l × All (NotNewer m) vs

  from_newer :
      (m v l : V) (vs : List V)
      → (m ≡ newer cmp v (some l)) ⊎ OneOf m vs
      → (m ≡ l) ⊎ OneOf m (v ∷ vs)
  from_newer m v l vs (inr later) = inr (inr later)
  from_newer m v l vs (inl kept) = elim (newer-cases v l) [
    | inl old ↦ inl (kept ∙ old)
    | inr new ↦ inr (inl (sym (kept ∙ new)))
  ]

  latest_of-Tops :
      (l : V) (vs : List V) → (m : V) × (latest_of cmp (some l) vs ≡ some m) × Tops l vs m
  unfolding latest_of Tops
  latest_of-Tops l [] = (l, refl, (inl refl, rw (equal_self l) refl, tt))
  latest_of-Tops l (v ∷ vs) =
      let (m, ends, (from, top, all)) = latest_of-Tops (newer cmp v (some l)) vs in
      let (of_l, of_v) = newer-NotNewer v l in
      (
        m,
        ends,
        (
          from_newer m v l vs from,
          le_trans l (newer cmp v (some l)) m of_l top,
          (le_trans v (newer cmp v (some l)) m of_v top, all),
        ),
      )

  -- The newest of a list: one of its versions, and none is newer.
  abbrev pub IsNewest : List V → Option V → Type 0
  IsNewest vs none = vs ≡ []
  IsNewest vs (some m) = OneOf m vs × All (NotNewer m) vs

  latest_of-IsNewest : (vs : List V) → IsNewest vs (latest_of cmp none vs)
  unfolding latest_of Tops
  latest_of-IsNewest [] = refl
  latest_of-IsNewest (v ∷ vs) =
      let (m, ends, (from, top, all)) = latest_of-Tops v vs in
      subst (IsNewest (v ∷ vs)) (sym ends) (first m from, (top, all))
    where
      first : (m : V) → (m ≡ v) ⊎ OneOf m vs → OneOf m (v ∷ vs)
      first m (inl same) = inl (sym same)
      first m (inr later) = inr later

  latest_of-append :
      (l : Option V) (us vs : List V)
      → latest_of cmp l (us ++ vs) ≡ latest_of cmp (latest_of cmp l us) vs
  unfolding latest_of
  latest_of-append l [] vs = refl
  latest_of-append l (u ∷ us) vs = latest_of-append (some (newer cmp u l)) us vs

  latest_routes-declared :
      (l : Option V) (routes : List (RouteKey × Endpoint V))
      → latest_routes cmp l routes ≡ latest_of cmp l (declared routes)
  unfolding latest_routes latest_of declared
  latest_routes-declared l [] = refl
  latest_routes-declared l ((k, e) ∷ routes) =
      latest_routes-declared (latest_of cmp l (versions e)) routes
      ∙ sym (latest_of-append l (versions e) (declared routes))

-- Under a scheme with a total order, Latest returns a version that is declared on some route and
-- than which no declared version, a withdrawal included, is newer; it returns none only if no
-- version is declared at all.
pub latest-IsNewest :
    {V : Type 0} (g : Registrar V) (o : IsOrder g.resolver.scheme.compare)
    → IsNewest g.resolver.scheme.compare o (declared g.routes) (latest g)
unfolding latest
latest-IsNewest g o =
    subst (IsNewest g.resolver.scheme.compare o (declared g.routes))
      (sym (latest_routes-declared g.resolver.scheme.compare o none g.routes))
      (latest_of-IsNewest g.resolver.scheme.compare o (declared g.routes))
