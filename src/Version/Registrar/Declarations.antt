-- ===== src/Version/Registrar/Declarations.antt =====
-- The order of the routes that a sequence of declarations leaves in a registrar.
use mathlib.Core.Option.{some-injective}
use dfl.Base.{
  String, ◌≡◌, refl, sym, subst, ap, ◌∙◌, Bool, true, false, ◌||◌, List, [], ◌∷◌, ◌++◌, map, Option,
  none, some, if◌then◌else◌, eq_iff, Bool-cases, inl, inr, arith, append-nil,
}
use dfl.Http.Wire.{HandlerFunc}
use dfl.Version.Resolver.{Resolved, Resolver}
use dfl.Version.Endpoint.{Endpoint, Match, new_endpoint}
use dfl.Version.Endpoint
use dfl.Version.Registrar.{
  RouteKey, Registrar, same_key, find_route, put_route, new_registrar, made, endpoint, changed,
  change, handle_func, withdraw,
}

-- Whether a key is listed.
unfoldable pub known : List RouteKey → RouteKey → Bool
known [] key = false
known (k ∷ ks) key = same_key k key || known ks key

-- The keys in the order of their first places, but those that have been seen.
unfoldable pub firsts : List RouteKey → List RouteKey → List RouteKey
unfolding known
firsts seen [] = []
firsts seen (k ∷ ks) =
    let later = firsts seen ks in
    let new = firsts (seen ++ k ∷ []) ks in if known seen k then later else k ∷ new

-- The list with the key, at its end if it is new.
abbrev pub grown : List RouteKey → RouteKey → List RouteKey
grown ks key = if known ks key then ks else ks ++ key ∷ []

same_key_refl : (key : RouteKey) → same_key key key ≡ true
same_key_refl key = ground (arith, eq_iff key.method key.method, eq_iff key.path key.path)

known-append : (ks : List RouteKey) (key : RouteKey) → known (ks ++ key ∷ []) key ≡ true
unfolding known
known-append [] key = ground (arith, same_key_refl key)
known-append (k ∷ ks) key = ground (arith, known-append ks key)

known-grown : (ks : List RouteKey) (key : RouteKey) → known (grown ks key) key ≡ true
known-grown ks key = elim (Bool-cases (known ks key)) [
  | inl old ↦ rw old old
  | inr new ↦ rw new (known-append ks key)
]

grown-known : (ks : List RouteKey) (key : RouteKey) → known ks key ≡ true → grown ks key ≡ ks
grown-known ks key h = rw h refl

grown_behind :
    (k : RouteKey) (ks : List RouteKey) (key : RouteKey)
    → same_key k key ≡ false
    → k ∷ grown ks key ≡ grown (k ∷ ks) key
unfolding known
grown_behind k ks key other = elim (Bool-cases (known ks key)) [
  | inl old ↦ rw (other, old) refl
  | inr new ↦ rw (other, new) refl
]

regroup : (a : List RouteKey) (b : RouteKey) (c : List RouteKey) → (a ++ b ∷ []) ++ c ≡ a ++ b ∷ c
regroup [] b c = refl
regroup (x ∷ a) b c = ap (λ ks. x ∷ ks) (regroup a b c)

firsts-grown :
    (order : List RouteKey) (k : RouteKey) (ks : List RouteKey)
    → grown order k ++ firsts (grown order k) ks ≡ order ++ firsts order (k ∷ ks)
unfolding firsts
firsts-grown order k ks = elim (Bool-cases (known order k)) [
  | inl old ↦ rw old refl
  | inr new ↦ rw new (regroup order k (firsts (order ++ k ∷ []) ks))
]

-- A call of HandleFunc or Withdraw for a route.
pub data Declaration (V : Type 0) : Type 0 where
  declares : RouteKey → String → HandlerFunc (Resolved V) → Declaration V
  withdraws : RouteKey → String → Declaration V

module _ {V : Type 0} where
  abbrev pub key_of : Declaration V → RouteKey
  key_of (declares key raw h) = key
  key_of (withdraws key raw) = key

  abbrev pub declare : Registrar V → Declaration V → Option (Registrar V)
  declare g (declares key raw h) = handle_func g key raw h
  declare g (withdraws key raw) = withdraw g key raw

  abbrev pub then_declare :
      (Registrar V → Option (Registrar V)) → Option (Registrar V) → Option (Registrar V)
  then_declare rest none = none
  then_declare rest (some g) = rest g

  -- The calls in their order, `none` once one of them panics.
  unfoldable pub declare_all : List (Declaration V) → Registrar V → Option (Registrar V)
  declare_all [] g = some g
  declare_all (d ∷ ds) g = then_declare (declare_all ds) (declare g d)

  abbrev pub keys_of : List (RouteKey × Endpoint V) → List RouteKey
  keys_of routes = map (λ p. p.0) routes

  keys-put_route :
      (key : RouteKey) (e : Endpoint V) (routes : List (RouteKey × Endpoint V))
      → keys_of (put_route key e routes) ≡ grown (keys_of routes) key
  unfolding put_route known
  keys-put_route key e [] = refl
  keys-put_route key e ((k, old) ∷ routes) = elim (Bool-cases (same_key k key)) [
    | inl same ↦ rw same refl
    | inr other ↦ rw other (
        ap (λ ks. k ∷ ks) (keys-put_route key e routes)
        ∙ grown_behind k (keys_of routes) key other
        ∙ rw other refl)
  ]

  is_found : Option (Endpoint V) → Bool
  is_found none = false
  is_found (some e) = true

  known-find_route :
      (key : RouteKey) (routes : List (RouteKey × Endpoint V))
      → known (keys_of routes) key ≡ is_found (find_route key routes)
  unfolding find_route known is_found
  known-find_route key [] = refl
  known-find_route key ((k, e) ∷ routes) = elim (Bool-cases (same_key k key)) [
    | inl same ↦ rw same refl
    | inr other ↦ rw other (known-find_route key routes)
  ]

  -- The registrar's order is that of its routes.
  abbrev pub IsListed : Registrar V → Type 0
  IsListed g = g.order ≡ keys_of g.routes

  -- What a declaration for a key does to the order.
  abbrev Grows : Registrar V → RouteKey → Registrar V → Type 0
  Grows g key g' = (g'.order ≡ grown g.order key) × IsListed g'

  changed-Grows :
      (g g1 g' : Registrar V) (key : RouteKey) (o : Option (Endpoint V))
      → Grows g key g1
      → known g1.order key ≡ true
      → changed key g1 o ≡ some g'
      → Grows g key g'
  changed-Grows g g1 g' key none h there done = cc
  changed-Grows g g1 g' key (some e) (order, listed) there done =
      subst (Grows g key) (some-injective _ _ done) (
        order,
        sym (grown-known g1.order key there)
            ∙ ap (λ ks. grown ks key) listed
            ∙ sym (keys-put_route key e g1.routes),
      )

  made-Grows :
      (g : Registrar V) (key : RouteKey) (o : Option (Endpoint V))
      → find_route key g.routes ≡ o
      → IsListed g
      → Grows g key (made g key o).0 × (known (made g key o).0.order key ≡ true)
  unfolding is_found
  made-Grows g key (some e) found listed =
      let there : known g.order key ≡ true =
        ap (λ ks. known ks key) listed ∙ known-find_route key g.routes ∙ ap is_found found in
      ((sym (grown-known g.order key there), listed), there)
  made-Grows g key none found listed =
      let new : known g.order key ≡ false =
        ap (λ ks. known ks key) listed ∙ known-find_route key g.routes ∙ ap is_found found in
      let order : grown g.order key ≡ g.order ++ key ∷ [] = rw new refl in
      (
        (
          sym order,
          sym order
              ∙ ap (λ ks. grown ks key) listed
              ∙ sym (keys-put_route key (new_endpoint g.resolver g.match) g.routes),
        ),
        known-append g.order key,
      )

  not_built :
      (b : Bool) (key : RouteKey) (f : Endpoint V → Option (Endpoint V))
      (got : Registrar V × Endpoint V) (g' : Registrar V)
      → change key f (if b then none else some got) ≡ some g'
      → changed key got.0 (f got.1) ≡ some g'
  not_built true key f got g' done = cc
  not_built false key f got g' done = done

  change-Grows :
      (g g' : Registrar V) (key : RouteKey) (f : Endpoint V → Option (Endpoint V))
      → IsListed g
      → change key f (endpoint g key) ≡ some g'
      → Grows g key g'
  unfolding endpoint
  change-Grows g g' key f listed done =
      let got = made g key (find_route key g.routes) in
      let (grows, there) = made-Grows g key (find_route key g.routes) refl listed in
      changed-Grows g got.0 g' key (f got.1) grows there (not_built g.built key f got g' done)

  declare-Grows :
      (g g' : Registrar V) (d : Declaration V)
      → IsListed g
      → declare g d ≡ some g'
      → Grows g (key_of d) g'
  unfolding handle_func withdraw
  declare-Grows g g' (declares key raw h) listed done =
      change-Grows g g' key (λ e. Endpoint.handle_func e raw h) listed done
  declare-Grows g g' (withdraws key raw) listed done =
      change-Grows g g' key (λ e. Endpoint.withdraw e raw) listed done

  pub declare_all-firsts :
      (ds : List (Declaration V)) (g g' : Registrar V)
      → IsListed g
      → declare_all ds g ≡ some g'
      → (g'.order ≡ g.order ++ firsts g.order (map key_of ds)) × IsListed g'
  unfolding declare_all firsts
  declare_all-firsts [] g g' listed done =
      subst (λ h. (h.order ≡ g.order ++ firsts g.order []) × IsListed h) (some-injective _ _ done)
        (sym (append-nil g.order), listed)
  declare_all-firsts (d ∷ ds) g g' listed done =
      go (declare g d) refl done (λ g1 h rest. declare_all-firsts ds g1 g' h rest)
    where
      go :
          (o : Option (Registrar V))
          → declare g d ≡ o
          → then_declare (declare_all ds) o ≡ some g'
          → ((g1 : Registrar V)
              → IsListed g1
              → declare_all ds g1 ≡ some g'
              → (g'.order ≡ g1.order ++ firsts g1.order (map key_of ds)) × IsListed g')
          → (g'.order ≡ g.order ++ firsts g.order (key_of d ∷ map key_of ds)) × IsListed g'
      go none same rest onward = cc
      go (some g1) same rest onward =
          let (order, listed1) = declare-Grows g g1 d listed same in
          let (order', listed') = onward g1 listed1 rest in
          (
            order'
                ∙ ap (λ ks. ks ++ firsts ks (map key_of ds)) order
                ∙ firsts-grown g.order (key_of d) (map key_of ds),
            listed',
          )

  -- The routes of a new registrar come in the order of their first declarations, each once.
  pub new_registrar-firsts :
      (rv : Resolver V) (m : Match) (ds : List (Declaration V)) (g : Registrar V)
      → declare_all ds (new_registrar rv m) ≡ some g
      → g.order ≡ firsts [] (map key_of ds)
  unfolding new_registrar
  new_registrar-firsts rv m ds g done = (declare_all-firsts ds (new_registrar rv m) g refl done).0
