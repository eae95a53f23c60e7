-- ===== src/Version/Registrar/Building.antt =====
-- Build of http/version/registrar.go.
use dfl.Base.{
  ◌+s◌, if◌then◌else◌, ◌≡◌, refl, sym, ap, ◌∙◌, String, true, List, [], ◌∷◌, ◌++◌, Option, none,
  some, Bool-cases, inl, inr, append-nil, map,
}
use mathlib.Core.Option.{some-injective}
use dfl.Http.Wire.{Encoding, HandlerFunc}
use dfl.Http.ReqError.{ReqError}
use dfl.Http.Router.{Route, Router}
use dfl.Http.Router
use dfl.Version.Resolver.{Resolved, Resolver}
use dfl.Version.Endpoint.{Endpoint, Match, serve}
use dfl.Version.Registrar.{
  RouteKey, Registrar, endpoint, handle_func, withdraw, find_route, build_routes, frozen,
  with_route, build, new_registrar,
}
use dfl.Version.Registrar.Declarations.{
  Declaration, key_of, declare_all, firsts, new_registrar-firsts,
}

module _ {V : Type 0} (zero_version : V) (encode : ReqError → Encoding)
    (r : Router (Resolved V)) where
  -- Where a route of the mux is registered.
  abbrev pub place : Route (Resolved V) → String × String
  place route = (route.method, route.pattern)

  abbrev pub key_place : RouteKey → String × String
  key_place key = (key.method, r.prefix +s key.path)

  places-handle_func :
      (key : RouteKey) (h : HandlerFunc (Resolved V)) (mux : List (Route (Resolved V)))
      → map place (Router.handle_func encode r key.method key.path h [] mux)
        ≡ map place mux ++ key_place key ∷ []
  unfolding Router.handle_func
  places-handle_func key h [] = refl
  places-handle_func key h (route ∷ mux) =
      ap (λ ps. place route ∷ ps) (places-handle_func key h mux)

  regroup :
      (a : List (String × String)) (b : String × String) (c : List (String × String))
      → (a ++ b ∷ []) ++ c ≡ a ++ b ∷ c
  regroup [] b c = refl
  regroup (x ∷ a) b c = ap (λ ps. x ∷ ps) (regroup a b c)

  Places : List RouteKey → List (Route (Resolved V)) → Option (List (Route (Resolved V))) → Type 0
  Places order mux out =
      (mux' : List (Route (Resolved V)))
      → out ≡ some mux'
      → map place mux' ≡ map place mux ++ map key_place order

  with_route-Places :
      (key : RouteKey) (order : List RouteKey) (mux : List (Route (Resolved V)))
      (got : Option (Endpoint V)) (next : Endpoint V → Option (List (Route (Resolved V))))
      → ((e : Endpoint V)
          → Places order
              (Router.handle_func encode r key.method key.path (serve zero_version e) [] mux)
              (next e))
      → Places (key ∷ order) mux (with_route got next)
  unfolding Places
  with_route-Places key order mux none next each mux' h = cc
  with_route-Places key order mux (some e) next each mux' h =
      each e mux' h
      ∙ ap (λ ps. ps ++ map key_place order) (places-handle_func key (serve zero_version e) mux)
      ∙ regroup (map place mux) (key_place key) (map key_place order)

  build_routes-Places :
      (routes : List (RouteKey × Endpoint V)) (order : List RouteKey)
      (mux : List (Route (Resolved V)))
      → Places order mux (build_routes zero_version encode r routes order mux)
  unfolding build_routes Places
  build_routes-Places routes [] mux mux' h =
      ap (map place) (sym (some-injective _ _ h)) ∙ sym (append-nil (map place mux))
  build_routes-Places routes (key ∷ order) mux mux' h =
      with_route-Places key order mux (find_route key routes)
        (λ e.
          build_routes zero_version encode r routes order
            (Router.handle_func encode r key.method key.path (serve zero_version e) [] mux))
        (λ e.
          build_routes-Places routes order
            (Router.handle_func encode r key.method key.path (serve zero_version e) [] mux))
        mux' h

  is_frozen :
      (g : Registrar V) (key : RouteKey) (raw : String) (h : HandlerFunc (Resolved V))
      (mux : List (Route (Resolved V)))
      → g.built ≡ true
      → (handle_func g key raw h ≡ none)
        × (withdraw g key raw ≡ none)
        × (build zero_version encode r g mux ≡ none)
  unfolding handle_func withdraw endpoint build
  is_frozen g key raw h mux over = (rw over refl, rw over refl, rw over refl)

  built_once :
      (g g' : Registrar V) (mux mux' : List (Route (Resolved V)))
      (out : Option (List (Route (Resolved V))))
      → (if g.built then none else frozen g out) ≡ some (g', mux')
      → (g'.built ≡ true) × (out ≡ some mux')
  built_once g g' mux mux' out h = elim (Bool-cases g.built) [
    | inl over ↦
        (let bad : ◌≡◌ {A = Option (Registrar V × List (Route (Resolved V)))} none
              (some (g', mux')) =
            rw over at h in
          cc)
    | inr open_still ↦ thaw out (rw open_still at h)
  ]
    where
      thaw :
          (out : Option (List (Route (Resolved V))))
          → frozen g out ≡ some (g', mux')
          → (g'.built ≡ true) × (out ≡ some mux')
      thaw none h = cc
      thaw (some m) h = (
        ap (λ p. p.0.built) (sym (some-injective _ _ h)),
        ap (λ p. some p.1) (some-injective _ _ h),
      )

  built-IsBuilt :
      (g g' : Registrar V) (mux mux' : List (Route (Resolved V)))
      → build zero_version encode r g mux ≡ some (g', mux')
      → (map place mux' ≡ map place mux ++ map key_place g.order) × (g'.built ≡ true)
  unfolding build Places
  built-IsBuilt g g' mux mux' h =
      let (over, done) =
        built_once g g' mux mux' (build_routes zero_version encode r g.routes g.order mux) h in
      (build_routes-Places g.routes g.order mux mux' done, over)

  -- After any calls of HandleFunc and Withdraw on a new registrar, none of which panics, a build that
  -- does not panic registers on the router one route for each method and path that some call was for,
  -- in the order of the first call for each, behind what the router had. And it freezes the
  -- registrar: a later declaration, withdrawal or build panics.
  pub build_lem :
      (rv : Resolver V) (m : Match) (ds : List (Declaration V)) (g g' : Registrar V)
      (mux mux' : List (Route (Resolved V)))
      → declare_all ds (new_registrar rv m) ≡ some g
      → build zero_version encode r g mux ≡ some (g', mux')
      → (map place mux' ≡ map place mux ++ map key_place (firsts [] (map key_of ds)))
        × ((key : RouteKey) (raw : String) (h : HandlerFunc (Resolved V))
            → (handle_func g' key raw h ≡ none)
              × (withdraw g' key raw ≡ none)
              × (build zero_version encode r g' mux' ≡ none))
  build_lem rv m ds g g' mux mux' declared h =
      let (places, over) = built-IsBuilt g g' mux mux' h in
      (
        places
            ∙ ap (λ ks. map place mux ++ map key_place ks)
                (new_registrar-firsts rv m ds g declared),
        λ key raw hd. is_frozen g' key raw hd mux' over,
      )
