-- ===== src/Version/Registrar.antt =====
-- http/version/registrar.go: the endpoints of many routes, one for each method and path. A
-- declaration that panics is `none`. Go's map of endpoints is an association list.
pub mod Latest
pub mod Declarations
pub mod Building
mod Tests
use Prim.Native.Nat.{Ordering}
use dfl.Base.{
  ℕ, String, Bool, true, false, ◌&&◌, List, [], ◌∷◌, ◌++◌, Option, none, some, if◌then◌else◌,
  str_eq,
}
use dfl.Http.Wire.{Encoding, HandlerFunc}
use dfl.Http.ReqError.{ReqError}
use dfl.Http.Router.{Route, Router}
use dfl.Http.Router
use dfl.Version.Scheme.{is_gt}
use dfl.Version.Resolver.{Resolved, Resolver}
use dfl.Version.Endpoint.{Endpoint, Match, new_endpoint, serve, versions}
use dfl.Version.Endpoint

pub record RouteKey : Type 0 where
  pub method : String
  pub path : String

abbrev pub same_key : RouteKey → RouteKey → Bool
same_key a b = str_eq a.method b.method && str_eq a.path b.path

-- The router that the registrar declares on is passed to build, with its registrations.
pub record Registrar (V : Type 0) : Type 0 where
  pub resolver : Resolver V
  pub match : Match
  pub order : List RouteKey
  pub routes : List (RouteKey × Endpoint V)
  pub built : Bool

module _ {V : Type 0} where
  unfoldable pub find_route : RouteKey → List (RouteKey × Endpoint V) → Option (Endpoint V)
  find_route key [] = none
  find_route key ((k, e) ∷ routes) =
      let rest = find_route key routes in if same_key k key then some e else rest

  unfoldable pub put_route :
      RouteKey → Endpoint V → List (RouteKey × Endpoint V) → List (RouteKey × Endpoint V)
  put_route key e [] = (key, e) ∷ []
  put_route key e ((k, old) ∷ routes) =
      let rest = put_route key e routes in
      if same_key k key then (k, e) ∷ routes else (k, old) ∷ rest

  -- NewRegistrar
  unfoldable pub new_registrar : Resolver V → Match → Registrar V
  new_registrar rv m = record { resolver = rv; match = m; order = []; routes = []; built = false }

  -- What endpoint returns for the route's entry, made where it is missing.
  abbrev pub made : Registrar V → RouteKey → Option (Endpoint V) → Registrar V × Endpoint V
  made g key (some e) = (g, e)
  made g key none =
      let e = new_endpoint g.resolver g.match in
      (record g { routes = put_route key e g.routes; order = g.order ++ key ∷ [] }, e)

  -- endpoint
  unfoldable pub endpoint : Registrar V → RouteKey → Option (Registrar V × Endpoint V)
  endpoint g key =
      let got = made g key (find_route key g.routes) in if g.built then none else some got

  -- The registrar after the endpoint, which it shares, has been changed.
  abbrev pub changed : RouteKey → Registrar V → Option (Endpoint V) → Option (Registrar V)
  changed key g none = none
  changed key g (some e) = some (record g { routes = put_route key e g.routes })

  abbrev pub change :
      RouteKey
      → (Endpoint V → Option (Endpoint V))
      → Option (Registrar V × Endpoint V)
      → Option (Registrar V)
  change key f none = none
  change key f (some (g, e)) = changed key g (f e)

  -- HandleFunc
  unfoldable pub handle_func :
      Registrar V → RouteKey → String → HandlerFunc (Resolved V) → Option (Registrar V)
  handle_func g key raw h = change key (λ e. Endpoint.handle_func e raw h) (endpoint g key)

  -- Withdraw
  unfoldable pub withdraw : Registrar V → RouteKey → String → Option (Registrar V)
  withdraw g key raw = change key (λ e. Endpoint.withdraw e raw) (endpoint g key)

  -- The loop of Latest over one endpoint's versions.
  abbrev pub newer : (V → V → Ordering) → V → Option V → V
  newer cmp v none = v
  newer cmp v (some latest) = if is_gt (cmp v latest) then v else latest

  unfoldable pub latest_of : (V → V → Ordering) → Option V → List V → Option V
  latest_of cmp latest [] = latest
  latest_of cmp latest (v ∷ vs) = latest_of cmp (some (newer cmp v latest)) vs

  unfoldable pub latest_routes :
      (V → V → Ordering) → Option V → List (RouteKey × Endpoint V) → Option V
  latest_routes cmp latest [] = latest
  latest_routes cmp latest ((k, e) ∷ routes) =
      latest_routes cmp (latest_of cmp latest (versions e)) routes

  -- Latest
  unfoldable pub latest : Registrar V → Option V
  latest g = latest_routes g.resolver.scheme.compare none g.routes

  abbrev pub with_route :
      Option (Endpoint V)
      → (Endpoint V → Option (List (Route (Resolved V))))
      → Option (List (Route (Resolved V)))
  with_route none next = none
  with_route (some e) next = next e

  -- The loop of Build. `none` stands for a key that has no endpoint.
  unfoldable pub build_routes :
      V
      → (ReqError → Encoding)
      → Router (Resolved V)
      → List (RouteKey × Endpoint V)
      → List RouteKey
      → List (Route (Resolved V))
      → Option (List (Route (Resolved V)))
  build_routes zero_version encode r routes [] mux = some mux
  build_routes zero_version encode r routes (key ∷ order) mux =
      with_route (find_route key routes) (λ e.
        build_routes zero_version encode r routes order
          (Router.handle_func encode r key.method key.path (serve zero_version e) [] mux))

  abbrev pub frozen :
      Registrar V
      → Option (List (Route (Resolved V)))
      → Option (Registrar V × List (Route (Resolved V)))
  frozen g none = none
  frozen g (some mux) = some (record g { built = true }, mux)

  -- Build, with the router, whose registrations are the mux, and the zero value of V.
  unfoldable pub build :
      V
      → (ReqError → Encoding)
      → Router (Resolved V)
      → Registrar V
      → List (Route (Resolved V))
      → Option (Registrar V × List (Route (Resolved V)))
  build zero_version encode r g mux =
      let run = frozen g (build_routes zero_version encode r g.routes g.order mux) in
      if g.built then none else run
