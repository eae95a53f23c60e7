-- ===== src/Version/Registrar/Tests.antt =====
-- A registrar of two routes, and the theorems on it.
use dfl.Base.{
  contains, scan, String, true, false, List, [], ◌∷◌, ◌++◌, Option, none, some, ◌≡◌, refl, ℕ, map,
}
use dfl.Http.ReqError.{ReqError}
use dfl.Http.Wire.{Encoding, unencodable, HandlerFunc, returned}
use dfl.Http.Router.{Route, Router, serve_route}
use dfl.Http.Router
use dfl.Version.Scheme.Sequential.{parse, trim_v, sequential, sequential-IsOrder}
use dfl.Version.Resolver.{Resolved, Resolver, header_source}
use dfl.Version.Search.{binary_search, search_loop, insert_at}
use dfl.Version.Endpoint
use dfl.Version.Endpoint.{
  new_endpoint, insert_variant, search_version, compatible, Endpoint, serve, versions,
}
use dfl.Version.Registrar.{
  RouteKey, Registrar, find_route, handle_func, withdraw, build_routes, build, latest,
  latest_routes, latest_of, new_registrar, endpoint, put_route,
}
use dfl.Version.Registrar.Latest.{declared, IsNewest, latest-IsNewest}
use dfl.Version.Registrar.Declarations.{
  Declaration, declares, withdraws, declare_all, firsts, known,
}
use dfl.Version.Registrar.Building.{place, key_place, build_lem}

abbrev resolver : Resolver ℕ
resolver = record {
  scheme = sequential;
  sources = header_source "Version" ∷ [];
  latest = [];
  preview = [];
  fallback = "";
  status_header = "";
  warn_header = "";
}

abbrev first_shape : HandlerFunc (Resolved ℕ)
first_shape r w = (returned none, w)

abbrev users : RouteKey
users = record { method = "GET"; path = "/users" }

abbrev orders : RouteKey
orders = record { method = "POST"; path = "/orders" }

-- Users at version 2, and orders withdrawn at version 5.
abbrev endpoint_at : ℕ → Option (HandlerFunc (Resolved ℕ)) → Endpoint ℕ
endpoint_at v h = record {
  resolver = resolver;
  match = compatible;
  variants = record { version = v; handle = h } ∷ [];
  preview = none;
}

abbrev two_routes : Registrar ℕ
two_routes = record {
  resolver = resolver;
  match = compatible;
  order = users ∷ orders ∷ [];
  routes = (users, endpoint_at 2 (some first_shape)) ∷ (orders, endpoint_at 5 none) ∷ [];
  built = false;
}

abbrev router : Router (Resolved ℕ)
router = record {
  coercer = none;
  error_writer = none;
  logger = none;
  request_parser = none;
  prefix = "/api";
  middleware = [];
}

abbrev no_json : ReqError → Encoding
no_json e = unencodable

latest_is_the_withdrawal : latest two_routes ≡ some 5
unfolding latest latest_routes latest_of versions
latest_is_the_withdrawal = refl

latest-IsNewest_example :
    IsNewest two_routes.resolver.scheme.compare sequential-IsOrder
      (declared two_routes.routes)
      (latest two_routes)
latest-IsNewest_example = latest-IsNewest two_routes sequential-IsOrder

-- Users twice, around orders; the second declaration of users is the newer one.
abbrev call_list : List (Declaration ℕ)
call_list =
    declares users "v2" first_shape ∷ withdraws orders "v5" ∷ declares users "v3" first_shape ∷ []

abbrev users_twice : Endpoint ℕ
users_twice = record {
  resolver = resolver;
  match = compatible;
  variants =
      record { version = 2; handle = some first_shape }
      ∷ record { version = 3; handle = some first_shape }
      ∷ [];
  preview = none;
}

abbrev declared_routes : Registrar ℕ
declared_routes = record two_routes {
  routes = (users, users_twice) ∷ (orders, endpoint_at 5 none) ∷ [];
}

abbrev built_routes : Registrar ℕ
built_routes = record declared_routes { built = true }

abbrev mux_of_two : List (Route (Resolved ℕ))
mux_of_two =
    record {
      method = "GET";
      pattern = "/api/users";
      serve = serve_route no_json router (serve 0 users_twice) [];
    }
    ∷ record {
      method = "POST";
      pattern = "/api/orders";
      serve = serve_route no_json router (serve 0 (endpoint_at 5 none)) [];
    }
    ∷ []

call_list-declared :
    declare_all call_list (new_registrar resolver compatible) ≡ some declared_routes
unfolding declare_all new_registrar handle_func withdraw endpoint find_route put_route
    Endpoint.handle_func Endpoint.withdraw new_endpoint insert_variant contains parse trim_v scan
    search_version binary_search search_loop insert_at
call_list-declared = refl

declared_routes-build : build 0 no_json router declared_routes [] ≡ some (built_routes, mux_of_two)
unfolding build build_routes find_route Router.handle_func
declared_routes-build = refl

build_lem_example :
    (map (place 0 no_json router) mux_of_two
      ≡ [] ++ map (key_place 0 no_json router) (users ∷ orders ∷ []))
    × ((key : RouteKey) (raw : String) (h : HandlerFunc (Resolved ℕ))
        → (handle_func built_routes key raw h ≡ none)
          × (withdraw built_routes key raw ≡ none)
          × (build 0 no_json router built_routes mux_of_two ≡ none))
unfolding firsts known
build_lem_example =
    build_lem 0 no_json router resolver compatible call_list declared_routes built_routes []
      mux_of_two call_list-declared declared_routes-build
