-- ===== src/Version/Typed.antt =====
-- The typed Handle of http/version/endpoint.go and registrar.go: a variant that the request parser
-- binds. `parser` is the one of the endpoint's configuration, and a registration that panics is `none`.
use dfl.Base.{String, List, Option, none}
use dfl.GoErrors.{Result, ok, failed}
use dfl.Http.Wire.{Context, HandlerFunc}
use dfl.Http.Parser.Schema.{Value, ReqType, RequestParser, Std}
use dfl.Http.Parser.Plan.{Cache}
use dfl.Http.Adapt.{RespType, Reply, adapt}
use dfl.Version.Resolver.{Resolved}
use dfl.Version.Endpoint
use dfl.Version.Endpoint.{Endpoint}
use dfl.Version.Registrar.{Registrar, RouteKey, change, endpoint}

module _ {V A : Type 0} (std : Std) (parser : Option RequestParser) (name : String) (t : ReqType)
    (zero_req : List Value) (resp : RespType A)
    (handler : Context (Resolved V) → List Value → Reply A) where
  abbrev pub add_adapted :
      (HandlerFunc (Resolved V) → Option (Endpoint V))
      → Cache
      → Cache
      → Result (Cache → Cache → HandlerFunc (Resolved V)) × Cache
      → Option (Endpoint V)
  add_adapted add now later (failed err, cache) = none
  add_adapted add now later (ok h, cache) = add (h now later)

  -- Endpoint.Handle; its requests find the caches `now` and `later`.
  unfoldable pub handle : Endpoint V → String → Cache → Cache → Cache → Option (Endpoint V)
  unfolding adapt Endpoint.handle_func
  handle e raw cache now later =
      add_adapted (Endpoint.handle_func e raw) now later
        (adapt std name t zero_req resp handler parser cache cache)

  -- Registrar.Handle
  unfoldable pub handle_route :
      Registrar V → RouteKey → String → Cache → Cache → Cache → Option (Registrar V)
  unfolding endpoint handle
  handle_route g key raw cache now later =
      change key (λ e. handle e raw cache now later) (endpoint g key)
