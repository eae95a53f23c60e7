-- ===== src/Http/Router.antt =====
-- http/http.go: the error writer, the middleware chain and the router, and http/logger.go. The
-- encoding of errors to JSON text by encoding/json is the parameter `encode`. A coercer of the user's is
-- a function that returns.
pub mod Chain
pub mod Responses
use dfl.Base.{ℕ, String, List, [], ◌∷◌, ◌++◌, Option, none, some, ◌+s◌, reverse}
use dfl.GoErrors.{Error}
use dfl.Http.ReqError.{ReqError, status_code, default_coercer}
use dfl.Http.Parser.Schema.{RequestParser}
use dfl.Http.Wire.{
  Request, World, Panic, Outcome, returned, panicked, HandlerFunc, Middleware, ServeFunc,
  set_header, write_header, try_header, write, Encoding, encoded, unencodable, encoder_panics,
}

abbrev pub Coercer : Type 0
Coercer = Option Error → Option ReqError

abbrev pub ErrorWriter : Type 0 → Type 0
ErrorWriter X = Request X → Error → World → Option Panic × World

-- The end of writeJSON, behind its WriteHeader.
abbrev pub then_write : String → Option Panic × World → Option Panic × World
then_write b (none, w) = (none, write b w)
then_write b (some p, w) = (some p, w)

-- writeJSON, given what the encoder made of the value.
unfoldable pub write_json : ℕ → Encoding → World → Option Panic × World
write_json status unencodable w = (none, write_header 500 w)
write_json status (encoder_panics p) w = (some p, w)
write_json status (encoded b) w =
    then_write b (try_header status (set_header "Content-Type" "application/json" w))

-- What DefaultErrorWriter writes for a coerced error.
unfoldable pub write_coerced :
    (ReqError → Encoding) → Option ReqError → World → Option Panic × World
unfolding write_json
write_coerced encode none w = (none, write_header 500 w)
write_coerced encode (some e) w = write_json (status_code e) (encode e) w

abbrev pub coercer_or_default : Option Coercer → Coercer
coercer_or_default none = default_coercer
coercer_or_default (some c) = c

unfoldable pub default_error_writer :
    {X : Type 0} → (ReqError → Encoding) → Option Coercer → ErrorWriter X
unfolding write_coerced
default_error_writer encode c r err w = write_coerced encode (coercer_or_default c (some err)) w

-- combineChain
unfoldable pub combine_chain {ℓ} : {M : Type ℓ} → List M → List M → List M
combine_chain [] per_route = per_route
combine_chain (m ∷ group) per_route = (m ∷ group) ++ per_route

-- The loop of applyMiddleware, over the middleware from the last to the first.
unfoldable pub apply_backward {ℓ} : {H : Type ℓ} → H → List (H → H) → H
apply_backward h [] = h
apply_backward h (v ∷ mw) = apply_backward (v h) mw

unfoldable pub apply_middleware {ℓ} : {H : Type ℓ} → H → List (H → H) → H
unfolding apply_backward
apply_middleware h mw = apply_backward h (reverse mw)

-- A registration on the mux: method, full path and what the mux calls.
pub record Route (X : Type 0) : Type 0 where
  pub method : String
  pub pattern : String
  pub serve : ServeFunc X

-- The mux and its register function are shared by all groups: they are the list of registrations,
-- passed beside the router. A nil request parser is `none`; the typed Handle uses it.
pub record Router (X : Type 0) : Type 0 where
  pub coercer : Option Coercer
  pub error_writer : Option (ErrorWriter X)
  pub logger : Option ℕ
  pub request_parser : Option RequestParser
  pub prefix : String
  pub middleware : List (Middleware X)

-- Option, WithCoercer, WithErrorWriter, WithLogger and WithRequestParser.
unfoldable pub with_coercer : {X : Type 0} → Option Coercer → Router X → Router X
with_coercer c r = record r { coercer = c }

unfoldable pub with_error_writer : {X : Type 0} → Option (ErrorWriter X) → Router X → Router X
with_error_writer ew r = record r { error_writer = ew }

unfoldable pub with_logger : {X : Type 0} → ℕ → Router X → Router X
with_logger l r = record r { logger = some l }

unfoldable pub with_request_parser : {X : Type 0} → Option RequestParser → Router X → Router X
with_request_parser p r = record r { request_parser = p }

apply_options : {X : Type 0} → List (Router X → Router X) → Router X → Router X
apply_options [] r = r
apply_options (opt ∷ opts) r = apply_options opts (opt r)

unfoldable pub new_router : {X : Type 0} → List (Router X → Router X) → Router X
unfolding apply_options
new_router opts = apply_options opts (record {
  coercer = some default_coercer;
  error_writer = none;
  logger = none;
  request_parser = none;
  prefix = "";
  middleware = [];
})

-- The logger that rides the request, when the router has one.
abbrev pub attach_logger : {X : Type 0} → Option ℕ → Request X → Request X
attach_logger none req = req
attach_logger (some l) req = record req { context = record req.context { logger = some l } }

-- What the registered function does with the end of the wrapped handler.
abbrev pub finish :
    {X : Type 0} → ErrorWriter X → Request X → Outcome × World → Option Panic × World
finish write_err req (returned none, w) = (none, w)
finish write_err req (returned (some err), w) = write_err req err w
finish write_err req (panicked p, w) = (some p, w)

abbrev pub writer_or_default :
    {X : Type 0} → (ReqError → Encoding) → Option (ErrorWriter X) → Option Coercer → ErrorWriter X
writer_or_default encode none c = default_error_writer encode c
writer_or_default encode (some ew) c = ew

-- The function that HandleFunc registers.
unfoldable pub serve_route :
    {X : Type 0}
    → (ReqError → Encoding)
    → Router X
    → HandlerFunc X
    → List (Middleware X)
    → ServeFunc X
serve_route encode r h mw req w =
    let wrapped = apply_middleware h (combine_chain r.middleware mw) in
    let req' = attach_logger r.logger req in
    finish (writer_or_default encode r.error_writer r.coercer) req' (wrapped req' w)

-- Router.HandleFunc
unfoldable pub handle_func :
    {X : Type 0}
    → (ReqError → Encoding)
    → Router X
    → String
    → String
    → HandlerFunc X
    → List (Middleware X)
    → List (Route X)
    → List (Route X)
handle_func encode r method path h mw mux =
    mux
    ++ (record { method = method; pattern = r.prefix +s path; serve = serve_route encode r h mw })
      ∷ []

-- Router.Group
unfoldable pub group : {X : Type 0} → Router X → String → Router X
group r prefix = record {
  coercer = r.coercer;
  error_writer = r.error_writer;
  logger = r.logger;
  request_parser = r.request_parser;
  prefix = r.prefix +s prefix;
  middleware = r.middleware;
}

-- Router.Use
unfoldable pub use_middleware : {X : Type 0} → Router X → List (Middleware X) → Router X
use_middleware r mw = record r { middleware = r.middleware ++ mw }
