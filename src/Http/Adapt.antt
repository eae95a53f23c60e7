-- ===== src/Http/Adapt.antt =====
-- http/adapt.go, http/empty.go and Router.Handle. A typed handler gets the context and the parsed
-- struct, and has no hold of the response. The plans of a parser are shared: a request finds the cache
-- as it is then.
pub mod Laws
mod Tests
use dfl.Base.{
  ℕ, String, Bool, true, false, List, [], ◌∷◌, Option, none, some, ◌==◌, if◌then◌else◌, ◌+s◌,
}
use dfl.GoErrors.{Error, Result, ok, failed, error_text}
use dfl.Http.ReqError.{ReqError}
use dfl.Http.Wire.{
  Encoding, Context, Request, World, Panic, Outcome, returned, panicked, HandlerFunc, Middleware,
  set_header, write_header, write,
}
use dfl.Http.Router.{Router, Route, handle_func}
use dfl.Http.Parser.Schema.{Value, ReqType, RequestParser, Std, default_request_parser}
use dfl.Http.Parser.Plan.{Cache}
use dfl.Http.Parser.Bind.{parse, prepare_for}

-- What SuccessStatus is asked on: the zero value of Resp, or a pointer to a new struct.
pub data Receiver : Type 0 where
  zero_value : Receiver
  new_struct : Receiver

-- The type Resp. `status_coder` is its SuccessStatus where it has one, a code
-- from 200 to 999, `pointer` whether its zero value
-- is a nil pointer, and `encode` is json.Encoder's Encode.
pub record RespType (A : Type 0) : Type 0 where
  pub is_empty : Bool
  pub pointer : Bool
  pub status_coder : Option (Receiver → ℕ)
  pub encode : A → Result String

-- How a typed handler ends.
pub data Reply (A : Type 0) : Type 0 where
  replied : A → Reply A
  refused : Error → Reply A
  panicking : Panic → Reply A

abbrev pub asked_status : Bool → Option (Receiver → ℕ) → ℕ
asked_status pointer none = 200
asked_status true (some success_status) = success_status new_struct
asked_status false (some success_status) = success_status zero_value

-- successStatusFor
unfoldable pub success_status_for : {A : Type 0} → RespType A → ℕ
success_status_for t = asked_status t.pointer t.status_coder

module _ {A : Type 0} (t : RespType A) where
  -- The end of the adapted handler, for what Encode made of the response.
  abbrev pub write_encoded : Result String → World → Outcome × World
  write_encoded (failed err) w = (returned (some err), w)
  write_encoded (ok buf) w =
      let typed = set_header "Content-Type" "application/json" w in
      let status = success_status_for t in
      (returned none, write buf (if status == 200 then typed else write_header status typed))

  abbrev pub write_reply : Reply A → World → Outcome × World
  write_reply (panicking p) w = (panicked p, w)
  write_reply (refused err) w = (returned (some err), w)
  write_reply (replied resp) w =
      if t.is_empty then (returned none, write_header 204 w) else write_encoded (t.encode resp) w

  module _ {X : Type 0} (handler : Context X → List Value → Reply A) where
    abbrev pub after_parse : Request X → World → Result (List Value) → Outcome × World
    after_parse r w (failed err) = (returned (some err), w)
    after_parse r w (ok req) = write_reply (handler r.context req) w

abbrev pub parser_or_default : Option RequestParser → RequestParser
parser_or_default none = default_request_parser
parser_or_default (some p) = p

module _ {X A : Type 0} (std : Std) (name : String) (t : ReqType) (zero_req : List Value)
    (resp : RespType A) (handler : Context X → List Value → Reply A) where
  -- The HandlerFunc that Adapt gives, on a request that finds the cache `now`, and `later` once a plan
  -- is built.
  unfoldable pub adapted : RequestParser → Cache → Cache → HandlerFunc X
  unfolding parse success_status_for set_header write_header write
  adapted p now later r w = after_parse resp handler r w (parse std p name t zero_req now later r).0

  abbrev pub unless_unbindable :
      RequestParser → Option Error × Cache → Result (Cache → Cache → HandlerFunc X) × Cache
  unless_unbindable p (some err, cache) = (failed err, cache)
  unless_unbindable p (none, cache) = (ok (adapted p), cache)

  -- Adapt; the cache is that of the registration.
  unfoldable pub adapt :
      Option RequestParser → Cache → Cache → Result (Cache → Cache → HandlerFunc X) × Cache
  unfolding prepare_for default_request_parser
  adapt p cache later =
      unless_unbindable (parser_or_default p)
        (prepare_for std (parser_or_default p) name t cache later)

-- How a registration ends: with the mux, or in a panic of that text.
pub data Registered (X : Type 0) : Type 0 where
  registered : List (Route X) → Registered X
  stopped : String → Registered X

module _ {X : Type 0} (encode : ReqError → Encoding) where
  abbrev pub register_adapted :
      Router X
      → String
      → String
      → List (Middleware X)
      → List (Route X)
      → Cache
      → Cache
      → Result (Cache → Cache → HandlerFunc X) × Cache
      → Registered X × Cache
  register_adapted r method path mw mux now later (failed err, cache) =
      (stopped ("dflhttp: " +s error_text err), cache)
  register_adapted r method path mw mux now later (ok h, cache) =
      (registered (handle_func encode r method path (h now later) mw mux), cache)

module _ {X A : Type 0} (std : Std) (encode : ReqError → Encoding) where
  -- Router.Handle, whose requests find the caches `now` and `later`.
  unfoldable pub handle :
      Router X
      → String
      → String
      → String
      → ReqType
      → List Value
      → RespType A
      → (Context X → List Value → Reply A)
      → List (Middleware X)
      → List (Route X)
      → Cache
      → Cache
      → Cache
      → Registered X × Cache
  unfolding adapt handle_func error_text
  handle r method path name t zero_req resp handler mw mux cache now later =
      register_adapted encode r method path mw mux now later
        (adapt std name t zero_req resp handler r.request_parser cache cache)
