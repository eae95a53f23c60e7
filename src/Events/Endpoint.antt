-- ===== src/Events/Endpoint.antt =====
-- events/endpoint.go: an event's handler as an HTTP route.
pub mod Segments
pub mod Statuses
mod Tests
use Prim.Native.Char.{Char, code}
use dfl.Base.{
  ℕ, String, Bool, true, false, ◌||◌, ◌&&◌, List, [], ◌∷◌, Option, none, some, leb, ◌==◌,
  if◌then◌else◌, str_eq, ◌+s◌, map_text, lower,
}
use dfl.GoErrors.{Error, Result, ok, failed, error_text}
use dfl.Http.ReqError
use dfl.Http.ReqError.{ReqError, with_status}
use dfl.Http.Wire
use dfl.Http.Wire.{Encoding}
use dfl.Http.Router.{Router, Route}
use dfl.Http.Parser.Schema.{Value, ReqType, Std}
use dfl.Http.Parser.Plan.{Cache}
use dfl.Http.Adapt.{RespType, Reply, replied, refused, Registered, stopped, handle}
use dfl.Events.EventError.{EventError, with_event}
use dfl.Events.EventError

-- The characters of a segment: a to z, 0 to 9, the dot, the hyphen and the underscore.
unfoldable pub is_safe : Char → Bool
is_safe c =
    (leb 97 (code c) && leb (code c) 122)
    || (leb 48 (code c) && leb (code c) 57)
    || code c == 46
    || code c == 45
    || code c == 95

-- What the loop of pathSafe writes for a character.
unfoldable pub safe_char : Char → Char
unfolding is_safe
safe_char c = if is_safe c then c else "-"

-- pathSafe
unfoldable pub path_safe : String → String
unfolding map_text safe_char lower
path_safe name = map_text (λ c. safe_char (lower c)) name

-- The codes whose errors are the caller's.
abbrev pub is_bad_input : String → Bool
is_bad_input code =
    str_eq code "validation_failed" || str_eq code "invalid" || str_eq code "decode_failed"

abbrev pub projected : String → Option EventError → Option Error
projected name none = none
projected name (some event_err) =
    let e = with_event event_err name in
    let req_err = ReqError.new e.code e.meta (EventError.to_error e ∷ []) in
    some (ReqError.to_error (if is_bad_input e.code then req_err else with_status req_err 500))

-- asReqError, with the bus's coercer.
unfoldable pub as_req_error : (Option Error → Option EventError) → Error → String → Option Error
unfolding with_event ReqError.new with_status
as_req_error coercer err name = projected name (coercer (some err))

-- The two results of the typed handler: an error of the projection, or Empty when that is nil.
abbrev pub reply_of : Option Error → Reply Unit
reply_of none = replied tt
reply_of (some err) = refused err

module _ {X E : Type 0} (coercer : Option Error → Option EventError) (validate : E → Option Error)
    (event_name : E → String) (of_fields : List Value → E)
    (handler : Wire.Context X → E → Option Error) where
  abbrev pub after_handler : E → Option Error → Reply Unit
  after_handler e none = replied tt
  after_handler e (some err) = reply_of (as_req_error coercer err (event_name e))

  abbrev pub after_validate : Wire.Context X → E → Option Error → Reply Unit
  after_validate ctx e none = after_handler e (handler ctx e)
  after_validate ctx e (some err) = reply_of (as_req_error coercer err (event_name e))

  -- The function that RegisterEndpoint hands to the router: `of_fields` is the event with those fields.
  unfoldable pub endpoint : Wire.Context X → List Value → Reply Unit
  unfolding as_req_error
  endpoint ctx req = let e = of_fields req in after_validate ctx e (validate e)

-- The segment of an event's route: its URLSafeName, where it has one.
abbrev pub segment_of : Option String → String → String
segment_of none name = path_safe name
segment_of (some url_safe_name) name = url_safe_name

-- *Empty as the response type.
unfoldable pub empty_resp : RespType Unit
empty_resp = record {
  is_empty = true;
  pointer = true;
  status_coder = none;
  encode = λ resp. ok "{}";
}

module _ {X E : Type 0} (std : Std) (encode : ReqError → Encoding)
    (coercer : Option Error → Option EventError) (validate : E → Option Error)
    (event_name : E → String) (of_fields : List Value → E)
    (handler : Wire.Context X → E → Option Error) where
  -- RegisterEndpoint: the type *E by its name and shape, what zeroEvent gives, which is the event's
  -- URLSafeName, where it has one, and its name; and the arguments of Router.Handle.
  unfoldable pub register_endpoint :
      Router X
      → String
      → ReqType
      → List Value
      → Result (Option String × String)
      → List (Wire.Middleware X)
      → List (Route X)
      → Cache
      → Cache
      → Cache
      → Registered X × Cache
  unfolding path_safe error_text handle endpoint empty_resp
  register_endpoint rg type_name t zero_req (failed err) mw mux cache now later =
      (stopped ("dflevents: " +s error_text err), cache)
  register_endpoint rg type_name t zero_req (ok (url_safe_name, name)) mw mux cache now later =
      handle std encode rg "POST" ("/events/" +s segment_of url_safe_name name) type_name t zero_req
        empty_resp (endpoint coercer validate event_name of_fields handler) mw mux cache now later
