-- ===== src/Events/Endpoint/Tests.antt =====
-- Segments and responses of event routes.
use dfl.Base.{
  ℕ, ◌≡◌, refl, List, [], Option, none, some, lookup, map_text, lower, nth_char, small_letters,
}
use dfl.GoErrors.{Error, plain, ok}
use dfl.Http.ReqError
use dfl.Http.ReqError.{ReqError, status_code}
use dfl.Http.Wire.{Context, Encoding, encoded}
use dfl.Http.Router.{Router, Route}
use dfl.Http.Parser.Schema.{Value, other_value, struct, Std, default_request_parser}
use dfl.Http.Parser.Plan.{Cache, binder_for, build_binder, add_fields, new_binder}
use dfl.Http.Parser.Bind.{prepare_for}
use dfl.Http.Adapt.{Registered, registered, stopped, handle, adapt}
use dfl.Events.EventError.{EventError, new, with_event, default_coercer}
use dfl.Events.Endpoint.{is_safe, safe_char, path_safe, as_req_error, register_endpoint}
use dfl.Events.Endpoint.Segments.{IsRoute, register_endpoint-IsRoute}
use dfl.Events.Endpoint.Statuses.{IsBadInput, Keeps, as_req_error-status_code}

orders_shipped : path_safe "Orders/Shipped" ≡ "orders-shipped"
unfolding path_safe map_text lower nth_char small_letters safe_char is_safe
orders_shipped = refl

abbrev std : Std
std = record {
  quote = λ s. s;
  err_syntax = 20;
  err_range = 21;
  eof = 22;
  parse_float = λ w s. ok (other_value 0);
  unmarshal_text = λ name old s. (none, old);
  unmarshal = λ t old raw. (none, old);
  decode_object = λ body. (none, []);
}

abbrev router : Router ℕ
router = record {
  coercer = none;
  error_writer = none;
  logger = none;
  request_parser = none;
  prefix = "/api";
  middleware = [];
}

abbrev encode_code : ReqError → Encoding
encode_code e = encoded e.code

abbrev shipped : Context ℕ → List Value → Option Error
shipped ctx e = none

-- The registration of an event without fields of its own.
abbrev registration : Registered ℕ × Cache
registration =
    register_endpoint std encode_code default_coercer (λ e. none) (λ e. "Orders/Shipped") (λ e. e)
      shipped router "OrderShipped" (struct []) [] (ok (none, "Orders/Shipped")) [] [] [] [] []

abbrev routes_of : Registered ℕ → List (Route ℕ)
routes_of (registered mux) = mux
routes_of (stopped why) = []

registration-registered : registration.0 ≡ registered (routes_of registration.0)
unfolding register_endpoint handle adapt prepare_for binder_for build_binder add_fields new_binder
    default_request_parser lookup
registration-registered = refl

register_endpoint-IsRoute_example :
    IsRoute router none "Orders/Shipped" [] (routes_of registration.0)
register_endpoint-IsRoute_example =
    register_endpoint-IsRoute std encode_code default_coercer (λ e. none) (λ e. "Orders/Shipped")
      (λ e. e) shipped router "OrderShipped" (struct []) [] none "Orders/Shipped" [] []
      (routes_of registration.0) [] [] [] registration-registered

abbrev lost : Error
lost = plain 40 "connection lost"

abbrev invalid : EventError
invalid = new "validation_failed" [] []

as_req_error-status_code_example :
    (q : ReqError) × (as_req_error (λ err. some invalid) lost "user.created"
      ≡ some (ReqError.to_error q))
    × Keeps (with_event invalid "user.created") q
    × (IsBadInput invalid.code → status_code q ≡ 400)
    × (¬ IsBadInput invalid.code → status_code q ≡ 500)
as_req_error-status_code_example =
    as_req_error-status_code (λ err. some invalid) lost "user.created" invalid refl
