-- ===== src/Http/Tests.antt =====
-- Runs of the router on concrete requests, and the theorems at concrete inputs.
use dfl.Base.{ap, insert, ℕ, ◌+s◌, [], ◌∷◌, ◌++◌, none, some, ◌≡◌, refl, ◌⊎◌, lookup}
use dfl.GoErrors.{Error, plain, wrapped, joined, cons, nil, as_error}
use dfl.Http.ReqError.{
  ReqError, to_error, status_code, default_coercer, as_req_error, code_statuses,
}
use dfl.Http.Wire.{
  Encoding, Request, World, abort_handler, other_panic, returned, panicked, HandlerFunc, Middleware,
  write_header, try_header, open_header, invalid_code, write, set_header, encoded,
}
use dfl.Http.Router.{
  Router, attach_logger, finish, writer_or_default, serve_route, handle_func, group, use_middleware,
  apply_middleware, apply_backward, combine_chain, default_error_writer, write_coerced, write_json,
}
use dfl.Http.Router.Chain.{handle_func-group}
use dfl.Http.Router.Responses.{Answered, wrapped_run, serve_route_error}
use dfl.Http.Middleware.{recoverer}
use dfl.Http.Middleware.Recovery.{AnswerRaises, error_of, serve_route_panic}

abbrev missing : ReqError
missing = record { code = "not_found"; meta = []; reasons = []; status = 0; causes = nil }

-- A handler's error with the ReqError below a message.
abbrev wrapped_missing : Error
wrapped_missing = wrapped "get user: " (to_error missing)

-- The wire form of an error, cut down to its code.
abbrev encode_code : ReqError → Encoding
encode_code e = encoded e.code

abbrev request : Request ℕ
request = record {
  path_value = λ k. "";
  query = λ k. "";
  header = λ k. "";
  body = "";
  remote_addr = "10.0.0.1:4242";
  user_agent = "curl";
  context = record { logger = none; client = none; extra = none };
}

abbrev fresh : World
fresh = record { headers = []; status = none; sent_headers = []; body = ""; log = [] }

abbrev router : Router ℕ
router = record {
  coercer = some default_coercer;
  error_writer = none;
  logger = some 3;
  request_parser = none;
  prefix = "/api";
  middleware = recoverer ∷ [];
}

abbrev not_here : HandlerFunc ℕ
not_here req w = (returned (some wrapped_missing), w)

abbrev crash : HandlerFunc ℕ
crash req w = (panicked (other_panic "nil map"), w)

abbrev as_it_is : Middleware ℕ
as_it_is next = next

missing_is_404 : (serve_route encode_code router not_here [] request fresh).1.status ≡ some 404
unfolding serve_route recoverer apply_middleware apply_backward combine_chain default_error_writer
    write_coerced write_json try_header open_header write write_header set_header default_coercer
    as_req_error as_error status_code code_statuses lookup
missing_is_404 = refl

abbrev lost : Error
lost = joined "\n" (cons (plain 5 "lost") (cons wrapped_missing nil))

abbrev carrying : ReqError
carrying = record {
  code = "conflict";
  meta = [];
  reasons = [];
  status = 409;
  causes = cons (plain 5 "lost") nil;
}

handle_func-group_example :
    handle_func encode_code
      (use_middleware (group router "/v1") (as_it_is ∷ []))
      "GET"
      "/users"
      not_here
      []
      []
    ≡ []
      ++ record {
        method = "GET";
        pattern = (router.prefix +s "/v1") +s "/users";
        serve = λ req w.
            let req' = attach_logger router.logger req in
            finish (writer_or_default encode_code router.error_writer router.coercer) req' (
              apply_middleware
                (apply_middleware (apply_middleware not_here []) (as_it_is ∷ []))
                router.middleware
                req'
                w);
      }
        ∷ []
handle_func-group_example =
    handle_func-group encode_code router "/v1" "GET" "/users" not_here (as_it_is ∷ []) [] []

serve_route_error_example :
    Answered encode_code
      (default_coercer (some wrapped_missing))
      fresh
      (serve_route encode_code router not_here [] request fresh)
unfolding recoverer apply_middleware apply_backward combine_chain
serve_route_error_example =
    serve_route_error encode_code router not_here [] request fresh wrapped_missing fresh refl refl
      refl

abbrev teapot : HandlerFunc ℕ
teapot req w = (returned (some (to_error (record carrying { status = 42 }))), w)

-- A status that net/http refuses gets past Recoverer.
status_42_panics :
    serve_route encode_code router teapot [] request fresh
    ≡ (some invalid_code, record fresh { headers = ("Content-Type", "application/json") ∷ [] })
unfolding serve_route recoverer apply_middleware apply_backward combine_chain default_error_writer
    write_coerced write_json try_header open_header set_header default_coercer as_req_error as_error
    status_code insert
status_42_panics = refl

serve_route_panic_example :
    (invalid_code ≡ abort_handler)
    ⊎ AnswerRaises encode_code default_coercer
        (error_of (wrapped_run encode_code router teapot [] request fresh).0)
        invalid_code
serve_route_panic_example =
    serve_route_panic encode_code router [] refl teapot [] request fresh invalid_code refl
      (ap (λ out. out.0) status_42_panics)
