-- ===== src/Http/Middleware.antt =====
-- http/middleware.go: panic recovery, request metadata and the fallback handlers. net.SplitHostPort
-- is the parameter `split_host_port`, `none` where it fails.
pub mod Recovery
use dfl.Base.{
  ℕ, String, Bool, [], ◌∷◌, Option, none, some, if◌then◌else◌, ◌+s◌, str_eq, trim_space, cut_before,
}
use dfl.GoErrors.{Error, plain}
use dfl.Http.ReqError.{ReqError, new, status_code, to_error}
use dfl.Http.Wire.{
  Encoding, ClientMeta, Context, Request, World, abort_handler, other_panic, Outcome, returned,
  panicked, Middleware, ServeFunc, log_error,
}
use dfl.Http.Router.{write_json}

-- loggerFrom: the logger on the context, `none` being the process default.
abbrev pub logger_from : {X : Type 0} → Context X → Option ℕ
logger_from c = c.logger

-- The error that Recoverer returns for a panic's value.
abbrev pub panic_error : String → Error
panic_error v = to_error (new "unknown" [] (plain 0 ("panic: " +s v) ∷ []))

-- The deferred function of Recoverer.
abbrev pub recovered : {X : Type 0} → Request X → Outcome × World → Outcome × World
recovered r (returned err, w) = (returned err, w)
recovered r (panicked abort_handler, w) = (panicked abort_handler, w)
recovered r (panicked (other_panic v), w) =
    (returned (some (panic_error v)), log_error (logger_from r.context) "handler panic" w)

unfoldable pub recoverer : {X : Type 0} → Middleware X
recoverer next r w = recovered r (next r w)

module _ (split_host_port : String → Option String) where
  -- remoteIP
  unfoldable pub remote_ip : {X : Type 0} → Request X → String
  remote_ip r = elim (split_host_port r.remote_addr) [ none ↦ r.remote_addr | some host ↦ host ]

  -- forwardedClientIP
  unfoldable pub forwarded_client_ip : {X : Type 0} → Request X → String
  forwarded_client_ip r =
      let fwd = r.header "X-Forwarded-For" in
      if str_eq fwd "" then "" else trim_space (cut_before b',' fwd)

  -- The IP that RequestMeta records.
  unfoldable pub chosen_ip : {X : Type 0} → Bool → Request X → String
  unfolding remote_ip
  chosen_ip trust r =
      let fwd = forwarded_client_ip r in
      if trust then (if str_eq fwd "" then remote_ip r else fwd) else remote_ip r

  unfoldable pub request_meta : {X : Type 0} → Bool → Middleware X
  request_meta trust next r w =
      let meta = some (record { client_ip = chosen_ip trust r; user_agent = r.user_agent }) in
      next (record r { context = record r.context { client = meta } }) w

-- ClientIP
abbrev pub ip_of : Option ClientMeta → String
ip_of none = ""
ip_of (some meta) = meta.client_ip

unfoldable pub client_ip : {X : Type 0} → Context X → String
client_ip c = ip_of c.client

-- UserAgent
abbrev pub agent_of : Option ClientMeta → String
agent_of none = ""
agent_of (some meta) = meta.user_agent

unfoldable pub user_agent : {X : Type 0} → Context X → String
user_agent c = agent_of c.client

module _ (encode : ReqError → Encoding) where
  -- NotFoundHandler
  unfoldable pub not_found_handler : {X : Type 0} → ServeFunc X
  not_found_handler r w =
      let e = new "route_not_found" [] [] in write_json (status_code e) (encode e) w

  -- MethodNotAllowedHandler
  unfoldable pub method_not_allowed_handler : {X : Type 0} → ServeFunc X
  method_not_allowed_handler r w =
      let e = new "method_not_allowed" [] [] in write_json (status_code e) (encode e) w
