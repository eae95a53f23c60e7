-- ===== src/Http/ReqError.antt =====
-- http/reqerr.go: the error type that goes on the wire, and the default coercer.
pub mod Laws
use dfl.Base.{
  ℕ, String, Bool, true, false, List, [], ◌∷◌, ◌++◌, Option, none, some, ◌==◌, if◌then◌else◌,
  lookup,
}
use dfl.GoErrors.{Error, req_error, Errors, Meta, Reason, cons, errors_of, as_error}

pub record ReqError : Type 0 where
  pub code : String
  pub meta : Meta
  pub reasons : List Reason
  pub status : ℕ
  pub causes : Errors

-- The error value that a *ReqError is.
abbrev pub to_error : ReqError → Error
to_error e = req_error e.code e.meta e.reasons e.status e.causes

abbrev pub is_req_error : Error → Bool
is_req_error (req_error c m rs s es) = true
is_req_error _ = false

abbrev pub of_error : Error → Option ReqError
of_error (req_error c m rs s es) =
    some (record { code = c; meta = m; reasons = rs; status = s; causes = es })
of_error _ = none

-- The ReqError that a search answers with.
abbrev pub found_req_error : Option Error → Option ReqError
found_req_error none = none
found_req_error (some f) = of_error f

-- errors.AsType[*ReqError]
unfoldable pub as_req_error : Error → Option ReqError
as_req_error e = found_req_error (as_error is_req_error e)

unfoldable pub code_statuses : List (String × ℕ)
code_statuses =
    ("bad_request", 400)
    ∷ ("invalid_request", 400)
    ∷ ("unauthorized", 401)
    ∷ ("access_denied", 403)
    ∷ ("not_found", 404)
    ∷ ("route_not_found", 404)
    ∷ ("method_not_allowed", 405)
    ∷ ("endpoint_withdrawn", 410)
    ∷ ("unsupported_media_type", 415)
    ∷ ("too_many_requests", 429)
    ∷ ("unknown", 500)
    ∷ []

unfoldable pub new : String → Meta → List Error → ReqError
new code meta causes = record {
  code = code;
  meta = meta;
  reasons = [];
  status = 0;
  causes = errors_of causes;
}

unfoldable pub wrap : Error → String → Meta → List Error → ReqError
wrap err code meta causes = record {
  code = code;
  meta = meta;
  reasons = [];
  status = 0;
  causes = errors_of (err ∷ causes);
}

-- A code that the table lacks is a 400.
abbrev pub or_bad_request : Option ℕ → ℕ
or_bad_request none = 400
or_bad_request (some status) = status

unfoldable pub status_code : ReqError → ℕ
status_code e = if e.status == 0 then or_bad_request (lookup e.code code_statuses) else e.status

unfoldable pub with_status : ReqError → ℕ → ReqError
with_status e status = record e { status = status }

unfoldable pub with_reasons : ReqError → List Reason → ReqError
with_reasons e reasons = record e { reasons = e.reasons ++ reasons }

-- The end of a coercer: the ReqError found on the chain, or the error wrapped as "unknown".
abbrev pub or_unknown : Error → Option ReqError → Option ReqError
or_unknown err none = some (wrap err "unknown" [] [])
or_unknown err (some req_err) = some req_err

-- DefaultCoercer; a nil error is `none`.
unfoldable pub default_coercer : Option Error → Option ReqError
default_coercer none = none
default_coercer (some err) = or_unknown err (as_req_error err)
