-- ===== src/Version/Resolver.antt =====
-- http/version/resolver.go, source.go and context.go: where a request's version comes from and what
-- it means. A builder call that panics is `none`. A header name or literal that the resolver does not
-- have is the empty text, as in the source.
pub mod Literals
use dfl.Base.{
  ℕ, String, Bool, true, false, ◌&&◌, ◌||◌, not, List, [], ◌∷◌, ◌++◌, Option, none, some,
  if◌then◌else◌, str_eq, trim_space, contains,
}
use dfl.GoErrors.{text, Error, plain, Result, ok, failed}
use dfl.Http.Wire.{Request, Context}
use dfl.Http.ReqError.{to_error, wrap}
use dfl.Version.Scheme.{Scheme}

-- The sentinel errors, by address.
abbrev pub err_missing_addr : ℕ
err_missing_addr = 1

abbrev pub err_invalid_addr : ℕ
err_invalid_addr = 2

abbrev pub err_unsupported_addr : ℕ
err_unsupported_addr = 3

abbrev pub err_withdrawn_addr : ℕ
err_withdrawn_addr = 4

abbrev pub err_latest_addr : ℕ
err_latest_addr = 5

abbrev pub err_preview_addr : ℕ
err_preview_addr = 6

abbrev pub err_missing : Error
err_missing = plain err_missing_addr "version: no version on the request"

abbrev pub err_invalid : Error
err_invalid = plain err_invalid_addr "version: version does not parse"

abbrev pub err_unsupported : Error
err_unsupported = plain err_unsupported_addr "version: no variant serves this version"

abbrev pub err_withdrawn : Error
err_withdrawn = plain err_withdrawn_addr "version: endpoint withdrawn at this version"

abbrev pub err_latest : Error
err_latest = plain err_latest_addr "version: request pinned latest"

abbrev pub err_preview : Error
err_preview = plain err_preview_addr "version: request pinned preview"

-- Resolved, from context.go.
pub record Resolved (V : Type 0) : Type 0 where
  pub requested : V
  pub served : V
  pub latest : Bool
  pub preview : Bool

-- FromContext
unfoldable pub from_context : {V : Type 0} → Context (Resolved V) → Option (Resolved V)
from_context ctx = ctx.extra

-- A Source: the raw version and whether there is one.
abbrev pub Source : Type 0 → Type 0
Source X = Request X → String × Bool

-- Header, Query and PathValue.
unfoldable pub header_source : {X : Type 0} → String → Source X
header_source name r = (r.header name, not (str_eq (r.header name) ""))

unfoldable pub query_source : {X : Type 0} → String → Source X
query_source name r = (r.query name, not (str_eq (r.query name) ""))

unfoldable pub path_value_source : {X : Type 0} → String → Source X
path_value_source name r = (r.path_value name, not (str_eq (r.path_value name) ""))

pub record Resolver (V : Type 0) : Type 0 where
  pub scheme : Scheme V
  pub sources : List (Source (Resolved V))
  pub latest : List String
  pub preview : List String
  pub fallback : String
  pub status_header : String
  pub warn_header : String

-- NewResolver; a nil scheme cannot be given here.
unfoldable pub new_resolver :
    {V : Type 0} → Scheme V → List (Source (Resolved V)) → Option (Resolver V)
new_resolver scheme [] = none
new_resolver scheme (source ∷ sources) = some (record {
  scheme = scheme;
  sources = source ∷ sources;
  latest = [];
  preview = [];
  fallback = "";
  status_header = "";
  warn_header = "";
})

abbrev pub parses : {V : Type 0} → Scheme V → String → Bool
parses scheme raw = elim (scheme.parse raw) [ ok v ↦ true | failed err ↦ false ]

-- Whether a round of allowLiterals accepts the literal.
abbrev pub accepts_literal : {V : Type 0} → Resolver V → String → Bool
accepts_literal rv l =
    str_eq (trim_space l) l
    && not (str_eq l "")
    && not (contains rv.latest l || contains rv.preview l)
    && not (parses rv.scheme l)

-- One round: `is_latest` tells which of the two lists `dst` points to.
abbrev pub add_literal : {V : Type 0} → Bool → Resolver V → String → Resolver V
add_literal true rv l = record rv { latest = rv.latest ++ l ∷ [] }
add_literal false rv l = record rv { preview = rv.preview ++ l ∷ [] }

-- The loop of allowLiterals.
unfoldable pub add_literals : {V : Type 0} → Bool → Resolver V → List String → Option (Resolver V)
add_literals is_latest rv [] = some rv
add_literals is_latest rv (l ∷ ls) =
    let rest = add_literals is_latest (add_literal is_latest rv l) ls in
    if accepts_literal rv l then rest else none

unfoldable pub allow_literals : {V : Type 0} → Bool → Resolver V → List String → Option (Resolver V)
allow_literals is_latest rv [] = none
allow_literals is_latest rv (l ∷ ls) = add_literals is_latest rv (l ∷ ls)

unfoldable pub allow_latest : {V : Type 0} → Resolver V → List String → Option (Resolver V)
allow_latest rv ls = allow_literals true rv ls

unfoldable pub allow_preview : {V : Type 0} → Resolver V → List String → Option (Resolver V)
allow_preview rv ls = allow_literals false rv ls

-- Fallback
unfoldable pub set_fallback : {V : Type 0} → Resolver V → String → Option (Resolver V)
set_fallback rv raw =
    if str_eq (trim_space raw) ""
    then none
    else if not (str_eq rv.fallback "")
    then none
    else if contains rv.latest raw || contains rv.preview raw || parses rv.scheme raw
    then some (record rv { fallback = raw })
    else none

-- setHeader on a field's value.
unfoldable pub set_header_name : String → String → Option String
set_header_name current name =
    if str_eq (trim_space name) ""
    then none
    else if not (str_eq current "")
    then none
    else some name

unfoldable pub set_status_header : {V : Type 0} → Resolver V → String → Option (Resolver V)
set_status_header rv name = elim (set_header_name rv.status_header name) [
  | none ↦ none
  | some n ↦ some (record rv { status_header = n })
]

unfoldable pub set_warn_header : {V : Type 0} → Resolver V → String → Option (Resolver V)
set_warn_header rv name = elim (set_header_name rv.warn_header name) [
  | none ↦ none
  | some n ↦ some (record rv { warn_header = n })
]

-- The value or error that a parse gives for a raw version.
abbrev pub parsed_or_invalid : {V : Type 0} → String → Result V → Result V
parsed_or_invalid raw (ok v) = ok v
parsed_or_invalid raw (failed err) =
    failed (to_error (wrap err_invalid "version_invalid" (("version", text raw) ∷ []) (err ∷ [])))

-- resolveRaw
unfoldable pub resolve_raw : {V : Type 0} → Resolver V → String → Result V
resolve_raw rv raw =
    if contains rv.latest raw
    then failed err_latest
    else if contains rv.preview raw
    then failed err_preview
    else parsed_or_invalid raw (rv.scheme.parse raw)

-- What resolve does when no source yields a version.
unfoldable pub resolve_unpinned : {V : Type 0} → Resolver V → Result V × Bool
resolve_unpinned rv =
    if not (str_eq rv.fallback "")
    then (resolve_raw rv rv.fallback, true)
    else (failed (to_error (wrap err_missing "version_missing" [] [])), true)

-- The loop of resolve over the sources.
unfoldable pub resolve_from :
    {V : Type 0} → Resolver V → List (Source (Resolved V)) → Request (Resolved V) → Result V × Bool
resolve_from rv [] r = resolve_unpinned rv
resolve_from rv (source ∷ sources) r =
    let rest = resolve_from rv sources r in
    let raw = trim_space (source r).0 in
    if (source r).1 && not (str_eq raw "") then (resolve_raw rv raw, false) else rest

-- resolve: the outcome, and whether no source produced a version.
unfoldable pub resolve_pinned : {V : Type 0} → Resolver V → Request (Resolved V) → Result V × Bool
resolve_pinned rv r = resolve_from rv rv.sources r

-- Resolve
unfoldable pub resolve : {V : Type 0} → Resolver V → Request (Resolved V) → Result V
resolve rv r = (resolve_pinned rv r).0
