-- ===== src/Version/Endpoint.antt =====
-- http/version/endpoint.go: one route with a handler for each version. A registration that panics is
-- `none`; a nil handler, the mark of a withdrawal, is `none` too.
pub mod Order
pub mod Pick
pub mod Stability
pub mod Dispatch
use dfl.Base.{
  ℕ, ◌-◌, ◌==◌, String, Bool, true, false, ◌&&◌, ◌||◌, not, List, [], ◌∷◌, map, Option, none, some,
  if◌then◌else◌, str_eq, contains, get_elem?, length, ◌+s◌, is_none,
}
use dfl.GoErrors.{text, texts, Error, Result, ok, failed, is_error}
use dfl.Http.Wire.{Request, World, Outcome, returned, HandlerFunc, set_header}
use dfl.Http.ReqError.{ReqError, to_error, new, wrap, with_status}
use dfl.Version.Search.{binary_search, insert_at}
use dfl.Version.Resolver.{
  Resolved, Resolver, resolve_pinned, err_unsupported, err_withdrawn, err_latest_addr,
  err_preview_addr,
}

pub data Match : Type 0 where
  compatible exact : Match

pub record Variant (V : Type 0) : Type 0 where
  pub version : V
  pub handle : Option (HandlerFunc (Resolved V))

-- The parser of endpointConfig is in the part on binding.
pub record Endpoint (V : Type 0) : Type 0 where
  pub resolver : Resolver V
  pub match : Match
  pub variants : List (Variant V)
  pub preview : Option (HandlerFunc (Resolved V))

-- NewEndpoint with its match rule.
unfoldable pub new_endpoint : {V : Type 0} → Resolver V → Match → Endpoint V
new_endpoint rv m = record { resolver = rv; match = m; variants = []; preview = none }

module _ {V : Type 0} where
  -- search
  unfoldable pub search_version : Endpoint V → V → ℕ × Bool
  search_version e v = binary_search e.variants (λ x. e.resolver.scheme.compare x.version v)

  -- The end of insert, at the place that the search gives.
  abbrev pub insert_found : Endpoint V → Variant V → ℕ × Bool → Option (Endpoint V)
  insert_found e x (at, true) = none
  insert_found e x (at, false) = some (record e { variants = insert_at at x e.variants })

  abbrev pub insert_parsed :
      Endpoint V → Option (HandlerFunc (Resolved V)) → Result V → Option (Endpoint V)
  insert_parsed e h (failed err) = none
  insert_parsed e h (ok v) =
      insert_found e (record { version = v; handle = h }) (search_version e v)

  -- insert
  unfoldable pub insert_variant :
      Endpoint V → String → Option (HandlerFunc (Resolved V)) → Option (Endpoint V)
  insert_variant e raw h = insert_parsed e h (e.resolver.scheme.parse raw)

  -- Endpoint.HandleFunc
  unfoldable pub handle_func : Endpoint V → String → HandlerFunc (Resolved V) → Option (Endpoint V)
  handle_func e raw h =
      if contains e.resolver.preview raw
      then (if is_none e.preview then some (record e { preview = some h }) else none)
      else insert_variant e raw (some h)

  -- Endpoint.Withdraw
  unfoldable pub withdraw : Endpoint V → String → Option (Endpoint V)
  withdraw e raw =
      if contains e.resolver.preview raw || contains e.resolver.latest raw
      then none
      else insert_variant e raw none

  -- What pick returns for the end of a search.
  abbrev pub pick_found : Endpoint V → ℕ × Bool → Option (Variant V)
  pick_found e (at, true) = get_elem? e.variants at
  pick_found e (at, false) = elim e.match [
    | exact ↦ none
    | compatible ↦ if at == 0 then none else get_elem? e.variants (at - 1)
  ]

  -- pick; not found is `none`
  unfoldable pub pick : Endpoint V → V → Option (Variant V)
  pick e requested = pick_found e (search_version e requested)

  -- Versions
  unfoldable pub versions : Endpoint V → List V
  versions e = map (λ x. x.version) e.variants

  -- The loop of supported.
  unfoldable pub supported_from : (V → String) → List (Variant V) → List String
  supported_from format [] = []
  supported_from format (x ∷ xs) =
      let rest = supported_from format xs in
      if is_none x.handle then rest else format x.version ∷ rest

  unfoldable pub supported : Endpoint V → List String
  supported e = supported_from e.resolver.scheme.format e.variants

  -- unsupported
  unfoldable pub unsupported_error : Endpoint V → String → Error
  unsupported_error e asked = to_error (
      wrap err_unsupported "version_unsupported"
        (("version", text asked) ∷ ("supported", texts (supported e)) ∷ []) [])

  -- The last element of a list, if there is one.
  abbrev pub newest : List (Variant V) → Option (Variant V)
  newest xs = if length xs == 0 then none else get_elem? xs (length xs - 1)

-- channel
unfoldable pub channel : Bool → Bool → String
channel latest true = "preview"
channel true false = "latest"
channel false false = "stable"

-- Header().Set under a name that may be off.
abbrev pub set_if : Bool → String → String → World → World
set_if on name value w = if on && not (str_eq name "") then set_header name value w else w

-- The error of Serve when nothing is registered.
abbrev pub unconfigured_error : Error
unconfigured_error = to_error (with_status (new "version_unconfigured" [] []) 500)

-- What the request asked for: the switch over the error of resolve.
pub data Asked (V : Type 0) : Type 0 where
  version : V → Asked V
  latest_pin : Asked V
  preview_pin : Asked V
  refused : Error → Asked V

abbrev pub asked_of : {V : Type 0} → Result V → Asked V
asked_of (ok v) = version v
asked_of (failed err) =
    if is_error err_latest_addr err
    then latest_pin
    else if is_error err_preview_addr err
    then preview_pin
    else refused err

-- A dispatch decision: an error, the preview variant, or a dated variant with what was requested and
-- the channel's two flags.
pub data Chosen (V : Type 0) : Type 0 where
  reject : Error → Chosen V
  overlay : HandlerFunc (Resolved V) → Chosen V
  dated : V → Variant V → Bool → Bool → Chosen V

module _ {V : Type 0} where
  abbrev pub choose_newest : Endpoint V → Bool → Bool → Option (Variant V) → Chosen V
  choose_newest e latest preview none = reject (unsupported_error e (channel latest preview))
  choose_newest e latest preview (some x) = dated x.version x latest preview

  abbrev pub choose_picked : Endpoint V → V → Option (Variant V) → Chosen V
  choose_picked e v none = reject (unsupported_error e (e.resolver.scheme.format v))
  choose_picked e v (some x) = dated v x false false

  abbrev pub choose_preview : Endpoint V → Option (HandlerFunc (Resolved V)) → Chosen V
  choose_preview e none = choose_newest e false true (newest e.variants)
  choose_preview e (some h) = overlay h

  -- The second switch of Serve.
  unfoldable pub choose : Endpoint V → Asked V → Chosen V
  choose e (refused err) = reject err
  choose e latest_pin = choose_newest e true false (newest e.variants)
  choose e preview_pin = choose_preview e e.preview
  choose e (version v) = choose_picked e v (pick e v)

  -- The call of the variant, with the outcome on the context.
  abbrev pub call_variant :
      HandlerFunc (Resolved V) → Resolved V → Request (Resolved V) → World → Outcome × World
  call_variant h resolved r w =
      h (record r { context = record r.context { extra = some resolved } }) w

  unfoldable pub withdrawn_error : Endpoint V → V → Bool → Bool → ReqError
  withdrawn_error e v latest preview =
      wrap err_withdrawn "endpoint_withdrawn"
        (("withdrawn_at", text (e.resolver.scheme.format v))
          ∷ ("channel", text (channel latest preview))
          ∷ [])
        []

  -- The end of Serve for a dated variant, whose handler may be the mark of a withdrawal.
  unfoldable pub serve_dated :
      Endpoint V
      → Bool
      → V
      → Variant V
      → Bool
      → Bool
      → Option (HandlerFunc (Resolved V))
      → HandlerFunc (Resolved V)
  serve_dated e unpinned requested x latest preview none r w =
      (returned (some (to_error (withdrawn_error e x.version latest preview))), w)
  serve_dated e unpinned requested x latest preview (some h) r w =
      let served = e.resolver.scheme.format x.version in
      let w1 = set_if unpinned e.resolver.warn_header served w in
      let w2 =
        set_if true e.resolver.status_header (channel latest preview +s ("; version=" +s served))
          w1 in
      call_variant h
        (record { requested = requested; served = x.version; latest = latest; preview = preview }) r
        w2

  -- The end of Serve. `zero_version` is V's zero value.
  unfoldable pub serve_chosen : V → Endpoint V → Bool → Chosen V → HandlerFunc (Resolved V)
  serve_chosen zero_version e unpinned (reject err) r w = (returned (some err), w)
  serve_chosen zero_version e unpinned (dated requested x latest preview) r w =
      serve_dated e unpinned requested x latest preview x.handle r w
  serve_chosen zero_version e unpinned (overlay h) r w =
      let w1 = set_if unpinned e.resolver.warn_header (channel false true) w in
      let w2 = set_if true e.resolver.status_header (channel false true) w1 in
      call_variant h
        (record { requested = zero_version; served = zero_version; latest = false; preview = true })
        r w2

  -- Whether nothing at all is registered.
  abbrev pub is_unconfigured : Endpoint V → Bool
  is_unconfigured e = (length e.variants == 0) && is_none e.preview

  -- Endpoint.Serve
  unfoldable pub serve : V → Endpoint V → HandlerFunc (Resolved V)
  serve zero_version e r w =
      if is_unconfigured e
      then (returned (some unconfigured_error), w)
      else serve_chosen zero_version e (resolve_pinned e.resolver r).1
          (choose e (asked_of (resolve_pinned e.resolver r).0)) r w
