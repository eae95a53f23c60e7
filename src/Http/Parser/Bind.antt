-- ===== src/Http/Parser/Bind.antt =====
-- http/parser.go: binding a request to the fields of the struct, and RequestParser's Parse and
-- PrepareFor. A raw message of the body is its text, and the map that the body decodes to comes as a
-- list, in any order. Sorting is by code points, the order of Go's strings.
use Prim.Native.Char.{code}
use Prim.Native.String
use dfl.Base.{
  ℕ, zero, suc, String, Bool, true, false, not, ◌||◌, ◌&&◌, List, [], ◌∷◌, ◌++◌, map, Option, none,
  some, lookup, cut_before, trim_space, contains, keys, keep, ltb, ◌==◌, if◌then◌else◌, str_eq,
}
use dfl.GoErrors.{
  Error, text, type_error, Reason, reason, no_reasons, Result, ok, failed, error_text, is_error,
  as_error,
}
use dfl.Http.ReqError.{new, with_reasons, to_error}
use dfl.Http.Wire.{Request}
use dfl.Http.Parser.Schema.{Value, other_value, ReqType, RequestParser, Std}
use dfl.Http.Parser.Plan.{ParamBind, BodyBind, Binder, Cache, binder_for}

-- The field at a place of the struct, and setting it.
abbrev pub field_at : ℕ → List Value → Value
field_at i [] = other_value 0
field_at zero (v ∷ vs) = v
field_at (suc i) (v ∷ vs) = field_at i vs

abbrev pub set_field : ℕ → Value → List Value → List Value
set_field i v [] = []
set_field zero v (_ ∷ vs) = v ∷ vs
set_field (suc i) v (u ∷ vs) = u ∷ set_field i v vs

-- paramReason
unfoldable pub param_reason : String → String → Error → Reason
unfolding error_text
param_reason place field err =
    reason "invalid"
      (("in", text place) ∷ ("field", text field) ∷ ("error", text (error_text err)) ∷ [])
      no_reasons

abbrev pub is_type_error : Error → Bool
is_type_error (type_error w g s) = true
is_type_error _ = false

abbrev pub mismatch_reason : String → Error → Option Error → Reason
mismatch_reason field err (some (type_error expected got s)) =
    reason "invalid_type"
      (("in", text "body")
        ∷ ("field", text field)
        ∷ ("expected", text expected)
        ∷ ("got", text got)
        ∷ [])
      no_reasons
mismatch_reason field err _ =
    reason "invalid"
      (("in", text "body") ∷ ("field", text field) ∷ ("error", text (error_text err)) ∷ [])
      no_reasons

-- bodyFieldReason
unfoldable pub body_field_reason : String → Error → Reason
unfolding as_error
body_field_reason field err = mismatch_reason field err (as_error is_type_error err)

-- The order that slices.Sort gives strings.
unfoldable pub str_leb : String → String → Bool
str_leb Prim.Native.String.[] t = true
str_leb (Prim.Native.String.◌∷◌ c s) Prim.Native.String.[] = false
str_leb (Prim.Native.String.◌∷◌ c s) (Prim.Native.String.◌∷◌ d t) =
    ltb (code c) (code d) || (code c == code d && str_leb s t)

unfoldable pub insert_sorted : String → List String → List String
unfolding str_leb
insert_sorted x [] = x ∷ []
insert_sorted x (y ∷ ys) =
    let rest = insert_sorted x ys in if str_leb x y then x ∷ y ∷ ys else y ∷ rest

-- slices.Sort; equal strings are one value, so every sort gives this list.
unfoldable pub sort : List String → List String
unfolding insert_sorted
sort [] = []
sort (x ∷ xs) = insert_sorted x (sort xs)

abbrev pub unknown_reason : String → Reason
unknown_reason key =
    reason "unknown_field" (("in", text "body") ∷ ("field", text key) ∷ []) no_reasons

-- The keys of the body that no field claims.
unfoldable pub unknown_keys : Binder → List (String × String) → List String
unfolding sort contains
unknown_keys b raw = sort (keep (λ key. not (contains b.known_body key)) (keys raw))

-- unknownKeyReasons
unfoldable pub unknown_key_reasons : Binder → List (String × String) → List Reason
unfolding unknown_keys
unknown_key_reasons b raw = map unknown_reason (unknown_keys b raw)

-- The failures so far and the struct so far.
abbrev pub Progress : Type 0
Progress = List Reason × List Value

abbrev pub after_set :
    (Error → Reason) → ℕ → List Reason → List Value → Option Error × Value → Progress
after_set why i reasons dst (none, v) = (reasons, set_field i v dst)
after_set why i reasons dst (some err, v) = (reasons ++ why err ∷ [], set_field i v dst)

-- A turn of a loop over the path or the query parameters.
unfoldable pub bind_param : String → (String → String) → ParamBind → Progress → Progress
unfolding param_reason
bind_param place read pb (reasons, dst) =
    if str_eq (read pb.key) ""
    then (reasons, dst)
    else after_set (param_reason place pb.key) pb.field_idx reasons dst
        (pb.setter (field_at pb.field_idx dst) (read pb.key))

unfoldable pub bind_params : String → (String → String) → List ParamBind → Progress → Progress
unfolding bind_param
bind_params place read [] st = st
bind_params place read (pb ∷ pbs) st = bind_params place read pbs (bind_param place read pb st)

abbrev pub refuse_unknown : Binder → List (String × String) → Progress → Progress
refuse_unknown b raw (reasons, dst) =
    if b.lenient then (reasons, dst) else (reasons ++ unknown_key_reasons b raw, dst)

abbrev pub malformed : Error → Reason
malformed err =
    reason "malformed" (("in", text "body") ∷ ("error", text (error_text err)) ∷ []) no_reasons

unfoldable pub is_json : String → Bool
unfolding cut_before trim_space
is_json ct = str_eq ct "" || str_eq (trim_space (cut_before 59 ct)) "application/json"

unfoldable pub unsupported_media_type : String → Error
unfolding new
unsupported_media_type ct =
    to_error (new "unsupported_media_type" (("content_type", text ct) ∷ []) [])

abbrev pub custom_body : Option Error × List Value → Result Progress
custom_body (none, dst) = ok ([], dst)
custom_body (some err, dst) = failed err

-- The end of bind.
abbrev pub bound : Progress → Result (List Value)
bound ([], dst) = ok dst
bound (r ∷ rs, dst) = failed (to_error (with_reasons (new "invalid_request" [] []) (r ∷ rs)))

abbrev pub after_body : List Reason → Result Progress → Result (List Value)
after_body reasons (failed err) = failed err
after_body reasons (ok (more, dst)) = bound (reasons ++ more, dst)

abbrev pub prepared : Result Binder × Cache → Option Error × Cache
prepared (ok b, cache) = (none, cache)
prepared (failed err, cache) = (some err, cache)

module _ (std : Std) where
  abbrev pub bind_raw : BodyBind → Progress → Option String → Progress
  bind_raw fb st none = st
  bind_raw fb (reasons, dst) (some rm) =
      after_set (body_field_reason fb.key) fb.field_idx reasons dst
        (std.unmarshal fb.type_of (field_at fb.field_idx dst) rm)

  -- The loop over the fields of the body.
  unfoldable pub bind_fields : List (String × String) → List BodyBind → Progress → Progress
  unfolding body_field_reason
  bind_fields raw [] st = st
  bind_fields raw (fb ∷ fbs) st = bind_fields raw fbs (bind_raw fb st (lookup fb.key raw))

  -- bindBody once the body is decoded: an error other than io.EOF is the one failure.
  abbrev pub after_decode : Binder → List Value → Option Error × List (String × String) → Progress
  after_decode b dst (none, raw) = refuse_unknown b raw (bind_fields raw b.body ([], dst))
  after_decode b dst (some err, raw) =
      if is_error std.eof err
      then refuse_unknown b raw (bind_fields raw b.body ([], dst))
      else (malformed err ∷ [], dst)

  -- bindBody without a custom decoder.
  unfoldable pub bind_json : Binder → String → String → List Value → Result Progress
  unfolding is_json unsupported_media_type is_error bind_fields unknown_key_reasons
  bind_json b ct body dst =
      if is_json ct
      then ok (after_decode b dst (std.decode_object body))
      else failed (unsupported_media_type ct)

  -- bindBody
  abbrev pub bind_body :
      Option (String → List Value → Option Error × List Value)
      → Binder
      → String
      → String
      → List Value
      → Result Progress
  bind_body (some decode) b ct body dst = custom_body (decode body dst)
  bind_body none b ct body dst = bind_json b ct body dst

  -- PrepareFor
  unfoldable pub prepare_for :
      RequestParser → String → ReqType → Cache → Cache → Option Error × Cache
  unfolding binder_for
  prepare_for p name t cache later = prepared (binder_for std p name t cache later)

  module _ {X : Type 0} (p : RequestParser) where
    abbrev pub then_body : Binder → Request X → Progress → Result (List Value)
    then_body b r (reasons, dst) =
        if b.has_body
        then after_body reasons (bind_body p.decode_body b (r.header "Content-Type") r.body dst)
        else bound (reasons, dst)

    -- bind, of the zero value `dst`; the struct comes back where there is no error.
    unfoldable pub bind : Binder → Request X → List Value → Result (List Value)
    unfolding bind_params bind_json with_reasons new
    bind b r dst =
        if b.noop
        then ok dst
        else then_body b r (
            bind_params "query" r.query b.queries
              (bind_params "path" r.path_value b.paths ([], dst)))

    abbrev pub bind_with :
        Request X → List Value → Result Binder × Cache → Result (List Value) × Cache
    bind_with r dst (failed err, cache) = (failed err, cache)
    bind_with r dst (ok b, cache) = (bind b r dst, cache)

    -- Parse
    unfoldable pub parse :
        String → ReqType → List Value → Cache → Cache → Request X → Result (List Value) × Cache
    unfolding bind binder_for
    parse name t dst cache later r = bind_with r dst (binder_for std p name t cache later)
