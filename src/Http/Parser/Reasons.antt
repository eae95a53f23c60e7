-- ===== src/Http/Parser/Reasons.antt =====
-- What a bound request reports: the failures of its inputs, in the order of the plan.
use dfl.Base.{
  ℕ, ◌≡◌, refl, sym, ap, subst, ◌∙◌, String, Bool, true, false, List, [], ◌∷◌, ◌++◌, append_assoc,
  append-nil, Option, none, some, lookup, if◌then◌else◌, str_eq, All, arith, Bool-cases, inl, inr,
}
use dfl.GoErrors.{Error, Reason, Result, ok, failed}
use dfl.Http.ReqError.{new, with_reasons, to_error}
use dfl.Http.Wire.{Request}
use dfl.Http.Parser.Schema.{FieldType, Value, other_value, RequestParser, SetterFunc, Std}
use dfl.Http.Parser.Plan.{ParamBind, BodyBind, Binder}
use dfl.Http.Parser.Bind.{
  Progress, param_reason, body_field_reason, unknown_key_reasons, after_set, bind_param,
  bind_params, bind_raw, bind_fields, refuse_unknown, bind_json, is_json, after_body, bound,
  then_body, bind, field_at, bind_body,
}

-- Whether a setter fails depends on the text alone, not on what the field holds.
abbrev pub IsSteady : SetterFunc → Type 0
IsSteady set = (u v : Value) (s : String) → (set u s).0 ≡ (set v s).0

abbrev pub failure_of : (Error → Reason) → Option Error → List Reason
failure_of why none = []
failure_of why (some err) = why err ∷ []

-- The failure of a parameter, if any: an empty text is one that did not come.
abbrev pub param_failure : String → (String → String) → ParamBind → List Reason
param_failure place read pb =
    if str_eq (read pb.key) ""
    then []
    else failure_of (param_reason place pb.key) (pb.setter (other_value 0) (read pb.key)).0

abbrev pub param_failures : String → (String → String) → List ParamBind → List Reason
param_failures place read [] = []
param_failures place read (pb ∷ pbs) = param_failure place read pb ++ param_failures place read pbs

after_set_reasons :
    (why : Error → Reason) (i : ℕ) (reasons : List Reason) (dst : List Value)
    (r : Option Error × Value)
    → (after_set why i reasons dst r).0 ≡ reasons ++ failure_of why r.0
after_set_reasons why i reasons dst (none, v) = sym (append-nil reasons)
after_set_reasons why i reasons dst (some err, v) = refl

bind_param_reasons :
    (place : String) (read : String → String) (pb : ParamBind) (st : Progress)
    → IsSteady pb.setter
    → (bind_param place read pb st).0 ≡ st.0 ++ param_failure place read pb
unfolding bind_param
bind_param_reasons place read pb (reasons, dst) steady =
    elim (Bool-cases (str_eq (read pb.key) "")) [
      | inl gone ↦ rw gone (sym (append-nil reasons))
      | inr came ↦ rw came (
          after_set_reasons (param_reason place pb.key) pb.field_idx reasons dst
            (pb.setter (field_at pb.field_idx dst) (read pb.key))
          ∙ ap (λ e. reasons ++ failure_of (param_reason place pb.key) e)
              (steady (field_at pb.field_idx dst) (other_value 0) (read pb.key)))
    ]

bind_params_reasons :
    (place : String) (read : String → String) (pbs : List ParamBind) (st : Progress)
    → All (λ pb. IsSteady pb.setter) pbs
    → (bind_params place read pbs st).0 ≡ st.0 ++ param_failures place read pbs
unfolding bind_params
bind_params_reasons place read [] st h = sym (append-nil st.0)
bind_params_reasons place read (pb ∷ pbs) st (steady, h) =
    bind_params_reasons place read pbs (bind_param place read pb st) h
    ∙ rw (bind_param_reasons place read pb st steady)
        (append_assoc st.0 (param_failure place read pb) (param_failures place read pbs))

module _ (std : Std) where
  abbrev pub body_failure : BodyBind → Option String → List Reason
  body_failure fb none = []
  body_failure fb (some rm) =
      failure_of (body_field_reason fb.key) (std.unmarshal fb.type_of (other_value 0) rm).0

  abbrev pub body_failures : List (String × String) → List BodyBind → List Reason
  body_failures raw [] = []
  body_failures raw (fb ∷ fbs) = body_failure fb (lookup fb.key raw) ++ body_failures raw fbs

  -- The failures of a decoded body: the fields', then the unknown keys' unless the plan is lenient.
  abbrev pub object_failures : Binder → List (String × String) → List Reason
  object_failures b raw =
      body_failures raw b.body ++ (if b.lenient then [] else unknown_key_reasons b raw)

  module _ (steady : (t : FieldType) → IsSteady (std.unmarshal t)) where
    bind_raw_reasons :
        (fb : BodyBind) (st : Progress) (rm : Option String)
        → (bind_raw std fb st rm).0 ≡ st.0 ++ body_failure fb rm
    bind_raw_reasons fb (reasons, dst) none = sym (append-nil reasons)
    bind_raw_reasons fb (reasons, dst) (some rm) =
        after_set_reasons (body_field_reason fb.key) fb.field_idx reasons dst
          (std.unmarshal fb.type_of (field_at fb.field_idx dst) rm)
        ∙ ap (λ e. reasons ++ failure_of (body_field_reason fb.key) e)
            (steady fb.type_of (field_at fb.field_idx dst) (other_value 0) rm)

    bind_fields_reasons :
        (raw : List (String × String)) (fbs : List BodyBind) (st : Progress)
        → (bind_fields std raw fbs st).0 ≡ st.0 ++ body_failures raw fbs
    unfolding bind_fields
    bind_fields_reasons raw [] st = sym (append-nil st.0)
    bind_fields_reasons raw (fb ∷ fbs) st =
        bind_fields_reasons raw fbs (bind_raw std fb st (lookup fb.key raw))
        ∙ rw (bind_raw_reasons fb st (lookup fb.key raw))
            (append_assoc st.0 (body_failure fb (lookup fb.key raw)) (body_failures raw fbs))

    refuse_unknown_reasons :
        (b : Binder) (raw : List (String × String)) (st : Progress)
        → (refuse_unknown b raw st).0
          ≡ st.0 ++ (if b.lenient then [] else unknown_key_reasons b raw)
    refuse_unknown_reasons b raw (reasons, dst) = elim (Bool-cases b.lenient) [
      | inl l ↦ ground (arith, l, append-nil reasons)
      | inr l ↦ ground (arith, l)
    ]

    object_reasons :
        (b : Binder) (dst : List Value) (raw : List (String × String))
        → (refuse_unknown b raw (bind_fields std raw b.body ([], dst))).0 ≡ object_failures b raw
    object_reasons b dst raw =
        refuse_unknown_reasons b raw (bind_fields std raw b.body ([], dst))
        ∙ ap (λ rs. rs ++ (if b.lenient then [] else unknown_key_reasons b raw))
            (bind_fields_reasons raw b.body ([], dst))

-- The end of a binding for its failures: with none the struct comes back, with some the one error
-- that carries them all.
abbrev pub Reports : List Reason → Result (List Value) → Type 0
Reports [] r = (vs : List Value) × (r ≡ ok vs)
Reports (x ∷ xs) r = r ≡ failed (to_error (with_reasons (new "invalid_request" [] []) (x ∷ xs)))

pub bound-Reports :
    (reasons : List Reason) (dst : List Value) → Reports reasons (bound (reasons, dst))
bound-Reports [] dst = (dst, refl)
bound-Reports (x ∷ xs) dst = refl

gated-Reports :
    (flag : Bool) (reasons : List Reason) (dst : List Value) (st : Progress)
    (rest : Result Progress)
    → rest ≡ ok st
    → Reports
        (reasons ++ (if flag then st.0 else []))
        (if flag then after_body reasons rest else bound (reasons, dst))
gated-Reports true reasons dst st rest e = rw e (bound-Reports (reasons ++ st.0) st.1)
gated-Reports false reasons dst st rest e = rw (append-nil reasons) (bound-Reports reasons dst)

module _ {X : Type 0} (std : Std) (p : RequestParser) (b : Binder) (r : Request X) where
  -- All failures of a request whose body is decoded.
  abbrev pub request_failures : List (String × String) → List Reason
  request_failures raw =
      (param_failures "path" r.path_value b.paths ++ param_failures "query" r.query b.queries)
      ++ (if b.has_body then object_failures std b raw else [])

  -- The body's part, without a custom decoder, of a body that decodes.
  abbrev pub IsDecoded : List (String × String) → Type 0
  IsDecoded raw =
      (p.decode_body ≡ none)
      × (is_json (r.header "Content-Type") ≡ true)
      × (std.decode_object r.body ≡ (none, raw))

  decoded_body :
      (raw : List (String × String)) (dst : List Value)
      → IsDecoded raw
      → bind_body std p.decode_body b (r.header "Content-Type") r.body dst
        ≡ ok (refuse_unknown b raw (bind_fields std raw b.body ([], dst)))
  unfolding bind_json
  decoded_body raw dst (built_in, json, decoded) =
      ap (λ d. bind_body std d b (r.header "Content-Type") r.body dst) built_in
      ∙ rw (json, decoded) refl

  then_body-Reports :
      (raw : List (String × String)) (st : Progress)
      → IsDecoded raw
      → ((t : FieldType) → IsSteady (std.unmarshal t))
      → Reports
          (st.0 ++ (if b.has_body then object_failures std b raw else []))
          (then_body std p b r st)
  then_body-Reports raw (reasons, dst) decoded steady =
      subst
        (λ more.
          Reports (reasons ++ (if b.has_body then more else []))
            (then_body std p b r (reasons, dst)))
        (object_reasons std steady b dst raw)
        (gated-Reports b.has_body reasons dst
          (refuse_unknown b raw (bind_fields std raw b.body ([], dst)))
          (bind_body std p.decode_body b (r.header "Content-Type") r.body dst)
          (decoded_body raw dst decoded))

  -- A request with a JSON body that decodes, bound by a plan whose setters fail on the text alone and
  -- without a custom decoder: it binds when no input fails, and otherwise the one error carries a
  -- reason for each failure of the path, the query, the body's fields and its unknown keys, in that
  -- order.
  pub bind-Reports :
      (dst : List Value) (raw : List (String × String))
      → b.noop ≡ false
      → IsDecoded raw
      → ((t : FieldType) → IsSteady (std.unmarshal t))
      → All (λ pb. IsSteady pb.setter) b.paths
      → All (λ pb. IsSteady pb.setter) b.queries
      → Reports (request_failures raw) (bind std p b r dst)
  unfolding bind
  bind-Reports dst raw live decoded steady paths queries =
      let on_path = bind_params "path" r.path_value b.paths ([], dst) in
      let st = bind_params "query" r.query b.queries on_path in
      let reasons =
        bind_params_reasons "query" r.query b.queries on_path queries
        ∙ ap (λ rs. rs ++ param_failures "query" r.query b.queries)
            (bind_params_reasons "path" r.path_value b.paths ([], dst) paths) in
      subst
        (λ rs.
          Reports (rs ++ (if b.has_body then object_failures std b raw else []))
            (bind std p b r dst))
        reasons
        (subst
          (λ flag.
            Reports (st.0 ++ (if b.has_body then object_failures std b raw else []))
              (if flag then ok dst else then_body std p b r st))
          (sym live) (then_body-Reports raw st decoded steady))
