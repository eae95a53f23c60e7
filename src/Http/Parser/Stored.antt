-- ===== src/Http/Parser/Stored.antt =====
-- What a bound struct holds at the field of a path or a query parameter.
use dfl.Base.{
  ℕ, ◌<◌, ◌≡◌, sym, ap, ◌∙◌, subst, String, Bool, true, false, List, [], ◌∷◌, ◌++◌, Option, none,
  some, lookup, length, get_elem?, str_eq, if◌then◌else◌, ◌==◌, arith, Bool-cases, inl, inr,
}
use dfl.GoErrors.{Error, Reason, Result, ok, failed, is_error}
use dfl.Http.Wire.{Request}
use dfl.Http.Parser.Schema.{Value, RequestParser, Std}
use dfl.Http.Parser.Plan.{ParamBind, BodyBind, Binder}
use dfl.Http.Parser.Claims.{bodies_at, binds_at}
use dfl.Http.Parser.Values.{
  set_field-Kept, after_set_struct, not_head, params_at_pos, bind_params-Kept, bind_params-field_at,
}
use dfl.Http.Parser.Bind.{
  Progress, field_at, bind_params, bind_raw, bind_fields, body_field_reason, refuse_unknown,
  after_decode, is_json, unsupported_media_type, bind_json, bind_body, bound, after_body, then_body,
  bind,
}

-- A struct that comes back has the value in the field.
abbrev pub Holds : ℕ → Value → Result (List Value) → Type 0
Holds j v (ok vs) = field_at j vs ≡ v
Holds j v (failed err) = Unit

abbrev pub HoldsSoFar : ℕ → Value → Result Progress → Type 0
HoldsSoFar j v (ok st) = field_at j st.1 ≡ v
HoldsSoFar j v (failed err) = Unit

module _ (j : ℕ) (v : Value) where
  bound-Holds :
      (reasons : List Reason) (dst : List Value)
      → field_at j dst ≡ v
      → Holds j v (bound (reasons, dst))
  bound-Holds [] dst h = h
  bound-Holds (x ∷ xs) dst h = tt

  after_body-Holds :
      (reasons : List Reason) (r : Result Progress)
      → HoldsSoFar j v r
      → Holds j v (after_body reasons r)
  after_body-Holds reasons (ok (more, dst)) h = bound-Holds (reasons ++ more) dst h
  after_body-Holds reasons (failed err) h = tt

  if_Holds :
      (c : Bool) (x y : Result (List Value))
      → Holds j v x
      → Holds j v y
      → Holds j v (if c then x else y)
  if_Holds true x y h k = h
  if_Holds false x y h k = k

  if_HoldsSoFar :
      (c : Bool) (x y : Result Progress)
      → HoldsSoFar j v x
      → HoldsSoFar j v y
      → HoldsSoFar j v (if c then x else y)
  if_HoldsSoFar true x y h k = h
  if_HoldsSoFar false x y h k = k

  refuse_unknown-kept :
      (b : Binder) (raw : List (String × String)) (st : Progress)
      → field_at j st.1 ≡ v
      → field_at j (refuse_unknown b raw st).1 ≡ v
  refuse_unknown-kept b raw (reasons, dst) h = elim (Bool-cases b.lenient) [
    | inl l ↦ rw l h
    | inr l ↦ rw l h
  ]

  module _ (std : Std) where
    bind_raw-kept :
        (fb : BodyBind) (st : Progress) (rm : Option String)
        → (fb.field_idx == j) ≡ false
        → field_at j st.1 ≡ v
        → field_at j (bind_raw std fb st rm).1 ≡ v
    bind_raw-kept fb (reasons, dst) none apart h = h
    bind_raw-kept fb (reasons, dst) (some rm) apart h =
        let r = std.unmarshal fb.type_of (field_at fb.field_idx dst) rm in
        rw (after_set_struct (body_field_reason fb.key) fb.field_idx reasons dst r)
          ((set_field-Kept fb.field_idx j r.1 dst apart).0 ∙ h)

    bind_fields-kept :
        (raw : List (String × String)) (fbs : List BodyBind) (st : Progress)
        → bodies_at j fbs ≡ 0
        → field_at j st.1 ≡ v
        → field_at j (bind_fields std raw fbs st).1 ≡ v
    unfolding bind_fields
    bind_fields-kept raw [] st h k = k
    bind_fields-kept raw (fb ∷ fbs) st h k =
        let (apart, rest) = not_head (fb.field_idx == j) (bodies_at j fbs) h in
        bind_fields-kept raw fbs (bind_raw std fb st (lookup fb.key raw)) rest
          (bind_raw-kept fb st (lookup fb.key raw) apart k)

    after_decode-kept :
        (b : Binder) (dst : List Value) (r : Option Error × List (String × String))
        → bodies_at j b.body ≡ 0
        → field_at j dst ≡ v
        → field_at j (after_decode std b dst r).1 ≡ v
    after_decode-kept b dst (none, raw) h k =
        refuse_unknown-kept b raw (bind_fields std raw b.body ([], dst))
          (bind_fields-kept raw b.body ([], dst) h k)
    after_decode-kept b dst (some err, raw) h k = elim (Bool-cases (is_error std.eof err)) [
      | inl ended ↦ rw ended (
          refuse_unknown-kept b raw (bind_fields std raw b.body ([], dst))
            (bind_fields-kept raw b.body ([], dst) h k))
      | inr bad ↦ rw bad k
    ]

    bind_json-Holds :
        (b : Binder) (ct body : String) (dst : List Value)
        → bodies_at j b.body ≡ 0
        → field_at j dst ≡ v
        → HoldsSoFar j v (bind_json std b ct body dst)
    unfolding bind_json
    bind_json-Holds b ct body dst h k =
        if_HoldsSoFar (is_json ct) (ok (after_decode std b dst (std.decode_object body)))
          (failed (unsupported_media_type ct))
          (after_decode-kept b dst (std.decode_object body) h k) tt

module _ {X : Type 0} (std : Std) (p : RequestParser) (b : Binder) (r : Request X)
    (dst : List Value) where
  then_body-Holds :
      (j : ℕ) (v : Value) (st : Progress)
      → p.decode_body ≡ none
      → bodies_at j b.body ≡ 0
      → field_at j st.1 ≡ v
      → Holds j v (then_body std p b r st)
  then_body-Holds j v (reasons, vs) built_in h k =
      if_Holds j v b.has_body
        (after_body reasons (bind_body std p.decode_body b (r.header "Content-Type") r.body vs))
        (bound (reasons, vs))
        (after_body-Holds j v reasons _ (
          subst (λ d. HoldsSoFar j v (bind_body std d b (r.header "Content-Type") r.body vs))
            (sym built_in) (bind_json-Holds j v std b (r.header "Content-Type") r.body vs h k)))
        (bound-Holds j v reasons vs k)

  -- The struct of a request that is bound without a custom body decoder: the field of a path
  -- parameter that came holds what the parameter's setter made of its text, whatever the query
  -- and the body have, when the plan binds the field once and the struct has it.
  pub bind-path_value :
      (k : ℕ) (pb : ParamBind) (vs : List Value)
      → b.noop ≡ false
      → p.decode_body ≡ none
      → get_elem? b.paths k ≡ some pb
      → binds_at b pb.field_idx ≡ 1
      → pb.field_idx < length dst
      → str_eq (r.path_value pb.key) "" ≡ false
      → bind std p b r dst ≡ ok vs
      → field_at pb.field_idx vs ≡ (pb.setter (field_at pb.field_idx dst) (r.path_value pb.key)).1
  unfolding bind
  bind-path_value k pb vs live built_in found once room came done =
      let j = pb.field_idx in
      let taken = params_at_pos b.paths k pb found in
      let on_path = bind_params "path" r.path_value b.paths ([], dst) in
      let (set, size) =
        bind_params-field_at "path" r.path_value b.paths k pb ([], dst) found
          (omega (arith, once, taken)) came room in
      let (same, _) =
        bind_params-Kept "query" r.query b.queries on_path j (omega (arith, once, taken)) in
      let held =
        then_body-Holds j (pb.setter (field_at j dst) (r.path_value pb.key)).1
          (bind_params "query" r.query b.queries on_path) built_in (omega (arith, once, taken))
          (same ∙ set) in
      let st = bind_params "query" r.query b.queries on_path in
      let live_end : then_body std p b r st ≡ ok vs =
        ap (λ flag. if flag then ok dst else then_body std p b r st) (sym live) ∙ done in
      subst (λ e. Holds j (pb.setter (field_at j dst) (r.path_value pb.key)).1 e) live_end held
