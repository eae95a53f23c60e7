-- ===== src/Events/Endpoint/Statuses.antt =====
-- The response that an event's route gives an error.
use dfl.Base.{
  ◌⊎◌, ◌≡◌, refl, String, Bool, true, false, [], ◌∷◌, Option, some, str_eq, if◌then◌else◌,
  Bool-cases, inl, inr, arith, eq_iff, lookup, subst, sym, ap, ◌∙◌,
}
use dfl.GoErrors.{Error, Meta, cons, nil}
use dfl.Http.ReqError
use dfl.Http.ReqError.{ReqError, status_code, code_statuses, with_status}
use dfl.Events.EventError.{EventError, with_event}
use dfl.Events.EventError
use dfl.Events.Endpoint.{is_bad_input, projected, as_req_error}

abbrev IsBadRequest : String → Type 0
IsBadRequest code =
    (meta : Meta) (err : Error) → status_code (ReqError.new code meta (err ∷ [])) ≡ 400

validation_failed_status : IsBadRequest "validation_failed"
unfolding status_code ReqError.new code_statuses lookup
validation_failed_status meta err = refl

invalid_status : IsBadRequest "invalid"
unfolding status_code ReqError.new code_statuses lookup
invalid_status meta err = refl

decode_failed_status : IsBadRequest "decode_failed"
unfolding status_code ReqError.new code_statuses lookup
decode_failed_status meta err = refl

-- The codes of bad input.
abbrev pub IsBadInput : String → Type 0
IsBadInput code = (code ≡ "validation_failed") ⊎ (code ≡ "invalid") ⊎ (code ≡ "decode_failed")

bad_input_on : (code : String) → IsBadInput code → is_bad_input code ≡ true
bad_input_on code (inl v) = rw v refl
bad_input_on code (inr (inl i)) = rw i refl
bad_input_on code (inr (inr d)) = rw d refl

IsBadInput-cases : (code : String) → is_bad_input code ≡ true → IsBadInput code
IsBadInput-cases code h = elim (Bool-cases (str_eq code "validation_failed")) [
  | inl v ↦ inl ((eq_iff code "validation_failed").0 v)
  | inr not_v ↦ elim (Bool-cases (str_eq code "invalid")) [
    | inl i ↦ inr (inl ((eq_iff code "invalid").0 i))
    | inr not_i ↦ inr (inr ((eq_iff code "decode_failed").0 (ground (arith, h, not_v, not_i))))
  ]
]

bad_input_off : (code : String) → ¬ IsBadInput code → is_bad_input code ≡ false
bad_input_off code other = elim (Bool-cases (is_bad_input code)) [
  | inl bad ↦ absurd (other (IsBadInput-cases code bad))
  | inr fine ↦ fine
]

-- The table of statuses has none of the codes of bad input.
bad_input_status : (code : String) → IsBadInput code → IsBadRequest code
bad_input_status code (inl v) = subst IsBadRequest (sym v) validation_failed_status
bad_input_status code (inr (inl i)) = subst IsBadRequest (sym i) invalid_status
bad_input_status code (inr (inr d)) = subst IsBadRequest (sym d) decode_failed_status

with_event-code : (e : EventError) (name : String) → (with_event e name).code ≡ e.code
unfolding with_event
with_event-code e name = ground arith

-- A response's error that keeps the code, the meta and, as its one cause, the event error.
abbrev pub Keeps : EventError → ReqError → Type 0
Keeps e q = (q.code ≡ e.code) × (q.meta ≡ e.meta) × (q.causes ≡ cons (EventError.to_error e) nil)

-- The error of a response by whether it is one of bad input.
chosen_status :
    (bad : Bool) (e : EventError)
    → is_bad_input e.code ≡ bad
    → (q : ReqError) × ((if bad
          then ReqError.new e.code e.meta (EventError.to_error e ∷ [])
          else with_status (ReqError.new e.code e.meta (EventError.to_error e ∷ [])) 500)
        ≡ q)
      × Keeps e q
      × (status_code q ≡ (if bad then 400 else 500))
unfolding ReqError.new with_status status_code
chosen_status true e h = (
  ReqError.new e.code e.meta (EventError.to_error e ∷ []),
  refl,
  (refl, refl, refl),
  bad_input_status e.code (IsBadInput-cases e.code h) e.meta (EventError.to_error e),
)
chosen_status false e h = (
  with_status (ReqError.new e.code e.meta (EventError.to_error e ∷ [])) 500,
  refl,
  (refl, refl, refl),
  refl,
)

-- An error that the bus's coercer makes an event error of, as a response of its route: the response
-- carries the code and the meta of that event error, and the event error itself, stamped with the
-- event's name if it has none, as its one cause. It is a 400 when the code is validation_failed,
-- invalid or decode_failed, and a 500 for every other code, whatever status the code has elsewhere.
pub as_req_error-status_code :
    (coercer : Option Error → Option EventError) (err : Error) (name : String) (e : EventError)
    → coercer (some err) ≡ some e
    → (q : ReqError) × (as_req_error coercer err name ≡ some (ReqError.to_error q))
      × Keeps (with_event e name) q
      × (IsBadInput e.code → status_code q ≡ 400)
      × (¬ IsBadInput e.code → status_code q ≡ 500)
unfolding as_req_error
as_req_error-status_code coercer err name e found =
    let e' = with_event e name in
    let same = with_event-code e name in
    let (q, made, keeps, status) = chosen_status (is_bad_input e'.code) e' refl in
    let by_code = status ∙ ap (λ c. if is_bad_input c then 400 else 500) same in
    (
      q,
      ap (projected name) found ∙ ap (λ x. some (ReqError.to_error x)) made,
      keeps,
      λ h. by_code ∙ ap (λ b. if b then 400 else 500) (bad_input_on e.code h),
      λ h. by_code ∙ ap (λ b. if b then 400 else 500) (bad_input_off e.code h),
    )
