-- ===== src/Http/ReqError/Laws.antt =====
-- What the status table and the default coercer guarantee.
use dfl.Base.{
  ℕ, String, ◌≡◌, ◌≢◌, refl, sym, subst, ◌∙◌, ap, ◌≤◌, ◌⊎◌, inl, inr, Bool, true, false, List, [],
  ◌∷◌, Option, none, some, lookup, str_eq, All, arith, Option-cases, Bool-cases, ◌||◌,
}
use dfl.GoErrors.{Error, req_error, as_error, is_error}
use dfl.GoErrors.Laws.{as_error-passes, is_error-as_error}
use mathlib.Core.Option.{some-injective}
use dfl.Http.ReqError.{
  or_bad_request, ReqError, to_error, is_req_error, of_error, as_req_error, code_statuses, wrap,
  status_code, default_coercer,
}

lookup-All :
    (P : ℕ → Type 0) (k : String) (v : ℕ) (m : List (String × ℕ))
    → All (λ e. P e.1) m
    → lookup k m ≡ some v
    → P v
unfolding lookup
lookup-All P k v [] h e = cc
lookup-All P k v ((j, w) ∷ m) (p, h) e = elim (Bool-cases (str_eq j k)) [
  | inl here ↦ subst P (some-injective _ _ (rw here at e)) p
  | inr there ↦ lookup-All P k v m h (rw there at e)
]

table_range : All (λ e. (400 ≤ e.1) × (e.1 ≤ 500)) code_statuses
unfolding code_statuses
table_range = omega arith

or_bad_request_range :
    (k : String) (o : Option ℕ)
    → lookup k code_statuses ≡ o
    → (400 ≤ or_bad_request o) × (or_bad_request o ≤ 500)
or_bad_request_range k none h = omega arith
or_bad_request_range k (some status) h =
    lookup-All (λ v. (400 ≤ v) × (v ≤ 500)) k status code_statuses table_range h

-- A forced status is the status, whatever the code; without one the status is an HTTP error status
-- from 400 to 500, so a ReqError never goes out as a success.
pub status_code_range :
    (e : ReqError)
    → (e.status ≢ 0 → status_code e ≡ e.status)
      × (e.status ≡ 0 → (400 ≤ status_code e) × (status_code e ≤ 500))
unfolding status_code
status_code_range e = (
  λ h. ground arith,
  λ h. rw (h) (or_bad_request_range e.code (lookup e.code code_statuses) refl),
)

to_error-of_error : (f : Error) {r : ReqError} → of_error f ≡ some r → to_error r ≡ f
to_error-of_error (req_error c m rs s es) h = ap to_error (sym (some-injective _ _ h))
to_error-of_error f h = cc

of_error-is_req_error : (f : Error) → is_req_error f ≡ true → (r : ReqError) × (of_error f ≡ some r)
of_error-is_req_error (req_error c m rs s es) h = (_, refl)
of_error-is_req_error f h = cc

-- errors.As for *ReqError: a hit is a ReqError of the tree, a miss means that the tree has none.
pub as_req_error_lem :
    (e : Error)
    → ((r : ReqError) × (as_req_error e ≡ some r) × (as_error is_req_error e ≡ some (to_error r)))
      ⊎ ((as_req_error e ≡ none) × (as_error is_req_error e ≡ none))
unfolding as_req_error
as_req_error_lem e = elim (Option-cases (as_error is_req_error e)) [
  | inl miss ↦ inr (rw miss, miss)
  | inr (f, hit) ↦
      let (r, same) = of_error-is_req_error f (as_error-passes is_req_error f e hit) in
      inl (r, rw hit same, hit ∙ ap some (sym (to_error-of_error f same)))
]

||-false : (b : Bool) → (b || false) ≡ true → b ≡ true
||-false true h = refl
||-false false h = h

-- The coercion invents no cause: what errors.Is sees in the coerced error was in the error.
pub default_coercer-is_error :
    (err : Error) (r : ReqError) (t : ℕ)
    → default_coercer (some err) ≡ some r
    → is_error t (to_error r) ≡ true
    → is_error t err ≡ true
unfolding default_coercer wrap is_error
default_coercer-is_error err r t h k = elim (as_req_error_lem err) [
  | inl (q, hit, found) ↦
      let same : q ≡ r = some-injective _ _ (rw hit at h) in
      is_error-as_error is_req_error t (to_error r) k err (found ∙ ap (λ x. some (to_error x)) same)
  | inr (miss, absent) ↦
      let same : wrap err "unknown" [] [] ≡ r = some-injective _ _ (rw miss at h) in
      ||-false _ (subst (λ x. is_error t (to_error x) ≡ true) (sym same) k)
]
