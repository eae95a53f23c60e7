-- ===== src/Http/Oops/Responses.antt =====
-- What an error becomes under the coercer of oops.
use dfl.Base.{
  ℕ, ◌≡◌, ◌≢◌, refl, sym, ap, ◌∙◌, String, Bool, true, false, ◌||◌, Option, none, some, str_eq,
  if◌then◌else◌, eq_iff, Bool-cases, inl, inr,
}
use dfl.GoErrors.{Error, nil, cons, error_text, is_error, any_is, unwrap}
use dfl.Http.ReqError.{ReqError, wrap, with_status, as_req_error, status_code, to_error}
use dfl.Http.Oops.{
  OopsError, code_from_message, code_of_unwrapped, normalise_oops_code, or_unknown, coerce_oops,
  coerce_unwrapped, server_error, passed_or, coerce,
}

-- A response error that names its problem and has the error as its cause.
record Blames (err : Error) (out : ReqError) : Type 0 where
  named : out.code ≢ ""
  causes : out.causes ≡ cons err nil

abbrev unknown_code : String
unknown_code = "unknown"

unknown-nonempty : unknown_code ≢ ""
unknown-nonempty bad = (let clash : false ≡ true = (eq_iff unknown_code "").1 bad in cc)

or_unknown-nonempty : (code : String) → or_unknown code ≢ ""
or_unknown-nonempty code bad = elim (Bool-cases (str_eq code "")) [
  | inl blank ↦ unknown-nonempty (rw blank at bad)
  | inr full ↦
      (let same : code ≡ "" = rw full at bad in
        let clash : false ≡ true = sym full ∙ (eq_iff code "").1 same in cc)
]

coerce_unwrapped-Blames : (err : Error) (u : Option Error) → Blames err (coerce_unwrapped err u)
unfolding wrap
coerce_unwrapped-Blames err none = record { named = unknown-nonempty; causes = refl }
coerce_unwrapped-Blames err (some u) = record {
  named = or_unknown-nonempty (code_from_message (error_text u));
  causes = refl;
}

server_error-Blames : (err : Error) (o : Option OopsError) → Blames err (server_error err o)
unfolding coerce_oops wrap
server_error-Blames err none = coerce_unwrapped-Blames err (unwrap err)
server_error-Blames err (some oops_err) =
    let given = normalise_oops_code oops_err.code in
    record {
      named =
          or_unknown-nonempty
            (if str_eq given "" then code_of_unwrapped oops_err.unwrapped else given);
      causes = refl;
    }

or_false : (b : Bool) → (b || false) ≡ b
or_false true = refl
or_false false = refl

-- An error with no ReqError on its chain, whatever oops errors it has, is answered with a 500 under a
-- code that is not empty, and errors.Is finds in the answer what it found in the error.
pub coerce-status_code :
    (as_oops : Error → Option OopsError) (err : Error) (t : ℕ)
    → as_req_error err ≡ none
    → (out : ReqError) × (coerce as_oops (some err) ≡ some out)
      × (status_code out ≡ 500)
      × (out.code ≢ "")
      × (is_error t (to_error out) ≡ is_error t err)
unfolding coerce with_status status_code is_error
coerce-status_code as_oops err t missing =
    let out = server_error err (as_oops err) in
    let blames = server_error-Blames err (as_oops err) in
    (
      with_status out 500,
      ap (λ f. some (passed_or as_oops err f)) missing,
      refl,
      blames.named,
      ap (any_is t) blames.causes ∙ or_false (is_error t err),
    )
