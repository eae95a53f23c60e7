-- ===== src/Http/Cher/Tests.antt =====
-- A cher error with nested reasons.
use dfl.Base.{◌≡◌, ◌≢◌, String, false, true, [], ◌∷◌, none, eq_iff, arith}
use dfl.GoErrors.{Error, plain, text, is_error}
use dfl.Http.ReqError.{status_code, to_error}
use dfl.Http.Cher.{Chers, cher, no_chers, and_cher, Library, coerce_cher}
use dfl.Http.Cher.Laws.{all_of_reasons, coerce_cher_lem}

abbrev unknown_code : String
unknown_code = "unknown"

abbrev library : Library
library = record { as_cher = λ err. none; status_of = λ code. 400; unknown = unknown_code }

abbrev reasons : Chers
reasons = and_cher (cher "too_short" [] (and_cher (cher "no_digits" [] no_chers) no_chers)) no_chers

abbrev refused : Error
refused = plain 30 "invalid password"

named : library.unknown ≢ ""
named same = (let clash : false ≡ true = (eq_iff unknown_code "").1 same in cc)

coerce_cher_lem_example :
    ((coerce_cher library refused (cher " invalid " (("field", text "password") ∷ []) reasons)).code
      ≢ "")
    × (status_code
          (coerce_cher library refused (cher " invalid " (("field", text "password") ∷ []) reasons))
        ≡ 400)
    × ((coerce_cher library refused
          (cher " invalid " (("field", text "password") ∷ []) reasons)).meta
        ≡ ("field", text "password") ∷ [])
    × (all_of_reasons
          (coerce_cher library refused
            (cher " invalid " (("field", text "password") ∷ []) reasons)).reasons
        ≡ reasons)
    × (is_error 30 (
          to_error (
            coerce_cher library refused
              (cher " invalid " (("field", text "password") ∷ []) reasons)))
        ≡ is_error 30 refused)
coerce_cher_lem_example =
    coerce_cher_lem library refused " invalid " (("field", text "password") ∷ []) reasons 30 named
      (λ code bad. absurd (ground arith))
