-- ===== src/Http/Cher.antt =====
-- http/cher/cher.go: the coercer for the errors of the library cher. What errors.AsType finds of that
-- library's type on a chain, its StatusCode and its code for unknown errors are parameters.
pub mod Laws
mod Tests
use dfl.Base.{ℕ, String, List, [], ◌∷◌, Option, none, some, if◌then◌else◌, str_eq, trim_space}
use dfl.GoErrors.{Error, Meta, Reason, Reasons, reason, no_reasons, and_reason}
use dfl.Http.ReqError.{ReqError, wrap, with_status, with_reasons, as_req_error}

-- cher.E
mutual
  pub data Cher : Type 0 where
    cher : String → Meta → Chers → Cher

  pub data Chers : Type 0 where
    no_chers : Chers
    and_cher : Cher → Chers → Chers

-- What the coercer uses of the library.
pub record Library : Type 0 where
  pub as_cher : Error → Option Cher
  pub status_of : String → ℕ
  pub unknown : String

-- convertMeta: an empty map becomes a nil one.
unfoldable pub convert_meta : Meta → Meta
convert_meta [] = []
convert_meta (e ∷ m) = e ∷ m

-- convertReasons, on the reasons below a reason.
unfoldable mutual
  pub convert_reason : Cher → Reason
  convert_reason (cher code meta reasons) =
      reason code (convert_meta meta) (convert_reasons reasons)

  pub convert_reasons : Chers → Reasons
  convert_reasons no_chers = no_reasons
  convert_reasons (and_cher c cs) = and_reason (convert_reason c) (convert_reasons cs)

-- convertReasons, at the top.
unfoldable pub top_reasons : Chers → List Reason
unfolding convert_reason
top_reasons no_chers = []
top_reasons (and_cher c cs) = convert_reason c ∷ top_reasons cs

abbrev pub code_or : String → String → String
code_or unknown code = if str_eq code "" then unknown else code

abbrev pub add_reasons : ReqError → List Reason → ReqError
add_reasons out [] = out
add_reasons out (r ∷ rs) = with_reasons out (r ∷ rs)

module _ (lib : Library) where
  -- coerceCher
  unfoldable pub coerce_cher : Error → Cher → ReqError
  unfolding wrap with_status with_reasons trim_space convert_meta top_reasons
  coerce_cher err (cher raw meta reasons) =
      let code = code_or lib.unknown (trim_space raw) in
      add_reasons (with_status (wrap err code (convert_meta meta) []) (lib.status_of code))
        (top_reasons reasons)

  abbrev pub cher_or_unknown : Error → Option Cher → ReqError
  cher_or_unknown err (some c) = coerce_cher err c
  cher_or_unknown err none = wrap err "unknown" [] []

  abbrev pub passed_or : Error → Option ReqError → ReqError
  passed_or err (some req_err) = req_err
  passed_or err none = cher_or_unknown err (lib.as_cher err)

  -- Coerce
  unfoldable pub coerce : Option Error → Option ReqError
  unfolding as_req_error coerce_cher
  coerce none = none
  coerce (some err) = some (passed_or err (as_req_error err))
