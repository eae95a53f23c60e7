-- ===== src/Http/Oops.antt =====
-- http/oops/oops.go: the coercer for the errors of the library oops. What errors.AsType finds of that
-- library's type on a chain is a parameter, its Code as fmt.Sprintf prints it.
pub mod Codes
pub mod Responses
mod Tests
use Prim.Native.Char.{Char, code}
use Prim.Native.String
use dfl.Base.{
  ℕ, String, Bool, ◌&&◌, ◌||◌, List, [], ◌∷◌, Option, none, some, ◌==◌, leb, if◌then◌else◌, str_eq,
  trim_space, insert, map_text, keep_chars, lower,
}
use dfl.GoErrors.{Error, Any, text, Meta, error_text, unwrap}
use dfl.Http.ReqError.{ReqError, wrap, with_status, as_req_error}

-- OopsError: Code, where it is not nil, Error, Context, Public and Unwrap.
pub record OopsError : Type 0 where
  pub code : Option String
  pub message : String
  pub context : List (String × Any)
  pub public : String
  pub unwrapped : Option Error

-- normaliseOopsCode
unfoldable pub normalise_oops_code : Option String → String
unfolding trim_space
normalise_oops_code none = ""
normalise_oops_code (some c) = trim_space c

-- What codeCleanRe keeps.
unfoldable pub is_code : Char → Bool
is_code c =
    (leb 97 (code c) && leb (code c) 122) || (leb 48 (code c) && leb (code c) 57) || code c == 95

-- strings.ReplaceAll of a space by an underscore.
abbrev pub underscored : Char → Char
underscored c = if code c == 32 then "_" else c

unfoldable pub starts_underscore : String → Bool
starts_underscore Prim.Native.String.[] = Bool.false
starts_underscore (Prim.Native.String.◌∷◌ c s) = code c == 95

-- codeCollapseRe: a run of underscores becomes one.
unfoldable pub collapse : String → String
unfolding starts_underscore
collapse Prim.Native.String.[] = Prim.Native.String.[]
collapse (Prim.Native.String.◌∷◌ c s) =
    let rest = collapse s in
    if code c == 95 && starts_underscore rest then rest else Prim.Native.String.◌∷◌ c rest

-- codeTrimRe: one underscore at the start and one at the end.
abbrev pub drop_first : String → String
drop_first Prim.Native.String.[] = Prim.Native.String.[]
drop_first (Prim.Native.String.◌∷◌ c s) = if code c == 95 then s else Prim.Native.String.◌∷◌ c s

unfoldable pub drop_last : String → String
drop_last Prim.Native.String.[] = Prim.Native.String.[]
drop_last (Prim.Native.String.◌∷◌ c Prim.Native.String.[]) =
    if code c == 95 then Prim.Native.String.[] else Prim.Native.String.◌∷◌ c Prim.Native.String.[]
drop_last (Prim.Native.String.◌∷◌ c (Prim.Native.String.◌∷◌ d s)) =
    Prim.Native.String.◌∷◌ c (drop_last (Prim.Native.String.◌∷◌ d s))

-- codeFromMessage
unfoldable pub code_from_message : String → String
unfolding trim_space map_text lower keep_chars is_code collapse drop_last
code_from_message msg =
    let spaced = map_text underscored (map_text lower (trim_space msg)) in
    drop_last (drop_first (collapse (keep_chars is_code spaced)))

abbrev pub or_unknown : String → String
or_unknown code = if str_eq code "" then "unknown" else code

abbrev pub code_of_unwrapped : Option Error → String
code_of_unwrapped none = ""
code_of_unwrapped (some u) = code_from_message (error_text u)

-- maps.Copy
unfoldable pub copy_into : Meta → Meta → Meta
unfolding insert
copy_into meta [] = meta
copy_into meta ((k, v) ∷ more) = copy_into (insert k v meta) more

abbrev pub with_public : String → Meta → Meta
with_public public meta = if str_eq public "" then meta else insert "public" (text public) meta

-- coerceOops
unfoldable pub coerce_oops : Error → OopsError → ReqError
unfolding normalise_oops_code code_from_message copy_into insert wrap error_text
coerce_oops err oops_err =
    let given = normalise_oops_code oops_err.code in
    let code = if str_eq given "" then code_of_unwrapped oops_err.unwrapped else given in
    let meta = copy_into (("error", text oops_err.message) ∷ []) oops_err.context in
    wrap err (or_unknown code) (with_public oops_err.public meta) []

abbrev pub coerce_unwrapped : Error → Option Error → ReqError
coerce_unwrapped err none = wrap err "unknown" [] []
coerce_unwrapped err (some u) = wrap err (or_unknown (code_from_message (error_text u))) [] []

-- serverError
abbrev pub server_error : Error → Option OopsError → ReqError
server_error err (some oops_err) = coerce_oops err oops_err
server_error err none = coerce_unwrapped err (unwrap err)

abbrev pub passed_or : (Error → Option OopsError) → Error → Option ReqError → ReqError
passed_or as_oops err (some req_err) = req_err
passed_or as_oops err none = with_status (server_error err (as_oops err)) 500

-- Coerce
unfoldable pub coerce : (Error → Option OopsError) → Option Error → Option ReqError
unfolding as_req_error coerce_oops with_status wrap code_from_message error_text
coerce as_oops none = none
coerce as_oops (some err) = some (passed_or as_oops err (as_req_error err))
