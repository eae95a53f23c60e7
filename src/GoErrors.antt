-- ===== src/GoErrors.antt =====
-- Go's error values and package errors. An error is a tree: what it unwraps to stands below it.
-- `errors.Is` compares pointers, so a value that a package declares as a variable carries an
-- address above 0; an error made by a call carries 0, which is the address of no variable.
-- `any` values inside metadata are texts, lists of texts, or opaque.
pub mod Laws
use dfl.Base.{
  ℕ, String, Bool, false, ◌||◌, List, [], ◌∷◌, map, Option, none, some, ◌==◌, str_eq, ◌+s◌, join,
  if◌then◌else◌,
}

-- A value of type any.
pub data Any : Type 0 where
  text : String → Any
  texts : List String → Any
  opaque : ℕ → Any

-- http.M, events.M and cher.M: map[string]any. A nil map is the empty one.
abbrev pub Meta : Type 0
Meta = List (String × Any)

-- http.Reason
mutual
  pub data Reason : Type 0 where
    reason : String → Meta → Reasons → Reason

  pub data Reasons : Type 0 where
    no_reasons : Reasons
    and_reason : Reason → Reasons → Reasons

-- The error types that the sources build or look for.
mutual
  pub data Error : Type 0 where
    -- errors.New: an address and a message
    plain : ℕ → String → Error
    -- fmt.Errorf with one %w
    wrapped : String → Error → Error
    -- errors.Join, and fmt.Errorf with several %w: the text between the errors, and the errors
    joined : String → Errors → Error
    -- *http.ReqError: code, meta, reasons, status, causes
    req_error : String → Meta → List Reason → ℕ → Errors → Error
    -- *events.EventError: address, code, event, meta, causes
    event_error : ℕ → String → String → Meta → Errors → Error
    -- *pgconn.PgError: code, constraint name, message
    pg_error : String → String → String → Error
    -- *json.UnmarshalTypeError: the type wanted, the value that came, the message
    type_error : String → String → String → Error

  pub data Errors : Type 0 where
    nil : Errors
    cons : Error → Errors → Errors

abbrev pub errors_of : List Error → Errors
errors_of [] = nil
errors_of (e ∷ es) = cons e (errors_of es)

abbrev pub append_errors : Errors → Errors → Errors
append_errors nil fs = fs
append_errors (cons e es) fs = cons e (append_errors es fs)

-- M.Keys, whose order Go leaves open, under strings.Join.
unfoldable pub keys_text : Meta → String
unfolding join
keys_text m = join ", " (map (λ e. e.0) m)

-- e.Error()
unfoldable mutual
  pub error_text : Error → String
  error_text (plain a s) = s
  error_text (wrapped s e) = s +s error_text e
  error_text (joined sep es) = errors_text sep es
  error_text (req_error c m rs s es) = c +s (" keys=" +s keys_text m)
  error_text (event_error a c n m es) =
      if str_eq n ""
      then c +s (" keys=" +s keys_text m)
      else c +s (" event=" +s (n +s (" keys=" +s keys_text m)))
  error_text (pg_error c n s) = s
  error_text (type_error w g s) = s

  pub errors_text : String → Errors → String
  errors_text sep nil = ""
  errors_text sep (cons e nil) = error_text e
  errors_text sep (cons e (cons f es)) = error_text e +s (sep +s errors_text sep (cons f es))

-- errors.Is against the package variable at an address.
unfoldable mutual
  pub is_error : ℕ → Error → Bool
  is_error t (plain a s) = a == t
  is_error t (wrapped s e) = is_error t e
  is_error t (joined sep es) = any_is t es
  is_error t (req_error c m rs s es) = any_is t es
  is_error t (event_error a c n m es) = a == t || any_is t es
  is_error t (pg_error c n s) = false
  is_error t (type_error w g s) = false

  pub any_is : ℕ → Errors → Bool
  any_is t nil = false
  any_is t (cons e es) = is_error t e || any_is t es

-- The first of two answers.
abbrev pub or_else : Option Error → Option Error → Option Error
or_else none b = b
or_else (some a) b = some a

-- errors.As with a target type, given by its test: the first match, a node before what it wraps.
unfoldable mutual
  pub as_error : (Error → Bool) → Error → Option Error
  as_error p (plain a s) = if p (plain a s) then some (plain a s) else none
  as_error p (wrapped s e) =
      let below = as_error p e in if p (wrapped s e) then some (wrapped s e) else below
  as_error p (joined sep es) =
      let below = first_as p es in if p (joined sep es) then some (joined sep es) else below
  as_error p (req_error c m rs s es) =
      let below = first_as p es in
      if p (req_error c m rs s es) then some (req_error c m rs s es) else below
  as_error p (event_error a c n m es) =
      let below = first_as p es in
      if p (event_error a c n m es) then some (event_error a c n m es) else below
  as_error p (pg_error c n s) = if p (pg_error c n s) then some (pg_error c n s) else none
  as_error p (type_error w g s) = if p (type_error w g s) then some (type_error w g s) else none

  pub first_as : (Error → Bool) → Errors → Option Error
  first_as p nil = none
  first_as p (cons e es) = or_else (as_error p e) (first_as p es)

-- errors.Join of two errors that are not nil.
abbrev pub join_errors : Error → Error → Error
join_errors e f = joined "\n" (cons e (cons f nil))

-- errors.Join of a list: nil when it is empty.
abbrev pub join_all : List Error → Option Error
join_all [] = none
join_all (e ∷ es) = some (joined "\n" (errors_of (e ∷ es)))

-- errors.Unwrap, which knows only the single-error form.
abbrev pub unwrap : Error → Option Error
unwrap (wrapped s e) = some e
unwrap _ = none

-- What a function with results (A, error) gives: a value, or an error that is not nil.
pub data Result {ℓ} (A : Type ℓ) : Type ℓ where
  ok : A → Result A
  failed : Error → Result A
