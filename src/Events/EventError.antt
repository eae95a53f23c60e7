-- ===== src/Events/EventError.antt =====
-- events/eventerr.go and the not-found test of events/retry.go: the error type of the bus.
pub mod Laws
use dfl.Base.{
  ℕ, String, Bool, true, false, ◌||◌, List, [], ◌∷◌, Option, none, some, if◌then◌else◌, str_eq,
}
use dfl.GoErrors.{Error, event_error, Errors, Meta, errors_of, as_error, is_error}

-- `address` is above 0 for the values that are package variables.
pub record EventError : Type 0 where
  pub address : ℕ
  pub code : String
  pub event : String
  pub meta : Meta
  pub causes : Errors

abbrev pub to_error : EventError → Error
to_error e = event_error e.address e.code e.event e.meta e.causes

abbrev pub is_event_error : Error → Bool
is_event_error (event_error a c n m es) = true
is_event_error _ = false

abbrev pub of_error : Error → Option EventError
of_error (event_error a c n m es) =
    some (record { address = a; code = c; event = n; meta = m; causes = es })
of_error _ = none

abbrev pub found_event_error : Option Error → Option EventError
found_event_error none = none
found_event_error (some f) = of_error f

-- errors.AsType[*EventError]
unfoldable pub as_event_error : Error → Option EventError
as_event_error e = found_event_error (as_error is_event_error e)

unfoldable pub new : String → Meta → List Error → EventError
new code meta causes = record {
  address = 0;
  code = code;
  event = "";
  meta = meta;
  causes = errors_of causes;
}

unfoldable pub wrap : Error → String → Meta → List Error → EventError
wrap err code meta causes = record {
  address = 0;
  code = code;
  event = "";
  meta = meta;
  causes = errors_of (err ∷ causes);
}

-- withEvent: the copy is a new value, so it has no variable's address.
unfoldable pub with_event : EventError → String → EventError
with_event e name = if str_eq e.event "" then record e { address = 0; event = name } else e

abbrev pub or_unknown : Error → Option EventError → Option EventError
or_unknown err none = some (wrap err "unknown" [] [])
or_unknown err (some e) = some e

-- DefaultCoercer
unfoldable pub default_coercer : Option Error → Option EventError
default_coercer none = none
default_coercer (some err) = or_unknown err (as_event_error err)

abbrev pub not_found_addr : ℕ
not_found_addr = 7

-- NotFound
abbrev pub not_found : Error
not_found = event_error not_found_addr "not_found" "" [] (errors_of [])

abbrev pub has_not_found_code : Option EventError → Bool
has_not_found_code none = false
has_not_found_code (some e) = str_eq e.code "not_found"

-- IsNotFound of an error that is not nil.
unfoldable pub is_not_found : Error → Bool
is_not_found err = is_error not_found_addr err || has_not_found_code (as_event_error err)
