-- ===== src/Pgxdb/Errors.antt =====
-- db/pgxdb/errors.go: constraint classes. The SQLSTATE codes are constants of the package pgerrcode,
-- which is not in the repository: they are the parameter `c`.
pub mod Classes
use dfl.Base.{
  ℕ, String, Bool, true, false, ◌&&◌, ◌||◌, not, List, Option, none, some, if◌then◌else◌, str_eq,
}
use dfl.GoErrors.{Error, plain, pg_error, joined, Errors, cons, nil, as_error, is_error}

pub record Codes : Type 0 where
  pub unique_violation : String
  pub foreign_key_violation : String
  pub check_violation : String
  pub not_null_violation : String
  pub exclusion_violation : String
  pub serialization_failure : String
  pub deadlock_detected : String

-- *pgconn.PgError: the fields that the package reads.
pub record PgError : Type 0 where
  pub code : String
  pub constraint_name : String

abbrev pub is_pg_error : Error → Bool
is_pg_error (pg_error c n s) = true
is_pg_error _ = false

abbrev pub pg_of : Option Error → Option PgError
pg_of (some (pg_error c n s)) = some (record { code = c; constraint_name = n })
pg_of _ = none

-- errors.AsType[*pgconn.PgError]
unfoldable pub as_pg_error : Error → Option PgError
as_pg_error e = pg_of (as_error is_pg_error e)

-- A sentinel: its address, and its message.
pub record Sentinel : Type 0 where
  pub address : ℕ
  pub message : String

abbrev pub sentinel_error : Sentinel → Error
sentinel_error s = plain s.address s.message

abbrev pub err_unique_violation : Sentinel
err_unique_violation = record { address = 11; message = "pgxdb: unique violation" }

abbrev pub err_foreign_key_violation : Sentinel
err_foreign_key_violation = record { address = 12; message = "pgxdb: foreign key violation" }

abbrev pub err_check_violation : Sentinel
err_check_violation = record { address = 13; message = "pgxdb: check violation" }

abbrev pub err_not_null_violation : Sentinel
err_not_null_violation = record { address = 14; message = "pgxdb: not null violation" }

abbrev pub err_exclusion_violation : Sentinel
err_exclusion_violation = record { address = 15; message = "pgxdb: exclusion violation" }

abbrev pub err_serialization_failure : Sentinel
err_serialization_failure = record { address = 16; message = "pgxdb: serialization failure" }

module _ (c : Codes) where
  -- sentinelFor
  unfoldable pub sentinel_for : String → Option Sentinel
  sentinel_for code =
      if str_eq code c.unique_violation
      then some err_unique_violation
      else if str_eq code c.foreign_key_violation
      then some err_foreign_key_violation
      else if str_eq code c.check_violation
      then some err_check_violation
      else if str_eq code c.not_null_violation
      then some err_not_null_violation
      else if str_eq code c.exclusion_violation
      then some err_exclusion_violation
      else if str_eq code c.serialization_failure || str_eq code c.deadlock_detected
      then some err_serialization_failure
      else none

  abbrev pub class_of : Option PgError → Option Sentinel
  class_of none = none
  class_of (some pg) = sentinel_for pg.code

  -- fmt.Errorf("%w: %w", sentinel, err), unless the error has the sentinel.
  abbrev pub with_sentinel : Error → Option Sentinel → Error
  with_sentinel err none = err
  with_sentinel err (some s) =
      if is_error s.address err then err else joined ": " (cons (sentinel_error s) (cons err nil))

  -- classify of an error that is not nil.
  unfoldable pub classify_error : Error → Error
  classify_error err = with_sentinel err (class_of (as_pg_error err))

  -- classify
  abbrev pub classify : Option Error → Option Error
  classify none = none
  classify (some err) = some (classify_error err)

  abbrev pub violates : String → String → Option PgError → Bool
  violates code constraint none = false
  violates code constraint (some pg) =
      str_eq pg.code code && (str_eq constraint "" || str_eq pg.constraint_name constraint)

  -- isViolation
  unfoldable pub is_violation : Error → String → String → Bool
  is_violation err code constraint = violates code constraint (as_pg_error err)

  unfoldable pub is_unique_violation : Error → String → Bool
  unfolding is_violation
  is_unique_violation err constraint = is_violation err c.unique_violation constraint

  unfoldable pub is_exclusion_violation : Error → String → Bool
  unfolding is_violation
  is_exclusion_violation err constraint = is_violation err c.exclusion_violation constraint

  abbrev pub is_transient : Option PgError → Bool
  is_transient none = false
  is_transient (some pg) =
      str_eq pg.code c.serialization_failure || str_eq pg.code c.deadlock_detected

  -- isSerializationFailure, from pgxdb.go.
  unfoldable pub is_serialization_failure : Error → Bool
  is_serialization_failure err = is_transient (as_pg_error err)

abbrev pub name_of : Option PgError → String
name_of none = ""
name_of (some pg) = pg.constraint_name

-- ConstraintName
unfoldable pub constraint_name : Error → String
constraint_name err = name_of (as_pg_error err)
