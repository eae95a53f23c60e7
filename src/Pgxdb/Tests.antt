-- ===== src/Pgxdb/Tests.antt =====
-- Runs of db/pgxdb on a small pool, and the theorems at concrete inputs.
use dfl.Base.{ℕ, suc, Bool, true, false, [], none, some, ◌≡◌, refl, ltb, if◌then◌else◌}
use dfl.GoErrors.{text, Error, wrapped, pg_error, ok, is_error, as_error}
use dfl.Pgxdb.Errors.{
  Codes, Sentinel, class_of, as_pg_error, classify_error, is_violation, is_unique_violation,
  is_serialization_failure,
}
use dfl.Pgxdb.Errors.Classes.{classify_error_lem}
use dfl.Pgxdb.Tx.{
  TxOptions, read_committed, World, Ended, returned, panicked, Pool, warn, run_tx, retry_loop,
  retry_serializable, tx_serializable,
}
use dfl.Pgxdb.Tx.Runner.{Ran, run_tx_cases}
use dfl.Pgxdb.Tx.Retries.{Runs, retry_serializable-Runs, Committed, tx_serializable-Committed}

abbrev codes : Codes
codes = record {
  unique_violation = "23505";
  foreign_key_violation = "23503";
  check_violation = "23514";
  not_null_violation = "23502";
  exclusion_violation = "23P01";
  serialization_failure = "40001";
  deadlock_detected = "40P01";
}

abbrev conflict : Error
conflict = pg_error "40001" "" "could not serialize access"

abbrev duplicate : Error
duplicate = wrapped "insert user: " (pg_error "23505" "users_email_key" "duplicate key value")

-- A pool with one transaction at a time: the state tells whether it is open.
abbrev one_at_a_time : Pool Bool ℕ
one_at_a_time = record {
  begin_tx = λ opts w. (ok 7, record w { state = true });
  commit = λ t w. (none, record w { state = false });
  rollback = λ t w. (none, record w { state = false });
  ctx_err = λ w. false;
}

abbrev idle : World Bool
idle = record { state = false; warnings = [] }

abbrev idle_opts : TxOptions
idle_opts = record { iso_level = read_committed; read_only = false }

abbrev failing : ℕ → World Bool → Ended × World Bool
failing t w = (returned (some duplicate), w)

abbrev panicking : ℕ → World Bool → Ended × World Bool
panicking t w = (panicked (text "boom"), w)

abbrev quiet : ℕ → World Bool → Ended × World Bool
quiet t w = (returned none, w)

-- An operation that meets a conflict twice, and its pool: the state counts its runs.
abbrev counted : Pool ℕ ℕ
counted = record {
  begin_tx = λ opts w. (ok 0, w);
  commit = λ t w. (none, w);
  rollback = λ t w. (none, w);
  ctx_err = λ w. false;
}

abbrev twice_in_conflict : World ℕ → Ended × World ℕ
twice_in_conflict w = (
  if ltb w.state 2 then returned (some conflict) else returned none,
  record w { state = suc w.state },
)

abbrev started : World ℕ
started = record { state = 0; warnings = [] }

panic_rolls_back :
    run_tx codes one_at_a_time idle_opts panicking idle ≡ (panicked (text "boom"), idle)
unfolding run_tx
panic_rolls_back = refl

third_try_succeeds :
    (retry_serializable codes counted 3 twice_in_conflict started).0 ≡ returned none
unfolding retry_serializable retry_loop is_serialization_failure warn as_pg_error as_error
third_try_succeeds = refl

duplicate-is_unique_violation : is_unique_violation codes duplicate "users_email_key" ≡ true
unfolding is_unique_violation is_violation as_pg_error as_error
duplicate-is_unique_violation = refl

run_tx_cases_example :
    Ran codes one_at_a_time failing idle_opts idle
      (run_tx codes one_at_a_time idle_opts failing idle).0
      (run_tx codes one_at_a_time idle_opts failing idle).1
run_tx_cases_example = run_tx_cases codes one_at_a_time failing idle_opts idle

abbrev is_open : ℕ → World Bool → Bool
is_open t w = w.state

retry_serializable-Runs_example :
    Runs codes counted 3 twice_in_conflict 0 started
      (retry_serializable codes counted 3 twice_in_conflict started).0
      (retry_serializable codes counted 3 twice_in_conflict started).1
retry_serializable-Runs_example = retry_serializable-Runs codes counted 3 twice_in_conflict started

tx_serializable-Committed_example : Committed codes one_at_a_time quiet idle
unfolding tx_serializable retry_serializable retry_loop run_tx
tx_serializable-Committed_example =
    tx_serializable-Committed codes one_at_a_time quiet idle idle refl

classify_error_lem_example :
    (as_pg_error (classify_error codes duplicate) ≡ as_pg_error duplicate)
    × ((t : ℕ) → is_error t duplicate ≡ true → is_error t (classify_error codes duplicate) ≡ true)
    × ((s : Sentinel)
        → class_of codes (as_pg_error duplicate) ≡ some s
        → is_error s.address (classify_error codes duplicate) ≡ true)
classify_error_lem_example = classify_error_lem codes duplicate
