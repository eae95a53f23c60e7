-- ===== src/Pgxdb/Rows.antt =====
-- db/pgxdb/pgxdb.go: the generic scanners. A query and the collecting of its rows by pgx, under the row
-- mapper that it is given, are parameters over the state of the database; rows go by what `Rows` holds.
use dfl.Base.{ℕ, ◌≡◌, ap, true, String, List, Option, none, some, Bool-cases, inl, inr, arith}
use dfl.GoErrors.{Any, Error, Result, ok, failed, is_error}
use dfl.Pgxdb.Errors.{Codes, Sentinel, classify_error, with_sentinel, class_of, as_pg_error}

-- pgx.RowToStructByName, pgx.RowToStructByNameLax and pgx.RowTo.
pub data Mapper : Type 0 where
  by_name : Mapper
  by_name_lax : Mapper
  one_column : Mapper

-- The calls of a Querier and of pgx that the scanners make: CollectOneRow, and CollectRows.
pub record Scanning (W Rows A : Type 0) : Type 0 where
  pub query : String → List Any → W → Result Rows × W
  pub one_row : Mapper → Rows → W → Result A × W
  pub all_rows : Mapper → Rows → W → Result (List A) × W

module _ {W Rows A : Type 0} (c : Codes) (pgx : Scanning W Rows A) where
  -- The result under classify; the value beside an error is dropped.
  abbrev pub classified : {B : Type 0} → Result B × W → Result B × W
  classified (ok v, w) = (ok v, w)
  classified (failed err, w) = (failed (classify_error c err), w)

  abbrev pub collect_one : Mapper → Result Rows × W → Result A × W
  collect_one m (failed err, w) = (failed (classify_error c err), w)
  collect_one m (ok rows, w) = classified (pgx.one_row m rows w)

  -- get
  unfoldable pub get_row : Mapper → String → List Any → W → Result A × W
  get_row m sql args w = collect_one m (pgx.query sql args w)

  abbrev pub collect_all : Mapper → Result Rows × W → Result (List A) × W
  collect_all m (failed err, w) = (failed (classify_error c err), w)
  collect_all m (ok rows, w) = classified (pgx.all_rows m rows w)

  -- selectRows
  unfoldable pub select_rows : Mapper → String → List Any → W → Result (List A) × W
  select_rows m sql args w = collect_all m (pgx.query sql args w)

  -- Get, GetLax, Scalar, Select and SelectLax
  unfoldable pub get : String → List Any → W → Result A × W
  unfolding get_row
  get = get_row by_name

  unfoldable pub get_lax : String → List Any → W → Result A × W
  unfolding get_row
  get_lax = get_row by_name_lax

  unfoldable pub scalar : String → List Any → W → Result A × W
  unfolding get_row
  scalar = get_row one_column

  unfoldable pub select : String → List Any → W → Result (List A) × W
  unfolding select_rows
  select = select_rows by_name

  unfoldable pub select_lax : String → List Any → W → Result (List A) × W
  unfolding select_rows
  select_lax = select_rows by_name_lax

module _ (c : Codes) where
  with_sentinel-kept :
      (t : ℕ) (err : Error) (s : Option Sentinel)
      → is_error t err ≡ true
      → is_error t (with_sentinel c err s) ≡ true
  unfolding is_error
  with_sentinel-kept t err none h = h
  with_sentinel-kept t err (some s) h = elim (Bool-cases (is_error s.address err)) [
    | inl there ↦ rw there h
    | inr new ↦ rw new (ground (arith, h))
  ]

  classify_error-kept :
      (t : ℕ) (err : Error) → is_error t err ≡ true → is_error t (classify_error c err) ≡ true
  unfolding classify_error
  classify_error-kept t err h = with_sentinel-kept t err (class_of c (as_pg_error err)) h

-- An error of the query or of the scan that errors.Is knows by some address, pgx.ErrNoRows among them,
-- is known by it in what the scanner returns.
pub get_row-is_error :
    {W Rows A : Type 0} (c : Codes) (pgx : Scanning W Rows A) (m : Mapper) (sql : String)
    (args : List Any) (w w' : W) (t : ℕ) (rows : Rows) (v : W) (err : Error)
    → pgx.query sql args w ≡ (ok rows, v)
    → pgx.one_row m rows v ≡ (failed err, w')
    → is_error t err ≡ true
    → (e : Error) × (get_row c pgx m sql args w ≡ (failed e, w')) × (is_error t e ≡ true)
unfolding get_row
get_row-is_error c pgx m sql args w w' t rows v err asked scanned h =
    (classify_error c err, rw asked (ap (classified c pgx) scanned), classify_error-kept c t err h)
