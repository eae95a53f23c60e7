-- ===== src/Pgxdb/Tx.antt =====
-- db/pgxdb/pgxdb.go and context.go: the transaction runner, the serializable retry loop, the
-- transaction shapes and the transaction of a context. The pool of pgx is the
-- parameter `pool`, over a state `S` of the database; a context's transaction is its only value.
pub mod Runner
pub mod Retries
use dfl.Base.{
  ℕ, zero, suc, ◌+◌, ◌==◌, ◌||◌, not, String, Bool, List, Option, none, some, if◌then◌else◌, ◌∷◌,
  true, false,
}
use dfl.GoErrors.{Any, Error, error_text, Result, ok, failed}
use dfl.Pgxdb.Errors.{Codes, classify, classify_error, is_serialization_failure}

pub data IsoLevel : Type 0 where
  read_committed : IsoLevel
  repeatable_read : IsoLevel
  serializable : IsoLevel

-- pgx.TxOptions: the fields that the package sets.
pub record TxOptions : Type 0 where
  pub iso_level : IsoLevel
  pub read_only : Bool

-- A warning between two attempts.
pub record Warning : Type 0 where
  pub attempt : ℕ
  pub error : String

pub record World (S : Type 0) : Type 0 where
  pub state : S
  pub warnings : List Warning

-- How a function ends: it returns an error or nil, or it panics with a value.
pub data Ended : Type 0 where
  returned : Option Error → Ended
  panicked : Any → Ended

abbrev pub max_serializable_tx_retries : ℕ
max_serializable_tx_retries = 3

module _ (S Tx : Type 0) where
  -- The calls of *pgxpool.Pool and pgx.Tx that the runner makes, and whether the caller's context
  -- has ended.
  pub record Pool : Type 0 where
    pub begin_tx : TxOptions → World S → Result Tx × World S
    pub commit : Tx → World S → Option Error × World S
    pub rollback : Tx → World S → Option Error × World S
    pub ctx_err : World S → Bool

module _ (Tx : Type 0) where
  -- A context: the transaction that it carries under txCtxKey.
  pub record Context : Type 0 where
    pub carried : Option Tx

  -- A Querier: the pool, or a transaction.
  pub data Querier : Type 0 where
    of_pool : Querier
    of_tx : Tx → Querier

module _ {Tx : Type 0} where
  -- contextWithTx
  unfoldable pub context_with_tx : Context Tx → Tx → Context Tx
  context_with_tx ctx t = record { carried = some t }

  -- TxFromContext
  unfoldable pub tx_from_context : Context Tx → Option Tx
  tx_from_context ctx = ctx.carried

  abbrev pub querier_or : Querier Tx → Option Tx → Querier Tx
  querier_or fallback none = fallback
  querier_or fallback (some t) = of_tx t

  -- GetQuerier
  unfoldable pub get_querier : Context Tx → Querier Tx → Querier Tx
  get_querier ctx fallback = querier_or fallback (tx_from_context ctx)

module _ {S Tx : Type 0} (c : Codes) (pool : Pool S Tx) where
  -- The deferred function, for the way the body ended.
  abbrev pub deferred : Tx → Ended × World S → Ended × World S
  deferred t (panicked p, w) = (panicked p, (pool.rollback t w).1)
  deferred t (returned (some err), w) = (returned (some err), (pool.rollback t w).1)
  deferred t (returned none, w) = (returned none, w)

  abbrev pub after_commit : Option Error × World S → Ended × World S
  after_commit (err, w) = (returned (classify c err), w)

  -- The body once the transaction has begun: f, and then Commit.
  abbrev pub after_f : Tx → Ended × World S → Ended × World S
  after_f t (panicked p, w) = (panicked p, w)
  after_f t (returned (some err), w) = (returned (some err), w)
  after_f t (returned none, w) = after_commit (pool.commit t w)

  abbrev pub after_begin : (Tx → World S → Ended × World S) → Result Tx × World S → Ended × World S
  after_begin f (failed err, w) = (returned (some err), w)
  after_begin f (ok t, w) = deferred t (after_f t (f t w))

  -- tx
  unfoldable pub run_tx : TxOptions → (Tx → World S → Ended × World S) → World S → Ended × World S
  run_tx opts f w = after_begin f (pool.begin_tx opts w)

  -- The log call between attempts.
  unfoldable pub warn : ℕ → Error → World S → World S
  warn attempt err w = record {
    state = w.state;
    warnings = record { attempt = attempt + 1; error = error_text err } ∷ w.warnings;
  }

  module _ (max_retries : ℕ) (op : World S → Ended × World S) where
    -- An attempt's end: the loop goes on by `again`.
    abbrev pub after_op : ℕ → (World S → Ended × World S) → Ended × World S → Ended × World S
    after_op attempt again (panicked p, w) = (panicked p, w)
    after_op attempt again (returned none, w) = (returned none, w)
    after_op attempt again (returned (some err), w) =
        let stop : Ended × World S = (returned (some err), w) in
        let more = again (warn attempt err w) in
        if pool.ctx_err w || not (is_serialization_failure c err)
        then stop
        else if attempt == max_retries
        then stop
        else more

    -- The loop at `attempt`, with the rounds that are left: none only where the range was empty.
    unfoldable pub retry_loop : ℕ → ℕ → World S → Ended × World S
    retry_loop zero attempt w = (returned none, w)
    retry_loop (suc rounds) attempt w = after_op attempt (retry_loop rounds (suc attempt)) (op w)

    -- retrySerializable
    unfoldable pub retry_serializable : World S → Ended × World S
    retry_serializable w = retry_loop (max_retries + 1) 0 w

  -- Tx
  unfoldable pub tx : (Tx → World S → Ended × World S) → World S → Ended × World S
  tx f w = run_tx (record { iso_level = read_committed; read_only = false }) f w

  -- TxRead
  unfoldable pub tx_read : (Tx → World S → Ended × World S) → World S → Ended × World S
  tx_read f w = run_tx (record { iso_level = repeatable_read; read_only = true }) f w

  -- TxSerializable
  unfoldable pub tx_serializable : (Tx → World S → Ended × World S) → World S → Ended × World S
  tx_serializable f w =
      retry_serializable max_serializable_tx_retries
        (run_tx (record { iso_level = serializable; read_only = false }) f) w

  -- TxCtx
  unfoldable pub tx_ctx :
      Context Tx → (Context Tx → World S → Ended × World S) → World S → Ended × World S
  tx_ctx ctx f w = tx (λ t. f (context_with_tx ctx t)) w

  -- TxReadCtx
  unfoldable pub tx_read_ctx :
      Context Tx → (Context Tx → World S → Ended × World S) → World S → Ended × World S
  tx_read_ctx ctx f w = tx_read (λ t. f (context_with_tx ctx t)) w

  -- TxSerializableCtx
  unfoldable pub tx_serializable_ctx :
      Context Tx → (Context Tx → World S → Ended × World S) → World S → Ended × World S
  tx_serializable_ctx ctx f w = tx_serializable (λ t. f (context_with_tx ctx t)) w
