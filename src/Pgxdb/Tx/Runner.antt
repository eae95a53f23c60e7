-- ===== src/Pgxdb/Tx/Runner.antt =====
-- The ends of a transaction of db/pgxdb/pgxdb.go.
use dfl.Base.{Bool, false, Option, none, some, ◌≡◌, refl, sym, ap, ◌∙◌}
use dfl.GoErrors.{Any, Error, Result, ok, failed}
use dfl.Pgxdb.Errors.{Codes, classify_error}
use dfl.Pgxdb.Tx.{
  TxOptions, World, Ended, returned, panicked, Pool, deferred, after_commit, after_f, after_begin,
  run_tx,
}

module _ {S Tx : Type 0} (c : Codes) (pool : Pool S Tx) where
  -- The ends of the runner on the body `f` from the state `w`.
  pub data Ran (f : Tx → World S → Ended × World S) (opts : TxOptions) (w : World S)
      : Ended → World S → Type 0 where
    not_begun :
        (err : Error) (w1 : World S)
        → pool.begin_tx opts w ≡ (failed err, w1)
        → Ran f opts w (returned (some err)) w1
    committed :
        (t : Tx) (w1 w2 w3 : World S)
        → pool.begin_tx opts w ≡ (ok t, w1)
        → f t w1 ≡ (returned none, w2)
        → pool.commit t w2 ≡ (none, w3)
        → Ran f opts w (returned none) w3
    commit_refused :
        (t : Tx) (err : Error) (w1 w2 w3 : World S)
        → pool.begin_tx opts w ≡ (ok t, w1)
        → f t w1 ≡ (returned none, w2)
        → pool.commit t w2 ≡ (some err, w3)
        → Ran f opts w (returned (some (classify_error c err))) (pool.rollback t w3).1
    rolled_back :
        (t : Tx) (err : Error) (w1 w2 : World S)
        → pool.begin_tx opts w ≡ (ok t, w1)
        → f t w1 ≡ (returned (some err), w2)
        → Ran f opts w (returned (some err)) (pool.rollback t w2).1
    panicked_back :
        (t : Tx) (p : Any) (w1 w2 : World S)
        → pool.begin_tx opts w ≡ (ok t, w1)
        → f t w1 ≡ (panicked p, w2)
        → Ran f opts w (panicked p) (pool.rollback t w2).1

  module _ (f : Tx → World S → Ended × World S) (opts : TxOptions) (w : World S) where
    Ran-commit :
        (t : Tx) (w1 w2 : World S) (r : Option Error × World S)
        → pool.begin_tx opts w ≡ (ok t, w1)
        → f t w1 ≡ (returned none, w2)
        → pool.commit t w2 ≡ r
        → Ran f opts w
            (deferred c pool t (after_commit c pool r)).0
            (deferred c pool t (after_commit c pool r)).1
    Ran-commit t w1 w2 (none, w3) b g k = committed t w1 w2 w3 b g k
    Ran-commit t w1 w2 (some err, w3) b g k = commit_refused t err w1 w2 w3 b g k

    Ran-f :
        (t : Tx) (w1 : World S) (r : Ended × World S)
        → pool.begin_tx opts w ≡ (ok t, w1)
        → f t w1 ≡ r
        → Ran f opts w
            (deferred c pool t (after_f c pool t r)).0
            (deferred c pool t (after_f c pool t r)).1
    Ran-f t w1 (panicked p, w2) b g = panicked_back t p w1 w2 b g
    Ran-f t w1 (returned (some err), w2) b g = rolled_back t err w1 w2 b g
    Ran-f t w1 (returned none, w2) b g = Ran-commit t w1 w2 (pool.commit t w2) b g refl

    Ran-begin :
        (r : Result Tx × World S)
        → pool.begin_tx opts w ≡ r
        → Ran f opts w (after_begin c pool f r).0 (after_begin c pool f r).1
    Ran-begin (failed err, w1) b = not_begun err w1 b
    Ran-begin (ok t, w1) b = Ran-f t w1 (f t w1) b refl

    -- The runner ends in one of five ways. When the transaction does not begin, its error is
    -- returned and f does not run. Otherwise f runs once. It returns nil exactly when f and then
    -- Commit do, with nothing done after the commit; an error of f comes back as it is and a panic
    -- of f goes on with its value, each after a rollback; an error of Commit comes back classified,
    -- also after a rollback.
    pub run_tx_cases : Ran f opts w (run_tx c pool opts f w).0 (run_tx c pool opts f w).1
    unfolding run_tx
    run_tx_cases = Ran-begin (pool.begin_tx opts w) refl

  module _ (is_open : Tx → World S → Bool)
      (closes : (t : Tx) (w : World S) → is_open t (pool.rollback t w).1 ≡ false)
      (ends : (t : Tx) (w1 w2 : World S) → pool.commit t w1 ≡ (none, w2) → is_open t w2 ≡ false)
      (f : Tx → World S → Ended × World S) (opts : TxOptions) (w : World S) where
    same_tx :
        (t u : Tx) (w1 w2 : World S)
        → pool.begin_tx opts w ≡ (ok t, w1)
        → pool.begin_tx opts w ≡ (ok u, w2)
        → t ≡ u
    same_tx t u w1 w2 a b = cc

    closed-Ran :
        (t : Tx) (w1 : World S) (r : Ended) (w2 : World S)
        → pool.begin_tx opts w ≡ (ok t, w1)
        → Ran f opts w r w2
        → is_open t w2 ≡ false
    closed-Ran t w1 _ _ b (not_begun err u1 x) =
        (let clash : ◌≡◌ {A = Result Tx × World S} (ok t, w1) (failed err, u1) = sym b ∙ x in cc)
    closed-Ran t w1 _ _ b (committed u u1 u2 u3 x y z) =
        ap (λ v. is_open v u3) (same_tx t u w1 u1 b x) ∙ ends u u2 u3 z
    closed-Ran t w1 _ _ b (commit_refused u err u1 u2 u3 x y z) =
        ap (λ v. is_open v (pool.rollback u u3).1) (same_tx t u w1 u1 b x) ∙ closes u u3
    closed-Ran t w1 _ _ b (rolled_back u err u1 u2 x y) =
        ap (λ v. is_open v (pool.rollback u u2).1) (same_tx t u w1 u1 b x) ∙ closes u u2
    closed-Ran t w1 _ _ b (panicked_back u p u1 u2 x y) =
        ap (λ v. is_open v (pool.rollback u u2).1) (same_tx t u w1 u1 b x) ∙ closes u u2

    -- When a rollback and a commit without an error close the transaction they are called on, the
    -- transaction that the runner began is closed when the runner ends, whatever f does: it returns
    -- nil or an error, or it panics, and Commit succeeds or fails.
    pub run_tx_closed :
        (t : Tx) (w1 : World S)
        → pool.begin_tx opts w ≡ (ok t, w1)
        → is_open t (run_tx c pool opts f w).1 ≡ false
    run_tx_closed t w1 b = closed-Ran t w1 _ _ b (run_tx_cases f opts w)
