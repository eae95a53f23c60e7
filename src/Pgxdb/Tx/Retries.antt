-- ===== src/Pgxdb/Tx/Retries.antt =====
-- The serializable retry loop: what runs, how often, and what comes back.
use dfl.Base.{
  ℕ, zero, suc, ◌+◌, ◌≤◌, ◌<◌, ◌==◌, true, false, none, some, ◌≡◌, refl, ap, ◌⊎◌, inl, inr, arith,
  subst, Bool-cases,
}
use dfl.GoErrors.{Any, Error, ok}
use dfl.Pgxdb.Errors.{Codes, is_serialization_failure}
use dfl.Pgxdb.Tx.{
  TxOptions, World, Ended, returned, panicked, Pool, warn, after_op, retry_loop, retry_serializable,
  run_tx, tx_serializable, serializable, max_serializable_tx_retries,
}
use dfl.Pgxdb.Tx.Runner.{
  Ran, run_tx_cases, not_begun, committed, commit_refused, rolled_back, panicked_back,
}

-- The options of TxSerializable.
abbrev serializable_options : TxOptions
serializable_options = record { iso_level = serializable; read_only = false }

module _ {S Tx : Type 0} (c : Codes) (pool : Pool S Tx) where
  module _ (max_retries : ℕ) (op : World S → Ended × World S) where
    -- Attempts from number `attempt` on, each but the last one ended by a serialization failure
    -- under a live context, and followed by a warning. The last attempt ends the run: by nil, by a
    -- panic, by an error that is not retried, or as attempt `max_retries`.
    pub data Runs : ℕ → World S → Ended → World S → Type 0 where
      ends_nil :
          (attempt : ℕ) (w w1 : World S)
          → op w ≡ (returned none, w1)
          → Runs attempt w (returned none) w1
      ends_panic :
          (attempt : ℕ) (w w1 : World S) (p : Any)
          → op w ≡ (panicked p, w1)
          → Runs attempt w (panicked p) w1
      ends_error :
          (attempt : ℕ) (w w1 : World S) (err : Error)
          → op w ≡ (returned (some err), w1)
          → (pool.ctx_err w1 ≡ true)
            ⊎ ((is_serialization_failure c err ≡ false) ⊎ (attempt ≡ max_retries))
          → Runs attempt w (returned (some err)) w1
      retried :
          (attempt : ℕ) (w w1 w2 : World S) (err : Error) (r : Ended)
          → op w ≡ (returned (some err), w1)
          → pool.ctx_err w1 ≡ false
          → is_serialization_failure c err ≡ true
          → attempt < max_retries
          → Runs (suc attempt) (warn c pool attempt err w1) r w2
          → Runs attempt w r w2

    abbrev Continues : ℕ → (World S → Ended × World S) → Type 0
    Continues attempt again = (w : World S) → Runs (suc attempt) w (again w).0 (again w).1

    after_op-error :
        (attempt : ℕ) (w w1 : World S) (err : Error) (again : World S → Ended × World S)
        → op w ≡ (returned (some err), w1)
        → attempt ≤ max_retries
        → (attempt < max_retries → Continues attempt again)
        → Runs attempt w
            (after_op c pool max_retries op attempt again (returned (some err), w1)).0
            (after_op c pool max_retries op attempt again (returned (some err), w1)).1
    after_op-error attempt w w1 err again e bound next = elim (Bool-cases (pool.ctx_err w1)) [
      | inl over ↦ rw over (ends_error attempt w w1 err e (inl over))
      | inr live ↦ elim (Bool-cases (is_serialization_failure c err)) [
        | inr other ↦ rw (live, other) (ends_error attempt w w1 err e (inr (inl other)))
        | inl transient ↦ elim (Bool-cases (attempt == max_retries)) [
          | inl last ↦
              rw (live, transient, last) (ends_error attempt w w1 err e (inr (inr (ground arith))))
          | inr more ↦
              let below : attempt < max_retries = ground arith in
              rw (live, transient, more)
                (retried attempt w w1 _ err _ e live transient below (next below _))
        ]
      ]
    ]

    after_op-Runs :
        (attempt : ℕ) (w : World S) (again : World S → Ended × World S) (r : Ended × World S)
        → op w ≡ r
        → attempt ≤ max_retries
        → (attempt < max_retries → Continues attempt again)
        → Runs attempt w
            (after_op c pool max_retries op attempt again r).0
            (after_op c pool max_retries op attempt again r).1
    after_op-Runs attempt w again (panicked p, w1) e bound next = ends_panic attempt w w1 p e
    after_op-Runs attempt w again (returned none, w1) e bound next = ends_nil attempt w w1 e
    after_op-Runs attempt w again (returned (some err), w1) e bound next =
        after_op-error attempt w w1 err again e bound next

    no_more : (m n : ℕ) → m < n + 1 → n < m → ⊥
    no_more m n a b = omega arith

    add_one : (n : ℕ) → n + 1 ≡ suc n
    add_one n = omega arith

    loop-Runs :
        (rounds attempt : ℕ) (w : World S)
        → attempt ≤ max_retries
        → max_retries < attempt + suc rounds
        → Runs attempt w
            (retry_loop c pool max_retries op (suc rounds) attempt w).0
            (retry_loop c pool max_retries op (suc rounds) attempt w).1
    unfolding retry_loop
    loop-Runs zero attempt w bound enough =
        after_op-Runs attempt w (retry_loop c pool max_retries op zero (suc attempt)) (op w) refl
          bound (λ below v. elim (no_more max_retries attempt enough below) [ ])
    loop-Runs (suc rounds) attempt w bound enough =
        after_op-Runs attempt w (retry_loop c pool max_retries op (suc rounds) (suc attempt)) (op w)
          refl bound (λ below v. loop-Runs rounds (suc attempt) v (omega arith) (omega arith))

    -- The loop is a run of attempts from number 0 on: each attempt but the last ends in a
    -- serialization failure or a deadlock under a live context and is followed by one warning with
    -- its number, and the last attempt's end is the result, its error as it is.
    pub retry_serializable-Runs :
        (w : World S)
        → Runs 0 w
            (retry_serializable c pool max_retries op w).0
            (retry_serializable c pool max_retries op w).1
    unfolding retry_serializable
    retry_serializable-Runs w =
        rw (add_one max_retries) (loop-Runs max_retries 0 w (omega arith) (omega arith))

    module _ (calls : World S → ℕ) (counts : (w : World S) → calls (op w).1 ≡ suc (calls w))
        (warns : (n : ℕ) (err : Error) (w : World S) → calls (warn c pool n err w) ≡ calls w) where
      Runs-calls :
          (attempt : ℕ) (w : World S) (r : Ended) (w1 : World S)
          → Runs attempt w r w1
          → attempt ≤ max_retries
          → (calls w + 1 ≤ calls w1) × (calls w1 + attempt ≤ calls w + suc max_retries)
      Runs-calls attempt w _ _ (ends_nil _ _ w1 e) bound =
          omega (arith, counts w, ap (λ x. calls x.1) e)
      Runs-calls attempt w _ _ (ends_panic _ _ w1 p e) bound =
          omega (arith, counts w, ap (λ x. calls x.1) e)
      Runs-calls attempt w _ _ (ends_error _ _ w1 err e why) bound =
          omega (arith, counts w, ap (λ x. calls x.1) e)
      Runs-calls attempt w _ _ (retried _ _ w1 w2 err r e live transient below rest) bound = omega (
        arith,
        counts w,
        ap (λ x. calls x.1) e,
        warns attempt err w1,
        Runs-calls (suc attempt) (warn c pool attempt err w1) r w2 rest below,
      )

      -- The operation runs at least once and at most `max_retries` times again, when it adds one to
      -- a count that the log leaves alone.
      pub retry_serializable_calls :
          (w : World S)
          → (calls w + 1 ≤ calls (retry_serializable c pool max_retries op w).1)
            × (calls (retry_serializable c pool max_retries op w).1 ≤ calls w + suc max_retries)
      retry_serializable_calls w =
          omega (arith, Runs-calls 0 w _ _ (retry_serializable-Runs w) (omega arith))

  -- The state `w` comes from a serializable transaction of f that ran f to nil and was committed.
  abbrev pub Committed : (Tx → World S → Ended × World S) → World S → Type 0
  Committed f w =
      (w0 : World S) × (t : Tx) × (w1 : World S) × (w2 : World S) × (pool.begin_tx
          serializable_options w0
        ≡ (ok t, w1))
      × (f t w1 ≡ (returned none, w2))
      × (pool.commit t w2 ≡ (none, w))

  module _ (f : Tx → World S → Ended × World S) where
    Committed-Ran :
        (w0 w : World S) (r : Ended)
        → Ran c pool f serializable_options w0 r w
        → r ≡ returned none
        → Committed f w
    Committed-Ran w0 _ _ (committed t w1 w2 w3 b g k) nil = (w0, t, w1, w2, b, g, k)
    Committed-Ran w0 _ _ (not_begun err w1 b) nil = cc
    Committed-Ran w0 _ _ (commit_refused t err w1 w2 w3 b g k) nil = cc
    Committed-Ran w0 _ _ (rolled_back t err w1 w2 b g) nil = cc
    Committed-Ran w0 _ _ (panicked_back t p w1 w2 b g) nil = cc

    Committed-Runs :
        (attempt : ℕ) (w : World S) (r : Ended) (w1 : World S)
        → Runs max_serializable_tx_retries (run_tx c pool serializable_options f) attempt w r w1
        → r ≡ returned none
        → Committed f w1
    Committed-Runs attempt w _ _ (ends_nil _ _ w1 e) nil =
        Committed-Ran w w1 (returned none)
          (subst (λ x. Ran c pool f serializable_options w x.0 x.1) e
            (run_tx_cases c pool f serializable_options w))
          refl
    Committed-Runs attempt w _ _ (ends_panic _ _ w1 p e) nil = cc
    Committed-Runs attempt w _ _ (ends_error _ _ w1 err e why) nil = cc
    Committed-Runs attempt w _ _ (retried _ _ w1 w2 err r e live transient below rest) nil =
        Committed-Runs (suc attempt) (warn c pool attempt err w1) r w2 rest nil

    -- When TxSerializable returns nil, the last attempt ran f to nil in a serializable transaction
    -- and committed it, and nothing was done after the commit.
    pub tx_serializable-Committed :
        (w w1 : World S) → tx_serializable c pool f w ≡ (returned none, w1) → Committed f w1
    unfolding tx_serializable
    tx_serializable-Committed w w1 h =
        Committed-Runs 0 w (returned none) w1
          (subst
            (λ x.
              Runs max_serializable_tx_retries (run_tx c pool serializable_options f) 0 w x.0 x.1)
            h
            (retry_serializable-Runs max_serializable_tx_retries
              (run_tx c pool serializable_options f) w))
          refl
