-- ===== src/Events/Retry/Loop.antt =====
-- How often Retry runs the handler, and what it returns.
use dfl.Base.{
  ℕ, zero, suc, ◌+◌, ◌-◌, subst, ◌≤◌, ◌≡◌, ◌≢◌, refl, sym, ap, ◌∙◌, false, Option, none, some, ltb,
  ◌==◌, arith, Bool-cases, inl, inr,
}
use dfl.GoErrors.{Error, join_errors}
use dfl.Events.Wire.{Envelope, Context, World, HandlerFunc}
use dfl.Events.Retry.{
  Duration, FullPolicy, RetryPolicy, wait, after_wait, after_error, after_run, retry_loop, retry,
  with_defaults,
}

module _ {T : Type 0} (sleep : Context → Duration → World T → Option Error × World T) where
  module _ (p : FullPolicy T) (next : HandlerFunc T) (ctx : Context) (env : Envelope)
      (calls : World T → ℕ) (counts : (w : World T) → calls (next ctx env w).1 ≡ suc (calls w))
      (sleeps : (d : Duration) (w : World T) → calls (sleep ctx d w).1 ≡ calls w)
      (ends : (n : ℕ) (e : Error) (w : World T)
        → calls (p.exhausted ctx env n e w).1 ≡ calls w) where
    wait_calls : (d : Duration) (w : World T) → calls (wait sleep ctx d w).1 ≡ calls w
    unfolding wait
    wait_calls d w = ground (arith, sleeps d w)

    -- A continuation that runs the handler at most `n` times.
    abbrev AtMost : ℕ → (World T → Option Error × World T) → Type 0
    AtMost n again =
        (w : World T) → (calls w ≤ calls (again w).1) × (calls (again w).1 ≤ calls w + n)

    after_wait_calls :
        (n : ℕ) (err : Error) (again : World T → Option Error × World T)
        (r : Option Error × World T)
        → AtMost n again
        → (calls r.1 ≤ calls (after_wait sleep p next ctx env err again r).1)
          × (calls (after_wait sleep p next ctx env err again r).1 ≤ calls r.1 + n)
    after_wait_calls n err again (none, w) bound = bound w
    after_wait_calls n err again (some e, w) bound = omega arith

    after_error_calls :
        (n attempt : ℕ) (err : Error) (again : World T → Option Error × World T) (w : World T)
        → AtMost n again
        → (calls w ≤ calls (after_error sleep p next ctx env attempt err again w).1)
          × (calls (after_error sleep p next ctx env attempt err again w).1 ≤ calls w + n)
    after_error_calls n attempt err again w bound = ground (
      arith,
      ends p.attempts err w,
      wait_calls (p.backoff attempt) w,
      after_wait_calls n err again (wait sleep ctx (p.backoff attempt) w) bound,
    )

    after_run_calls :
        (n attempt : ℕ) (again : World T → Option Error × World T) (r : Option Error × World T)
        → AtMost n again
        → (calls r.1 ≤ calls (after_run sleep p next ctx env attempt again r).1)
          × (calls (after_run sleep p next ctx env attempt again r).1 ≤ calls r.1 + n)
    after_run_calls n attempt again (none, w) bound = omega arith
    after_run_calls n attempt again (some err, w) bound =
        after_error_calls n attempt err again w bound

    loop-AtMost :
        (rounds attempt : ℕ) → AtMost rounds (retry_loop sleep p next ctx env rounds attempt)
    unfolding retry_loop
    loop-AtMost zero attempt w = omega arith
    loop-AtMost (suc rounds) attempt w = omega (
      arith,
      counts w,
      after_run_calls rounds attempt (retry_loop sleep p next ctx env rounds (suc attempt))
          (next ctx env w) (loop-AtMost rounds (suc attempt)),
    )

    loop_runs :
        (rounds attempt : ℕ) (w : World T)
        → calls w + 1 ≤ calls (retry_loop sleep p next ctx env (suc rounds) attempt w).1
    unfolding retry_loop
    loop_runs rounds attempt w = omega (
      arith,
      counts w,
      after_run_calls rounds attempt (retry_loop sleep p next ctx env rounds (suc attempt))
          (next ctx env w) (loop-AtMost rounds (suc attempt)),
    )

  -- The attempts of a policy, 3 where the field is below 1.
  with_defaults_attempts : (p : RetryPolicy T) → (n : ℕ) × ((with_defaults p).attempts ≡ suc n)
  unfolding with_defaults
  with_defaults_attempts p = elim (Bool-cases (ltb p.attempts 1)) [
    | inl low ↦ (2, rw low)
    | inr fine ↦ (p.attempts - 1, ground arith)
  ]

  -- Retry runs the handler at least once and at most as often as the policy's attempts, whatever the
  -- handler returns, when nothing but the handler counts as a call.
  pub retry_calls :
      (p : RetryPolicy T) (next : HandlerFunc T) (ctx : Context) (env : Envelope)
      (calls : World T → ℕ) (w : World T)
      → ((v : World T) → calls (next ctx env v).1 ≡ suc (calls v))
      → ((d : Duration) (v : World T) → calls (sleep ctx d v).1 ≡ calls v)
      → ((n : ℕ) (e : Error) (v : World T)
          → calls ((with_defaults p).exhausted ctx env n e v).1 ≡ calls v)
      → (calls w + 1 ≤ calls (retry sleep p next ctx env w).1)
        × (calls (retry sleep p next ctx env w).1 ≤ calls w + (with_defaults p).attempts)
  unfolding retry
  retry_calls p next ctx env calls w counts sleeps ends =
      let (n, some_rounds) = with_defaults_attempts p in
      (
        subst (λ k. calls w + 1 ≤ calls (retry_loop sleep (with_defaults p) next ctx env k 1 w).1)
            (sym some_rounds)
            (loop_runs (with_defaults p) next ctx env calls counts sleeps ends n 1 w),
        (loop-AtMost (with_defaults p) next ctx env calls counts sleeps ends
            (with_defaults p).attempts 1 w).1,
      )

  module _ (p : FullPolicy T) (next : HandlerFunc T) (ctx : Context) (env : Envelope)
      (kept : (n : ℕ) (e : Error) (w : World T) → (p.exhausted ctx env n e w).0 ≢ none) where
    waited_ok :
        (w' : World T) (err : Error) (again : World T → Option Error × World T)
        (r : Option Error × World T)
        → after_wait sleep p next ctx env err again r ≡ (none, w')
        → (v : World T) × (again v ≡ (none, w'))
    waited_ok w' err again (none, v) done = (v, done)
    waited_ok w' err again (some e, v) done =
        (let bad : ◌≡◌ {A = Option Error} (some (join_errors err e)) none = ap (λ s. s.0) done in
          cc)

    failed_ok :
        (attempt : ℕ) (w w' : World T) (err : Error) (again : World T → Option Error × World T)
        → after_error sleep p next ctx env attempt err again w ≡ (none, w')
        → (attempt ≢ p.attempts) × (v : World T) × (again v ≡ (none, w'))
    failed_ok attempt w w' err again done = elim (Bool-cases (p.retryable err)) [
      | inr fatal ↦
          (let bad : ◌≡◌ {A = Option Error} (some err) none =
              ap (λ s. s.0) (rw (fatal, after_error) at done) in
            cc)
      | inl retried ↦ elim (Bool-cases (attempt == p.attempts)) [
        | inl last ↦
            absurd (kept p.attempts err w (ap (λ s. s.0) (rw (retried, last, after_error) at done)))
        | inr more ↦
            let (v, again_done) =
              waited_ok w' err again (wait sleep ctx (p.backoff attempt) w)
                (rw (retried, more, after_error) at done) in
            (λ same. ground arith, v, again_done)
      ]
    ]

    run_ok :
        (attempt : ℕ) (w w' : World T) (again : World T → Option Error × World T)
        (r : Option Error × World T)
        → next ctx env w ≡ r
        → after_run sleep p next ctx env attempt again r ≡ (none, w')
        → (attempt ≢ p.attempts
            → (v : World T) → again v ≡ (none, w')
            → (u : World T) × (next ctx env u ≡ (none, w')))
        → (u : World T) × (next ctx env u ≡ (none, w'))
    run_ok attempt w w' again (none, v) ran done later = (w, ran ∙ done)
    run_ok attempt w w' again (some err, v) ran done later =
        let (more, u, again_done) = failed_ok attempt v w' err again done in later more u again_done

    -- A loop with the rounds that are left does not report success by running out.
    loop_ok :
        (rounds attempt : ℕ) (w w' : World T)
        → attempt + rounds ≡ p.attempts
        → retry_loop sleep p next ctx env (suc rounds) attempt w ≡ (none, w')
        → (v : World T) × (next ctx env v ≡ (none, w'))
    unfolding retry_loop
    loop_ok zero attempt w w' h done =
        run_ok attempt w w' (retry_loop sleep p next ctx env zero (suc attempt)) (next ctx env w)
          refl done (λ more v _. absurd (more (omega arith)))
    loop_ok (suc rounds) attempt w w' h done =
        run_ok attempt w w' (retry_loop sleep p next ctx env (suc rounds) (suc attempt))
          (next ctx env w) refl done
          (λ more v again. loop_ok rounds (suc attempt) v w' (omega arith) again)

  -- Under the default action, and any other that always keeps an error, Retry acknowledges an event
  -- only if a run of the handler returned no error, and then returns at once.
  pub retry_ok :
      (p : RetryPolicy T) (next : HandlerFunc T) (ctx : Context) (env : Envelope) (w w' : World T)
      → ((n : ℕ) (e : Error) (v : World T) → ((with_defaults p).exhausted ctx env n e v).0 ≢ none)
      → retry sleep p next ctx env w ≡ (none, w')
      → (v : World T) × (next ctx env v ≡ (none, w'))
  unfolding retry
  retry_ok p next ctx env w w' kept done =
      let (n, some_rounds) = with_defaults_attempts p in
      loop_ok (with_defaults p) next ctx env kept n 1 w w' (omega arith) (
        subst (λ k. retry_loop sleep (with_defaults p) next ctx env k 1 w ≡ (none, w')) some_rounds
          done)

  -- An error that is not worth a retry goes back at once, after one run of the handler.
  pub retry_fatal :
      (p : RetryPolicy T) (next : HandlerFunc T) (ctx : Context) (env : Envelope) (w w' : World T)
      (err : Error)
      → next ctx env w ≡ (some err, w')
      → (with_defaults p).retryable err ≡ false
      → retry sleep p next ctx env w ≡ (some err, w')
  unfolding retry retry_loop
  retry_fatal p next ctx env w w' err ran fatal =
      let (n, some_rounds) = with_defaults_attempts p in
      subst (λ k. retry_loop sleep (with_defaults p) next ctx env k 1 w ≡ (some err, w'))
        (sym some_rounds) (rw (ran, fatal, after_run, after_error))
