-- ===== src/Events/Retry.antt =====
-- events/retry.go: retrying a handler. A time.Duration is its 64-bit pattern. The wait for a timer
-- or the end of the context is the parameter `sleep`, which gives ctx.Err() if the context ends.
pub mod Loop
pub mod Backoff
use dfl.Base.{
  ℕ, zero, suc, ◌+◌, ◌-◌, ◌*◌, ◌%◌, ◌^◌, String, Bool, true, false, not, ◌||◌, List, [], ◌∷◌,
  Option, none, some, if◌then◌else◌, ltb, ◌==◌, is_none,
}
use dfl.GoErrors.{Error, join_errors}
use dfl.Events.EventError.{is_not_found}
use dfl.Events.Wire.{Envelope, Context, World, HandlerFunc, Middleware, log_entry}

abbrev pub Duration : Type 0
Duration = ℕ

-- `d <= 0` on the pattern.
abbrev pub not_positive : Duration → Bool
not_positive d = d == 0 || not (ltb d (2 ^ 63))

abbrev pub max_backoff_doublings : ℕ
max_backoff_doublings = 16

abbrev pub default_attempts : ℕ
default_attempts = 3

-- 50 ms, in nanoseconds.
abbrev pub default_backoff_base : Duration
default_backoff_base = 50000000

-- `attempt` after the two tests of ExponentialBackoff.
abbrev pub clamp_attempt : ℕ → ℕ
clamp_attempt attempt =
    let a = if ltb attempt 1 then 1 else attempt in
    if ltb max_backoff_doublings a then max_backoff_doublings else a

-- ExponentialBackoff
unfoldable pub exponential_backoff : Duration → ℕ → Duration
exponential_backoff base attempt = base * 2 ^ (clamp_attempt attempt - 1) % 2 ^ 64

-- FixedBackoff
unfoldable pub fixed_backoff : Duration → ℕ → Duration
fixed_backoff d attempt = d

-- A field that may be nil, and its default.
abbrev pub or_default {ℓ} : {A : Type ℓ} → Option A → A → A
or_default none d = d
or_default (some a) d = a

module _ (T : Type 0) where
  abbrev pub ExhaustedFunc : Type 0
  ExhaustedFunc = Context → Envelope → ℕ → Error → World T → Option Error × World T

  pub record RetryPolicy : Type 0 where
    pub attempts : ℕ
    pub backoff : Option (ℕ → Duration)
    pub retryable : Option (Error → Bool)
    pub exhausted : Option ExhaustedFunc

  -- A policy after withDefaults.
  pub record FullPolicy : Type 0 where
    pub attempts : ℕ
    pub backoff : ℕ → Duration
    pub retryable : Error → Bool
    pub exhausted : ExhaustedFunc

module _ {T : Type 0} where
  -- logExhausted
  unfoldable pub log_exhausted : Context → Envelope → ℕ → String → World T → World T
  log_exhausted ctx env attempts action w =
      log_entry
        (record {
          logger = ctx.logger;
          message = "events: retries exhausted";
          event = env.name;
          attempts = attempts;
          action = action;
        })
        w

  -- Nack
  unfoldable pub nack : ExhaustedFunc T
  nack ctx env attempts err w = (some err, log_exhausted ctx env attempts "nack" w)

  -- Drop
  unfoldable pub drop : ExhaustedFunc T
  drop ctx env attempts err w = (none, log_exhausted ctx env attempts "drop" w)

  -- What DeadLetter returns for the result of parking.
  abbrev pub parked : Error → Option Error × World T → Option Error × World T
  parked err (none, w) = (none, w)
  parked err (some park_err, w) = (some (join_errors err park_err), w)

  -- DeadLetter
  unfoldable pub dead_letter :
      (Context → Envelope → Error → World T → Option Error × World T) → ExhaustedFunc T
  dead_letter park ctx env attempts err w =
      parked err (park ctx env err (log_exhausted ctx env attempts "dead_letter" w))

  -- withDefaults
  unfoldable pub with_defaults : RetryPolicy T → FullPolicy T
  with_defaults p = record {
    attempts = if ltb p.attempts 1 then default_attempts else p.attempts;
    backoff = or_default p.backoff (exponential_backoff default_backoff_base);
    retryable = or_default p.retryable is_not_found;
    exhausted = or_default p.exhausted nack;
  }

  module _ (sleep : Context → Duration → World T → Option Error × World T) where
    -- wait
    unfoldable pub wait : Context → Duration → World T → Option Error × World T
    wait ctx d w = let slept = sleep ctx d w in if not_positive d then (none, w) else slept

    module _ (p : FullPolicy T) (next : HandlerFunc T) (ctx : Context) (env : Envelope) where
      -- The end of a round after a wait: the loop goes on, or the wait's error is joined.
      abbrev pub after_wait :
          Error
          → (World T → Option Error × World T)
          → Option Error × World T
          → Option Error × World T
      after_wait err again (none, w) = again w
      after_wait err again (some wait_err, w) = (some (join_errors err wait_err), w)

      -- A round after the handler's error.
      abbrev pub after_error :
          ℕ → Error → (World T → Option Error × World T) → World T → Option Error × World T
      after_error attempt err again w =
          let stop : Option Error × World T = (some err, w) in
          let last = p.exhausted ctx env p.attempts err w in
          let more = after_wait err again (wait ctx (p.backoff attempt) w) in
          if not (p.retryable err) then stop else if attempt == p.attempts then last else more

      abbrev pub after_run :
          ℕ → (World T → Option Error × World T) → Option Error × World T → Option Error × World T
      after_run attempt again (none, w) = (none, w)
      after_run attempt again (some err, w) = after_error attempt err again w

      -- The loop at `attempt`, with the rounds that are left. The break is at the last attempt, so
      -- with attempts at least 1 the rounds never run out: that end is not reached.
      unfoldable pub retry_loop : ℕ → ℕ → World T → Option Error × World T
      retry_loop zero attempt w = (none, w)
      retry_loop (suc rounds) attempt w =
          after_run attempt (retry_loop rounds (suc attempt)) (next ctx env w)

    -- Retry
    unfoldable pub retry : RetryPolicy T → Middleware T
    retry p next ctx env w = let q = with_defaults p in retry_loop q next ctx env q.attempts 1 w
