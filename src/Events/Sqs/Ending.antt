-- ===== src/Events/Sqs/Ending.antt =====
-- How long Receive can run.
use dfl.Base.{
  ℕ, zero, suc, ◌+◌, ◌≤◌, ◌<◌, ◌≡◌, refl, ap, String, List, [], ◌∷◌, Option, none, some,
  Option-cases, inl, inr, arith,
}
use dfl.GoErrors.{Error, Result, ok, failed, error_text}
use dfl.Events.Wire.{Envelope, Context, World, LogEntry, log_entry}
use dfl.Events.Headers.{HeaderJson}
use dfl.Events.Dispatcher.{dispatch}
use dfl.Events.Retry.{Duration}
use dfl.Events.Sqs.{
  Message, Api, ReceiveMessageInput, Sink, Poll, log, after_delete, after_dispatch, handle,
  unless_ended, handle_all, after_receive, receive_once, after_sleep, after_failure, after_poll,
  receive, envelope_of, backoff_of,
}
use dfl.Events.Sqs.Polling.{receive_ended}

-- A clock on the world: it never goes back, and each call of the queue for messages moves it on.
pub record IsClock {T : Type 0} (api : Api T) (s : Sink T)
    (sleep : Context → Duration → World T → Option Error × World T) (clock : World T → ℕ)
    : Type 0 where
  pub receives :
      (i : ReceiveMessageInput) (w : World T) → clock w < clock (api.receive_message i w).1
  pub deletes :
      (q : String) (r : Option String) (w : World T) → clock w ≤ clock (api.delete_message q r w).1
  pub dispatches :
      (c : Context) (env : Envelope) (w : World T)
      → clock w ≤ clock (dispatch s.dispatcher c env w).1
  pub logs : (l : LogEntry) (w : World T) → clock w ≤ clock (log_entry l w)
  pub sleeps : (c : Context) (d : Duration) (w : World T) → clock w ≤ clock (sleep c d w).1

module _ {T : Type 0} (json : HeaderJson) (api : Api T) (s : Sink T) (ctx : Context)
    (ctx_err : World T → Option Error)
    (sleep : Context → Duration → World T → Option Error × World T) (clock : World T → ℕ)
    (ticks : IsClock api s sleep clock) where
  log-clock :
      (message event err : String) (w : World T)
      → clock w ≤ clock (log json api s message event err w)
  log-clock message event err w =
      ticks.logs
        (record { logger = s.logger; message = message; event = event; attempts = 0; action = err })
        w

  delete-clock :
      (name : String) (p : Poll) (r : Option Error × World T)
      → clock r.1 ≤ clock (after_delete json api s name p r).1
  delete-clock name p (none, w) = omega arith
  delete-clock name p (some err, w) = log-clock "sqs: delete failed" name (error_text err) w

  dispatch-clock :
      (m : Message) (name : String) (p : Poll) (r : Option Error × World T)
      → clock r.1 ≤ clock (after_dispatch json api s m name p r).1
  dispatch-clock m name p (some err, w) =
      log-clock "sqs: handler failed, leaving for redelivery" name (error_text err) w
  dispatch-clock m name p (none, w) = omega (
    arith,
    ticks.deletes s.queue_url m.receipt w,
    delete-clock name (record p { handled = suc p.handled })
        (api.delete_message s.queue_url m.receipt w),
  )

  handle-clock :
      (m : Message) (p : Poll) (w : World T)
      → clock w ≤ clock (handle json api s ctx ctx_err m p w).1
  unfolding handle
  handle-clock m p w =
      let c = record ctx { err = ctx_err w } in
      omega (
        arith,
        ticks.dispatches c (envelope_of json m) w,
        dispatch-clock m (envelope_of json m).name p
            (dispatch s.dispatcher c (envelope_of json m) w),
      )

  unless_ended-clock :
      (e : Option Error) (p : Poll) (w : World T) (rest : (Poll × Option Error) × World T)
      → clock w ≤ clock rest.1
      → clock w ≤ clock (unless_ended json api s ctx ctx_err e p w rest).1
  unless_ended-clock none p w rest h = h
  unless_ended-clock (some err) p w rest h = omega arith

  handle_all-clock :
      (ms : List Message) (p : Poll) (w : World T)
      → clock w ≤ clock (handle_all json api s ctx ctx_err ms p w).1
  unfolding handle_all
  handle_all-clock [] p w = omega arith
  handle_all-clock (m ∷ ms) p w =
      let (p', w') = handle json api s ctx ctx_err m p w in
      unless_ended-clock (ctx_err w) p w (handle_all json api s ctx ctx_err ms p' w')
        (omega (arith, handle-clock m p w, handle_all-clock ms p' w'))

  after_receive-clock :
      (r : Result (List Message) × World T)
      → clock r.1 ≤ clock (after_receive json api s ctx ctx_err r).1
  after_receive-clock (failed err, w) = omega arith
  after_receive-clock (ok ms, w) = handle_all-clock ms _ w

  receive_once-clock :
      (w : World T) → ctx_err w ≡ none → clock w < clock (receive_once json api s ctx ctx_err w).1
  unfolding receive_once
  receive_once-clock w live =
      let i : ReceiveMessageInput = record {
        queue_url = s.queue_url;
        batch = s.batch;
        wait_secs = s.wait_secs;
      } in
      rw live (omega (arith, ticks.receives i w, after_receive-clock (api.receive_message i w)))

  abbrev Returns : Option Error × World T → Type 0
  Returns r = (e : Error) × (r.0 ≡ some e)

  module _ (limit : ℕ) (again : ℕ → World T → Option Error × World T) (w : World T)
      (next : (k : ℕ) (v : World T) → clock w < clock v → Returns (again k v)) where
    after_sleep-Returns :
        (k : ℕ) (r : Option Error × World T)
        → clock w < clock r.1
        → Returns (after_sleep json api s ctx ctx_err sleep (again k) r)
    after_sleep-Returns k (none, v) h = next k v h
    after_sleep-Returns k (some err, v) h = (err, refl)

    after_failure-Returns :
        (failures : ℕ) (err : Error) (o : Option Error) (v : World T)
        → clock w < clock v
        → Returns (after_failure json api s ctx ctx_err sleep failures again err o v)
    after_failure-Returns failures err (some e) v h = (e, refl)
    after_failure-Returns failures err none v h =
        let logged = log json api s "sqs: receive failed" "" (error_text err) v in
        let pause = backoff_of s (suc failures) in
        after_sleep-Returns (suc failures) (sleep ctx pause logged) (
          omega (
            arith,
            h,
            log-clock "sqs: receive failed" "" (error_text err) v,
            ticks.sleeps ctx pause logged,
          ))

    after_poll-Returns :
        (failures : ℕ) (out : (Poll × Option Error) × World T)
        → clock w < clock out.1
        → Returns (after_poll json api s ctx ctx_err sleep failures again out)
    after_poll-Returns failures ((p, none), v) h = next 0 v h
    after_poll-Returns failures ((p, some err), v) h =
        after_failure-Returns failures err (ctx_err v) v h

  -- On a clock that never goes back and that each call for messages moves on, when the context
  -- has ended as soon as the clock reaches a limit, Receive returns, with an error, after one
  -- round more than the clock still has to go, however its polls and its handlers end.
  pub receive_returns :
      (limit : ℕ)
      → ((w : World T) → limit ≤ clock w → (e : Error) × (ctx_err w ≡ some e))
      → (rounds failures : ℕ) (w : World T) → limit ≤ rounds + clock w
      → (e : Error) × ((receive json api s ctx ctx_err sleep (suc rounds) failures w).0 ≡ some e)
  unfolding receive
  receive_returns limit ends zero failures w h =
      let (e, now) = ends w (omega (arith, h)) in
      (e, ap (λ r. r.0) (receive_ended json api s ctx ctx_err sleep 0 failures w e now))
  receive_returns limit ends (suc rounds) failures w h = elim (Option-cases (ctx_err w)) [
    | inr (e, now) ↦ (
      e,
      ap (λ r. r.0) (receive_ended json api s ctx ctx_err sleep (suc rounds) failures w e now),
    )
    | inl live ↦
        after_poll-Returns limit (receive json api s ctx ctx_err sleep (suc rounds)) w
          (λ k v later. receive_returns limit ends rounds k v (omega (arith, h, later))) failures
          (receive_once json api s ctx ctx_err w) (receive_once-clock w live)
  ]
