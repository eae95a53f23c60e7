-- ===== src/Events/Sqs/Polling.antt =====
-- The accounts of a poll, and when Receive returns.
use dfl.Base.{
  ℕ, zero, suc, ◌+◌, ◌≤◌, ◌≡◌, refl, ap, ◌∙◌, String, List, [], ◌∷◌, Option, none, some, length,
  arith,
}
use dfl.GoErrors.{Error, Result, ok, failed, error_text}
use dfl.Events.Wire.{Envelope, Context, World, LogEntry, log_entry}
use dfl.Events.Headers.{HeaderJson}
use dfl.Events.Dispatcher.{dispatch}
use dfl.Events.Retry.{Duration}
use dfl.Events.Sqs.{
  Message, Api, ReceiveMessageInput, Sink, Poll, empty_poll, log, after_delete, after_dispatch,
  handle, unless_ended, handle_all, after_receive, receive_once, after_sleep, after_failure,
  after_poll, receive, envelope_of,
}

module _ {T : Type 0} (json : HeaderJson) (api : Api T) (s : Sink T) (ctx : Context)
    (ctx_err : World T → Option Error) where
  module _ (deletes : World T → ℕ)
      (counts : (q : String) (r : Option String) (w : World T)
        → deletes (api.delete_message q r w).1 ≡ suc (deletes w))
      (runs : (c : Context) (env : Envelope) (w : World T)
        → deletes (dispatch s.dispatcher c env w).1 ≡ deletes w)
      (logs : (l : LogEntry) (w : World T) → deletes (log_entry l w) ≡ deletes w)
      (receives : (i : ReceiveMessageInput) (w : World T)
        → deletes (api.receive_message i w).1 ≡ deletes w) where
    -- What `n` messages add to a poll, with the deletes before and after.
    record Adds (n : ℕ) (p p' : Poll) (d d' : ℕ) : Type 0 where
      received_same : p'.received ≡ p.received
      dispatched : p'.handled + p'.failures ≡ n + (p.handled + p.failures)
      undeleted_within : p'.undeleted + p.handled ≤ p.undeleted + p'.handled
      deleted : d' + p.handled ≡ d + p'.handled

    logged :
        (message event err : String) (w : World T)
        → deletes (log json api s message event err w) ≡ deletes w
    logged message event err w =
        logs
          (record {
            logger = s.logger;
            message = message;
            event = event;
            attempts = 0;
            action = err;
          })
          w

    delete-Adds :
        (name : String) (p : Poll) (d : ℕ) (r : Option Error × World T)
        → deletes r.1 ≡ suc d
        → let out = after_delete json api s name (record p { handled = suc p.handled }) r in
          Adds 1 p out.0 d (deletes out.1)
    delete-Adds name p d (none, w) h = ground arith
    delete-Adds name p d (some err, w) h =
        ground (arith, logged "sqs: delete failed" name (error_text err) w)

    dispatch-Adds :
        (m : Message) (name : String) (p : Poll) (d : ℕ) (r : Option Error × World T)
        → deletes r.1 ≡ d
        → let out = after_dispatch json api s m name p r in Adds 1 p out.0 d (deletes out.1)
    dispatch-Adds m name p d (some err, w) h =
        ground (arith, logged "sqs: handler failed, leaving for redelivery" name (error_text err) w)
    dispatch-Adds m name p d (none, w) h =
        delete-Adds name p d (api.delete_message s.queue_url m.receipt w)
          (counts s.queue_url m.receipt w ∙ ap suc h)

    handle-Adds :
        (m : Message) (p : Poll) (w : World T)
        → Adds 1 p
            (handle json api s ctx ctx_err m p w).0
            (deletes w)
            (deletes (handle json api s ctx ctx_err m p w).1)
    unfolding handle
    handle-Adds m p w =
        dispatch-Adds m (envelope_of json m).name p (deletes w)
          (dispatch s.dispatcher (record ctx { err = ctx_err w }) (envelope_of json m) w)
          (runs (record ctx { err = ctx_err w }) (envelope_of json m) w)

    -- The accounts after a batch of `n` messages: all of them, unless the context ended.
    record Batch (n : ℕ) (p : Poll) (d : ℕ) (out : (Poll × Option Error) × World T) : Type 0 where
      count : ℕ
      adds : Adds count p out.0.0 d (deletes out.1)
      within : count ≤ n
      all : out.0.1 ≡ none → count ≡ n

    unless_ended-Batch :
        (e : Option Error) (n : ℕ) (p : Poll) (w : World T) (rest : (Poll × Option Error) × World T)
        → Batch n p (deletes w) rest
        → Batch n p (deletes w) (unless_ended json api s ctx ctx_err e p w rest)
    unless_ended-Batch none n p w rest b = b
    unless_ended-Batch (some err) n p w rest b = record {
      count = 0;
      adds = omega arith;
      within = omega arith;
      all = λ h. cc;
    }

    one_more-Batch :
        (n : ℕ) (p p' : Poll) (d d' : ℕ) (out : (Poll × Option Error) × World T)
        → Adds 1 p p' d d'
        → Batch n p' d' out
        → Batch (suc n) p d out
    one_more-Batch n p p' d d' out a b = record {
      count = suc b.count;
      adds =
          omega (
            arith, b.adds.received_same, b.adds.dispatched, b.adds.undeleted_within, b.adds.deleted,
          );
      within = omega (arith, b.within);
      all = λ h. ap suc (b.all h);
    }

    handle_all-Batch :
        (ms : List Message) (p : Poll) (w : World T)
        → Batch (length ms) p (deletes w) (handle_all json api s ctx ctx_err ms p w)
    unfolding handle_all
    handle_all-Batch [] p w = record {
      count = 0;
      adds = omega arith;
      within = omega arith;
      all = λ h. refl;
    }
    handle_all-Batch (m ∷ ms) p w = unless_ended-Batch (ctx_err w) (suc (length ms)) p w _ (
        one_more-Batch (length ms) p (handle json api s ctx ctx_err m p w).0 (deletes w)
          (deletes (handle json api s ctx ctx_err m p w).1) _ (handle-Adds m p w)
          (handle_all-Batch ms (handle json api s ctx ctx_err m p w).0
            (handle json api s ctx ctx_err m p w).1))

    -- What a poll's accounts say, with the deletes before.
    pub record IsBalanced (d : ℕ) (out : (Poll × Option Error) × World T) : Type 0 where
      pub dispatched_within : out.0.0.handled + out.0.0.failures ≤ out.0.0.received
      pub all_dispatched : out.0.1 ≡ none → out.0.0.handled + out.0.0.failures ≡ out.0.0.received
      pub undeleted_within : out.0.0.undeleted ≤ out.0.0.handled
      pub each_deleted : deletes out.1 ≡ d + out.0.0.handled

    after_receive-IsBalanced :
        (d : ℕ) (r : Result (List Message) × World T)
        → deletes r.1 ≡ d
        → IsBalanced d (after_receive json api s ctx ctx_err r)
    after_receive-IsBalanced d (failed err, w) h = record {
      dispatched_within = omega arith;
      all_dispatched = λ k. cc;
      undeleted_within = omega arith;
      each_deleted = omega arith;
    }
    after_receive-IsBalanced d (ok ms, w) h =
        let b = handle_all-Batch ms (record empty_poll { received = length ms }) w in
        record {
          dispatched_within = omega (arith, b.adds.received_same, b.adds.dispatched, b.within);
          all_dispatched = λ k. omega (arith, b.adds.received_same, b.adds.dispatched, b.all k);
          undeleted_within = omega (arith, b.adds.undeleted_within);
          each_deleted = omega (arith, b.adds.deleted, h);
        }

    -- When only the delete call counts as a delete, ReceiveOnce deletes as many messages as it counts
    -- as handled. Handled and failed messages are at most the received ones, and all of them when
    -- there is no error; undeleted messages are among the handled ones.
    pub receive_once-IsBalanced :
        (w : World T) → IsBalanced (deletes w) (receive_once json api s ctx ctx_err w)
    unfolding receive_once
    receive_once-IsBalanced w = go (ctx_err w)
      where
        polled : (Poll × Option Error) × World T
        polled = after_receive json api s ctx ctx_err (
            api.receive_message
              (record { queue_url = s.queue_url; batch = s.batch; wait_secs = s.wait_secs }) w)

        go :
            (e : Option Error)
            → IsBalanced (deletes w) (unless_ended json api s ctx ctx_err e empty_poll w polled)
        go none = after_receive-IsBalanced (deletes w) _ (receives _ w)
        go (some err) = record {
          dispatched_within = omega arith;
          all_dispatched = λ k. cc;
          undeleted_within = omega arith;
          each_deleted = omega arith;
        }

  module _ (sleep : Context → Duration → World T → Option Error × World T) where
    -- An error that comes back is the error of the context as it is then.
    abbrev pub IsCtxErr : Option Error × World T → Type 0
    IsCtxErr r = (e : Error) → r.0 ≡ some e → ctx_err r.1 ≡ some e

    module _ (waits : (d : Duration) (w : World T) → IsCtxErr (sleep ctx d w)) where
      after_sleep-IsCtxErr :
          (again : World T → Option Error × World T) (r : Option Error × World T)
          → ((w : World T) → IsCtxErr (again w))
          → IsCtxErr r
          → IsCtxErr (after_sleep json api s ctx ctx_err sleep again r)
      after_sleep-IsCtxErr again (none, w) next h = next w
      after_sleep-IsCtxErr again (some err, w) next h = h

      after_failure-IsCtxErr :
          (failures : ℕ) (again : ℕ → World T → Option Error × World T) (err : Error)
          (o : Option Error) (w : World T)
          → ctx_err w ≡ o
          → ((k : ℕ) (v : World T) → IsCtxErr (again k v))
          → IsCtxErr (after_failure json api s ctx ctx_err sleep failures again err o w)
      after_failure-IsCtxErr failures again err none w now next =
          after_sleep-IsCtxErr (again (suc failures)) _ (next (suc failures)) (waits _ _)
      after_failure-IsCtxErr failures again err (some e) w now next = λ e' same. now ∙ same

      after_poll-IsCtxErr :
          (failures : ℕ) (again : ℕ → World T → Option Error × World T)
          (out : (Poll × Option Error) × World T)
          → ((k : ℕ) (v : World T) → IsCtxErr (again k v))
          → IsCtxErr (after_poll json api s ctx ctx_err sleep failures again out)
      after_poll-IsCtxErr failures again ((p, none), w) next = next 0 w
      after_poll-IsCtxErr failures again ((p, some err), w) next =
          after_failure-IsCtxErr failures again err (ctx_err w) w refl next

      -- However many rounds it runs, Receive returns nothing but the error of its context once that
      -- has ended, when the wait between polls returns nothing else.
      pub receive-IsCtxErr :
          (rounds failures : ℕ) (w : World T)
          → IsCtxErr (receive json api s ctx ctx_err sleep rounds failures w)
      unfolding receive
      receive-IsCtxErr zero failures w = λ e h. cc
      receive-IsCtxErr (suc rounds) failures w =
          after_poll-IsCtxErr failures (receive json api s ctx ctx_err sleep rounds)
            (receive_once json api s ctx ctx_err w) (receive-IsCtxErr rounds)

    -- Once the context has ended Receive returns its error in its next round, without a call of the
    -- queue, a delivery or a log.
    pub receive_ended :
        (rounds failures : ℕ) (w : World T) (e : Error)
        → ctx_err w ≡ some e
        → receive json api s ctx ctx_err sleep (suc rounds) failures w ≡ (some e, w)
    unfolding receive receive_once
    receive_ended rounds failures w e now = rw (now, unless_ended) (rw (now, after_failure) refl)
