-- ===== src/Events/Sqs.antt =====
-- events/aws/sqs/sqs.go: the sink over an SQS queue. The calls of the SQS client are the parameter
-- `api`, over the world that the handlers share. The caller's context ends at some point of a run:
-- ctx.Err() as of now is the parameter `ctx_err`.
pub mod Polling
pub mod Transport
pub mod Ending
mod Tests
use dfl.Base.{
  or_empty, ℕ, zero, suc, ◌+◌, String, List, [], ◌∷◌, Option, none, some, lookup, insert, length,
  min, str_eq, if◌then◌else◌,
}
use dfl.GoErrors.{Error, Result, ok, failed, text, error_text}
use dfl.Events.EventError.{to_error, wrap}
use dfl.Events.Wire.{Envelope, Context, World, log_entry}
use dfl.Events.Dispatcher.{Dispatcher, new_dispatcher, dispatch}
use dfl.Events.Retry.{Duration, exponential_backoff, or_default}
use dfl.Events.Headers.{HeaderJson, marshal_headers, unmarshal_headers}

-- types.Message: a nil StringValue, Body or ReceiptHandle is `none`.
pub record Message : Type 0 where
  pub attributes : List (String × Option String)
  pub body : Option String
  pub receipt : Option String

pub record SendMessageInput : Type 0 where
  pub queue_url : String
  pub body : String
  pub attributes : List (String × Option String)

pub record ReceiveMessageInput : Type 0 where
  pub queue_url : String
  pub batch : ℕ
  pub wait_secs : ℕ

module _ (T : Type 0) where
  pub record Api : Type 0 where
    pub send_message : SendMessageInput → World T → Option Error × World T
    pub receive_message : ReceiveMessageInput → World T → Result (List Message) × World T
    pub delete_message : String → Option String → World T → Option Error × World T

  pub record Sink : Type 0 where
    pub dispatcher : Dispatcher T
    pub queue_url : String
    pub wait_secs : ℕ
    pub batch : ℕ
    pub logger : Option ℕ
    pub backoff : Option (ℕ → Duration)

pub record Poll : Type 0 where
  pub received : ℕ
  pub handled : ℕ
  pub failures : ℕ
  pub undeleted : ℕ

abbrev pub empty_poll : Poll
empty_poll = record { received = 0; handled = 0; failures = 0; undeleted = 0 }

abbrev pub backoff_base : Duration
backoff_base = 1000000000

abbrev pub backoff_ceiling : Duration
backoff_ceiling = 30000000000

-- defaultBackoff
unfoldable pub default_backoff : ℕ → Duration
default_backoff attempt = min (exponential_backoff backoff_base attempt) backoff_ceiling

module _ {T : Type 0} where
  -- WithLongPoll, WithBatchSize, WithLogger and WithBackoff
  unfoldable pub with_long_poll : ℕ → Sink T → Sink T
  with_long_poll seconds s = record s { wait_secs = seconds }

  unfoldable pub with_batch_size : ℕ → Sink T → Sink T
  with_batch_size n s = record s { batch = n }

  unfoldable pub with_logger : ℕ → Sink T → Sink T
  with_logger l s = record s { logger = some l }

  unfoldable pub with_backoff : (ℕ → Duration) → Sink T → Sink T
  with_backoff backoff s = record s { backoff = some backoff }

  unfoldable pub apply_options : List (Sink T → Sink T) → Sink T → Sink T
  apply_options [] s = s
  apply_options (opt ∷ opts) s = apply_options opts (opt s)

  -- NewSink, up to the default of the backoff, which is filled in where it is read.
  unfoldable pub new_sink : String → List (Sink T → Sink T) → Sink T
  new_sink queue_url opts = apply_options opts (record {
    dispatcher = new_dispatcher;
    queue_url = queue_url;
    wait_secs = 20;
    batch = 10;
    logger = none;
    backoff = none;
  })

  unfoldable pub backoff_of : Sink T → ℕ → Duration
  backoff_of s = or_default s.backoff default_backoff

module _ (json : HeaderJson) where
  -- The attributes that Publish sends.
  unfoldable pub attributes_of : Envelope → List (String × Option String)
  attributes_of env =
      let h = marshal_headers json env.headers in
      let attrs = ("event", some env.name) ∷ [] in
      if str_eq h "" then attrs else insert "headers" (some h) attrs

  -- The text of an attribute: a missing attribute and a nil value are both `none`.
  abbrev pub value_of : Option (Option String) → Option String
  value_of none = none
  value_of (some v) = v

  abbrev pub headers_of : Option String → List (String × String)
  headers_of none = []
  headers_of (some h) = unmarshal_headers json h

  -- The envelope that handle makes of a message.
  unfoldable pub envelope_of : Message → Envelope
  envelope_of m = record {
    name = or_empty (value_of (lookup "event" m.attributes));
    payload = or_empty m.body;
    headers = headers_of (value_of (lookup "headers" m.attributes));
  }

  module _ {T : Type 0} (api : Api T) (s : Sink T) where
    abbrev pub after_send : Envelope → Option Error × World T → Option Error × World T
    after_send env (none, w) = (none, w)
    after_send env (some err, w) =
        (some (to_error (wrap err "publish_failed" (("event", text env.name) ∷ []) [])), w)

    -- What Publish sends for an envelope.
    unfoldable pub input_of : Envelope → SendMessageInput
    input_of env = record {
      queue_url = s.queue_url;
      body = env.payload;
      attributes = attributes_of env;
    }

    -- Publish
    unfoldable pub publish : Envelope → World T → Option Error × World T
    publish env w = after_send env (api.send_message (input_of env) w)

    abbrev pub log : String → String → String → World T → World T
    log message event err w =
        log_entry
          (record {
            logger = s.logger;
            message = message;
            event = event;
            attempts = 0;
            action = err;
          })
          w

    -- The end of handle, after the delete.
    abbrev pub after_delete : String → Poll → Option Error × World T → Poll × World T
    after_delete name p (none, w) = (p, w)
    after_delete name p (some err, w) =
        (record p { undeleted = suc p.undeleted }, log "sqs: delete failed" name (error_text err) w)

    -- handle, after the dispatch.
    abbrev pub after_dispatch : Message → String → Poll → Option Error × World T → Poll × World T
    after_dispatch m name p (some err, w) = (
      record p { failures = suc p.failures },
      log "sqs: handler failed, leaving for redelivery" name (error_text err) w,
    )
    after_dispatch m name p (none, w) =
        after_delete name (record p { handled = suc p.handled })
          (api.delete_message s.queue_url m.receipt w)

    module _ (ctx : Context) (ctx_err : World T → Option Error) where
      -- handle. The handlers get the context as it is now.
      unfoldable pub handle : Message → Poll → World T → Poll × World T
      handle m p w =
          let env = envelope_of m in
          after_dispatch m env.name p (dispatch s.dispatcher (record ctx { err = ctx_err w }) env w)

      -- `if err := ctx.Err(); err != nil { return poll, err }`, and what follows.
      abbrev pub unless_ended :
          Option Error
          → Poll
          → World T
          → (Poll × Option Error) × World T
          → (Poll × Option Error) × World T
      unless_ended (some err) p w rest = ((p, some err), w)
      unless_ended none p w rest = rest

      -- The loop of ReceiveOnce: it stops where the context has ended.
      unfoldable pub handle_all : List Message → Poll → World T → (Poll × Option Error) × World T
      handle_all [] p w = ((p, none), w)
      handle_all (m ∷ ms) p w =
          unless_ended (ctx_err w) p w (handle_all ms (handle m p w).0 (handle m p w).1)

      -- The error of a failed receive: the context's own, where it has ended.
      abbrev pub ctx_err_or : Option Error → Error → Error
      ctx_err_or none err = err
      ctx_err_or (some e) err = e

      abbrev pub after_receive : Result (List Message) × World T → (Poll × Option Error) × World T
      after_receive (failed err, w) = ((empty_poll, some (ctx_err_or (ctx_err w) err)), w)
      after_receive (ok ms, w) = handle_all ms (record empty_poll { received = length ms }) w

      -- ReceiveOnce
      unfoldable pub receive_once : World T → (Poll × Option Error) × World T
      receive_once w = unless_ended (ctx_err w) empty_poll w (
          after_receive (
            api.receive_message
              (record { queue_url = s.queue_url; batch = s.batch; wait_secs = s.wait_secs }) w))

      module _ (sleep : Context → Duration → World T → Option Error × World T) where
        -- The select: the context's error if it ends during the wait.
        abbrev pub after_sleep :
            (World T → Option Error × World T) → Option Error × World T → Option Error × World T
        after_sleep again (none, w) = again w
        after_sleep again (some err, w) = (some err, w)

        -- A round of Receive after a failed poll, the context as of now given.
        abbrev pub after_failure :
            ℕ
            → (ℕ → World T → Option Error × World T)
            → Error
            → Option Error
            → World T
            → Option Error × World T
        after_failure failures again err (some e) w = (some e, w)
        after_failure failures again err none w = after_sleep (again (suc failures)) (
            sleep ctx (backoff_of s (suc failures))
              (log "sqs: receive failed" "" (error_text err) w))

        abbrev pub after_poll :
            ℕ
            → (ℕ → World T → Option Error × World T)
            → (Poll × Option Error) × World T
            → Option Error × World T
        after_poll failures again ((p, none), w) = again 0 w
        after_poll failures again ((p, some err), w) =
            after_failure failures again err (ctx_err w) w

        -- Receive for a number of rounds, `none` while it has not returned.
        unfoldable pub receive : ℕ → ℕ → World T → Option Error × World T
        receive zero failures w = (none, w)
        receive (suc rounds) failures w = after_poll failures (receive rounds) (receive_once w)
