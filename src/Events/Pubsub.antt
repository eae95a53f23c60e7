-- ===== src/Events/Pubsub.antt =====
-- events/gcp/pubsub/pubsub.go: the publishers, the pull sink and the HTTP push sink. The Pub/Sub client
-- and the JSON decoder of a push are parameters. The goroutines of a pull are a sequence of messages,
-- each with the subscription that it comes on.
pub mod Delivery
mod Tests
use dfl.Base.{
  or_empty, ◌+◌, ℕ, String, List, [], ◌∷◌, ◌++◌, Option, none, some, lookup, insert, str_eq,
  if◌then◌else◌, ◌+s◌,
}
use dfl.GoErrors.{Error, text, error_text}
use dfl.Http.Wire
use dfl.Http.Wire.{http_error}
use dfl.Events.EventError.{to_error, wrap}
use dfl.Events.Wire.{Envelope, Context, World, HandlerFunc, log_entry}
use dfl.Events.Dispatcher.{Dispatcher, dispatch}
use dfl.Events.Headers.{HeaderJson, marshal_headers, unmarshal_headers}
use dfl.Events.Push.{Served, answer_dispatch}

-- pubsub.Message, and the message of a pushPayload.
pub record Message : Type 0 where
  pub payload : String
  pub attributes : List (String × String)

-- The cache of publishers: the topics that have one, each by the number the client made it under,
-- and how many were made.
pub record Publishers : Type 0 where
  pub by_topic : List (String × ℕ)
  pub made : ℕ

unfoldable pub new_publishers : Publishers
new_publishers = record { by_topic = []; made = 0 }

abbrev pub cached : String → Publishers → Option ℕ → ℕ × Publishers
cached name p (some id) = (id, p)
cached name p none =
    (p.made, record { by_topic = insert name p.made p.by_topic; made = p.made + 1 })

-- forTopic
unfoldable pub for_topic : String → Publishers → ℕ × Publishers
for_topic name p = cached name p (lookup name p.by_topic)

-- What a pull does with a message.
pub data Verdict : Type 0 where
  acked : Verdict
  nacked : Verdict

-- PullSink: one handler for each event.
pub record PullSink (T : Type 0) : Type 0 where
  pub consumer : String
  pub logger : Option ℕ
  pub subs : List (String × HandlerFunc T)

module _ {T : Type 0} where
  -- WithLogger
  unfoldable pub with_logger : ℕ → PullSink T → PullSink T
  with_logger l s = record s { logger = some l }

  unfoldable pub apply_options : List (PullSink T → PullSink T) → PullSink T → PullSink T
  apply_options [] s = s
  apply_options (opt ∷ opts) s = apply_options opts (opt s)

  -- NewPullSink, whose publishers stand beside it.
  unfoldable pub new_pull_sink : String → List (PullSink T → PullSink T) → PullSink T
  unfolding apply_options
  new_pull_sink consumer opts =
      apply_options opts (record { consumer = consumer; logger = none; subs = [] })

  -- The end of receive, for the error that the pull stopped with and the context's own error then.
  unfoldable pub after_stop : PullSink T → String → Option Error → Option Error → World T → World T
  after_stop s name (some err) none w =
      log_entry
        (record {
          logger = s.logger;
          message = "pubsub: receive stopped";
          event = name;
          attempts = 0;
          action = error_text err;
        })
        w
  after_stop s name _ _ w = w

module _ (json : HeaderJson) where
  -- The message that publish sends.
  unfoldable pub message_of : Envelope → Message
  message_of env =
      let h = marshal_headers json env.headers in
      let attrs = ("event", env.name) ∷ [] in
      record {
        payload = env.payload;
        attributes = if str_eq h "" then attrs else insert "headers" h attrs;
      }

  -- The envelope of a pulled message, under the name of its subscription's event.
  unfoldable pub pulled_envelope : String → Message → Envelope
  pulled_envelope name m = record {
    name = name;
    payload = m.payload;
    headers = unmarshal_headers json (or_empty (lookup "headers" m.attributes));
  }

  -- The envelope of a pushed message.
  unfoldable pub pushed_envelope : Message → Envelope
  unfolding pulled_envelope
  pushed_envelope m = pulled_envelope (or_empty (lookup "event" m.attributes)) m

  module _ {T : Type 0} (send : ℕ → Message → World T → Option Error × World T) where
    abbrev pub after_get : Envelope → Option Error × World T → Option Error × World T
    after_get env (none, w) = (none, w)
    after_get env (some err, w) =
        (some (to_error (wrap err "publish_failed" (("event", text env.name) ∷ []) [])), w)

    -- publish, which waits for the server's acknowledgement; `send` is Publish and Get of the topic's
    -- publisher.
    unfoldable pub publish : Envelope → Publishers → World T → (Option Error × World T) × Publishers
    publish env p w =
        let (id, p') = for_topic env.name p in (after_get env (send id (message_of env) w), p')

  module _ {T : Type 0} where
    -- Subscribe of the pull sink: the event's handler from now on.
    unfoldable pub subscribe : String → HandlerFunc T → PullSink T → PullSink T
    subscribe name deliver s = record s { subs = insert name deliver s.subs }

    -- The subscription that receive pulls for an event.
    unfoldable pub subscription : PullSink T → String → String
    subscription s name = name +s ("." +s s.consumer)

    abbrev pub verdict_of : Option Error × World T → Verdict × World T
    verdict_of (none, w) = (acked, w)
    verdict_of (some err, w) = (nacked, w)

    -- The callback of receive for a message of an event's subscription.
    unfoldable pub receive_message :
        Context → String → HandlerFunc T → Message → World T → Verdict × World T
    receive_message ctx name deliver m w = verdict_of (deliver ctx (pulled_envelope name m) w)

    -- The callback over the messages of a pull, one after the other.
    unfoldable pub receive_each :
        Context → String → HandlerFunc T → List Message → World T → List Verdict × World T
    unfolding receive_message
    receive_each ctx name deliver [] w = ([], w)
    receive_each ctx name deliver (m ∷ ms) w =
        let (verdict, w') = receive_message ctx name deliver m w in
        let (verdicts, w'') = receive_each ctx name deliver ms w' in (verdict ∷ verdicts, w'')

    -- The push sink's ServeHTTP.
    abbrev pub serve_push :
        Dispatcher T → Context → Option Message → Wire.World → World T → Served T
    serve_push d ctx none resp w = (http_error "invalid push payload" 400 resp, w)
    serve_push d ctx (some m) resp w =
        answer_dispatch 204 resp (dispatch d ctx (pushed_envelope m) w)

    unfoldable pub serve_http :
        (String → Option Message)
        → Dispatcher T
        → Context
        → String
        → Wire.World
        → World T
        → Served T
    serve_http decode d ctx body resp w = serve_push d ctx (decode body) resp w
