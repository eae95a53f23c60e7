-- ===== src/Events/Sns.antt =====
-- events/aws/sns/sns.go: the publisher to SNS topics and the HTTP push sink. The SNS client, the HTTP
-- client, the JSON decoder of a notification and url.Parse with Hostname are parameters.
pub mod Push
mod Tests
use dfl.Base.{
  or_empty, ℕ, String, Bool, true, false, ◌&&◌, List, [], ◌∷◌, Option, none, some, lookup, insert,
  str_eq, has_suffix, if◌then◌else◌,
}
use dfl.GoErrors.{Error, text}
use dfl.Http.Wire
use dfl.Http.Wire.{http_error, write_header}
use dfl.Events.EventError.{to_error, new, wrap}
use dfl.Events.Wire.{Envelope, Context, World}
use dfl.Events.Dispatcher.{Dispatcher, new_dispatcher, dispatch}
use dfl.Events.Headers.{HeaderJson, marshal_headers, unmarshal_headers}
use dfl.Events.Push.{Served, answer_dispatch}

pub record PublishInput : Type 0 where
  pub topic_arn : String
  pub message : String
  pub attributes : List (String × String)

-- snsMessage
pub record SnsMessage : Type 0 where
  pub kind : String
  pub message : String
  pub subscribe_url : String
  pub attributes : List (String × String)

-- The Publisher's topics.
abbrev pub Topics : Type 0
Topics = List (String × String)

module _ (T : Type 0) where
  -- PublishAPI and the call of http.Client.Get, whose response the sink drops.
  pub record Clients : Type 0 where
    pub publish : PublishInput → World T → Option Error × World T
    pub get : String → World T → Option Error × World T

  -- PushSink, the Publisher's topics included.
  pub record PushSink : Type 0 where
    pub dispatcher : Dispatcher T
    pub topics : Topics
    pub auto_confirm : Bool

-- WithAutoConfirm
unfoldable pub with_auto_confirm : {T : Type 0} → Bool → PushSink T → PushSink T
with_auto_confirm on s = record s { auto_confirm = on }

unfoldable pub apply_push_options :
    {T : Type 0} → List (PushSink T → PushSink T) → PushSink T → PushSink T
apply_push_options [] s = s
apply_push_options (opt ∷ opts) s = apply_push_options opts (opt s)

-- NewPushSink, with NewPublisher
unfoldable pub new_push_sink : {T : Type 0} → Topics → List (PushSink T → PushSink T) → PushSink T
unfolding apply_push_options new_dispatcher
new_push_sink topics opts =
    apply_push_options opts
      (record { dispatcher = new_dispatcher; topics = topics; auto_confirm = true })

-- isAWSHost, given the host name of the URL, `none` where the URL does not parse.
unfoldable pub is_aws_host : Option String → Bool
is_aws_host none = false
is_aws_host (some host) = has_suffix host ".amazonaws.com"

module _ (json : HeaderJson) where
  unfoldable pub attributes_of : Envelope → List (String × String)
  attributes_of env =
      let h = marshal_headers json env.headers in
      let attrs = ("event", env.name) ∷ [] in
      if str_eq h "" then attrs else insert "headers" h attrs

  -- The envelope of a Notification.
  unfoldable pub envelope_of : SnsMessage → Envelope
  envelope_of msg = record {
    name = or_empty (lookup "event" msg.attributes);
    payload = msg.message;
    headers = unmarshal_headers json (or_empty (lookup "headers" msg.attributes));
  }

  module _ {T : Type 0} (clients : Clients T) where
    abbrev pub after_publish : Envelope → Option Error × World T → Option Error × World T
    after_publish env (none, w) = (none, w)
    after_publish env (some err, w) =
        (some (to_error (wrap err "publish_failed" (("event", text env.name) ∷ []) [])), w)

    -- What Publish sends to a topic.
    unfoldable pub input_of : String → Envelope → PublishInput
    input_of arn env = record {
      topic_arn = arn;
      message = env.payload;
      attributes = attributes_of env;
    }

    abbrev pub publish_to : Option String → Envelope → World T → Option Error × World T
    publish_to none env w = (some (to_error (new "no_topic" (("event", text env.name) ∷ []) [])), w)
    publish_to (some arn) env w = after_publish env (clients.publish (input_of arn env) w)

    -- Publish
    unfoldable pub publish : Topics → Envelope → World T → Option Error × World T
    publish topics env w = publish_to (lookup env.name topics) env w

    module _ (decode : String → Option SnsMessage) (hostname : String → Option String)
        (s : PushSink T) where
      abbrev pub after_get : Wire.World → Option Error × World T → Served T
      after_get resp (some err, w) = (http_error "confirm failed" 502 resp, w)
      after_get resp (none, w) = (write_header 200 resp, w)

      -- The subscription handshake.
      abbrev pub confirm : String → Wire.World → World T → Served T
      confirm url resp w =
          if s.auto_confirm && is_aws_host (hostname url)
          then after_get resp (clients.get url w)
          else (write_header 200 resp, w)

      abbrev pub serve_message : Context → Option SnsMessage → Wire.World → World T → Served T
      serve_message ctx none resp w = (http_error "invalid sns message" 400 resp, w)
      serve_message ctx (some msg) resp w =
          if str_eq msg.kind "SubscriptionConfirmation"
          then confirm msg.subscribe_url resp w
          else if str_eq msg.kind "Notification"
          then answer_dispatch 200 resp (dispatch s.dispatcher ctx (envelope_of msg) w)
          else (write_header 200 resp, w)

      -- ServeHTTP on a request with the context and the body.
      unfoldable pub serve_http : Context → String → Wire.World → World T → Served T
      serve_http ctx body resp w = serve_message ctx (decode body) resp w
