-- ===== src/Events/Sns/Tests.antt =====
-- A notification for one event.
use mathlib.Core.Option.{some-injective}
use dfl.Base.{
  str_eq, if◌then◌else◌, subst, has_suffix, ℕ, suc, ◌≡◌, refl, String, true, [], ◌∷◌, Option, none,
  some,
}
use dfl.Http.Wire
use dfl.Events.Wire.{Envelope, Context, World}
use dfl.Events.Dispatcher.{dispatch}
use dfl.Events.Headers.Tally.{tally_json, tally_json-IsFaithful}
use dfl.Events.Push.{IsAnswer}
use dfl.Events.Sns.{SnsMessage, Clients, PushSink, is_aws_host, input_of, serve_http}
use dfl.Events.Sns.Push.{serve_http-input_of, serve_http-confined}

abbrev ctx : Context
ctx = record { logger = none; err = none }

-- The handlers' world counts what is fetched.
abbrev start : World ℕ
start = record { log = []; shared = 0 }

abbrev clients : Clients ℕ
clients = record {
  publish = λ i w. (none, w);
  get = λ url w. (none, record w { shared = suc w.shared });
}

abbrev sink : PushSink ℕ
sink = record { dispatcher = record { subs = [] }; topics = []; auto_confirm = true }

abbrev fresh : Wire.World
fresh = record { headers = []; status = none; sent_headers = []; body = ""; log = [] }

abbrev user_created : Envelope
user_created = record {
  name = "user.created";
  payload = "ada";
  headers = ("traceparent", "00-1-1-01") ∷ [];
}

abbrev notification : SnsMessage
notification = record {
  kind = "Notification";
  message = (input_of tally_json clients "arn" user_created).message;
  subscribe_url = "";
  attributes = (input_of tally_json clients "arn" user_created).attributes;
}

serve_http-input_of_example : IsAnswer 200 (dispatch sink.dispatcher ctx user_created start) (
    serve_http tally_json clients
      (λ body. some notification)
      (λ url. none)
      sink
      ctx
      "{}"
      fresh
      start)
serve_http-input_of_example =
    serve_http-input_of tally_json clients (λ body. some notification) (λ url. none) sink "arn" ""
      "{}" user_created ctx fresh start tally_json-IsFaithful refl refl

abbrev handshake : SnsMessage
handshake = record notification {
  kind = "SubscriptionConfirmation";
  subscribe_url = "https://sns.eu-west-1.amazonaws.com/confirm";
}

abbrev aws : String → Option String
aws url = some "sns.eu-west-1.amazonaws.com"

fetched_once :
    (serve_http tally_json clients (λ body. some handshake) aws sink ctx "{}" fresh start).1.shared
    ≡ 1
unfolding serve_http is_aws_host has_suffix
fetched_once = refl

-- A client that fetches the links of the instance's metadata with another result.
abbrev leaky : Clients ℕ
leaky = record clients {
  get = λ url w.
      if str_eq url "http://169.254.169.254/"
      then (none, record w { shared = 100 })
      else clients.get url w;
}

serve_http-confined_example :
    serve_http tally_json clients (λ body. some handshake) aws sink ctx "{}" fresh start
    ≡ serve_http tally_json leaky (λ body. some handshake) aws sink ctx "{}" fresh start
serve_http-confined_example =
    serve_http-confined tally_json (λ body. some handshake) aws sink clients leaky ctx "{}" fresh
      start
      (λ msg h.
        subst (λ m. clients.get m.subscribe_url start ≡ leaky.get m.subscribe_url start)
          (some-injective _ _ h.0) refl)
