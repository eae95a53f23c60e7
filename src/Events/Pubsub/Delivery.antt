-- ===== src/Events/Pubsub/Delivery.antt =====
-- An envelope of events/gcp/pubsub from the publisher to a handler, and the cache of publishers.
use dfl.Base.{
  or_empty, ◌+◌, ◌≤◌, ◌≡◌, ◌↔◌, refl, sym, ap, ◌∙◌, String, Option, none, some, lookup, insert,
  lookup-insert, str_eq, eq_iff, arith, Bool-cases, inl, inr, Option-cases, false,
}
use dfl.GoErrors.{Error}
use dfl.Http.Wire
use dfl.Events.Wire.{Envelope, Context, World, HandlerFunc}
use dfl.Events.Dispatcher.{Dispatcher, dispatch}
use dfl.Events.Headers.{
  HeaderJson, IsFaithful, marshal_headers, unmarshal_headers, unmarshal_headers-marshal_headers,
}
use dfl.Events.Push.{IsAnswer, answer_dispatch-IsAnswer}
use dfl.Events.Pubsub.{
  Message, Publishers, acked, for_topic, message_of, pulled_envelope, pushed_envelope, verdict_of,
  receive_message, serve_http,
}

pulled_envelope-message_of :
    (json : HeaderJson) (name : String) (env : Envelope)
    → IsFaithful json
    → pulled_envelope json name (message_of json env) ≡ record env { name = name }
unfolding pulled_envelope message_of lookup insert
pulled_envelope-message_of json name env faithful =
    let back = unmarshal_headers-marshal_headers json env.headers faithful in
    elim (Bool-cases (str_eq (marshal_headers json env.headers) "")) [
      | inl bare ↦
          let empty = (eq_iff (marshal_headers json env.headers) "").0 bare in
          let back' : unmarshal_headers json "" ≡ env.headers =
            sym (ap (unmarshal_headers json) empty) ∙ back in
          rw bare (ground (arith, back'))
      | inr full ↦ rw full (ground (arith, back))
    ]

event-message_of :
    (json : HeaderJson) (env : Envelope)
    → or_empty (lookup "event" (message_of json env).attributes) ≡ env.name
unfolding message_of lookup insert
event-message_of json env = ground arith

pushed_envelope-message_of :
    (json : HeaderJson) (env : Envelope)
    → IsFaithful json
    → pushed_envelope json (message_of json env) ≡ env
unfolding pushed_envelope
pushed_envelope-message_of json env faithful =
    rw (event-message_of json env) (pulled_envelope-message_of json env.name env faithful)

module _ {T : Type 0} (json : HeaderJson) (ctx : Context) (env : Envelope) (w : World T)
    (faithful : IsFaithful json) where
  -- A message that was published for an envelope, pulled on the subscription of its event, runs the
  -- handler once on that very envelope, headers included, when the JSON encoding of a map of texts is
  -- faithful. It is acknowledged exactly when the handler returns no error.
  pub receive_message-message_of :
      (deliver : HandlerFunc T)
      → ((receive_message json ctx env.name deliver (message_of json env) w).1
          ≡ (deliver ctx env w).1)
        × (((receive_message json ctx env.name deliver (message_of json env) w).0 ≡ acked)
            ↔ ((deliver ctx env w).0 ≡ none))
  unfolding receive_message
  receive_message-message_of deliver =
      rw (pulled_envelope-message_of json env.name env faithful) (judged (deliver ctx env w))
    where
      judged :
          (r : Option Error × World T)
          → ((verdict_of json r).1 ≡ r.1) × (((verdict_of json r).0 ≡ acked) ↔ (r.0 ≡ none))
      judged (none, v) = (refl, (λ _. refl, λ _. refl))
      judged (some err, v) = (refl, (λ h. cc, λ h. cc))

  -- The same message pushed to the endpoint is dispatched as that very envelope. The response is a
  -- 204 when every handler succeeds and a 500 otherwise.
  pub serve_http-message_of :
      (decode : String → Option Message) (d : Dispatcher T) (body : String) (resp : Wire.World)
      → decode body ≡ some (message_of json env)
      → resp.status ≡ none
      → IsAnswer 204 (dispatch d ctx env w) (serve_http json decode d ctx body resp w)
  unfolding serve_http
  serve_http-message_of decode d body resp decoded open_still = rw decoded (
      rw (pushed_envelope-message_of json env faithful)
        (answer_dispatch-IsAnswer 204 resp (dispatch d ctx env w) open_still))

-- A topic keeps the publisher that was made for it first: asking for a topic leaves the publishers of
-- all other topics as they are, makes at most one, and asking again makes none and gives the same.
pub for_topic_cached :
    (name : String) (p : Publishers)
    → (for_topic name (for_topic name p).1 ≡ for_topic name p)
      × ((other : String)
          → str_eq name other ≡ false
          → lookup other (for_topic name p).1.by_topic ≡ lookup other p.by_topic)
      × (p.made ≤ (for_topic name p).1.made)
      × ((for_topic name p).1.made ≤ p.made + 1)
unfolding for_topic
for_topic_cached name p = elim (Option-cases (lookup name p.by_topic)) [
  | inl missing ↦
      let here = lookup-insert name name p.made p.by_topic in
      let found : lookup name (insert name p.made p.by_topic) ≡ some p.made =
        ground (arith, here, eq_iff name name) in
      rw missing (
        rw found (
          refl,
          λ other apart. ground (arith, lookup-insert name other p.made p.by_topic),
          omega arith,
          omega arith,
        ))
  | inr (id, kept) ↦ rw kept (rw kept (refl, λ other apart. refl, omega arith, omega arith))
]
