-- ===== src/Events/Sns/Push.antt =====
-- A notification of events/aws/sns from the publisher to the handlers, and the confirmation guard.
use Prim.Native.String
use text.Mathlib.TextLemmas.{nil-append, cons-append}
use dfl.Base.{
  ◌+s◌, has_suffix, ◌≡◌, refl, sym, ap, ◌∙◌, String, Bool, true, Option, none, some, lookup, insert,
  str_eq, eq_iff, arith, Bool-cases, inl, inr, ◌&&◌,
}
use dfl.Http.Wire
use dfl.Http.Wire.{write_header, http_error}
use dfl.Events.Wire.{Envelope, Context, World}
use dfl.Events.Dispatcher.{dispatch}
use dfl.Events.Headers.{
  HeaderJson, IsFaithful, marshal_headers, unmarshal_headers, unmarshal_headers-marshal_headers,
}
use dfl.Events.Push.{IsAnswer, answer_dispatch-IsAnswer}
use dfl.Events.Sns.{
  SnsMessage, Clients, PushSink, is_aws_host, attributes_of, envelope_of, input_of, serve_http,
  serve_message, confirm, after_get,
}

-- A text with a suffix is something before it and the suffix.
has_suffix-true :
    (s suffix : String) → has_suffix s suffix ≡ true → (before : String) × (s ≡ before +s suffix)
unfolding has_suffix
has_suffix-true Prim.Native.String.[] suffix h =
    ("", (eq_iff "" suffix).0 h ∙ sym (nil-append suffix))
has_suffix-true (Prim.Native.String.◌∷◌ c s) suffix h =
    elim (Bool-cases (str_eq (Prim.Native.String.◌∷◌ c s) suffix)) [
      | inl whole ↦
          ("", (eq_iff (Prim.Native.String.◌∷◌ c s) suffix).0 whole ∙ sym (nil-append suffix))
      | inr longer ↦
          let (before, same) = has_suffix-true s suffix (rw longer at h) in
          (
            Prim.Native.String.◌∷◌ c before,
            ap (Prim.Native.String.◌∷◌ c) same ∙ sym (cons-append c before suffix),
          )
    ]

envelope_of-attributes_of :
    (json : HeaderJson) (env : Envelope) (url : String)
    → IsFaithful json
    → envelope_of json (record {
      kind = "Notification";
      message = env.payload;
      subscribe_url = url;
      attributes = attributes_of json env;
    })
      ≡ env
unfolding envelope_of attributes_of lookup insert
envelope_of-attributes_of json env url faithful =
    let back = unmarshal_headers-marshal_headers json env.headers faithful in
    elim (Bool-cases (str_eq (marshal_headers json env.headers) "")) [
      | inl bare ↦
          let empty = (eq_iff (marshal_headers json env.headers) "").0 bare in
          let back' : unmarshal_headers json "" ≡ env.headers =
            sym (ap (unmarshal_headers json) empty) ∙ back in
          rw bare (ground (arith, back'))
      | inr full ↦ rw full (ground (arith, back))
    ]

module _ {T : Type 0} (json : HeaderJson) (clients : Clients T)
    (decode : String → Option SnsMessage) (hostname : String → Option String) (s : PushSink T) where
  -- A notification whose message and attributes are those that Publish sent for an envelope is
  -- dispatched as that very envelope, headers included, when the JSON encoding of a map of texts is
  -- faithful. The response is a 200 when every handler succeeds and a 500 otherwise.
  pub serve_http-input_of :
      (arn url body : String) (env : Envelope) (ctx : Context) (resp : Wire.World) (w : World T)
      → IsFaithful json
      → decode body
        ≡ some (record {
          kind = "Notification";
          message = (input_of json clients arn env).message;
          subscribe_url = url;
          attributes = (input_of json clients arn env).attributes;
        })
      → resp.status ≡ none
      → IsAnswer 200
          (dispatch s.dispatcher ctx env w)
          (serve_http json clients decode hostname s ctx body resp w)
  unfolding serve_http input_of
  serve_http-input_of arn url body env ctx resp w faithful decoded open_still = rw decoded (
      rw (envelope_of-attributes_of json env url faithful)
        (answer_dispatch-IsAnswer 200 resp (dispatch s.dispatcher ctx env w) open_still))

module _ {T : Type 0} (json : HeaderJson) (decode : String → Option SnsMessage)
    (hostname : String → Option String) (s : PushSink T) where
  -- A handshake whose URL the sink may fetch.
  abbrev pub IsConfirmed : String → SnsMessage → Type 0
  IsConfirmed body msg =
      (decode body ≡ some msg)
      × (msg.kind ≡ "SubscriptionConfirmation")
      × (s.auto_confirm ≡ true)
      × (host : String) × (hostname msg.subscribe_url ≡ some (host +s ".amazonaws.com"))

  aws_host :
      (o : Option String)
      → is_aws_host o ≡ true
      → (host : String) × (o ≡ some (host +s ".amazonaws.com"))
  unfolding is_aws_host
  aws_host none h = cc
  aws_host (some name) h =
      let (host, same) = has_suffix-true name ".amazonaws.com" h in (host, ap some same)

  guard_holds : (on host : Bool) → (on && host) ≡ true → (on ≡ true) × (host ≡ true)
  guard_holds on host h = ground arith

  confirm-same :
      (c d : Clients T) (body : String) (msg : SnsMessage) (resp : Wire.World) (w : World T)
      → decode body ≡ some msg
      → msg.kind ≡ "SubscriptionConfirmation"
      → (IsConfirmed body msg → c.get msg.subscribe_url w ≡ d.get msg.subscribe_url w)
      → confirm json c decode hostname s msg.subscribe_url resp w
        ≡ confirm json d decode hostname s msg.subscribe_url resp w
  confirm-same c d body msg resp w decoded handshake agree =
      elim (Bool-cases (s.auto_confirm && is_aws_host (hostname msg.subscribe_url))) [
        | inl allowed ↦
            let (on, aws) =
              guard_holds s.auto_confirm (is_aws_host (hostname msg.subscribe_url)) allowed in
            let (host, under) = aws_host (hostname msg.subscribe_url) aws in
            rw allowed (
              ap (after_get json c decode hostname s resp)
                (agree (decoded, handshake, on, host, under)))
        | inr refused ↦ rw refused refl
      ]

  -- What the HTTP client does on any URL but one has no influence on the sink: two clients that agree
  -- on the SubscribeURL of a SubscriptionConfirmation that the body decodes to, with confirming on and
  -- a host name that ends in .amazonaws.com, give the same response and leave the same world, for
  -- every request. So the sink fetches nothing else.
  pub serve_http-confined :
      (c d : Clients T) (ctx : Context) (body : String) (resp : Wire.World) (w : World T)
      → ((msg : SnsMessage)
          → IsConfirmed body msg
          → c.get msg.subscribe_url w ≡ d.get msg.subscribe_url w)
      → serve_http json c decode hostname s ctx body resp w
        ≡ serve_http json d decode hostname s ctx body resp w
  unfolding serve_http
  serve_http-confined c d ctx body resp w agree = go (decode body) refl
    where
      go :
          (o : Option SnsMessage)
          → decode body ≡ o
          → serve_message json c decode hostname s ctx o resp w
            ≡ serve_message json d decode hostname s ctx o resp w
      go none same = refl
      go (some msg) same = elim (Bool-cases (str_eq msg.kind "SubscriptionConfirmation")) [
        | inl handshake ↦ rw handshake (
            confirm-same c d body msg resp w same
              ((eq_iff msg.kind "SubscriptionConfirmation").0 handshake) (agree msg))
        | inr other ↦ rw other refl
      ]
