-- ===== src/Events/Eventbridge.antt =====
-- events/aws/eventbridge/eventbridge.go: the publisher and the HTTP push sink. The EventBridge client
-- and the JSON decoder of a delivered event are parameters.
use dfl.Base.{ℕ, zero, suc, ◌≡◌, ◌↔◌, refl, String, List, [], ◌∷◌, Option, none, some, arith, ◌++◌}
use dfl.GoErrors.{Error, Meta, Result, ok, failed, text}
use dfl.Http.Wire
use dfl.Http.Wire.{http_error, write_header}
use dfl.Events.EventError.{to_error, new, wrap}
use dfl.Events.Wire.{Envelope, Context, World}
use dfl.Events.Dispatcher.{Dispatcher, dispatch}
use dfl.Events.Push.{Served, IsAnswer, answer_dispatch, answer_dispatch-IsAnswer}

-- The one entry of a PutEventsInput.
pub record Entry : Type 0 where
  pub bus_name : String
  pub source : String
  pub detail_type : String
  pub detail : String

-- PutEventsOutput: the count of failed entries, and the ErrorMessage of each entry.
pub record PutEventsOutput : Type 0 where
  pub failed_entry_count : ℕ
  pub entries : List (Option String)

-- ebEvent
pub record EbEvent : Type 0 where
  pub detail_type : String
  pub detail : String

module _ {T : Type 0} (put_events : Entry → World T → Result PutEventsOutput × World T)
    (bus_name source : String) where
  -- What Publish puts for an envelope.
  unfoldable pub entry_of : Envelope → Entry
  entry_of env = record {
    bus_name = bus_name;
    source = source;
    detail_type = env.name;
    detail = env.payload;
  }

  -- The metadata of a failed entry.
  abbrev pub failure_meta : Meta → List (Option String) → Meta
  failure_meta meta (some message ∷ _) = meta ++ ("error", text message) ∷ []
  failure_meta meta _ = meta

  abbrev pub failure_of : Envelope → PutEventsOutput → ℕ → Option Error
  failure_of env out zero = none
  failure_of env out (suc n) = some (
      to_error (new "publish_failed" (failure_meta (("event", text env.name) ∷ []) out.entries) []))

  abbrev pub after_put : Envelope → Result PutEventsOutput × World T → Option Error × World T
  after_put env (failed err, w) =
      (some (to_error (wrap err "publish_failed" (("event", text env.name) ∷ []) [])), w)
  after_put env (ok out, w) = (failure_of env out out.failed_entry_count, w)

  -- Publish
  unfoldable pub publish : Envelope → World T → Option Error × World T
  publish env w = after_put env (put_events (entry_of env) w)

  -- Publish returns nil exactly when EventBridge took the call and failed no entry of it: a failure
  -- that it reports inside a successful call is an error too.
  pub publish_accepted :
      (env : Envelope) (w : World T)
      → ((publish env w).0 ≡ none) ↔ (
          (out : PutEventsOutput) × ((put_events (entry_of env) w).0 ≡ ok out)
          × (out.failed_entry_count ≡ 0))
  unfolding publish
  publish_accepted env w = go (put_events (entry_of env) w)
    where
      counted : (out : PutEventsOutput) (n : ℕ) → failure_of env out n ≡ none → n ≡ 0
      counted out zero h = refl
      counted out (suc n) h = cc

      back : (out : PutEventsOutput) (n : ℕ) → n ≡ 0 → failure_of env out n ≡ none
      back out zero h = refl
      back out (suc n) h = absurd (omega arith)

      go :
          (r : Result PutEventsOutput × World T)
          → ((after_put env r).0 ≡ none)
            ↔ ((out : PutEventsOutput) × (r.0 ≡ ok out) × (out.failed_entry_count ≡ 0))
      go (failed err, v) = (λ h. cc, λ (out', same, none_failed). cc)
      go (ok out, v) = (
        λ h. (out, refl, counted out out.failed_entry_count h),
        λ (out', same, none_failed). back out out.failed_entry_count (ground arith),
      )

module _ {T : Type 0} (decode : String → Option EbEvent) (d : Dispatcher T) where
  -- The envelope of a delivered event. It has no headers.
  unfoldable pub envelope_of : EbEvent → Envelope
  envelope_of e = record { name = e.detail_type; payload = e.detail; headers = [] }

  abbrev pub serve_event : Context → Option EbEvent → Wire.World → World T → Served T
  serve_event ctx none resp w = (http_error "invalid eventbridge event" 400 resp, w)
  serve_event ctx (some e) resp w = answer_dispatch 200 resp (dispatch d ctx (envelope_of e) w)

  -- ServeHTTP on a request with the context and the body.
  unfoldable pub serve_http : Context → String → Wire.World → World T → Served T
  serve_http ctx body resp w = serve_event ctx (decode body) resp w

  -- An event that is delivered as it was put is dispatched under its name with its payload, and
  -- without the headers of its envelope. The response is a 200 when every handler succeeds and a 500
  -- otherwise.
  pub serve_http-entry_of :
      (put_events : Entry → World T → Result PutEventsOutput × World T)
      (bus_name source body : String) (env : Envelope) (ctx : Context) (resp : Wire.World)
      (w : World T)
      → decode body
        ≡ some (record {
          detail_type = (entry_of put_events bus_name source env).detail_type;
          detail = (entry_of put_events bus_name source env).detail;
        })
      → resp.status ≡ none
      → IsAnswer 200 (dispatch d ctx (record env { headers = [] }) w) (serve_http ctx body resp w)
  unfolding serve_http entry_of envelope_of
  serve_http-entry_of put_events bus_name source body env ctx resp w decoded open_still =
      rw decoded (
        answer_dispatch-IsAnswer 200 resp
          (dispatch d ctx (record { name = env.name; payload = env.payload; headers = [] }) w)
          open_still)
