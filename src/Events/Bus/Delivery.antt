-- ===== src/Events/Bus/Delivery.antt =====
-- What Emit promises and what a delivery does with an event and with a handler's error.
use dfl.Base.{String, ◌≡◌, ◌≢◌, refl, subst, ap, ◌∙◌, List, [], Option, none, some, arith, eq_iff}
use dfl.GoErrors.{Error, Result, ok, failed}
use dfl.Events.EventError.{EventError, default_coercer, with_event, to_error}
use dfl.Events.EventError.Laws.{IsCoerced, default_coercer-IsCoerced}
use dfl.Events.Wire.{Envelope, Context, World, Middleware, with_logger}
use dfl.Http.Router.{combine_chain, apply_middleware}
use dfl.Events.Bus.{
  Bus, Handler, encode, encoded, decode, base_handler, deliver, emit, coerce, after_handler,
  after_publish, after_encode, after_check,
}

module _ {T E : Type 0} (b : Bus T E) where
  -- The base of the chain on a codec that reads back what it writes.
  base_handler-encode :
      (handler : Handler T E) (ctx : Context) (env : Envelope) (e : E) (w : World T)
      → b.codec.unmarshal env.payload ≡ ok e
      → b.validate e ≡ none
      → base_handler b handler ctx env w ≡ handler ctx e w
  unfolding base_handler decode
  base_handler-encode handler ctx env e w back valid = rw (back, valid)

  abbrev pub wrapped_run :
      Handler T E → List (Middleware T) → Context → Envelope → World T → Option Error × World T
  wrapped_run handler mw ctx env w =
      apply_middleware (base_handler b handler) (combine_chain b.middleware mw)
        (with_logger b.logger ctx) env w

  -- What is reported of a handler's error: the error handler gets its coercion once, under the event's
  -- name if the coercion has none, and the sink gets it back.
  pub record IsReported (ctx : Context) (env : Envelope) (err : Error) (w : World T)
      (out : Option Error × World T) : Type 0 where
    pub coerced : EventError
    pub faithful : IsCoerced err coerced
    pub back : out.0 ≡ some (to_error coerced)
    pub handled : out.1 ≡ b.on_error ctx env (with_event coerced env.name) w
    pub named : coerced.event ≡ "" → (with_event coerced env.name).event ≡ env.name
    pub kept : (with_event coerced env.name).code ≡ coerced.code

  -- What becomes of a delivery, by how the handler inside its middleware ends.
  abbrev pub IsDelivered :
      Context → Envelope → Option Error × World T → Option Error × World T → Type 0
  IsDelivered ctx env (none, w) out = out ≡ (none, w)
  IsDelivered ctx env (some err, w) out = IsReported ctx env err w out

  after_handler-IsDelivered :
      (ctx : Context) (env : Envelope) (r : Option Error × World T)
      → b.coercer ≡ default_coercer
      → IsDelivered ctx env r (after_handler b ctx env r)
  unfolding with_event
  after_handler-IsDelivered ctx env (none, w) dflt = refl
  after_handler-IsDelivered ctx env (some err, w) dflt =
      let (c, seen, same) = default_coercer-IsCoerced err in
      rw (dflt, seen)
        (record {
          coerced = c;
          faithful = same;
          back = refl;
          handled = refl;
          named = λ h. ground (arith, eq_iff c.event "");
          kept = ground arith;
        })

  -- With the default coercer a delivery acknowledges the event, and leaves the handler's world alone,
  -- when the handler inside its middleware returned no error. Any error of it is coerced to an event
  -- error of its own tree, unchanged, or, when its tree has none, to one of the code unknown whose one
  -- cause is that very error; the error handler gets that once, with its code, under the event's name
  -- if it has none yet, and the sink gets it back.
  pub deliver-IsDelivered :
      (handler : Handler T E) (mw : List (Middleware T)) (ctx : Context) (env : Envelope)
      (w : World T)
      → b.coercer ≡ default_coercer
      → IsDelivered
          (with_logger b.logger ctx)
          env
          (wrapped_run handler mw ctx env w)
          (deliver b handler mw ctx env w)
  unfolding deliver
  deliver-IsDelivered handler mw ctx env w dflt =
      after_handler-IsDelivered (with_logger b.logger ctx) env (wrapped_run handler mw ctx env w)
        dflt

  -- What a publish without an error has sent.
  pub record IsSent (name : String) (ctx : Context) (e : E) (w w' : World T) : Type 0 where
    pub payload : String
    pub valid : b.validate e ≡ none
    pub written : b.codec.marshal e ≡ ok payload
    pub sent :
        apply_middleware b.publish b.publish_mw ctx
          (record { name = name; payload = payload; headers = [] })
          w
        ≡ (none, w')

  coerce-some :
      (err : Error) (name : String) → b.coercer ≡ default_coercer → coerce b err name ≢ none
  unfolding coerce
  coerce-some err name dflt h =
      let (c, seen, _) = default_coercer-IsCoerced err in
      let bad : ◌≡◌ {A = Option Error} (some (to_error (with_event c name))) none =
        rw (dflt, seen) at h in
      cc

  emit-IsSent :
      (name : String) (ctx : Context) (e : E) (w w' : World T)
      → b.coercer ≡ default_coercer
      → emit b name ctx e w ≡ (none, w')
      → IsSent name ctx e w w'
  unfolding emit encode
  emit-IsSent name ctx e w w' dflt h = on_valid (b.validate e) refl h
    where
      on_sent :
          (payload : String) (r : Option Error × World T)
          → apply_middleware b.publish b.publish_mw ctx
              (record { name = name; payload = payload; headers = [] })
              w
            ≡ r
          → after_publish b name r ≡ (none, w')
          → r ≡ (none, w')
      on_sent payload (none, v) same done = done
      on_sent payload (some err, v) same done =
          absurd (coerce-some err name dflt (ap (λ x. x.0) done))

      on_encoded :
          (p : Result String)
          → b.validate e ≡ none
          → b.codec.marshal e ≡ p
          → after_encode b name ctx w (encoded p) ≡ (none, w')
          → IsSent name ctx e w w'
      on_encoded (ok payload) valid written done = record {
        payload = payload;
        valid = valid;
        written = written;
        sent = on_sent payload _ refl done;
      }
      on_encoded (failed err) valid written done =
          absurd (coerce-some _ name dflt (ap (λ x. x.0) done))

      on_valid :
          (o : Option Error)
          → b.validate e ≡ o
          → after_check b name ctx e w o ≡ (none, w')
          → IsSent name ctx e w w'
      on_valid none valid done = on_encoded (b.codec.marshal e) valid refl done
      on_valid (some err) invalid done = absurd (coerce-some err name dflt (ap (λ x. x.0) done))

  -- The handler's own run on the event, on a delivery's context.
  abbrev pub own_run : Handler T E → Context → E → World T → Option Error × World T
  own_run handler ctx e w = handler (with_logger b.logger ctx) e w

  -- An Emit of a bus with the default coercer that returns no error has sent the event through the
  -- publish middleware to the sink once, valid and encoded under its name without headers. When the
  -- codec reads back what it writes, every delivery of that payload, with whatever headers the
  -- transport has put on it and whenever it comes, through middleware that changes nothing, runs the
  -- handler on that very event: it acknowledges the event when the handler returns no error, and
  -- reports the handler's error otherwise.
  pub emit-deliver :
      (name : String) (e : E) (ctx : Context) (w w' : World T) (handler : Handler T E)
      (mw : List (Middleware T)) (dctx : Context) (headers : List (String × String)) (v : World T)
      → b.coercer ≡ default_coercer
      → ((x : E) (p : String) → b.codec.marshal x ≡ ok p → b.codec.unmarshal p ≡ ok x)
      → apply_middleware (base_handler b handler) (combine_chain b.middleware mw)
        ≡ base_handler b handler
      → emit b name ctx e w ≡ (none, w')
      → (s : IsSent name ctx e w w') × IsDelivered
          (with_logger b.logger dctx)
          (record { name = name; payload = s.payload; headers = headers })
          (own_run handler dctx e v)
          (deliver b handler mw dctx
            (record { name = name; payload = s.payload; headers = headers })
            v)
  emit-deliver name e ctx w w' handler mw dctx headers v dflt reads bare emitted =
      let s = emit-IsSent name ctx e w w' dflt emitted in
      let env : Envelope = record { name = name; payload = s.payload; headers = headers } in
      let ctx' = with_logger b.logger dctx in
      let runs : wrapped_run handler mw dctx env v ≡ own_run handler dctx e v =
        ap (λ h. h ctx' env v) bare
        ∙ base_handler-encode handler ctx' env e v (reads e s.payload s.written) s.valid in
      (
        s,
        subst (λ r. IsDelivered ctx' env r (deliver b handler mw dctx env v)) runs
            (deliver-IsDelivered handler mw dctx env v dflt),
      )
