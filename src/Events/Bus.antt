-- ===== src/Events/Bus.antt =====
-- events/events.go, with the codec, the validator and the logger's default error handler: what On
-- subscribes and what Emit publishes, for one event type E. A codec's hooks, which default to
-- encoding/json, and the sink's Publish are parameters; a registration that panics is `none`.
pub mod Delivery
use dfl.Base.{ℕ, String, Bool, true, false, List, [], ◌∷◌, ◌++◌, Option, none, some, if◌then◌else◌}
use dfl.GoErrors.{Any, text, Error, Result, ok, failed, error_text}
use dfl.Events.EventError.{EventError, new, with_event, to_error}
use dfl.Events.Wire.{
  Envelope, Context, World, HandlerFunc, Middleware, PublishFunc, PublishMiddleware, LogEntry,
  log_entry, with_logger,
}
use dfl.Events.Dispatcher.{Dispatcher, subscribe}
use dfl.Http.Router.{combine_chain, apply_middleware}

-- Codec. `prepare` is what the Prepare hook returns for E, nil without a hook.
pub record Codec (E : Type 0) : Type 0 where
  pub marshal : E → Result String
  pub unmarshal : String → Result E
  pub prepare : Option Error

-- The payload, or the encoder's error under the code encode_failed.
abbrev pub encoded : Result String → Result String
encoded (ok payload) = ok payload
encoded (failed err) =
    failed (to_error (new "encode_failed" (("error", text (error_text err)) ∷ []) (err ∷ [])))

module _ {E : Type 0} where
  -- Encode
  unfoldable pub encode : Codec E → E → Result String
  encode c e = encoded (c.marshal e)

  abbrev pub decoded : Result E → Result E
  decoded (ok e) = ok e
  decoded (failed err) =
      failed (to_error (new "decode_failed" (("error", text (error_text err)) ∷ []) (err ∷ [])))

  -- Decode
  unfoldable pub decode : Codec E → String → Result E
  decode c payload = decoded (c.unmarshal payload)

-- validatableValidator.Validate: the event's own Validate, where it has one.
unfoldable pub default_validate : {E : Type 0} → Option (E → Option Error) → E → Option Error
default_validate none e = none
default_validate (some validate) e = validate e

abbrev pub ErrorHandler : Type 0 → Type 0
ErrorHandler T = Context → Envelope → EventError → World T → World T

-- defaultErrorHandler
unfoldable pub default_error_handler : {T : Type 0} → ErrorHandler T
default_error_handler ctx env err w =
    log_entry
      (record {
        logger = ctx.logger;
        message = "events: handler failed";
        event = env.name;
        attempts = 0;
        action = error_text (to_error err);
      })
      w

pub record Bus (T E : Type 0) : Type 0 where
  -- the sink's Publish
  pub publish : Context → Envelope → World T → Option Error × World T
  pub codec : Codec E
  pub validate : E → Option Error
  pub coercer : Option Error → Option EventError
  pub on_error : ErrorHandler T
  pub logger : Option ℕ
  pub middleware : List (Middleware T)
  pub publish_mw : List (PublishMiddleware T)

-- A Plugin, whose sides may be left as they are.
pub record Plugin (T : Type 0) : Type 0 where
  pub publish : Option (PublishMiddleware T)
  pub deliver : Option (Middleware T)

module _ {T : Type 0} where
  -- PluginFuncs.WrapPublish and WrapDeliver
  unfoldable pub wrap_publish : Plugin T → PublishMiddleware T
  wrap_publish p next = elim p.publish [ none ↦ next | some mw ↦ mw next ]

  unfoldable pub wrap_deliver : Plugin T → Middleware T
  wrap_deliver p next = elim p.deliver [ none ↦ next | some mw ↦ mw next ]

-- An error that goes back to a publisher.
abbrev pub stamped : String → Option EventError → Option Error
stamped name none = none
stamped name (some e) = some (to_error (with_event e name))

-- A typed handler.
abbrev pub Handler : Type 0 → Type 0 → Type 0
Handler T E = Context → E → World T → Option Error × World T

module _ {T E : Type 0} where
  -- WithPlugins
  unfoldable pub with_plugins : List (Plugin T) → Bus T E → Bus T E
  with_plugins [] b = b
  with_plugins (p ∷ ps) b = with_plugins ps (record b {
    middleware = b.middleware ++ wrap_deliver p ∷ [];
    publish_mw = b.publish_mw ++ wrap_publish p ∷ [];
  })

  -- Use
  unfoldable pub use_middleware : Bus T E → List (Middleware T) → Bus T E
  use_middleware b mw = record b { middleware = b.middleware ++ mw }

  abbrev pub after_validate :
      Handler T E → Context → E → World T → Option Error → Option Error × World T
  after_validate handler ctx e w none = handler ctx e w
  after_validate handler ctx e w (some err) = (some err, w)

  abbrev pub after_decode :
      Bus T E → Handler T E → Context → World T → Result E → Option Error × World T
  after_decode b handler ctx w (failed err) = (some err, w)
  after_decode b handler ctx w (ok e) = after_validate handler ctx e w (b.validate e)

  -- The innermost handler that On builds.
  unfoldable pub base_handler : Bus T E → Handler T E → HandlerFunc T
  base_handler b handler ctx env w = after_decode b handler ctx w (decode b.codec env.payload)

  -- What deliver does with the error's coercion.
  abbrev pub report :
      Bus T E → Context → Envelope → World T → Option EventError → Option Error × World T
  report b ctx env w none = (none, w)
  report b ctx env w (some coerced) =
      (some (to_error coerced), b.on_error ctx env (with_event coerced env.name) w)

  abbrev pub after_handler :
      Bus T E → Context → Envelope → Option Error × World T → Option Error × World T
  after_handler b ctx env (none, w) = (none, w)
  after_handler b ctx env (some err, w) = report b ctx env w (b.coercer (some err))

  -- The deliver function that On subscribes.
  unfoldable pub deliver : Bus T E → Handler T E → List (Middleware T) → HandlerFunc T
  deliver b handler mw ctx env w =
      let ctx' = with_logger b.logger ctx in
      after_handler b ctx' env
        (apply_middleware (base_handler b handler) (combine_chain b.middleware mw) ctx' env w)

  -- On; `name` is what nameOf derives from E, `none` where it fails.
  unfoldable pub on :
      Bus T E
      → Option String
      → Handler T E
      → List (Middleware T)
      → Dispatcher T
      → Option (Dispatcher T)
  on b none handler mw sink = none
  on b (some name) handler mw sink = elim b.codec.prepare [
    | some err ↦ none
    | none ↦ some (subscribe sink name (deliver b handler mw))
  ]

  -- coerce
  unfoldable pub coerce : Bus T E → Error → String → Option Error
  coerce b err name = stamped name (b.coercer (some err))

  abbrev pub after_publish : Bus T E → String → Option Error × World T → Option Error × World T
  after_publish b name (none, w) = (none, w)
  after_publish b name (some err, w) = (coerce b err name, w)

  abbrev pub after_encode :
      Bus T E → String → Context → World T → Result String → Option Error × World T
  after_encode b name ctx w (failed err) = (coerce b err name, w)
  after_encode b name ctx w (ok payload) = after_publish b name (
      apply_middleware b.publish b.publish_mw ctx
        (record { name = name; payload = payload; headers = [] }) w)

  abbrev pub after_check :
      Bus T E → String → Context → E → World T → Option Error → Option Error × World T
  after_check b name ctx e w (some err) = (coerce b err name, w)
  after_check b name ctx e w none = after_encode b name ctx w (encode b.codec e)

  -- Emit; `name` is e.EventName().
  unfoldable pub emit : Bus T E → String → Context → E → World T → Option Error × World T
  emit b name ctx e w = after_check b name ctx e w (b.validate e)
