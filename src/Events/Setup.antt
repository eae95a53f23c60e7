-- ===== src/Events/Setup.antt =====
-- events/events.go, validate.go and logger.go: the options and the construction of a Bus, and the name
-- that is derived from an event type.
use dfl.Base.{ℕ, String, Bool, true, false, List, [], ◌∷◌, Option, none, some}
use dfl.GoErrors.{Error, text, Result, ok, failed}
use dfl.Events.EventError.{EventError, new, to_error, default_coercer}
use dfl.Events.Wire.{Envelope, Context, World}
use dfl.Events.Bus.{Bus, Codec, ErrorHandler, default_validate, default_error_handler}

module _ {T E : Type 0} where
  -- WithCodec, WithCoercer, WithErrorHandler, WithValidator and WithLogger
  unfoldable pub with_codec : Codec E → Bus T E → Bus T E
  with_codec c b = record b { codec = c }

  unfoldable pub with_coercer : (Option Error → Option EventError) → Bus T E → Bus T E
  with_coercer c b = record b { coercer = c }

  unfoldable pub with_error_handler : ErrorHandler T → Bus T E → Bus T E
  with_error_handler h b = record b { on_error = h }

  unfoldable pub with_validator : (E → Option Error) → Bus T E → Bus T E
  with_validator v b = record b { validate = v }

  unfoldable pub with_bus_logger : ℕ → Bus T E → Bus T E
  with_bus_logger l b = record b { logger = some l }

  unfoldable pub apply_bus_options : List (Bus T E → Bus T E) → Bus T E → Bus T E
  apply_bus_options [] b = b
  apply_bus_options (opt ∷ opts) b = apply_bus_options opts (opt b)

  -- NewBus, with the sink's Publish, the JSON codec and the event's own Validate, where it has one.
  unfoldable pub new_bus :
      (Context → Envelope → World T → Option Error × World T)
      → Codec E
      → Option (E → Option Error)
      → List (Bus T E → Bus T E)
      → Bus T E
  unfolding default_validate default_coercer default_error_handler apply_bus_options
  new_bus publish json validate opts = apply_bus_options opts (record {
    publish = publish;
    codec = json;
    validate = default_validate validate;
    coercer = default_coercer;
    on_error = default_error_handler;
    logger = none;
    middleware = [];
    publish_mw = [];
  })

-- What reflection and the zero value show of an event type: its name, whether it is a pointer type,
-- whether a new value of it is an Event, and that value's URLSafeName, where it has one, and EventName.
pub record EventType : Type 0 where
  pub type_name : String
  pub pointer : Bool
  pub is_event : Bool
  pub url_safe_name : Option String
  pub event_name : String

abbrev pub asserted : EventType → Bool → Bool → Result (Option String × String)
asserted t true false = failed (to_error (new "not_an_event" (("type", text t.type_name) ∷ []) []))
asserted t _ _ = ok (t.url_safe_name, t.event_name)

-- zeroEvent: what the callers use of its value.
unfoldable pub zero_event : EventType → Result (Option String × String)
unfolding new
zero_event t = asserted t t.pointer t.is_event

abbrev pub named : Result (Option String × String) → Result String
named (ok (url_safe_name, name)) = ok name
named (failed err) = failed err

-- nameOf
unfoldable pub name_of : EventType → Result String
unfolding zero_event
name_of t = named (zero_event t)
