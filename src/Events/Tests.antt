-- ===== src/Events/Tests.antt =====
-- Runs of the package events on concrete events, and the theorems at concrete inputs.
use dfl.Base.{
  ap, sym, List, ◌∷◌, ◌<◌, ◌*◌, arith, ℕ, suc, ◌+◌, ◌≤◌, String, [], Option, none, some, ◌≡◌, ◌↔◌,
  refl, ltb, if◌then◌else◌,
}
use dfl.GoErrors.{Error, plain, nil, Result, ok, failed, join_all, is_error}
use dfl.Events.EventError.{EventError, not_found, not_found_addr, is_not_found, default_coercer}
use dfl.Events.Wire.{Envelope, Context, World, HandlerFunc, with_logger, log_entry}
use dfl.Http.Router.{combine_chain, apply_middleware, apply_backward}
use dfl.Events.Retry.{
  Duration, RetryPolicy, with_defaults, retry, retry_loop, wait, nack, log_exhausted,
  exponential_backoff,
}
use dfl.Events.Retry.Backoff.{exponential_backoff_lem}
use dfl.Events.Retry.Loop.{retry_calls}
use dfl.Events.Dispatcher.{Dispatcher, new_dispatcher, subscribers, subscribe, dispatch}
use dfl.Events.Dispatcher.Laws.{AllSucceed, all_errors, world_after, dispatch_lem}
use dfl.Events.Bus.{Bus, Handler, default_error_handler, encode, deliver, emit}
use dfl.Events.Bus.Delivery.{
  IsSent, IsDelivered, wrapped_run, own_run, emit-deliver, deliver-IsDelivered,
}

payload_or : Result String → String
payload_or (ok p) = p
payload_or (failed err) = ""

ok-injective : {x y : String} → ◌≡◌ {A = Result String} (ok x) (ok y) → x ≡ y
unfolding payload_or
ok-injective h = ap payload_or h

abbrev ctx : Context
ctx = record { logger = none; err = none }

abbrev user_created : Envelope
user_created = record { name = "user.created"; payload = "ada"; headers = [] }

-- The state that the handlers share: how often one of them ran.
abbrev start : World ℕ
start = record { log = []; shared = 0 }

-- The subject of the event is there from the third run on.
abbrev late_write : HandlerFunc ℕ
late_write _ env w =
    (if ltb w.shared 2 then some (not_found) else none, record w { shared = suc w.shared })

abbrev lost : Error
lost = plain 40 "connection lost"

abbrev broken : HandlerFunc ℕ
broken _ env w = (some lost, record w { shared = suc w.shared })

abbrev at_once : Context → Duration → World ℕ → Option Error × World ℕ
at_once _ d w = (none, w)

abbrev zero_policy : RetryPolicy ℕ
zero_policy = record { attempts = 0; backoff = none; retryable = none; exhausted = none }

late_write_is_awaited : (retry at_once zero_policy late_write ctx user_created start).0 ≡ none
unfolding retry retry_loop with_defaults wait is_not_found is_error exponential_backoff
late_write_is_awaited = refl

retry_calls_example :
    (0 + 1 ≤ (retry at_once zero_policy late_write ctx user_created start).1.shared)
    × ((retry at_once zero_policy late_write ctx user_created start).1.shared
        ≤ 0 + (with_defaults zero_policy).attempts)
unfolding with_defaults nack log_exhausted log_entry
retry_calls_example =
    retry_calls at_once zero_policy late_write ctx user_created (λ w. w.shared) start (λ v. refl)
      (λ d v. refl) (λ n e v. refl)

abbrev settled : World ℕ
settled = record { log = []; shared = 3 }

abbrev subscribed : Dispatcher ℕ
subscribed = subscribe (subscribe new_dispatcher "user.created" broken) "user.created" late_write

dispatch_lem_example :
    (((dispatch subscribed ctx user_created start).0 ≡ none)
      ↔ AllSucceed ctx user_created (subscribers subscribed "user.created") start)
    × ((dispatch subscribed ctx user_created start).1
        ≡ world_after ctx user_created (subscribers subscribed "user.created") start)
    × ((dispatch subscribed ctx user_created start).0
        ≡ join_all (all_errors ctx user_created (subscribers subscribed "user.created") start))
dispatch_lem_example = dispatch_lem ctx user_created subscribed start

-- A bus for events that are a name, which the codec passes through.
abbrev names_bus : Bus ℕ String
names_bus = record {
  publish = λ c env w. (none, record w { shared = suc w.shared });
  codec = record { marshal = λ e. ok e; unmarshal = λ p. ok p; prepare = none };
  validate = λ e. none;
  coercer = default_coercer;
  on_error = default_error_handler;
  logger = some 8;
  middleware = [];
  publish_mw = [];
}

names_emitted : emit names_bus "user.created" ctx "ada" start ≡ (none, record start { shared = 1 })
unfolding emit encode apply_middleware apply_backward
names_emitted = refl

-- A transport has added a header.
abbrev traced : List (String × String)
traced = ("traceparent", "00-1-1-01") ∷ []

abbrev rejecting : Handler ℕ String
rejecting _ e w = (some lost, w)

emit-deliver_example :
    (s : IsSent names_bus "user.created" ctx "ada" start (record start { shared = 1 }))
    × IsDelivered names_bus
        (with_logger (some 8) ctx)
        (record { name = "user.created"; payload = s.payload; headers = traced })
        (own_run names_bus rejecting ctx "ada" settled)
        (deliver names_bus rejecting [] ctx
          (record { name = "user.created"; payload = s.payload; headers = traced })
          settled)
unfolding apply_middleware apply_backward combine_chain
emit-deliver_example =
    emit-deliver names_bus "user.created" "ada" ctx start (record start { shared = 1 }) rejecting []
      ctx traced settled refl (λ x p h. ap ok (sym (ok-injective h))) refl names_emitted

deliver-IsDelivered_example :
    IsDelivered names_bus
      (with_logger (some 8) ctx)
      user_created
      (wrapped_run names_bus rejecting [] ctx user_created start)
      (deliver names_bus rejecting [] ctx user_created start)
deliver-IsDelivered_example = deliver-IsDelivered names_bus rejecting [] ctx user_created start refl

abbrev no_user : EventError
no_user = record {
  address = not_found_addr;
  code = "not_found";
  event = "";
  meta = [];
  causes = nil;
}

exponential_backoff_lem_example :
    (50000000 ≤ exponential_backoff 50000000 3)
    × (exponential_backoff 50000000 3 < 9223372036854775808)
    × (1 ≤ 3 → 3 < 16 → exponential_backoff 50000000 (suc 3) ≡ 2 * exponential_backoff 50000000 3)
    × (16 ≤ 3 → exponential_backoff 50000000 3 ≡ exponential_backoff 50000000 16)
exponential_backoff_lem_example = exponential_backoff_lem 50000000 (omega arith) 3
