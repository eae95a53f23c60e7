-- ===== src/Events/Sqs/Tests.antt =====
-- A queue with one message, whose deletes are counted.
use dfl.Base.{
  ltb, if◌then◌else◌, arith, ◌≤◌, ℕ, suc, ◌≡◌, refl, [], ◌∷◌, Option, none, some, lookup, str_eq,
  Bool-cases, inl, inr,
}
use dfl.GoErrors.{Error, plain, ok, failed}
use dfl.Events.Wire.{Envelope, Context, World, HandlerFunc, LogEntry, log_entry}
use dfl.Events.Dispatcher.{dispatch, run_all, subscribers}
use dfl.Events.Headers.Tally.{tally_json, tally_json-IsFaithful}
use dfl.Events.Sqs.{Message, Api, Sink, envelope_of, input_of, receive_once, receive}
use dfl.Events.Sqs.Polling.{IsBalanced, receive_once-IsBalanced}
use dfl.Events.Sqs.Ending.{IsClock, receive_returns}
use dfl.Events.Sqs.Transport.{envelope_of-input_of}

abbrev ctx : Context
ctx = record { logger = none; err = none }

abbrev start : World ℕ
start = record { log = []; shared = 0 }

abbrev lost : Error
lost = plain 40 "connection lost"

abbrev broken : HandlerFunc ℕ
broken _ env w = (some lost, w)

abbrev message : Message
message = record {
  attributes = ("event", some "user.created") ∷ [];
  body = some "ada";
  receipt = some "r1";
}

abbrev queue : Api ℕ
queue = record {
  send_message = λ i w. (none, w);
  receive_message = λ i w. (ok (message ∷ record message { body = none } ∷ []), w);
  delete_message = λ q r w. (none, record w { shared = suc w.shared });
}

abbrev sink : Sink ℕ
sink = record {
  dispatcher = record { subs = ("user.deleted", broken ∷ []) ∷ [] };
  queue_url = "q";
  wait_secs = 20;
  batch = 10;
  logger = none;
  backoff = none;
}

abbrev deletes : World ℕ → ℕ
deletes w = w.shared

handlers_delete_nothing :
    (c : Context) (env : Envelope) (w : World ℕ)
    → deletes (dispatch sink.dispatcher c env w).1 ≡ deletes w
unfolding dispatch subscribers lookup run_all
handlers_delete_nothing c env w = elim (Bool-cases (str_eq "user.deleted" env.name)) [
  | inl here ↦ rw here refl
  | inr apart ↦ rw apart refl
]

logs_delete_nothing : (l : LogEntry) (w : World ℕ) → deletes (log_entry l w) ≡ deletes w
unfolding log_entry
logs_delete_nothing l w = refl

receive_once-IsBalanced_example :
    IsBalanced tally_json queue sink ctx
      (λ w. none)
      deletes
      (λ q r w. refl)
      handlers_delete_nothing
      logs_delete_nothing
      (λ i w. refl)
      (deletes start)
      (receive_once tally_json queue sink ctx (λ w. none) start)
receive_once-IsBalanced_example =
    receive_once-IsBalanced tally_json queue sink ctx (λ w. none) deletes (λ q r w. refl)
      handlers_delete_nothing logs_delete_nothing (λ i w. refl) start

abbrev user_created : Envelope
user_created = record {
  name = "user.created";
  payload = "ada";
  headers = ("traceparent", "00-1-1-01") ∷ [];
}

envelope_of-input_of_example :
    envelope_of tally_json (record {
      attributes = (input_of tally_json queue sink user_created).attributes;
      body = some (input_of tally_json queue sink user_created).body;
      receipt = some "r1";
    })
    ≡ user_created
envelope_of-input_of_example =
    envelope_of-input_of tally_json queue sink user_created (some "r1") tally_json-IsFaithful

-- A queue that is empty and out of reach in turn, whose calls are counted, and a context that ends with
-- the third call.
abbrev counted : Api ℕ
counted = record queue {
  receive_message =
      λ i w. (if ltb w.shared 1 then ok [] else failed lost, record w { shared = suc w.shared });
}

abbrev third_call : World ℕ → Option Error
third_call w = if ltb w.shared 3 then none else some lost

calls_are_counted : IsClock counted sink (λ c d w. (none, w)) deletes
unfolding log_entry
calls_are_counted = record {
  receives = λ i w. omega arith;
  deletes = λ q r w. omega arith;
  dispatches = λ c env w. omega (arith, handlers_delete_nothing c env w);
  logs = λ l w. omega arith;
  sleeps = λ c d w. omega arith;
}

ended_by_then : (w : World ℕ) → 3 ≤ deletes w → (e : Error) × (third_call w ≡ some e)
ended_by_then w h = (lost, ground (arith, h))

receive_returns_example :
    (e : Error) × ((receive tally_json counted sink ctx third_call (λ c d w. (none, w)) 4 0 start).0
      ≡ some e)
receive_returns_example =
    receive_returns tally_json counted sink ctx third_call (λ c d w. (none, w)) deletes
      calls_are_counted 3 ended_by_then 3 0 start (omega arith)
