-- ===== src/Events/Pubsub/Tests.antt =====
-- A message for one event, pulled.
use dfl.Base.{ℕ, ◌≡◌, ◌↔◌, [], ◌∷◌, none, some}
use dfl.GoErrors.{plain}
use dfl.Events.Wire.{Envelope, Context, World, HandlerFunc}
use dfl.Events.Headers.Tally.{tally_json, tally_json-IsFaithful}
use dfl.Events.Pubsub.{acked, message_of, receive_message}
use dfl.Events.Pubsub.Delivery.{receive_message-message_of}

abbrev ctx : Context
ctx = record { logger = none; err = none }

abbrev start : World ℕ
start = record { log = []; shared = 0 }

abbrev broken : HandlerFunc ℕ
broken _ env w = (some (plain 40 "connection lost"), record w { shared = 1 })

abbrev user_created : Envelope
user_created = record {
  name = "user.created";
  payload = "ada";
  headers = ("traceparent", "00-1-1-01") ∷ [];
}

receive_message-message_of_example :
    ((receive_message tally_json ctx "user.created" broken
        (message_of tally_json user_created)
        start).1
      ≡ (broken ctx user_created start).1)
    × (((receive_message tally_json ctx "user.created" broken
            (message_of tally_json user_created)
            start).0
          ≡ acked)
        ↔ ((broken ctx user_created start).0 ≡ none))
receive_message-message_of_example =
    receive_message-message_of tally_json ctx user_created start tally_json-IsFaithful broken
