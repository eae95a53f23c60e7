-- ===== src/Events/Push.antt =====
-- What the push sinks of events/aws/sns, events/aws/eventbridge and events/gcp/pubsub share: the world
-- of an HTTP handler that dispatches, and the answer to a dispatch. A 2xx acknowledges the message,
-- and anything else makes the transport deliver it again.
use dfl.Base.{ℕ, Option, none, some, ◌≡◌, ◌≢◌, refl, arith}
use dfl.GoErrors.{Error}
use dfl.Http.Wire
use dfl.Http.Wire.{http_error, write_header, write, set_header}
use dfl.Events.Wire.{World}

-- The response, and the world of the event handlers.
abbrev pub Served : Type 0 → Type 0
Served T = Wire.World × World T

-- The end of a ServeHTTP that has dispatched: an error of the handlers is a 500.
abbrev pub answer_dispatch : {T : Type 0} → ℕ → Wire.World → Option Error × World T → Served T
answer_dispatch status resp (some err, w) = (http_error "handler failed" 500 resp, w)
answer_dispatch status resp (none, w) = (write_header status resp, w)

-- The status line of an answer, on a response that is not committed.
pub record IsAnswer {T : Type 0} (status : ℕ) (r : Option Error × World T) (out : Served T)
    : Type 0 where
  pub acknowledged : r.0 ≡ none → out.0.status ≡ some status
  pub refused : r.0 ≢ none → out.0.status ≡ some 500
  pub same_world : out.1 ≡ r.1

pub answer_dispatch-IsAnswer :
    {T : Type 0} (status : ℕ) (resp : Wire.World) (r : Option Error × World T)
    → resp.status ≡ none
    → IsAnswer status r (answer_dispatch status resp r)
unfolding http_error write_header
answer_dispatch-IsAnswer status resp (some err, w) h = record {
  acknowledged = λ e. cc;
  refused = λ e. ground arith;
  same_world = refl;
}
answer_dispatch-IsAnswer status resp (none, w) h = record {
  acknowledged = λ e. ground arith;
  refused = λ e. absurd (e refl);
  same_world = refl;
}
