-- ===== src/Http/Router/Responses.antt =====
-- What the client receives when a route's handler fails.
use dfl.Base.{
  ℕ, true, false, Bool-cases, inl, inr, ◌⊎◌, String, ◌≡◌, refl, subst, List, Option, none, some,
  ◌+s◌, lookup, lookup-insert, arith,
}
use mathlib.Core.Option.{some-injective}
use dfl.GoErrors.{Error}
use dfl.Http.ReqError.{ReqError, status_code}
use dfl.Http.Wire.{
  Encoding, encoded, unencodable, encoder_panics, is_status, is_interim, body_allowed, invalid_code,
  Panic, try_header, open_header, Request, World, HandlerFunc, Middleware, Outcome, returned,
  set_header, write_header, write,
}
use dfl.Http.Router.{
  Router, write_json, write_coerced, default_error_writer, coercer_or_default, apply_middleware,
  combine_chain, serve_route, attach_logger,
}

-- A code whose response has a body.
abbrev pub HasBody : ℕ → Type 0
HasBody s = (is_status s ≡ true) × (is_interim s ≡ false) × (body_allowed (some s) ≡ true)

-- A panic of the answer to an error: the encoder's own, or net/http's for a status out of its range.
abbrev pub Raises : (ReqError → Encoding) → ReqError → Panic → Type 0
Raises encode e p =
    (encode e ≡ encoder_panics p) ⊎ ((is_status (status_code e) ≡ false) × (p ≡ invalid_code))

-- The answer to an error: the coerced error as JSON under its status, with the content type sent, and
-- without the text where the status has no body; the text under a 200 for an interim status; or a bare
-- 500, when there is nothing to encode. It panics when the encoder does, or when net/http refuses the
-- status, and has committed nothing then.
pub data Answered (encode : ReqError → Encoding) (coerced : Option ReqError) (w : World)
    (out : Option Panic × World) : Type 0 where
  as_json :
      (e : ReqError) (b : String)
      → coerced ≡ some e
      → encode e ≡ encoded b
      → HasBody (status_code e)
      → out.0 ≡ none
      → out.1.status ≡ some (status_code e)
      → out.1.body ≡ w.body +s b
      → lookup "Content-Type" out.1.sent_headers ≡ some "application/json"
      → Answered encode coerced w out
  headers_only :
      (e : ReqError) (b : String)
      → coerced ≡ some e
      → encode e ≡ encoded b
      → (is_status (status_code e) ≡ true) × (body_allowed (some (status_code e)) ≡ false)
      → out.0 ≡ none
      → out.1.status ≡ some (status_code e)
      → out.1.body ≡ w.body
      → lookup "Content-Type" out.1.sent_headers ≡ some "application/json"
      → Answered encode coerced w out
  interim :
      (e : ReqError) (b : String)
      → coerced ≡ some e
      → encode e ≡ encoded b
      → is_interim (status_code e) ≡ true
      → out.0 ≡ none
      → out.1.status ≡ some 200
      → out.1.body ≡ w.body +s b
      → lookup "Content-Type" out.1.sent_headers ≡ some "application/json"
      → Answered encode coerced w out
  bare :
      ((e : ReqError) → coerced ≡ some e → encode e ≡ unencodable)
      → out.0 ≡ none
      → out.1.status ≡ some 500
      → out.1.body ≡ w.body
      → out.1.sent_headers ≡ w.headers
      → Answered encode coerced w out
  panics :
      (e : ReqError) (p : Panic)
      → coerced ≡ some e
      → Raises encode e p
      → out.0 ≡ some p
      → out.1.status ≡ none
      → out.1.body ≡ w.body
      → Answered encode coerced w out

write_encoded-Answered :
    (encode : ReqError → Encoding) (e : ReqError) (b : String) (w : World)
    → encode e ≡ encoded b
    → w.status ≡ none
    → Answered encode (some e) w (write_json (status_code e) (encoded b) w)
unfolding write_json try_header open_header write_header write set_header
write_encoded-Answered encode e b w hit h = elim (Bool-cases (is_status (status_code e))) [
  | inr invalid ↦
      panics e invalid_code refl (inr (invalid, refl)) (rw (h, invalid) refl) (rw (h, invalid) refl)
        (rw (h, invalid) refl)
  | inl valid ↦ elim (Bool-cases (is_interim (status_code e))) [
    | inl early ↦
        interim e b refl hit early (rw (h, valid, early) refl) (rw (h, valid, early) refl)
          (rw (h, valid, early) refl) (rw (h, valid, early) (rw lookup-insert))
    | inr final ↦ elim (Bool-cases (body_allowed (some (status_code e)))) [
      | inl full ↦
          as_json e b refl hit (valid, final, full) (rw (h, valid, final) refl)
            (rw (h, valid, final) refl) (rw (h, valid, final, full) refl)
            (rw (h, valid, final) (rw lookup-insert))
      | inr dropped ↦
          headers_only e b refl hit (valid, dropped) (rw (h, valid, final) refl)
            (rw (h, valid, final) refl) (rw (h, valid, final, dropped) refl)
            (rw (h, valid, final) (rw lookup-insert))
    ]
  ]
]

write_json-Answered :
    (encode : ReqError → Encoding) (e : ReqError) (o : Encoding) (w : World)
    → encode e ≡ o
    → w.status ≡ none
    → Answered encode (some e) w (write_json (status_code e) o w)
unfolding write_json write_header
write_json-Answered encode e unencodable w miss h =
    bare (λ f same. subst (λ x. encode x ≡ unencodable) (some-injective _ _ same) miss) refl
      (ground arith) (ground arith) (ground arith)
write_json-Answered encode e (encoder_panics p) w raised h =
    panics e p refl (inl raised) refl h refl
write_json-Answered encode e (encoded b) w hit h = write_encoded-Answered encode e b w hit h

write_coerced-Answered :
    (encode : ReqError → Encoding) (c : Option ReqError) (w : World)
    → w.status ≡ none
    → Answered encode c w (write_coerced encode c w)
unfolding write_coerced write_header
write_coerced-Answered encode none w h =
    bare (λ e same. cc) refl (ground arith) (ground arith) (ground arith)
write_coerced-Answered encode (some e) w h = write_json-Answered encode e (encode e) w refl h

module _ {X : Type 0} (encode : ReqError → Encoding) (r : Router X) (h : HandlerFunc X)
    (mw : List (Middleware X)) (req : Request X) (w : World) where
  -- How the handler inside all of its middleware ends on the request, with the router's logger on it.
  abbrev pub wrapped_run : Outcome × World
  wrapped_run = apply_middleware h (combine_chain r.middleware mw) (attach_logger r.logger req) w

  -- Every error that a handler or its middleware returns before the response is committed is
  -- answered by the default writer with what the router's coercer makes of it: in full when the status
  -- has a body, without the text when it has none, with a bare 500 when there is nothing to encode. It
  -- ends in a panic, with nothing committed, only when the encoder panics or net/http refuses the
  -- status.
  pub serve_route_error :
      (err : Error) (w' : World)
      → r.error_writer ≡ none
      → wrapped_run ≡ (returned (some err), w')
      → w'.status ≡ none
      → Answered encode
          (coercer_or_default r.coercer (some err))
          w'
          (serve_route encode r h mw req w)
  unfolding serve_route default_error_writer
  serve_route_error err w' dflt ends fresh =
      rw (ends, dflt)
        (write_coerced-Answered encode (coercer_or_default r.coercer (some err)) w' fresh)

  -- A handler that returns no error answers for itself: the router adds nothing.
  pub serve_route_success :
      (w' : World)
      → wrapped_run ≡ (returned none, w')
      → serve_route encode r h mw req w ≡ (none, w')
  unfolding serve_route
  serve_route_success w' ends = rw ends
