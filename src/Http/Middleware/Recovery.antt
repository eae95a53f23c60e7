-- ===== src/Http/Middleware/Recovery.antt =====
-- Panics under Recoverer.
use mathlib.Core.Option.{some-injective}
use dfl.Base.{
  ◌≢◌, ◌⊎◌, inl, inr, ap, ◌∙◌, String, ◌≡◌, ◌∷◌, ◌++◌, List, Option, none, some, [], arith,
}
use dfl.Http.ReqError.{ReqError}
use dfl.Http.Wire.{
  Encoding, encoded, unencodable, encoder_panics, try_header, open_header, is_status, is_interim,
  Request, World, Panic, abort_handler, other_panic, Outcome, returned, panicked, HandlerFunc,
  Middleware,
}
use dfl.Http.Router.Responses.{Raises, wrapped_run}
use dfl.Http.Router.{
  Coercer, Router, default_error_writer, finish, apply_middleware, combine_chain, serve_route,
  write_json, write_coerced, attach_logger, coercer_or_default,
}
use dfl.Http.Router.Chain.{apply_middleware-cons}
use dfl.GoErrors.{Error, as_error, plain}
use dfl.Base.{refl, lookup, ◌+s◌, ℕ, ◌++◌}
use dfl.Http.Wire.{log_error, write, write_header, set_header}
use dfl.Http.ReqError.{default_coercer, as_req_error, new, code_statuses, status_code}
use dfl.Http.Middleware.{logger_from, recoverer, recovered}

recovered_panic :
    {X : Type 0} (r : Request X) (run : Outcome × World) (p : Panic)
    → (recovered r run).0 ≡ panicked p
    → p ≡ abort_handler
recovered_panic r (returned err, w) p h = cc
recovered_panic r (panicked abort_handler, w) p h = cc
recovered_panic r (panicked (other_panic v), w) p h = cc

write_json_panic :
    (encode : ReqError → Encoding) (e : ReqError) (o : Encoding) (w : World) (p : Panic)
    → encode e ≡ o
    → (write_json (status_code e) o w).0 ≡ some p
    → Raises encode e p
unfolding write_json try_header open_header
write_json_panic encode e unencodable w p made h = cc
write_json_panic encode e (encoder_panics q) w p made h =
    inl (made ∙ ap encoder_panics (some-injective _ _ h))
write_json_panic encode e (encoded b) w p made h = inr (ground (arith, h))

write_coerced_panic :
    (encode : ReqError → Encoding) (c : Option ReqError) (w : World) (p : Panic)
    → (write_coerced encode c w).0 ≡ some p
    → (e : ReqError) × (c ≡ some e) × Raises encode e p
unfolding write_coerced
write_coerced_panic encode none w p h = cc
write_coerced_panic encode (some e) w p h =
    (e, refl, write_json_panic encode e (encode e) w p refl h)

-- An answer to the handler's error that panics.
abbrev pub AnswerRaises : (ReqError → Encoding) → Coercer → Option Error → Panic → Type 0
AnswerRaises encode coercer returned_err p =
    (err : Error) × (e : ReqError) × (returned_err ≡ some err)
    × (coercer (some err) ≡ some e)
    × Raises encode e p

abbrev pub error_of : Outcome → Option Error
error_of (returned err) = err
error_of (panicked p) = none

finish_panic :
    {X : Type 0} (encode : ReqError → Encoding) (r : Router X) (req : Request X)
    (run : Outcome × World) (p : Panic)
    → (finish (default_error_writer encode r.coercer) req run).0 ≡ some p
    → (run.0 ≡ panicked p) ⊎ AnswerRaises encode (coercer_or_default r.coercer) (error_of run.0) p
unfolding default_error_writer
finish_panic encode r req (returned none, w) p h = cc
finish_panic encode r req (returned (some err), w) p h =
    let (e, seen, raised) =
      write_coerced_panic encode (coercer_or_default r.coercer (some err)) w p h in
    inr (err, e, refl, seen, raised)
finish_panic encode r req (panicked q, w) p h = inl (ap panicked (some-injective _ _ h))

-- What the default writer makes of a panic's error, when the encoder returns.
write_panic :
    (o : Encoding) (l : Option ℕ) (v : String) (w : World)
    → ((p : Panic) → o ≢ encoder_panics p)
    → w.status ≡ none
    → let out = write_json 500 o (log_error l "handler panic" w) in
      (out.0 ≡ none)
      × (out.1.status ≡ some 500)
      × (out.1.log ≡ w.log ++ record { logger = l; message = "handler panic" } ∷ [])
unfolding write_json try_header open_header write write_header set_header log_error is_status
    is_interim
write_panic unencodable l v w calm h = rw h (refl, refl, refl)
write_panic (encoder_panics p) l v w calm h = absurd (calm p refl)
write_panic (encoded b) l v w calm h = rw h (refl, refl, refl)

module _ {X : Type 0} (encode : ReqError → Encoding) (r : Router X) (rest : List (Middleware X))
    (first : r.middleware ≡ recoverer ∷ rest) where
  wrapped_under_recoverer :
      (h : HandlerFunc X) (mw : List (Middleware X))
      → apply_middleware h (combine_chain r.middleware mw)
        ≡ recoverer (apply_middleware h (rest ++ mw))
  unfolding combine_chain
  wrapped_under_recoverer h mw = rw first (apply_middleware-cons h recoverer (rest ++ mw))

  -- With Recoverer registered first, the default error writer and a coercer that returns, the
  -- panics that leave the route are http.ErrAbortHandler and those of the answer to an error, which
  -- is written outside Recoverer: the encoder's own on the coerced error, or net/http's when the
  -- error's status is out of range. No panic of the handler or of a later middleware leaves it
  -- otherwise.
  pub serve_route_panic :
      (h : HandlerFunc X) (mw : List (Middleware X)) (req : Request X) (w : World) (p : Panic)
      → r.error_writer ≡ none
      → (serve_route encode r h mw req w).0 ≡ some p
      → (p ≡ abort_handler)
        ⊎ AnswerRaises encode
            (coercer_or_default r.coercer)
            (error_of (wrapped_run encode r h mw req w).0)
            p
  unfolding serve_route recoverer
  serve_route_panic h mw req w p dflt ends =
      let req' = attach_logger r.logger req in
      let run = apply_middleware h (rest ++ mw) req' w in
      let ends' : (finish (default_error_writer encode r.coercer) req' (recovered req' run)).0
          ≡ some p =
        rw (dflt, wrapped_under_recoverer h mw) at ends in
      elim (finish_panic encode r req' (recovered req' run) p ends') [
        | inl left ↦ inl (recovered_panic req' run p left)
        | inr raised ↦ inr (rw (wrapped_under_recoverer h mw) raised)
      ]

  -- With Recoverer registered first, a handler that panics before the response is committed is answered with a 500 by the default
  -- coercer and writer, whether or not the error encodes, when the encoder returns, and the panic is logged once, to the
  -- router's logger if it has one.
  pub serve_route_recovers :
      (h : HandlerFunc X) (mw : List (Middleware X)) (req : Request X) (w w' : World) (v : String)
      → r.error_writer ≡ none
      → coercer_or_default r.coercer ≡ default_coercer
      → apply_middleware h (rest ++ mw) (attach_logger r.logger req) w
        ≡ (panicked (other_panic v), w')
      → w'.status ≡ none
      → ((e : ReqError) (p : Panic) → encode e ≢ encoder_panics p)
      → ((serve_route encode r h mw req w).0 ≡ none)
        × ((serve_route encode r h mw req w).1.status ≡ some 500)
        × ((serve_route encode r h mw req w).1.log
            ≡ w'.log
              ++ record {
                logger = logger_from (attach_logger r.logger req).context;
                message = "handler panic";
              }
                ∷ [])
  unfolding serve_route recoverer default_error_writer write_coerced default_coercer as_req_error
      as_error new status_code code_statuses lookup
  serve_route_recovers h mw req w w' v dflt plain_coercer ends fresh calm =
      let (q, s, l) =
        write_panic (encode (new "unknown" [] (plain 0 ("panic: " +s v) ∷ [])))
          (logger_from (attach_logger r.logger req).context) v w'
          (calm (new "unknown" [] (plain 0 ("panic: " +s v) ∷ []))) fresh in
      rw (dflt, wrapped_under_recoverer h mw, ends, plain_coercer) (q, s, l)
