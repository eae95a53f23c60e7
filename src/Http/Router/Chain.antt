-- ===== src/Http/Router/Chain.antt =====
-- The order in which the middleware of a router, its groups and a route run.
use mathlib.Core.List.{reverse-cons}
use dfl.Base.{String, ◌≡◌, refl, sym, ap, ◌∙◌, List, [], ◌∷◌, ◌++◌, reverse, ◌+s◌}
use dfl.Http.ReqError.{ReqError}
use dfl.Http.Wire.{Encoding, HandlerFunc, Middleware}
use dfl.Http.Router.{
  combine_chain, apply_backward, apply_middleware, Router, Route, serve_route, handle_func, group,
  use_middleware, finish, writer_or_default, attach_logger,
}

module _ {ℓ} {H : Type ℓ} where
  apply_backward-append :
      (h : H) (xs : List (H → H)) (m : H → H)
      → apply_backward h (xs ++ m ∷ []) ≡ m (apply_backward h xs)
  unfolding apply_backward
  apply_backward-append h [] m = refl
  apply_backward-append h (x ∷ xs) m = apply_backward-append (x h) xs m

  -- The first middleware of a chain is the outermost.
  pub apply_middleware-cons :
      (h : H) (m : H → H) (mw : List (H → H))
      → apply_middleware h (m ∷ mw) ≡ m (apply_middleware h mw)
  unfolding apply_middleware
  apply_middleware-cons h m mw = rw reverse-cons (apply_backward-append h (reverse mw) m)

  pub apply_middleware-append :
      (h : H) (xs ys : List (H → H))
      → apply_middleware h (xs ++ ys) ≡ apply_middleware (apply_middleware h ys) xs
  apply_middleware-append h [] ys = sym (apply_middleware-nil (apply_middleware h ys))
    where
      apply_middleware-nil : (k : H) → apply_middleware k [] ≡ k
      apply_middleware-nil k = unfold apply_middleware apply_backward in refl
  apply_middleware-append h (x ∷ xs) ys =
      apply_middleware-cons h x (xs ++ ys)
      ∙ ap x (apply_middleware-append h xs ys)
      ∙ sym (apply_middleware-cons (apply_middleware h ys) x xs)

  pub combine_chain_lem : (xs ys : List (H → H)) → combine_chain xs ys ≡ xs ++ ys
  unfolding combine_chain
  combine_chain_lem [] ys = refl
  combine_chain_lem (x ∷ xs) ys = refl

  -- The group's middleware runs around the route's, each in the order of registration.
  pub apply_middleware-combine_chain :
      (h : H) (xs ys : List (H → H))
      → apply_middleware h (combine_chain xs ys) ≡ apply_middleware (apply_middleware h ys) xs
  apply_middleware-combine_chain h xs ys =
      ap (apply_middleware h) (combine_chain_lem xs ys) ∙ apply_middleware-append h xs ys

apply_three {ℓ} :
    {H : Type ℓ} (h : H) (xs ys zs : List (H → H))
    → apply_middleware h (combine_chain (xs ++ ys) zs)
      ≡ apply_middleware (apply_middleware (apply_middleware h zs) ys) xs
apply_three h xs ys zs =
    apply_middleware-combine_chain h (xs ++ ys) zs
    ∙ apply_middleware-append (apply_middleware h zs) xs ys

module _ {X : Type 0} (encode : ReqError → Encoding) (r : Router X) where
  -- A route of a group with middleware of its own is the parent's route at the joined prefix, whose
  -- handler is wrapped by the route's middleware, then the group's, then the parent's.
  pub handle_func-group :
      (prefix method path : String) (h : HandlerFunc X) (mw per_route : List (Middleware X))
      (mux : List (Route X))
      → handle_func encode (use_middleware (group r prefix) mw) method path h per_route mux
        ≡ mux
          ++ record {
            method = method;
            pattern = (r.prefix +s prefix) +s path;
            serve = λ req w.
                let req' = attach_logger r.logger req in
                finish (writer_or_default encode r.error_writer r.coercer) req' (
                  apply_middleware
                    (apply_middleware (apply_middleware h per_route) mw)
                    r.middleware
                    req'
                    w);
          }
            ∷ []
  unfolding handle_func use_middleware group serve_route
  handle_func-group prefix method path h mw per_route mux =
      rw (← apply_three h r.middleware mw per_route)
