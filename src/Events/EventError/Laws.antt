-- ===== src/Events/EventError/Laws.antt =====
-- The coercer of the bus, and which errors count as not found.
use mathlib.Core.Option.{some-injective}
use dfl.Base.{
  String, ◌≡◌, refl, sym, ap, ◌∙◌, ◌⊎◌, inl, inr, true, false, [], some, Option-cases, arith,
  eq_iff,
}
use dfl.GoErrors.{Error, event_error, cons, nil, wrapped, is_error, as_error}
use dfl.GoErrors.Laws.{as_error-passes, as_error-none, as_error-Within, Within}
use dfl.Events.EventError.{
  EventError, to_error, of_error, is_event_error, as_event_error, with_event, wrap, default_coercer,
  is_not_found, not_found_addr,
}

to_error-of_error : (f : Error) {c : EventError} → of_error f ≡ some c → to_error c ≡ f
to_error-of_error (event_error a c n m es) h = ap to_error (sym (some-injective _ _ h))
to_error-of_error f h = cc

of_error-is_event_error :
    (f : Error) → is_event_error f ≡ true → (c : EventError) × (of_error f ≡ some c)
of_error-is_event_error (event_error a c n m es) h = (_, refl)
of_error-is_event_error f h = cc

-- What an error is coerced to: an event error of its own tree, or, when the tree has none, one of the
-- code unknown with the error as its one cause.
abbrev pub IsCoerced : Error → EventError → Type 0
IsCoerced err c =
    Within (to_error c) err
    ⊎ (((f : Error) → Within f err → is_event_error f ≡ false)
        × (c.code ≡ "unknown")
        × (c.causes ≡ cons err nil))

pub default_coercer-IsCoerced :
    (err : Error) → (c : EventError) × (default_coercer (some err) ≡ some c) × IsCoerced err c
unfolding default_coercer as_event_error wrap
default_coercer-IsCoerced err = elim (Option-cases (as_error is_event_error err)) [
  | inl miss ↦ (
    wrap err "unknown" [] [],
    rw miss refl,
    inr (λ f w. as_error-none is_event_error f err w miss, refl, refl),
  )
  | inr (f, hit) ↦
      let (c, same) = of_error-is_event_error f (as_error-passes is_event_error f err hit) in
      (
        c,
        rw (hit, same) refl,
        inl (
            as_error-Within is_event_error (to_error c) err
              (hit ∙ ap some (sym (to_error-of_error f same)))),
      )
]

-- Where the NotFound variable has the code not_found, stamping an error with the event's name, which makes a copy, keeps it a not-found: the copy of the
-- NotFound sentinel is no longer that variable, but still has its code.
pub is_not_found-with_event :
    (e : EventError) (name : String)
    → (e.address ≡ not_found_addr → e.code ≡ "not_found")
    → is_not_found (to_error e) ≡ true
    → is_not_found (to_error (with_event e name)) ≡ true
unfolding is_not_found with_event as_event_error as_error is_error
is_not_found-with_event e name sentinel h =
    ground (arith, eq_iff e.event "", eq_iff e.code "not_found")

-- An error counts as not found exactly when errors.Is sees the sentinel in it, or errors.As finds an
-- EventError first that has the code not_found. So wrapping by a message changes nothing.
pub is_not_found-wrapped : (s : String) (e : Error) → is_not_found (wrapped s e) ≡ is_not_found e
unfolding is_not_found as_event_error as_error is_error
is_not_found-wrapped s e = refl
