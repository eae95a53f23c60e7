-- ===== src/Pgxdb/Errors/Classes.antt =====
-- The classification of db/pgxdb/errors.go.
use dfl.Base.{
  ℕ, ◌≡◌, refl, ap, ◌∙◌, ◌⊎◌, inl, inr, Bool, true, ◌||◌, Option, none, some, arith, if◌then◌else◌,
  Bool-cases,
}
use dfl.GoErrors.{Error, joined, cons, nil, as_error, or_else, is_error}
use dfl.Pgxdb.Errors.{
  Codes, is_pg_error, as_pg_error, Sentinel, sentinel_error, class_of, with_sentinel,
  classify_error,
}

or_else-none : (o : Option Error) → or_else o none ≡ o
or_else-none none = refl
or_else-none (some e) = refl

-- Below a sentinel the driver's error is found as before.
as_pg_error-joined :
    (s : Sentinel) (err : Error)
    → as_pg_error (joined ": " (cons (sentinel_error s) (cons err nil))) ≡ as_pg_error err
unfolding as_pg_error as_error
as_pg_error-joined s err = rw (or_else-none (as_error is_pg_error err))

is_error-joined :
    (t : ℕ) (s : Sentinel) (err : Error)
    → is_error t (joined ": " (cons (sentinel_error s) (cons err nil)))
      ≡ (is_error t (sentinel_error s) || is_error t err)
unfolding is_error
is_error-joined t s err = ground arith

right-or : (a b : Bool) → b ≡ true → (a || b) ≡ true
right-or a b h = ground arith

left-or : (a b : Bool) → a ≡ true → (a || b) ≡ true
left-or a b h = ground arith

sees_itself : (s : Sentinel) → is_error s.address (sentinel_error s) ≡ true
unfolding is_error
sees_itself s = ground arith

module _ (c : Codes) where
  Named : Sentinel → Error → Type 0
  Named s err =
      ((with_sentinel c err (some s) ≡ err) × (is_error s.address err ≡ true))
      ⊎ (with_sentinel c err (some s) ≡ joined ": " (cons (sentinel_error s) (cons err nil)))

  with_sentinel-cases : (s : Sentinel) (err : Error) → Named s err
  unfolding Named
  with_sentinel-cases s err = elim (Bool-cases (is_error s.address err)) [
    | inl seen ↦ inl (rw seen refl, seen)
    | inr unseen ↦ inr (rw unseen refl)
  ]

  as_pg_error-with_sentinel :
      (err : Error) (o : Option Sentinel) → as_pg_error (with_sentinel c err o) ≡ as_pg_error err
  unfolding Named
  as_pg_error-with_sentinel err none = refl
  as_pg_error-with_sentinel err (some s) = elim (with_sentinel-cases s err) [
    | inl (same, _) ↦ ap as_pg_error same
    | inr wrapped ↦ ap as_pg_error wrapped ∙ as_pg_error-joined s err
  ]

  is_error-with_sentinel :
      (t : ℕ) (err : Error) (o : Option Sentinel)
      → is_error t err ≡ true
      → is_error t (with_sentinel c err o) ≡ true
  unfolding Named
  is_error-with_sentinel t err none h = h
  is_error-with_sentinel t err (some s) h = elim (with_sentinel-cases s err) [
    | inl (same, _) ↦ ap (is_error t) same ∙ h
    | inr wrapped ↦
        ap (is_error t) wrapped
        ∙ is_error-joined t s err
        ∙ right-or (is_error t (sentinel_error s)) (is_error t err) h
  ]

  with_sentinel-sees :
      (s : Sentinel) (err : Error) → is_error s.address (with_sentinel c err (some s)) ≡ true
  unfolding Named
  with_sentinel-sees s err = elim (with_sentinel-cases s err) [
    | inl (same, seen) ↦ ap (is_error s.address) same ∙ seen
    | inr wrapped ↦
        ap (is_error s.address) wrapped
        ∙ is_error-joined s.address s err
        ∙ left-or (is_error s.address (sentinel_error s)) (is_error s.address err) (sees_itself s)
  ]

  with_sentinel-twice :
      (err : Error) (o : Option Sentinel)
      → with_sentinel c (with_sentinel c err o) o ≡ with_sentinel c err o
  with_sentinel-twice err none = refl
  with_sentinel-twice err (some s) =
      ap
        (λ b.
          if b
          then with_sentinel c err (some s)
          else joined ": " (cons (sentinel_error s) (cons (with_sentinel c err (some s)) nil)))
        (with_sentinel-sees s err)

  -- Classifying keeps the driver's error within reach, and so its code and constraint name; every
  -- error that errors.Is saw it still sees; and it sees the sentinel of the error's class.
  pub classify_error_lem :
      (err : Error)
      → (as_pg_error (classify_error c err) ≡ as_pg_error err)
        × ((t : ℕ) → is_error t err ≡ true → is_error t (classify_error c err) ≡ true)
        × ((s : Sentinel)
            → class_of c (as_pg_error err) ≡ some s
            → is_error s.address (classify_error c err) ≡ true)
  unfolding classify_error
  classify_error_lem err = (
    as_pg_error-with_sentinel err (class_of c (as_pg_error err)),
    λ t h. is_error-with_sentinel t err (class_of c (as_pg_error err)) h,
    λ s class.
        ap (λ o. is_error s.address (with_sentinel c err o)) class ∙ with_sentinel-sees s err,
  )

  -- An error is never wrapped twice.
  pub classify_error_idempotent :
      (err : Error) → classify_error c (classify_error c err) ≡ classify_error c err
  unfolding classify_error
  classify_error_idempotent err =
      ap
        (λ pg. with_sentinel c (with_sentinel c err (class_of c (as_pg_error err))) (class_of c pg))
        (as_pg_error-with_sentinel err (class_of c (as_pg_error err)))
      ∙ with_sentinel-twice err (class_of c (as_pg_error err))
