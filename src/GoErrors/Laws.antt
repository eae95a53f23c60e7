-- ===== src/GoErrors/Laws.antt =====
-- What errors.As and errors.Is find in an error tree.
use dfl.Base.{
  ℕ, ◌≡◌, refl, sym, subst, Bool, true, false, ◌||◌, ◌⊎◌, inl, inr, List, Option, none, some,
  String, arith, if◌then◌else◌,
}
use dfl.GoErrors.{
  Error, plain, wrapped, joined, req_error, event_error, pg_error, type_error, Errors, nil, cons,
  is_error, any_is, as_error, first_as, or_else, Meta, Reason,
}

or_else-eq-some :
    (a b : Option Error) {f : Error} → or_else a b ≡ some f → (a ≡ some f) ⊎ (b ≡ some f)
or_else-eq-some none b h = inr h
or_else-eq-some (some a) b h = inl h

or_else-eq-none : (a b : Option Error) → or_else a b ≡ none → (a ≡ none) × (b ≡ none)
or_else-eq-none none b h = (refl, h)
or_else-eq-none (some a) b h = cc

-- A test of a node before what stands below it.
pick-eq-some :
    (b : Bool) (e f : Error) (below : Option Error)
    → (if b then some e else below) ≡ some f
    → ((b ≡ true) × (e ≡ f)) ⊎ (below ≡ some f)
pick-eq-some true e f below h = inl (refl, cc)
pick-eq-some false e f below h = inr h

||-inr : (a b : Bool) → b ≡ true → (a || b) ≡ true
||-inr true b h = refl
||-inr false b h = h

module _ (p : Error → Bool) (f : Error) where
  mutual
    unfolding as_error

    found-passes : (e : Error) → as_error p e ≡ some f → p f ≡ true
    found-passes (plain a s) h = ground arith
    found-passes (wrapped s e) h = elim (pick-eq-some _ _ f (as_error p e) h) [
      | inl (t, same) ↦ rw same at t
      | inr below ↦ found-passes e below
    ]
    found-passes (joined sep es) h = elim (pick-eq-some _ _ f (first_as p es) h) [
      | inl (t, same) ↦ rw same at t
      | inr below ↦ all_found-passes es below
    ]
    found-passes (req_error c m rs s es) h = elim (pick-eq-some _ _ f (first_as p es) h) [
      | inl (t, same) ↦ rw same at t
      | inr below ↦ all_found-passes es below
    ]
    found-passes (event_error a c n m es) h = elim (pick-eq-some _ _ f (first_as p es) h) [
      | inl (t, same) ↦ rw same at t
      | inr below ↦ all_found-passes es below
    ]
    found-passes (pg_error c n s) h = ground arith
    found-passes (type_error w g s) h = ground arith

    all_found-passes : (es : Errors) → first_as p es ≡ some f → p f ≡ true
    all_found-passes nil h = cc
    all_found-passes (cons e es) h = elim (or_else-eq-some (as_error p e) (first_as p es) h) [
      | inl here ↦ found-passes e here
      | inr later ↦ all_found-passes es later
    ]

  -- What errors.As finds passes the test for its target type.
  pub as_error-passes : (e : Error) → as_error p e ≡ some f → p f ≡ true
  as_error-passes e h = found-passes e h

module _ (p : Error → Bool) (t : ℕ) (f : Error) (here : is_error t f ≡ true) where
  mutual
    unfolding as_error is_error

    found-is : (e : Error) → as_error p e ≡ some f → is_error t e ≡ true
    found-is (plain a s) h = elim (pick-eq-some _ _ f none h) [
      | inl (_, same) ↦ subst (λ x. is_error t x ≡ true) (sym same) here
      | inr below ↦ cc
    ]
    found-is (wrapped s e) h = elim (pick-eq-some _ _ f (as_error p e) h) [
      | inl (_, same) ↦ subst (λ x. is_error t x ≡ true) (sym same) here
      | inr below ↦ found-is e below
    ]
    found-is (joined sep es) h = elim (pick-eq-some _ _ f (first_as p es) h) [
      | inl (_, same) ↦ subst (λ x. is_error t x ≡ true) (sym same) here
      | inr below ↦ all_found-is es below
    ]
    found-is (req_error c m rs s es) h = elim (pick-eq-some _ _ f (first_as p es) h) [
      | inl (_, same) ↦ subst (λ x. is_error t x ≡ true) (sym same) here
      | inr below ↦ all_found-is es below
    ]
    found-is (event_error a c n m es) h = elim (pick-eq-some _ _ f (first_as p es) h) [
      | inl (_, same) ↦ subst (λ x. is_error t x ≡ true) (sym same) here
      | inr below ↦ ||-inr _ _ (all_found-is es below)
    ]
    found-is (pg_error c n s) h = elim (pick-eq-some _ _ f none h) [
      | inl (_, same) ↦ subst (λ x. is_error t x ≡ true) (sym same) here
      | inr below ↦ cc
    ]
    found-is (type_error w g s) h = elim (pick-eq-some _ _ f none h) [
      | inl (_, same) ↦ subst (λ x. is_error t x ≡ true) (sym same) here
      | inr below ↦ cc
    ]

    all_found-is : (es : Errors) → first_as p es ≡ some f → any_is t es ≡ true
    all_found-is nil h = cc
    all_found-is (cons e es) h = elim (or_else-eq-some (as_error p e) (first_as p es) h) [
      | inl first ↦ ground (arith, found-is e first)
      | inr later ↦ ||-inr _ _ (all_found-is es later)
    ]

  -- Whatever errors.Is sees in the error that errors.As found, it sees in the whole error.
  pub is_error-as_error : (e : Error) → as_error p e ≡ some f → is_error t e ≡ true
  is_error-as_error e h = found-is e h

-- One error stands in the tree of another, itself included.
mutual
  pub data Within (f : Error) : Error → Type 0 where
    itself : Within f f
    in_wrapped : {s : String} {e : Error} → Within f e → Within f (wrapped s e)
    in_joined : {sep : String} {es : Errors} → WithinAny f es → Within f (joined sep es)
    in_req :
        {c : String} {m : Meta} {rs : List Reason} {s : ℕ} {es : Errors}
        → WithinAny f es
        → Within f (req_error c m rs s es)
    in_event :
        {a : ℕ} {c n : String} {m : Meta} {es : Errors}
        → WithinAny f es
        → Within f (event_error a c n m es)

  pub data WithinAny (f : Error) : Errors → Type 0 where
    at_head : {e : Error} {es : Errors} → Within f e → WithinAny f (cons e es)
    at_tail : {e : Error} {es : Errors} → WithinAny f es → WithinAny f (cons e es)

if-none :
    (b : Bool) (e : Error) (below : Option Error)
    → (if b then some e else below) ≡ none
    → (b ≡ false) × (below ≡ none)
if-none true e below h = cc
if-none false e below h = (refl, h)

module _ (p : Error → Bool) where
  mutual
    unfolding as_error

    none-fails : (f e : Error) → Within f e → as_error p e ≡ none → p f ≡ false
    none-fails f (plain a s) itself h = (if-none _ _ none h).0
    none-fails f (wrapped s e) itself h = (if-none _ _ (as_error p e) h).0
    none-fails f (wrapped s e) (in_wrapped w) h = none-fails f e w (if-none _ _ (as_error p e) h).1
    none-fails f (joined sep es) itself h = (if-none _ _ (first_as p es) h).0
    none-fails f (joined sep es) (in_joined w) h =
        all_none-fails f es w (if-none _ _ (first_as p es) h).1
    none-fails f (req_error c m rs s es) itself h = (if-none _ _ (first_as p es) h).0
    none-fails f (req_error c m rs s es) (in_req w) h =
        all_none-fails f es w (if-none _ _ (first_as p es) h).1
    none-fails f (event_error a c n m es) itself h = (if-none _ _ (first_as p es) h).0
    none-fails f (event_error a c n m es) (in_event w) h =
        all_none-fails f es w (if-none _ _ (first_as p es) h).1
    none-fails f (pg_error c n s) itself h = (if-none _ _ none h).0
    none-fails f (type_error w g s) itself h = (if-none _ _ none h).0

    all_none-fails : (f : Error) (es : Errors) → WithinAny f es → first_as p es ≡ none → p f ≡ false
    all_none-fails f nil w h = elim w [ ]
    all_none-fails f (cons e es) (at_head w) h =
        none-fails f e w (or_else-eq-none (as_error p e) (first_as p es) h).0
    all_none-fails f (cons e es) (at_tail w) h =
        all_none-fails f es w (or_else-eq-none (as_error p e) (first_as p es) h).1

  -- When errors.As finds nothing, no error of the tree passes the test.
  pub as_error-none : (f e : Error) → Within f e → as_error p e ≡ none → p f ≡ false
  as_error-none f e w h = none-fails f e w h

module _ (p : Error → Bool) (f : Error) where
  here-Within : (e : Error) → e ≡ f → Within f e
  here-Within e same = subst (λ x. Within f x) (sym same) itself

  mutual
    unfolding as_error

    found-Within : (e : Error) → as_error p e ≡ some f → Within f e
    found-Within (plain a s) h = elim (pick-eq-some _ _ f none h) [
      | inl (_, same) ↦ here-Within _ same
      | inr below ↦ cc
    ]
    found-Within (wrapped s e) h = elim (pick-eq-some _ _ f (as_error p e) h) [
      | inl (_, same) ↦ here-Within _ same
      | inr below ↦ in_wrapped (found-Within e below)
    ]
    found-Within (joined sep es) h = elim (pick-eq-some _ _ f (first_as p es) h) [
      | inl (_, same) ↦ here-Within _ same
      | inr below ↦ in_joined (all_found-Within es below)
    ]
    found-Within (req_error c m rs s es) h = elim (pick-eq-some _ _ f (first_as p es) h) [
      | inl (_, same) ↦ here-Within _ same
      | inr below ↦ in_req (all_found-Within es below)
    ]
    found-Within (event_error a c n m es) h = elim (pick-eq-some _ _ f (first_as p es) h) [
      | inl (_, same) ↦ here-Within _ same
      | inr below ↦ in_event (all_found-Within es below)
    ]
    found-Within (pg_error c n s) h = elim (pick-eq-some _ _ f none h) [
      | inl (_, same) ↦ here-Within _ same
      | inr below ↦ cc
    ]
    found-Within (type_error w g s) h = elim (pick-eq-some _ _ f none h) [
      | inl (_, same) ↦ here-Within _ same
      | inr below ↦ cc
    ]

    all_found-Within : (es : Errors) → first_as p es ≡ some f → WithinAny f es
    all_found-Within nil h = cc
    all_found-Within (cons e es) h = elim (or_else-eq-some (as_error p e) (first_as p es) h) [
      | inl here ↦ at_head (found-Within e here)
      | inr later ↦ at_tail (all_found-Within es later)
    ]

  -- What errors.As finds stands in the tree.
  pub as_error-Within : (e : Error) → as_error p e ≡ some f → Within f e
  as_error-Within e h = found-Within e h
