-- ===== src/Http/Parser/Planned.antt =====
-- What the plan of a Req type holds, and the cache of plans.
use mathlib.Core.Option.{some-injective}
use dfl.Base.{
  ◌≡◌, refl, sym, ap, subst, ◌∙◌, String, some, lookup, insert, lookup-insert, str_eq, Bool-cases,
  Option-cases, inl, inr, eq_iff,
}
use dfl.GoErrors.{Result, ok, failed}
use dfl.Http.Parser.Schema.{ReqType, RequestParser, Std}
use dfl.Http.Parser.Plan.{Binder, Cache, build_binder, binder_for, after_build}

-- Every plan in the cache is the one its type has; `types` gives the type that goes by a name.
abbrev pub IsPlanned : Std → RequestParser → (String → ReqType) → Cache → Type 0
IsPlanned std p types cache =
    (name : String) (b : Binder)
    → lookup name cache ≡ some b
    → build_binder std p (types name) ≡ ok b

-- The plan that a build answers with, given to the caller unchanged.
abbrev pub IsAnswered :
    Std → RequestParser → (String → ReqType) → String → Result Binder × Cache → Type 0
IsAnswered std p types name r = (r.0 ≡ build_binder std p (types name)) × IsPlanned std p types r.1

module _ (std : Std) (p : RequestParser) (types : String → ReqType) (name : String) where
  insert-IsPlanned :
      (b : Binder) (cache : Cache)
      → build_binder std p (types name) ≡ ok b
      → IsPlanned std p types cache
      → IsPlanned std p types (insert name b cache)
  insert-IsPlanned b cache built h other c found = elim (Bool-cases (str_eq name other)) [
    | inl same ↦
        let here : some b ≡ some c = rw (lookup-insert name other b cache, same) at found in
        subst (λ n. build_binder std p (types n) ≡ ok c) ((eq_iff name other).0 same)
          (built ∙ ap ok (some-injective _ _ here))
    | inr apart ↦ h other c (rw (lookup-insert name other b cache, apart) at found)
  ]

  after_build-IsAnswered :
      (r : Result Binder) (cache : Cache)
      → build_binder std p (types name) ≡ r
      → IsPlanned std p types cache
      → IsAnswered std p types name (after_build name cache r)
  after_build-IsAnswered (failed err) cache e h = (sym e, h)
  after_build-IsAnswered (ok b) cache e h = elim (Option-cases (lookup name cache)) [
    | inl missing ↦ rw missing (sym e, insert-IsPlanned b cache e h)
    | inr (c, kept) ↦ rw kept (sym (h name c kept), h)
  ]

  -- When each plan in the cache is its type's, at the load and at the store, whatever other requests put
  -- there in between, then a caller gets the plan, or the error, that building its type's plan gives, and
  -- each plan in the cache is still its type's.
  pub binder_for-IsAnswered :
      (cache later : Cache)
      → IsPlanned std p types cache
      → IsPlanned std p types later
      → IsAnswered std p types name (binder_for std p name (types name) cache later)
  unfolding binder_for
  binder_for-IsAnswered cache later before after = elim (Option-cases (lookup name cache)) [
    | inl missing ↦
        rw missing (after_build-IsAnswered (build_binder std p (types name)) later refl after)
    | inr (c, kept) ↦ rw kept (sym (before name c kept), after)
  ]
