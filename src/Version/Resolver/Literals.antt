-- ===== src/Version/Resolver/Literals.antt =====
-- What the builder calls keep true of a resolver, and what that gives a request.
use mathlib.Core.Option.{some-injective}
use dfl.Base.{
  All, String, ◌≡◌, ◌≢◌, refl, sym, subst, ap, ◌∙◌, Bool, true, false, ◌||◌, List, [], ◌∷◌, ◌++◌,
  Option, none, some, str_eq, eq_iff, trim_space, contains, arith, Bool-cases, inl, inr, ◌⊎◌,
}
use dfl.GoErrors.{Error, text, Result, ok, failed}
use dfl.Http.ReqError.{to_error, wrap}
use dfl.Http.Wire.{Request}
use dfl.Version.Scheme.{Scheme}
use dfl.Version.Resolver.{
  Resolved, Resolver, Source, new_resolver, parses, accepts_literal, add_literal, add_literals,
  allow_literals, set_fallback, resolve_raw, resolve_unpinned, resolve_from, resolve_pinned,
  parsed_or_invalid, err_latest, err_preview, err_invalid,
}

contains-append :
    (xs : List String) (y x : String) → contains (xs ++ y ∷ []) x ≡ (contains xs x || str_eq y x)
unfolding contains
contains-append [] y x = ground arith
contains-append (z ∷ xs) y x = ground (arith, contains-append xs y x)

-- No literal parses as a version, none is both latest and preview, and a fallback means something.
pub record IsWellFormed {V : Type 0} (rv : Resolver V) : Type 0 where
  pub latest_new : (l : String) → contains rv.latest l ≡ true → parses rv.scheme l ≡ false
  pub preview_new : (l : String) → contains rv.preview l ≡ true → parses rv.scheme l ≡ false
  pub apart : (l : String) → contains rv.latest l ≡ true → contains rv.preview l ≡ false
  pub fallback_known :
      (rv.fallback ≡ "")
      ⊎ ((contains rv.latest rv.fallback
            || contains rv.preview rv.fallback
            || parses rv.scheme rv.fallback)
          ≡ true)

module _ {V : Type 0} where
  of_parses : (s : Scheme V) (raw : String) → parses s raw ≡ true → (v : V) × (s.parse raw ≡ ok v)
  of_parses s raw h = go (s.parse raw) refl
    where
      go : (p : Result V) → s.parse raw ≡ p → (v : V) × (s.parse raw ≡ ok v)
      go (ok v) e = (v, e)
      go (failed err) e = (let bad : false ≡ true = rw (e, parses) at h in cc)

  -- A new resolver is well formed.
  pub new_resolver-IsWellFormed :
      (s : Scheme V) (sources : List (Source (Resolved V))) (rv : Resolver V)
      → new_resolver s sources ≡ some rv
      → IsWellFormed rv
  unfolding new_resolver contains
  new_resolver-IsWellFormed s [] rv h = cc
  new_resolver-IsWellFormed s (x ∷ xs) rv h = subst IsWellFormed (some-injective _ _ h) (record {
    latest_new = λ l h. cc;
    preview_new = λ l h. cc;
    apart = λ l h. cc;
    fallback_known = inl refl;
  })

  add_literal-IsWellFormed :
      (b : Bool) (rv : Resolver V) (l : String)
      → accepts_literal rv l ≡ true
      → IsWellFormed rv
      → IsWellFormed (add_literal b rv l)
  add_literal-IsWellFormed true rv l h w = record {
    latest_new = λ m k. ground (arith, contains-append rv.latest l m, w.latest_new m, eq_iff l m);
    preview_new = w.preview_new;
    apart = λ m k. ground (arith, contains-append rv.latest l m, w.apart m, eq_iff l m);
    fallback_known = ground (arith, contains-append rv.latest l rv.fallback);
  }
  add_literal-IsWellFormed false rv l h w = record {
    latest_new = w.latest_new;
    preview_new =
        λ m k. ground (arith, contains-append rv.preview l m, w.preview_new m, eq_iff l m);
    apart = λ m k. ground (arith, contains-append rv.preview l m, w.apart m, eq_iff l m);
    fallback_known = ground (arith, contains-append rv.preview l rv.fallback);
  }

  add_literals-IsWellFormed :
      (b : Bool) (rv : Resolver V) (ls : List String) (rv' : Resolver V)
      → add_literals b rv ls ≡ some rv'
      → IsWellFormed rv
      → IsWellFormed rv'
  unfolding add_literals
  add_literals-IsWellFormed b rv [] rv' h w = subst IsWellFormed (some-injective _ _ h) w
  add_literals-IsWellFormed b rv (l ∷ ls) rv' h w = elim (Bool-cases (accepts_literal rv l)) [
    | inl yes_ok ↦
        add_literals-IsWellFormed b (add_literal b rv l) ls rv' (rw yes_ok at h)
          (add_literal-IsWellFormed b rv l yes_ok w)
    | inr refused ↦
        (let bad : ◌≡◌ {A = Option (Resolver V)} none (some rv') = rw refused at h in cc)
  ]

  -- AllowLatest and AllowPreview keep a resolver well formed, however often and in whatever order
  -- they are called.
  pub allow_literals-IsWellFormed :
      (b : Bool) (rv : Resolver V) (ls : List String) (rv' : Resolver V)
      → allow_literals b rv ls ≡ some rv'
      → IsWellFormed rv
      → IsWellFormed rv'
  unfolding allow_literals
  allow_literals-IsWellFormed b rv [] rv' h w = cc
  allow_literals-IsWellFormed b rv (l ∷ ls) rv' h w =
      add_literals-IsWellFormed b rv (l ∷ ls) rv' h w

  set_fallback-some :
      (rv : Resolver V) (raw : String) (rv' : Resolver V)
      → set_fallback rv raw ≡ some rv'
      → (rv' ≡ record rv { fallback = raw })
        × ((contains rv.latest raw || contains rv.preview raw || parses rv.scheme raw) ≡ true)
  unfolding set_fallback
  set_fallback-some rv raw rv' h = ground arith

  -- Fallback keeps a resolver well formed.
  pub set_fallback-IsWellFormed :
      (rv : Resolver V) (raw : String) (rv' : Resolver V)
      → set_fallback rv raw ≡ some rv'
      → IsWellFormed rv
      → IsWellFormed rv'
  set_fallback-IsWellFormed rv raw rv' h w =
      let (same, known) = set_fallback-some rv raw rv' h in
      subst IsWellFormed (sym same) (record {
        latest_new = w.latest_new;
        preview_new = w.preview_new;
        apart = w.apart;
        fallback_known = inr known;
      })

  -- With a well-formed resolver a raw version that the scheme parses is that version: no literal takes its place.
  pub resolve_raw-parses :
      (rv : Resolver V) (raw : String) (v : V)
      → IsWellFormed rv
      → rv.scheme.parse raw ≡ ok v
      → resolve_raw rv raw ≡ ok v
  unfolding resolve_raw
  resolve_raw-parses rv raw v w h = ground (arith, w.latest_new raw, w.preview_new raw)

  resolve_raw-known :
      (rv : Resolver V) (raw : String)
      → (contains rv.latest raw || contains rv.preview raw || parses rv.scheme raw) ≡ true
      → ((v : V) × (resolve_raw rv raw ≡ ok v))
        ⊎ ((resolve_raw rv raw ≡ failed err_latest) ⊎ (resolve_raw rv raw ≡ failed err_preview))
  unfolding resolve_raw
  resolve_raw-known rv raw known = elim (Bool-cases (contains rv.latest raw)) [
    | inl latest ↦ inr (inl (rw latest))
    | inr not_latest ↦ elim (Bool-cases (contains rv.preview raw)) [
      | inl preview ↦ inr (inr (rw (not_latest, preview)))
      | inr not_preview ↦
          let (v, parsed) = of_parses rv.scheme raw (rw (not_latest, not_preview) at known) in
          inl (v, rw (not_latest, not_preview, parsed))
    ]
  ]

  -- With a well-formed resolver whose fallback is set, a request without a version resolves to a
  -- version, or to the latest or the preview channel.
  pub resolve_unpinned-known :
      (rv : Resolver V)
      → IsWellFormed rv
      → rv.fallback ≢ ""
      → (((v : V) × ((resolve_unpinned rv).0 ≡ ok v)))
        ⊎ (((resolve_unpinned rv).0 ≡ failed err_latest)
            ⊎ ((resolve_unpinned rv).0 ≡ failed err_preview))
  unfolding resolve_unpinned
  resolve_unpinned-known rv w set =
      let on : str_eq rv.fallback "" ≡ false = ground (arith, eq_iff rv.fallback "") in
      let known : (contains rv.latest rv.fallback
            || contains rv.preview rv.fallback
            || parses rv.scheme rv.fallback)
          ≡ true =
        ground arith in
      rw on (resolve_raw-known rv rv.fallback known)

  -- What a raw version means.
  pub data Means (rv : Resolver V) (raw : String) (out : Result V) : Type 0 where
    latest_pin : contains rv.latest raw ≡ true → out ≡ failed err_latest → Means rv raw out
    preview_pin :
        contains rv.latest raw ≡ false
        → contains rv.preview raw ≡ true
        → out ≡ failed err_preview
        → Means rv raw out
    version :
        (v : V)
        → contains rv.latest raw ≡ false
        → contains rv.preview raw ≡ false
        → rv.scheme.parse raw ≡ ok v
        → out ≡ ok v
        → Means rv raw out
    garbled :
        (err : Error)
        → contains rv.latest raw ≡ false
        → contains rv.preview raw ≡ false
        → rv.scheme.parse raw ≡ failed err
        → out
          ≡ failed (
              to_error (wrap err_invalid "version_invalid" (("version", text raw) ∷ []) (err ∷ [])))
        → Means rv raw out

  parsed-Means :
      (rv : Resolver V) (raw : String) (p : Result V)
      → contains rv.latest raw ≡ false
      → contains rv.preview raw ≡ false
      → rv.scheme.parse raw ≡ p
      → Means rv raw (parsed_or_invalid raw p)
  parsed-Means rv raw (ok v) no_latest no_preview h = version v no_latest no_preview h refl
  parsed-Means rv raw (failed err) no_latest no_preview h = garbled err no_latest no_preview h refl

  resolve_raw-Means : (rv : Resolver V) (raw : String) → Means rv raw (resolve_raw rv raw)
  unfolding resolve_raw
  resolve_raw-Means rv raw = elim (Bool-cases (contains rv.latest raw)) [
    | inl latest ↦ latest_pin latest (rw latest refl)
    | inr no_latest ↦ elim (Bool-cases (contains rv.preview raw)) [
      | inl preview ↦ preview_pin no_latest preview (rw (no_latest, preview) refl)
      | inr no_preview ↦
          rw (no_latest, no_preview)
            (parsed-Means rv raw (rv.scheme.parse raw) no_latest no_preview refl)
    ]
  ]

  first_hit :
      (rv : Resolver V) (before after : List (Source (Resolved V))) (s : Source (Resolved V))
      (r : Request (Resolved V))
      → All (λ m. ((m r).1 ≡ false) ⊎ (trim_space (m r).0 ≡ "")) before
      → (s r).1 ≡ true
      → trim_space (s r).0 ≢ ""
      → resolve_from rv (before ++ s ∷ after) r ≡ (resolve_raw rv (trim_space (s r).0), false)
  unfolding resolve_from
  first_hit rv [] after s r _ hit pinned = ground (arith, eq_iff (trim_space (s r).0) "")
  first_hit rv (m ∷ before) after s r (miss, misses) hit pinned =
      ground
        (arith, eq_iff (trim_space (m r).0) "", first_hit rv before after s r misses hit pinned)

  -- The first source of a resolver with a version that is not blank decides, and the outcome counts
  -- as a pin. Its trimmed value alone gives the outcome: a latest or a preview literal is that
  -- channel; any other value is the version that the scheme parses from it, and when it parses none
  -- the error version_invalid with the value, around ErrInvalid and the scheme's error, whatever
  -- the later sources and the fallback are.
  pub resolve_pinned-Means :
      (rv : Resolver V) (before after : List (Source (Resolved V))) (s : Source (Resolved V))
      (r : Request (Resolved V))
      → rv.sources ≡ before ++ s ∷ after
      → All (λ m. ((m r).1 ≡ false) ⊎ (trim_space (m r).0 ≡ "")) before
      → (s r).1 ≡ true
      → trim_space (s r).0 ≢ ""
      → ((resolve_pinned rv r).1 ≡ false) × Means rv (trim_space (s r).0) (resolve_pinned rv r).0
  unfolding resolve_pinned
  resolve_pinned-Means rv before after s r listed misses hit pinned =
      let decided =
        ap (λ ss. resolve_from rv ss r) listed ∙ first_hit rv before after s r misses hit pinned in
      subst (λ q. (q.1 ≡ false) × Means rv (trim_space (s r).0) q.0) (sym decided)
        (refl, resolve_raw-Means rv (trim_space (s r).0))
