-- ===== src/Http/Parser/Claims.antt =====
-- Which fields of a struct its plan binds.
use dfl.Base.{
  ℕ, zero, suc, ◌+◌, ◌<◌, ◌≡◌, refl, sym, ap, subst, String, Bool, true, false, not, List, [], ◌∷◌,
  ◌++◌, Option, none, some, cut_before, if◌then◌else◌, str_eq, ◌||◌, ◌&&◌, ◌==◌, arith, Bool-cases,
  inl, inr, length, length-append, map, get_elem?,
}
use dfl.GoErrors.{Result, ok, failed}
use dfl.Http.Parser.Schema.{
  Field, FieldType, struct, RequestParser, SetterFunc, Std, string_setter, tag,
}
use dfl.Http.Parser.Plan.{
  ParamBind, BodyBind, Binder, new_binder, add_field, add_fields, build_binder, with_setter,
  and_then, add_path, add_query, add_body, lenient_body_type,
}

-- How often a place is bound as a parameter.
abbrev pub params_at : ℕ → List ParamBind → ℕ
params_at j [] = 0
params_at j (pb ∷ pbs) = (if pb.field_idx == j then 1 else 0) + params_at j pbs

abbrev pub bodies_at : ℕ → List BodyBind → ℕ
bodies_at j [] = 0
bodies_at j (fb ∷ fbs) = (if fb.field_idx == j then 1 else 0) + bodies_at j fbs

-- How often a plan binds the field at a place.
abbrev pub binds_at : Binder → ℕ → ℕ
binds_at b j = params_at j b.paths + params_at j b.queries + bodies_at j b.body

-- A field that the tags claim: exported, not the lenient marker, and tagged.
abbrev pub is_claimed : Field → Bool
is_claimed f =
    f.exported
    && not (str_eq f.type_of.name lenient_body_type)
    && (not (str_eq (tag "path" f) "")
        || not (str_eq (tag "query" f) "")
        || not (str_eq (tag "json" f) "" || str_eq (tag "json" f) "-"))

abbrev pub claimed_at : Option Field → ℕ
claimed_at none = 0
claimed_at (some f) = if is_claimed f then 1 else 0

-- The keys of the body are the known ones, in order, and the flag tells whether there are any.
pub record HasKeys (b : Binder) : Type 0 where
  pub known : b.known_body ≡ map (λ fb. fb.key) b.body
  pub flagged : b.has_body ≡ not (length b.body == 0)

params_at-append :
    (j : ℕ) (xs ys : List ParamBind) → params_at j (xs ++ ys) ≡ params_at j xs + params_at j ys
params_at-append j [] ys = omega arith
params_at-append j (x ∷ xs) ys = omega (arith, params_at-append j xs ys)

bodies_at-append :
    (j : ℕ) (xs ys : List BodyBind) → bodies_at j (xs ++ ys) ≡ bodies_at j xs + bodies_at j ys
bodies_at-append j [] ys = omega arith
bodies_at-append j (x ∷ xs) ys = omega (arith, bodies_at-append j xs ys)

-- What a turn of the loop changes.
pub record IsTurn (i : ℕ) (f : Field) (b b' : Binder) : Type 0 where
  pub keys_kept : HasKeys b → HasKeys b'
  pub binds : (j : ℕ) → binds_at b' j ≡ binds_at b j + (if i == j then claimed_at (some f) else 0)

abbrev Turns : ℕ → Field → Binder → Result Binder → Type 0
Turns i f b (ok b') = IsTurn i f b b'
Turns i f b (failed err) = Unit

keys-append :
    (xs : List BodyBind) (fb : BodyBind)
    → map (λ x. x.key) (xs ++ fb ∷ []) ≡ map (λ x. x.key) xs ++ fb.key ∷ []
keys-append [] fb = refl
keys-append (x ∷ xs) fb = ap (λ ks. x.key ∷ ks) (keys-append xs fb)

module _ (i : ℕ) (f : Field) (b : Binder) where
  skipped : (l : Bool) → is_claimed f ≡ false → IsTurn i f b (record b { lenient = l })
  skipped l h = record {
    keys_kept = λ k. record { known = k.known; flagged = k.flagged };
    binds = λ j. ground (arith, h);
  }

  path_added :
      (key : String) (setter : SetterFunc)
      → is_claimed f ≡ true
      → IsTurn i f b (add_path key i b setter)
  path_added key setter h = record {
    keys_kept = λ k. record { known = k.known; flagged = k.flagged };
    binds = λ j. ground (
      arith,
      h,
      params_at-append j b.paths ((record { key = key; field_idx = i; setter = setter }) ∷ []),
    );
  }

  query_added :
      (key : String) (setter : SetterFunc)
      → is_claimed f ≡ true
      → IsTurn i f b (add_query key i b setter)
  query_added key setter h = record {
    keys_kept = λ k. record { known = k.known; flagged = k.flagged };
    binds = λ j. ground (
      arith,
      h,
      params_at-append j b.queries ((record { key = key; field_idx = i; setter = setter }) ∷ []),
    );
  }

  body_added :
      (key : String) (t : FieldType) → is_claimed f ≡ true → IsTurn i f b (add_body key i t b)
  body_added key t h =
      let fb : BodyBind = record { key = key; field_idx = i; type_of = t } in
      record {
        keys_kept = λ k. record {
          known = rw (keys-append b.body fb, k.known);
          flagged = ground (arith, length-append b.body (fb ∷ []));
        };
        binds = λ j. ground (arith, h, bodies_at-append j b.body (fb ∷ []));
      }

  setter_given :
      (add : SetterFunc → Binder) (r : Result SetterFunc)
      → ((setter : SetterFunc) → IsTurn i f b (add setter))
      → Turns i f b (with_setter f add r)
  setter_given add (ok setter) h = h setter
  setter_given add (failed err) h = tt

module _ (std : Std) (p : RequestParser) (i : ℕ) (f : Field) (b : Binder) where
  add_field-Turns : Turns i f b (add_field std p i f b)
  unfolding add_field
  add_field-Turns = elim (Bool-cases f.exported) [
    | inr hidden ↦
        gives (ok b) (ground (arith, hidden)) (skipped i f b b.lenient (ground (arith, hidden)))
    | inl exported ↦ elim (Bool-cases (str_eq f.type_of.name lenient_body_type)) [
      | inl marker ↦
          gives (ok (record b { lenient = true })) (ground (arith, exported, marker))
            (skipped i f b true (ground (arith, marker)))
      | inr plain ↦ elim (Bool-cases (str_eq (tag "path" f) "")) [
        | inr on_path ↦
            gives (with_setter f (add_path (tag "path" f) i b) (string_setter std p f.type_of))
              (ground (arith, exported, plain, on_path))
              (setter_given i f b (add_path (tag "path" f) i b) (string_setter std p f.type_of)
                (λ setter.
                  path_added i f b (tag "path" f) setter
                    (ground (arith, exported, plain, on_path))))
        | inl no_path ↦ unplaced exported plain no_path
      ]
    ]
  ]
    where
      gives :
          (r : Result Binder)
          → add_field std p i f b ≡ r
          → Turns i f b r
          → Turns i f b (add_field std p i f b)
      gives r e h = subst (λ x. Turns i f b x) (sym e) h

      unplaced :
          f.exported ≡ true
          → str_eq f.type_of.name lenient_body_type ≡ false
          → str_eq (tag "path" f) "" ≡ true
          → Turns i f b (add_field std p i f b)
      unplaced exported plain no_path = elim (Bool-cases (str_eq (tag "query" f) "")) [
        | inr in_query ↦
            gives (with_setter f (add_query (tag "query" f) i b) (string_setter std p f.type_of))
              (ground (arith, exported, plain, no_path, in_query))
              (setter_given i f b (add_query (tag "query" f) i b) (string_setter std p f.type_of)
                (λ setter.
                  query_added i f b (tag "query" f) setter
                    (ground (arith, exported, plain, in_query))))
        | inl no_query ↦ elim (Bool-cases (str_eq (tag "json" f) "" || str_eq (tag "json" f) "-")) [
          | inl no_body ↦
              gives (ok b) (ground (arith, exported, plain, no_path, no_query, no_body))
                (skipped i f b b.lenient (ground (arith, no_path, no_query, no_body)))
          | inr in_body ↦
              gives (ok (add_body (cut_before 44 (tag "json" f)) i f.type_of b))
                (ground (arith, exported, plain, no_path, no_query, in_body))
                (body_added i f b (cut_before 44 (tag "json" f)) f.type_of
                  (ground (arith, exported, plain, in_body)))
        ]
      ]

-- What the loop makes of a plan, given the fields from a place on.
abbrev Claims : ℕ → List Field → Binder → Result Binder → Type 0
Claims i fs b (failed err) = Unit
Claims i fs b (ok b') =
    (HasKeys b → HasKeys b')
    × ((j : ℕ) → binds_at b' (i + j) ≡ binds_at b (i + j) + claimed_at (get_elem? fs j))
    × ((j : ℕ) → j < i → binds_at b' j ≡ binds_at b j)

later-Claims :
    (i : ℕ) (f : Field) (fs : List Field) (b b' : Binder) (r : Result Binder)
    → IsTurn i f b b'
    → Claims (suc i) fs b' r
    → Claims i (f ∷ fs) b r
later-Claims i f fs b b' (failed err) turn h = tt
later-Claims i f fs b b' (ok c) turn (keys, here, before) = (
  λ h. keys (turn.keys_kept h),
  at_place,
  λ j below. ground (arith, turn.binds j, before j (omega arith)),
)
  where
    at_place : (j : ℕ) → binds_at c (i + j) ≡ binds_at b (i + j) + claimed_at (get_elem? (f ∷ fs) j)
    at_place zero =
        let e : i + 0 ≡ i = omega arith in
        rw e (ground (arith, turn.binds i, before i (omega arith)))
    at_place (suc j) =
        let e : i + suc j ≡ suc i + j = omega arith in
        rw e (ground (arith, turn.binds (suc i + j), here j))

after-Claims :
    (i : ℕ) (f : Field) (fs : List Field) (b : Binder) (next : Binder → Result Binder)
    (r : Result Binder)
    → Turns i f b r
    → ((b' : Binder) → Claims (suc i) fs b' (next b'))
    → Claims i (f ∷ fs) b (and_then r next)
after-Claims i f fs b next (failed err) turn h = tt
after-Claims i f fs b next (ok b') turn h = later-Claims i f fs b b' (next b') turn (h b')

module _ (std : Std) (p : RequestParser) where
  add_fields-Claims :
      (i : ℕ) (fs : List Field) (b : Binder) → Claims i fs b (add_fields std p i fs b)
  unfolding add_fields
  add_fields-Claims i [] b = (λ h. h, λ j. omega arith, λ j h. refl)
  add_fields-Claims i (f ∷ fs) b =
      after-Claims i f fs b (add_fields std p (suc i) fs) (add_field std p i f b)
        (add_field-Turns std p i f b) (add_fields-Claims (suc i) fs)

  -- The plan of a struct binds every field that is exported, tagged and not the lenient marker exactly
  -- once, and no other field; the keys it knows are those of its body fields, in their order, and it
  -- has a body exactly when there is one.
  pub build_binder-HasKeys :
      (fs : List Field) (b : Binder)
      → build_binder std p (struct fs) ≡ ok b
      → HasKeys b × ((j : ℕ) → binds_at b j ≡ claimed_at (get_elem? fs j))
  unfolding build_binder new_binder
  build_binder-HasKeys fs b built =
      let (keys, binds, _) =
        subst (Claims 0 fs new_binder) built (add_fields-Claims 0 fs new_binder) in
      (
        keys (record { known = refl; flagged = refl }),
        λ j.
            let e : 0 + j ≡ j = omega arith in
            omega (
              arith,
              subst (λ k. binds_at b k ≡ binds_at new_binder k + claimed_at (get_elem? fs j)) e
                  (binds j),
            ),
      )
