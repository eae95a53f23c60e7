-- ===== src/Http/Parser/Values.antt =====
-- What the struct holds behind a binding.
use mathlib.Core.Option.{some-injective}
use dfl.Base.{
  ℕ, zero, suc, ◌+◌, ◌≤◌, ◌<◌, ◌≡◌, refl, sym, ap, ◌∙◌, subst, String, Bool, true, false, List, [],
  ◌∷◌, Option, none, some, length, get_elem?, str_eq, if◌then◌else◌, ◌==◌, ==_iff, arith,
  Bool-cases, inl, inr,
}
use dfl.GoErrors.{Error, Reason}
use dfl.Http.Parser.Schema.{Value}
use dfl.Http.Parser.Plan.{ParamBind}
use dfl.Http.Parser.Claims.{params_at}
use dfl.Http.Parser.Bind.{Progress, field_at, set_field, after_set, bind_param, bind_params}

field_at-set_field_self :
    (i : ℕ) (v : Value) (dst : List Value) → i < length dst → field_at i (set_field i v dst) ≡ v
field_at-set_field_self i v [] h = absurd (omega arith)
field_at-set_field_self zero v (x ∷ xs) h = refl
field_at-set_field_self (suc i) v (x ∷ xs) h = field_at-set_field_self i v xs (omega arith)

field_at-set_field_other :
    (i j : ℕ) (v : Value) (dst : List Value)
    → (i == j) ≡ false
    → field_at j (set_field i v dst) ≡ field_at j dst
field_at-set_field_other i j v [] h = refl
field_at-set_field_other zero zero v (x ∷ xs) h = absurd (ground arith)
field_at-set_field_other zero (suc j) v (x ∷ xs) h = refl
field_at-set_field_other (suc i) zero v (x ∷ xs) h = refl
field_at-set_field_other (suc i) (suc j) v (x ∷ xs) h =
    field_at-set_field_other i j v xs (ground arith)

length-set_field : (i : ℕ) (v : Value) (dst : List Value) → length (set_field i v dst) ≡ length dst
length-set_field i v [] = refl
length-set_field zero v (x ∷ xs) = refl
length-set_field (suc i) v (x ∷ xs) = ap suc (length-set_field i v xs)

pub after_set_struct :
    (why : Error → Reason) (i : ℕ) (reasons : List Reason) (dst : List Value)
    (r : Option Error × Value)
    → (after_set why i reasons dst r).1 ≡ set_field i r.1 dst
after_set_struct why i reasons dst (none, v) = refl
after_set_struct why i reasons dst (some err, v) = refl

-- A field that keeps its value, in a struct that keeps its size.
abbrev pub Kept : ℕ → List Value → List Value → Type 0
Kept j dst dst' = (field_at j dst' ≡ field_at j dst) × (length dst' ≡ length dst)

Kept-trans : (j : ℕ) (xs ys zs : List Value) → Kept j xs ys → Kept j ys zs → Kept j xs zs
Kept-trans j xs ys zs (same, size) (same', size') = (same' ∙ same, size' ∙ size)

pub set_field-Kept :
    (i j : ℕ) (v : Value) (dst : List Value) → (i == j) ≡ false → Kept j dst (set_field i v dst)
set_field-Kept i j v dst h = (field_at-set_field_other i j v dst h, length-set_field i v dst)

-- Nothing behind the head is at a place that the whole is not at.
pub not_head : (c : Bool) (n : ℕ) → (if c then 1 else 0) + n ≡ 0 → (c ≡ false) × (n ≡ 0)
not_head true n h = absurd (omega arith)
not_head false n h = (refl, omega arith)

pub params_at_pos :
    (pbs : List ParamBind) (k : ℕ) (pb : ParamBind)
    → get_elem? pbs k ≡ some pb
    → 1 ≤ params_at pb.field_idx pbs
params_at_pos [] k pb h = cc
params_at_pos (x ∷ xs) zero pb h =
    let e : x ≡ pb = some-injective _ _ h in rw e (ground (arith, ==_iff pb.field_idx pb.field_idx))
params_at_pos (x ∷ xs) (suc k) pb h = omega (arith, params_at_pos xs k pb h)

-- A place that is taken once, behind the head.
only_behind : (c : Bool) (n : ℕ) → (if c then 1 else 0) + n ≡ 1 → 1 ≤ n → (c ≡ false) × (n ≡ 1)
only_behind true n h k = absurd (omega arith)
only_behind false n h k = (refl, omega arith)

module _ (place : String) (read : String → String) where
  -- The field of a parameter has what its setter makes of the text, in a struct of the same size.
  abbrev pub Sets : ParamBind → Progress → Progress → Type 0
  Sets pb st st' =
      (field_at pb.field_idx st'.1 ≡ (pb.setter (field_at pb.field_idx st.1) (read pb.key)).1)
      × (length st'.1 ≡ length st.1)

  came_in :
      (pb : ParamBind) (reasons : List Reason) (dst : List Value)
      → str_eq (read pb.key) "" ≡ false
      → (bind_param place read pb (reasons, dst)).1
        ≡ set_field pb.field_idx (pb.setter (field_at pb.field_idx dst) (read pb.key)).1 dst
  unfolding bind_param
  came_in pb reasons dst came = rw came (
      after_set_struct _ pb.field_idx reasons dst
        (pb.setter (field_at pb.field_idx dst) (read pb.key)))

  bind_param-Kept :
      (pb : ParamBind) (st : Progress) (j : ℕ)
      → (pb.field_idx == j) ≡ false
      → Kept j st.1 (bind_param place read pb st).1
  unfolding bind_param
  bind_param-Kept pb (reasons, dst) j apart = elim (Bool-cases (str_eq (read pb.key) "")) [
    | inl gone ↦ rw gone (refl, refl)
    | inr came ↦ rw (came_in pb reasons dst came) (
        set_field-Kept pb.field_idx j (pb.setter (field_at pb.field_idx dst) (read pb.key)).1 dst
          apart)
  ]

  pub bind_params-Kept :
      (pbs : List ParamBind) (st : Progress) (j : ℕ)
      → params_at j pbs ≡ 0
      → Kept j st.1 (bind_params place read pbs st).1
  unfolding bind_params
  bind_params-Kept [] st j h = (refl, refl)
  bind_params-Kept (pb ∷ pbs) st j h =
      let (apart, rest) = not_head (pb.field_idx == j) (params_at j pbs) h in
      Kept-trans j st.1 (bind_param place read pb st).1 _ (bind_param-Kept pb st j apart)
        (bind_params-Kept pbs (bind_param place read pb st) j rest)

  head-field_at :
      (pb : ParamBind) (pbs : List ParamBind) (st : Progress)
      → params_at pb.field_idx (pb ∷ pbs) ≡ 1
      → str_eq (read pb.key) "" ≡ false
      → pb.field_idx < length st.1
      → Sets pb st (bind_params place read (pb ∷ pbs) st)
  unfolding bind_params
  head-field_at pb pbs (reasons, dst) once came room =
      let none_behind : params_at pb.field_idx pbs ≡ 0 =
        ground (arith, ==_iff pb.field_idx pb.field_idx) in
      let v = (pb.setter (field_at pb.field_idx dst) (read pb.key)).1 in
      let (same, size) =
        bind_params-Kept pbs (bind_param place read pb (reasons, dst)) pb.field_idx none_behind in
      (
        same ∙ rw (came_in pb reasons dst came) (field_at-set_field_self pb.field_idx v dst room),
        size ∙ rw (came_in pb reasons dst came) (length-set_field pb.field_idx v dst),
      )

  -- A parameter that came, whose field no other parameter of the list has, sets it.
  pub bind_params-field_at :
      (pbs : List ParamBind) (k : ℕ) (pb : ParamBind) (st : Progress)
      → get_elem? pbs k ≡ some pb
      → params_at pb.field_idx pbs ≡ 1
      → str_eq (read pb.key) "" ≡ false
      → pb.field_idx < length st.1
      → Sets pb st (bind_params place read pbs st)
  unfolding bind_params
  bind_params-field_at [] k pb st found once came room = cc
  bind_params-field_at (x ∷ xs) zero pb st found once came room =
      let e : pb ≡ x = sym (some-injective _ _ found) in
      subst (λ y. Sets pb st (bind_params place read (y ∷ xs) st)) e
        (head-field_at pb xs st (subst (λ y. params_at pb.field_idx (y ∷ xs) ≡ 1) (sym e) once) came
          room)
  bind_params-field_at (x ∷ xs) (suc k) pb st found once came room =
      let (apart, behind) =
        only_behind (x.field_idx == pb.field_idx) (params_at pb.field_idx xs) once
          (params_at_pos xs k pb found) in
      let (same, size) = bind_param-Kept x st pb.field_idx apart in
      let (at_end, size') =
        bind_params-field_at xs k pb (bind_param place read x st) found behind came
          (rw size room) in
      (at_end ∙ ap (λ v. (pb.setter v (read pb.key)).1) same, size' ∙ size)
