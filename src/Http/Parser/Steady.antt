-- ===== src/Http/Parser/Steady.antt =====
-- The plans of a parser whose hooks fail on the text alone.
use dfl.Base.{
  ℕ, suc, ◌≡◌, refl, sym, String, Bool, true, false, ◌||◌, List, [], ◌∷◌, lookup, str_eq,
  if◌then◌else◌, All, All-append, subst,
}
use dfl.GoErrors.{Result, ok, failed}
use dfl.Http.Parser.Schema.{
  Field, FieldType, struct, RequestParser, SetterFunc, Std, string_setter, built_in, custom_or, tag,
}
use dfl.Http.Parser.Plan.{
  Binder, new_binder, add_field, add_fields, build_binder, with_setter, and_then, add_path,
  add_query, lenient_body_type,
}
use dfl.Http.Parser.Reasons.{IsSteady}
use dfl.Http.Parser.Widths.{Steady, kind_setter-Steady}

abbrev pub OnOk : (Binder → Type 0) → Result Binder → Type 0
OnOk P (ok b) = P b
OnOk P (failed err) = Unit

if_OnOk :
    (P : Binder → Type 0) (c : Bool) (x y : Result Binder)
    → OnOk P x
    → OnOk P y
    → OnOk P (if c then x else y)
if_OnOk P true x y h k = h
if_OnOk P false x y h k = k

-- Each setter of a plan fails on the text alone, and the plan is one of a struct.
abbrev pub HasSteady : Binder → Type 0
HasSteady b =
    All (λ pb. IsSteady pb.setter) b.paths
    × All (λ pb. IsSteady pb.setter) b.queries
    × (b.noop ≡ false)

module _ (std : Std) (p : RequestParser) where
  string_setter-Steady :
      (t : FieldType)
      → p.setters ≡ []
      → ((name : String) → IsSteady (std.unmarshal_text name))
      → Steady std (string_setter std p t)
  unfolding string_setter lookup
  string_setter-Steady t bare steady =
      subst (λ s. Steady std (custom_or std t (lookup t.name s))) (sym bare)
        (by_text t.unmarshals_text)
    where
      by_text : (b : Bool) → Steady std (built_in std t b)
      by_text true = steady t.name
      by_text false = kind_setter-Steady std t.name t.kind

  with_setter-HasSteady :
      (f : Field) (add : SetterFunc → Binder) (r : Result SetterFunc)
      → Steady std r
      → ((set : SetterFunc) → IsSteady set → HasSteady (add set))
      → OnOk HasSteady (with_setter f add r)
  with_setter-HasSteady f add (ok set) h k = k set h
  with_setter-HasSteady f add (failed err) h k = tt

  module _ (bare : p.setters ≡ [])
      (steady : (name : String) → IsSteady (std.unmarshal_text name)) where
    add_field-HasSteady :
        (i : ℕ) (f : Field) (b : Binder) → HasSteady b → OnOk HasSteady (add_field std p i f b)
    unfolding add_field
    add_field-HasSteady i f b (paths, queries, live) =
        let kept : HasSteady b = (paths, queries, live) in
        let set = string_setter-Steady f.type_of bare steady in
        if_OnOk HasSteady f.exported _ (ok b)
          (if_OnOk HasSteady (str_eq f.type_of.name lenient_body_type)
            (ok (record b { lenient = true })) _ kept
            (if_OnOk HasSteady (str_eq (tag "path" f) "") _ _
              (if_OnOk HasSteady (str_eq (tag "query" f) "") _ _
                (if_OnOk HasSteady (str_eq (tag "json" f) "" || str_eq (tag "json" f) "-") (ok b) _
                  kept kept)
                (with_setter-HasSteady f (add_query (tag "query" f) i b)
                  (string_setter std p f.type_of) set
                  (λ s h. (
                    paths,
                    All-append (λ pb. IsSteady pb.setter) b.queries _ queries (h, tt),
                    live,
                  ))))
              (with_setter-HasSteady f (add_path (tag "path" f) i b) (string_setter std p f.type_of)
                set
                (λ s h.
                  (All-append (λ pb. IsSteady pb.setter) b.paths _ paths (h, tt), queries, live)))))
          kept

    add_fields-HasSteady :
        (i : ℕ) (fs : List Field) (b : Binder)
        → HasSteady b
        → OnOk HasSteady (add_fields std p i fs b)
    unfolding add_fields
    add_fields-HasSteady i [] b h = h
    add_fields-HasSteady i (f ∷ fs) b h =
        go (add_field std p i f b) (add_field-HasSteady i f b h) (add_fields-HasSteady (suc i) fs)
      where
        go :
            (r : Result Binder)
            → OnOk HasSteady r
            → ((c : Binder) → HasSteady c → OnOk HasSteady (add_fields std p (suc i) fs c))
            → OnOk HasSteady (and_then r (add_fields std p (suc i) fs))
        go (ok c) k next = next c k
        go (failed err) k next = tt

    pub build_binder-HasSteady :
        (fs : List Field) (b : Binder) → build_binder std p (struct fs) ≡ ok b → HasSteady b
    unfolding build_binder new_binder
    build_binder-HasSteady fs b built =
        subst (OnOk HasSteady) built (add_fields-HasSteady 0 fs new_binder (tt, tt, refl))
