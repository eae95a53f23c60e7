-- ===== src/Http/Parser/Widths.antt =====
-- What the built-in setters do with printed numbers, and that their failures depend on the text alone.
use dfl.Base.{ℕ, suc, ◌≡◌, refl, ap, ◌∙◌, ◌↔◌, String, false, none, lookup, subst}
use dfl.GoErrors.{Error, Result, ok, failed}
use dfl.Http.Parser.Numbers.{
  ℤ, Parsed, parsed, refused, NumError, parse_int, parse_uint, parse_bool, wrap_int, wrap_uint,
}
use dfl.Http.Parser.Numbers.Laws.{
  Fits, int_text, parse_int-int_text, wrap_int-Fits, wrap_int-Fits_self,
}
use dfl.Http.Parser.Schema.{
  Value, int_value, Kind, string_kind, bool_kind, int_kind, uint_kind, float_kind, other_kind,
  FieldType, RequestParser, SetterFunc, Std, string_setter, kind_setter, stored, stored_float,
  num_error, built_in, custom_or,
}
use dfl.Http.Parser.Reasons.{IsSteady}

module _ (std : Std) where
  stored-steady :
      {A : Type 0} (k : A → Value) (err : NumError → Error) (u v : Value) (r : Parsed A)
      → (stored std k err u r).0 ≡ (stored std k err v r).0
  stored-steady k err u v (parsed x) = refl
  stored-steady k err u v (refused e) = refl

  stored_float-steady :
      (u v : Value) (r : Result Value) → (stored_float std u r).0 ≡ (stored_float std v r).0
  stored_float-steady u v (ok x) = refl
  stored_float-steady u v (failed e) = refl

  abbrev pub Steady : Result SetterFunc → Type 0
  Steady (ok set) = IsSteady set
  Steady (failed err) = Unit

  pub kind_setter-Steady : (name : String) (k : Kind) → Steady (kind_setter std name k)
  unfolding kind_setter
  kind_setter-Steady name string_kind = λ u v s. refl
  kind_setter-Steady name bool_kind =
      λ u v s. stored-steady Value.bool_value (num_error std "ParseBool" s) u v (parse_bool s)
  kind_setter-Steady name (int_kind w) = λ u v s.
      stored-steady (λ n. int_value (wrap_int w n)) (num_error std "ParseInt" s) u v (parse_int s)
  kind_setter-Steady name (uint_kind w) = λ u v s.
      stored-steady (λ n. Value.uint_value (wrap_uint w n)) (num_error std "ParseUint" s) u v
        (parse_uint s)
  kind_setter-Steady name (float_kind w) = λ u v s. stored_float-steady u v (std.parse_float w s)
  kind_setter-Steady name other_kind = tt

  -- A field of a signed integer type of w + 1 bits that no custom setter claims and that does not
  -- unmarshal text, given a printed 64-bit integer: the setter takes it without an error whatever the
  -- field's width, stores it modulo 2 ^ (w + 1), and so stores the very integer exactly when that is
  -- one of the field's width.
  pub string_setter-int_text :
      (p : RequestParser) (t : FieldType) (w : ℕ) (old : Value) (z : ℤ)
      → lookup t.name p.setters ≡ none
      → t.unmarshals_text ≡ false
      → t.kind ≡ int_kind (suc w)
      → Fits 63 z
      → (set : SetterFunc) × (string_setter std p t ≡ ok set)
        × (set old (int_text z) ≡ (none, int_value (wrap_int (suc w) z)))
        × ((wrap_int (suc w) z ≡ z) ↔ Fits w z)
  unfolding string_setter kind_setter
  string_setter-int_text p t w old z uncustom plain kinded fits = (
    (λ u s.
        stored std (λ n. int_value (wrap_int (suc w) n)) (num_error std "ParseInt" s) u
          (parse_int s)),
    ap (custom_or std t) uncustom ∙ ap (built_in std t) plain ∙ ap (kind_setter std t.name) kinded,
    rw (parse_int-int_text z fits) refl,
    (λ same. subst (Fits w) same (wrap_int-Fits w z), wrap_int-Fits_self w z),
  )
