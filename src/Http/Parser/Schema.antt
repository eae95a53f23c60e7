-- ===== src/Http/Parser/Schema.antt =====
-- http/parser.go: the types that reflection shows the parser, the hooks of a RequestParser, and the
-- setters of path and query fields. What encoding/json, a TextUnmarshaler, a custom setter or
-- strconv.ParseFloat make of a text is a parameter.
use dfl.Base.{ℕ, String, Bool, true, false, List, [], Option, none, some, lookup, or_empty, ◌+s◌}
use dfl.GoErrors.{Error, plain, wrapped, Result, ok, failed}
use dfl.Http.Parser.Numbers.{
  ℤ, NumError, syntax_error, range_error, Parsed, parsed, refused, parse_bool, parse_int,
  parse_uint, wrap_int, wrap_uint,
}

-- What a field of the request struct holds.
pub data Value : Type 0 where
  string_value : String → Value
  bool_value : Bool → Value
  int_value : ℤ → Value
  uint_value : ℕ → Value
  -- any other value, a float among them, by a number that stands for it
  other_value : ℕ → Value

-- reflect.Kind: the integers and the floats with their width in bits.
pub data Kind : Type 0 where
  string_kind : Kind
  bool_kind : Kind
  int_kind : ℕ → Kind
  uint_kind : ℕ → Kind
  float_kind : ℕ → Kind
  other_kind : Kind

-- The reflect.Type of a field. A type goes by its full name.
pub record FieldType : Type 0 where
  pub name : String
  pub kind : Kind
  -- its pointer implements encoding.TextUnmarshaler
  pub unmarshals_text : Bool

-- reflect.StructField
pub record Field : Type 0 where
  pub name : String
  pub exported : Bool
  pub type_of : FieldType
  pub tags : List (String × String)

-- f.Tag.Get
abbrev pub tag : String → Field → String
tag key f = or_empty (lookup key f.tags)

-- The reflect.Type of a Req.
pub data ReqType : Type 0 where
  empty : ReqType
  struct : List Field → ReqType
  pointer : ReqType → ReqType
  -- any other kind, by its name
  kind : String → ReqType

-- SetterFunc: the field's value and the raw text give an error, and the field's new value.
abbrev pub SetterFunc : Type 0
SetterFunc = Value → String → Option Error × Value

-- What the parser calls and is not code of the repository.
pub record Std : Type 0 where
  -- strconv.Quote
  pub quote : String → String
  -- the addresses of strconv.ErrSyntax, strconv.ErrRange and io.EOF
  pub err_syntax : ℕ
  pub err_range : ℕ
  pub eof : ℕ
  -- ParseFloat, and SetFloat on a field of that many bits
  pub parse_float : ℕ → String → Result Value
  -- UnmarshalText on a field of the named type
  pub unmarshal_text : String → SetterFunc
  -- json.Unmarshal of a raw message into a field of that type
  pub unmarshal : FieldType → SetterFunc
  -- Decode of a body into a map of raw messages: the error, and what the map holds then
  pub decode_object : String → Option Error × List (String × String)

-- RequestParser, without its cache. DecodeBody gets the body and the struct.
pub record RequestParser : Type 0 where
  pub decode_body : Option (String → List Value → Option Error × List Value)
  pub setters : List (String × SetterFunc)

-- DefaultRequestParser
unfoldable pub default_request_parser : RequestParser
default_request_parser = record { decode_body = none; setters = [] }

module _ (std : Std) where
  abbrev pub num_cause : NumError → Error
  num_cause syntax_error = plain std.err_syntax "invalid syntax"
  num_cause range_error = plain std.err_range "value out of range"

  -- The *strconv.NumError of a function for a text.
  unfoldable pub num_error : String → String → NumError → Error
  num_error func s e =
      wrapped ("strconv." +s func +s ": parsing " +s std.quote s +s ": ") (num_cause e)

  -- The end of a built-in setter: the field keeps its value when the text does not parse.
  abbrev pub stored :
      {A : Type 0} → (A → Value) → (NumError → Error) → Value → Parsed A → Option Error × Value
  stored keep_as err old (parsed x) = (none, keep_as x)
  stored keep_as err old (refused e) = (some (err e), old)

  abbrev pub stored_float : Value → Result Value → Option Error × Value
  stored_float old (ok v) = (none, v)
  stored_float old (failed err) = (some err, old)

  -- The switch on the kind in stringSetter.
  unfoldable pub kind_setter : String → Kind → Result SetterFunc
  unfolding num_error
  kind_setter name string_kind = ok (λ old s. (none, string_value s))
  kind_setter name bool_kind =
      ok (λ old s. stored bool_value (num_error "ParseBool" s) old (parse_bool s))
  kind_setter name (int_kind w) =
      ok
        (λ old s. stored (λ n. int_value (wrap_int w n)) (num_error "ParseInt" s) old (parse_int s))
  kind_setter name (uint_kind w) = ok (λ old s.
      stored (λ n. uint_value (wrap_uint w n)) (num_error "ParseUint" s) old (parse_uint s))
  kind_setter name (float_kind w) = ok (λ old s. stored_float old (std.parse_float w s))
  kind_setter name other_kind = failed (plain 0 ("unsupported field type " +s name))

  abbrev pub built_in : FieldType → Bool → Result SetterFunc
  built_in t true = ok (std.unmarshal_text t.name)
  built_in t false = kind_setter t.name t.kind

  abbrev pub custom_or : FieldType → Option SetterFunc → Result SetterFunc
  custom_or t (some custom) = ok custom
  custom_or t none = built_in t t.unmarshals_text

  -- stringSetter
  unfoldable pub string_setter : RequestParser → FieldType → Result SetterFunc
  unfolding kind_setter
  string_setter p t = custom_or t (lookup t.name p.setters)
