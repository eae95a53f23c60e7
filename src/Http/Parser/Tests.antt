-- ===== src/Http/Parser/Tests.antt =====
-- The parser on one struct type, and its theorems there.
use dfl.Base.{
  ℕ, ◌≡◌, ◌↔◌, refl, String, Bool, true, false, List, [], ◌∷◌, Option, none, some, lookup, str_eq,
  if◌then◌else◌, contains, cut_before, is_digit, keys, get_elem?, arith,
}
use dfl.GoErrors.{Error, plain, type_error, Result, ok, failed}
use dfl.Http.Wire.{Request}
use dfl.Http.Parser.Numbers.{pos, negsuc, wrap_int, parse_int, parse_uint, scan_uint}
use dfl.Http.Parser.Numbers.Laws.{Fits, int_text}
use dfl.Http.Parser.Schema.{
  Value, string_value, int_value, other_value, Kind, string_kind, int_kind, FieldType, Field,
  struct, Std, RequestParser, SetterFunc, string_setter, kind_setter, stored, num_error,
}
use dfl.Http.Parser.Plan.{
  ParamBind, Binder, new_binder, build_binder, add_fields, add_field, binder_for,
}
use dfl.Http.Parser.Bind.{
  bind, parse, field_at, unknown_keys, is_json, bind_params, bind_param, sort, insert_sorted,
  str_leb,
}
use dfl.Http.Parser.Unknown.{IsSorted, count, unknown_keys-IsSorted}
use dfl.Http.Parser.Planned.{IsPlanned, IsAnswered, binder_for-IsAnswered}
use dfl.Http.Parser.Claims.{HasKeys, binds_at, claimed_at, build_binder-HasKeys}
use dfl.Http.Parser.Reasons.{IsSteady, Reports, request_failures}
use dfl.Http.Parser.Widths.{string_setter-int_text}
use dfl.Http.Parser.Stored.{bind-path_value}
use dfl.Http.Parser.Parsing.{parse-Reports}

-- A text that is the name in quotes goes into strings alone, and any other into integers alone.
abbrev unmarshalled : Kind → Bool → Value → Option Error × Value
unmarshalled string_kind true old = (none, string_value "ada")
unmarshalled string_kind false old = (some (type_error "string" "number" "cannot unmarshal"), old)
unmarshalled (int_kind w) false old = (none, int_value (pos 7))
unmarshalled _ _ old = (some (type_error "int" "string" "cannot unmarshal"), old)

abbrev std : Std
std = record {
  quote = λ s. s;
  err_syntax = 20;
  err_range = 21;
  eof = 22;
  parse_float = λ w s. failed (plain 0 "not a float");
  unmarshal_text = λ name old s. (none, other_value 1);
  unmarshal = λ t old raw. unmarshalled t.kind (str_eq raw "\"ada\"") old;
  decode_object =
      λ body. (none, ("zeta", "1") ∷ ("name", "7") ∷ ("age", "7") ∷ ("alpha", "2") ∷ []);
}

abbrev small_int : FieldType
small_int = record { name = "int8"; kind = int_kind 8; unmarshals_text = false }

abbrev id_field : Field
id_field = record { name = "ID"; exported = true; type_of = small_int; tags = ("path", "id") ∷ [] }

abbrev name_field : Field
name_field = record {
  name = "Name";
  exported = true;
  type_of = record { name = "string"; kind = string_kind; unmarshals_text = false };
  tags = ("json", "name,omitempty") ∷ [];
}

abbrev age_field : Field
age_field = record {
  name = "Age";
  exported = true;
  type_of = small_int;
  tags = ("json", "age") ∷ [];
}

abbrev fields : List Field
fields = id_field ∷ record name_field { exported = false } ∷ name_field ∷ age_field ∷ []

abbrev parser : RequestParser
parser = record { decode_body = none; setters = [] }

abbrev plan_of : Result Binder → Binder
plan_of (ok b) = b
plan_of (failed err) = new_binder

abbrev plan : Binder
plan = plan_of (build_binder std parser (struct fields))

plan_is_built : build_binder std parser (struct fields) ≡ ok plan
unfolding build_binder add_fields add_field new_binder string_setter kind_setter lookup
plan_is_built = refl

abbrev request : Request ℕ
request = record {
  path_value = λ key. if str_eq key "id" then "x" else "";
  query = λ key. "";
  header = λ key. "application/json; charset=utf-8";
  body = "{}";
  remote_addr = "";
  user_agent = "";
  context = record { logger = none; client = none; extra = none };
}

unmarshalled_steady :
    (k : Kind) (b : Bool) (u v : Value) → (unmarshalled k b u).0 ≡ (unmarshalled k b v).0
unmarshalled_steady k b u v = ground arith

unmarshal-IsSteady : (t : FieldType) → IsSteady (std.unmarshal t)
unmarshal-IsSteady t u v s = unmarshalled_steady t.kind (str_eq s "\"ada\"") u v

-- One text that fails or not by the type of the field.
seven_by_type :
    (std.unmarshal small_int (other_value 0) "7" ≡ (none, int_value (pos 7)))
    × ((std.unmarshal name_field.type_of (other_value 0) "7").0
        ≡ some (type_error "string" "number" "cannot unmarshal"))
seven_by_type = (refl, refl)

json_type : is_json "application/json; charset=utf-8" ≡ true
unfolding is_json
json_type = refl

empty-IsPlanned : IsPlanned std parser (λ n. struct fields) []
unfolding lookup
empty-IsPlanned name b h = cc

unknown_keys_in_order :
    unknown_keys plan (("zeta", "1") ∷ ("name", "7") ∷ ("alpha", "2") ∷ []) ≡ "alpha" ∷ "zeta" ∷ []
unfolding unknown_keys sort insert_sorted str_leb contains build_binder add_fields add_field
    new_binder string_setter kind_setter lookup cut_before
unknown_keys_in_order = refl

parse-Reports_example :
    Reports
      (request_failures std parser plan request
        (("zeta", "1") ∷ ("name", "7") ∷ ("age", "7") ∷ ("alpha", "2") ∷ []))
      (parse std parser "Req"
        (struct fields)
        (other_value 0 ∷ other_value 0 ∷ other_value 0 ∷ other_value 0 ∷ [])
        []
        []
        request).0
parse-Reports_example =
    parse-Reports std parser (λ n. struct fields) "Req" [] [] empty-IsPlanned empty-IsPlanned fields
      plan (other_value 0 ∷ other_value 0 ∷ other_value 0 ∷ other_value 0 ∷ []) request
      (("zeta", "1") ∷ ("name", "7") ∷ ("age", "7") ∷ ("alpha", "2") ∷ []) refl plan_is_built refl
      (λ t u v s. refl) unmarshal-IsSteady (refl, json_type, refl)

binder_for-IsAnswered_example :
    IsAnswered std parser
      (λ n. struct fields)
      "Req"
      (binder_for std parser "Req" (struct fields) [] [])
binder_for-IsAnswered_example =
    binder_for-IsAnswered std parser (λ n. struct fields) "Req" [] [] empty-IsPlanned
      empty-IsPlanned

build_binder-HasKeys_example :
    HasKeys plan × ((j : ℕ) → binds_at plan j ≡ claimed_at (get_elem? fields j))
build_binder-HasKeys_example = build_binder-HasKeys std parser fields plan plan_is_built

abbrev raw : List (String × String)
raw = ("zeta", "1") ∷ ("alpha", "2") ∷ []

unknown_keys-IsSorted_example :
    IsSorted (unknown_keys plan raw)
    × ((key : String)
        → count key (unknown_keys plan raw)
          ≡ (if contains plan.known_body key then 0 else count key (keys raw)))
unknown_keys-IsSorted_example = unknown_keys-IsSorted plan raw

no_custom : lookup "int8" parser.setters ≡ none
unfolding lookup
no_custom = refl

string_setter-int_text_example :
    (set : SetterFunc) × (string_setter std parser small_int ≡ ok set)
    × (set (other_value 0) (int_text (pos 300)) ≡ (none, int_value (wrap_int 8 (pos 300))))
    × ((wrap_int 8 (pos 300) ≡ pos 300) ↔ Fits 7 (pos 300))
string_setter-int_text_example =
    string_setter-int_text std parser small_int 7 (other_value 0) (pos 300) no_custom refl refl
      (omega arith)

-- 300 in a field of 8 bits.
three_hundred_wraps : wrap_int 8 (pos 300) ≡ pos 44
unfolding wrap_int
three_hundred_wraps = refl

abbrev good_request : Request ℕ
good_request = record request { path_value = λ key. if str_eq key "id" then "-5" else "" }

abbrev path_bind : ParamBind
path_bind = record {
  key = "id";
  field_idx = 0;
  setter = λ old s.
      stored std (λ n. int_value (wrap_int 8 n)) (num_error std "ParseInt" s) old (parse_int s);
}

abbrev path_plan : Binder
path_plan = record {
  paths = path_bind ∷ [];
  queries = [];
  body = [];
  known_body = [];
  has_body = false;
  lenient = false;
  noop = false;
}

minus_five :
    bind std parser path_plan good_request (other_value 0 ∷ []) ≡ ok (int_value (negsuc 4) ∷ [])
unfolding bind bind_params bind_param parse_int parse_uint scan_uint wrap_int is_digit
minus_five = refl

bind-path_value_example :
    field_at 0 (int_value (negsuc 4) ∷ []) ≡ (path_bind.setter (other_value 0) "-5").1
bind-path_value_example =
    bind-path_value std parser path_plan good_request (other_value 0 ∷ []) 0 path_bind
      (int_value (negsuc 4) ∷ []) refl refl refl refl (omega arith) refl minus_five
