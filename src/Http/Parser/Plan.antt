-- ===== src/Http/Parser/Plan.antt =====
-- http/parser.go: the binding plan of a Req type, and the cache of plans.
use dfl.Base.{
  ℕ, suc, String, Bool, true, false, List, [], ◌∷◌, ◌++◌, Option, none, some, lookup, insert,
  cut_before, if◌then◌else◌, str_eq, ◌+s◌, ◌||◌,
}
use dfl.GoErrors.{plain, wrapped, Result, ok, failed}
use dfl.Http.Parser.Schema.{
  Field, FieldType, ReqType, empty, struct, pointer, kind, RequestParser, SetterFunc, Std,
  string_setter, tag,
}

-- paramBind; a field goes by its place in the struct.
pub record ParamBind : Type 0 where
  pub key : String
  pub field_idx : ℕ
  pub setter : SetterFunc

-- bodyBind, with the type of the field at that place, which reflection finds in the struct.
pub record BodyBind : Type 0 where
  pub key : String
  pub field_idx : ℕ
  pub type_of : FieldType

-- binder; knownBody is the list of its keys.
pub record Binder : Type 0 where
  pub paths : List ParamBind
  pub queries : List ParamBind
  pub body : List BodyBind
  pub known_body : List String
  pub has_body : Bool
  pub lenient : Bool
  pub noop : Bool

unfoldable pub new_binder : Binder
new_binder = record {
  paths = [];
  queries = [];
  body = [];
  known_body = [];
  has_body = false;
  lenient = false;
  noop = false;
}

unfoldable pub noop_binder : Binder
unfolding new_binder
noop_binder = record new_binder { noop = true }

abbrev pub lenient_body_type : String
lenient_body_type = "http.LenientBody"

abbrev pub add_path : String → ℕ → Binder → SetterFunc → Binder
add_path key i b setter = record b {
  paths = b.paths ++ (record { key = key; field_idx = i; setter = setter }) ∷ [];
}

abbrev pub add_query : String → ℕ → Binder → SetterFunc → Binder
add_query key i b setter = record b {
  queries = b.queries ++ (record { key = key; field_idx = i; setter = setter }) ∷ [];
}

abbrev pub add_body : String → ℕ → FieldType → Binder → Binder
add_body key i t b = record b {
  body = b.body ++ (record { key = key; field_idx = i; type_of = t }) ∷ [];
  known_body = b.known_body ++ key ∷ [];
  has_body = true;
}

-- A parameter's field: what the plan becomes with its setter, or the error under the field's name.
abbrev pub with_setter : Field → (SetterFunc → Binder) → Result SetterFunc → Result Binder
with_setter f add (ok setter) = ok (add setter)
with_setter f add (failed err) = failed (wrapped ("field " +s f.name +s ": ") err)

abbrev pub and_then : Result Binder → (Binder → Result Binder) → Result Binder
and_then (ok b) next = next b
and_then (failed err) next = failed err

-- The cache: plans by the name of their type.
abbrev pub Cache : Type 0
Cache = List (String × Binder)

-- LoadOrStore
abbrev pub load_or_store : String → Binder → Cache → Option Binder → Result Binder × Cache
load_or_store name b cache (some actual) = (ok actual, cache)
load_or_store name b cache none = (ok b, insert name b cache)

abbrev pub after_build : String → Cache → Result Binder → Result Binder × Cache
after_build name cache (failed err) = (failed err, cache)
after_build name cache (ok b) = load_or_store name b cache (lookup name cache)

abbrev pub must_be_struct : String → Result Binder
must_be_struct got = failed (plain 0 ("req must be a struct, *struct, or http.Empty, got " +s got))

module _ (std : Std) (p : RequestParser) where
  -- A turn of the loop of buildBinder: the field at a place of the struct.
  unfoldable pub add_field : ℕ → Field → Binder → Result Binder
  add_field i f b =
      if f.exported
      then if str_eq f.type_of.name lenient_body_type
        then ok (record b { lenient = true })
        else if str_eq (tag "path" f) ""
        then if str_eq (tag "query" f) ""
          then if str_eq (tag "json" f) "" || str_eq (tag "json" f) "-"
            then ok b
            else ok (add_body (cut_before 44 (tag "json" f)) i f.type_of b)
          else with_setter f (add_query (tag "query" f) i b) (string_setter std p f.type_of)
        else with_setter f (add_path (tag "path" f) i b) (string_setter std p f.type_of)
      else ok b

  -- The loop, from the field at a place on.
  unfoldable pub add_fields : ℕ → List Field → Binder → Result Binder
  unfolding add_field
  add_fields i [] b = ok b
  add_fields i (f ∷ fs) b = and_then (add_field i f b) (add_fields (suc i) fs)

  -- buildBinder
  unfoldable pub build_binder : ReqType → Result Binder
  unfolding add_fields noop_binder new_binder
  build_binder empty = ok noop_binder
  build_binder (struct fs) = add_fields 0 fs new_binder
  build_binder (kind k) = must_be_struct k
  build_binder (pointer empty) = ok noop_binder
  build_binder (pointer (struct fs)) = add_fields 0 fs new_binder
  build_binder (pointer (pointer t)) = must_be_struct "ptr"
  build_binder (pointer (kind k)) = must_be_struct k

  abbrev pub after_load : String → ReqType → Cache → Option Binder → Result Binder × Cache
  after_load name t later (some cached) = (ok cached, later)
  after_load name t later none = after_build name later (build_binder t)

  -- binderFor. The cache is shared: other requests may have changed it between the load, from
  -- `cache`, and the store, into `later`.
  unfoldable pub binder_for : String → ReqType → Cache → Cache → Result Binder × Cache
  binder_for name t cache later = after_load name t later (lookup name cache)
