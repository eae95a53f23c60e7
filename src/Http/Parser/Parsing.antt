-- ===== src/Http/Parser/Parsing.antt =====
-- Parse on a struct type, from the shared cache to the error.
use dfl.Base.{String, ◌≡◌, sym, subst, ap, ◌∙◌, List, []}
use dfl.GoErrors.{Result, ok, failed}
use dfl.Http.Wire.{Request}
use dfl.Http.Parser.Schema.{Value, Field, FieldType, ReqType, struct, RequestParser, Std}
use dfl.Http.Parser.Plan.{Binder, Cache, new_binder, build_binder, binder_for}
use dfl.Http.Parser.Bind.{bind, bind_with, parse}
use dfl.Http.Parser.Planned.{IsPlanned, binder_for-IsAnswered}
use dfl.Http.Parser.Reasons.{IsSteady, IsDecoded, Reports, request_failures, bind-Reports}
use dfl.Http.Parser.Steady.{build_binder-HasSteady}

abbrev plan_of : Result Binder → Binder
plan_of (ok b) = b
plan_of (failed err) = new_binder

module _ {X : Type 0} (std : Std) (p : RequestParser) (types : String → ReqType) (name : String)
    (cache later : Cache) (before : IsPlanned std p types cache)
    (after : IsPlanned std p types later) where
  bind_with-first :
      (r : Request X) (dst : List Value) (a : Result Binder × Cache) (b : Binder)
      → a.0 ≡ ok b
      → (bind_with std p r dst a).0 ≡ bind std p b r dst
  bind_with-first r dst (ok c, d) b h = ap (λ x. bind std p (plan_of x) r dst) h
  bind_with-first r dst (failed err, d) b h = cc

  -- A request whose JSON body decodes, parsed into a struct that the parser has a plan for,
  -- without a custom decoder or custom setters, where json.Unmarshal into a field of one type, and each
  -- type that unmarshals itself, fails or not by the text, whatever the field held before. Whatever plans other requests have put into the cache
  -- meanwhile, each its type's, Parse answers with the struct when no input fails, and otherwise
  -- with the one error that carries a reason for every failure.
  pub parse-Reports :
      (fs : List Field) (b : Binder) (dst : List Value) (r : Request X)
      (raw : List (String × String))
      → types name ≡ struct fs
      → build_binder std p (struct fs) ≡ ok b
      → p.setters ≡ []
      → ((t : String) → IsSteady (std.unmarshal_text t))
      → ((t : FieldType) → IsSteady (std.unmarshal t))
      → IsDecoded std p b r raw
      → Reports (request_failures std p b r raw) (parse std p name (types name) dst cache later r).0
  unfolding parse
  parse-Reports fs b dst r raw typed built bare steady_text steady decoded =
      let (paths, queries, live) = build_binder-HasSteady std p bare steady_text fs b built in
      let (answer, _) = binder_for-IsAnswered std p types name cache later before after in
      let planned : (binder_for std p name (types name) cache later).0 ≡ ok b =
        answer ∙ ap (build_binder std p) typed ∙ built in
      subst (Reports (request_failures std p b r raw))
        (sym (bind_with-first r dst (binder_for std p name (types name) cache later) b planned))
        (bind-Reports std p b r dst raw live decoded steady paths queries)
