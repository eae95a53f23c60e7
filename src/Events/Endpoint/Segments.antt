-- ===== src/Events/Endpoint/Segments.antt =====
-- The path segment of an event's route.
use Prim.Native.Char.{Char}
use dfl.Base.{
  List, [], ◌∷◌, ◌++◌, Option, none, some, ◌+s◌, subst, ap, ◌≡◌, refl, String, true, Bool-cases,
  inl, inr, arith, all_chars, lower, all_chars-map_text, map_text_same,
}
use dfl.GoErrors.{Error, Result, ok, failed}
use dfl.Http.ReqError.{ReqError}
use dfl.Http.Wire.{Encoding, Context, HandlerFunc, Middleware}
use dfl.Http.Router.{Router, Route, serve_route, handle_func}
use dfl.Http.Parser.Schema.{Value, ReqType, Std}
use dfl.Http.Parser.Plan.{Cache}
use dfl.Http.Adapt.{Registered, registered, stopped, register_adapted, adapt, handle}
use dfl.Events.EventError.{EventError}
use dfl.Events.Endpoint.{
  is_safe, safe_char, path_safe, segment_of, endpoint, empty_resp, register_endpoint,
}

mux_or : {X : Type 0} → List (Route X) → Registered X → List (Route X)
mux_or other (registered mux) = mux
mux_or other (stopped why) = other

registered_mux : {X : Type 0} {m m' : List (Route X)} → registered m ≡ registered m' → m ≡ m'
unfolding mux_or
registered_mux {m = m} h = ap (mux_or m) h

hyphen-is_safe : is_safe "-" ≡ true
unfolding is_safe
hyphen-is_safe = refl

safe_char-is_safe : (c : Char) → is_safe (safe_char c) ≡ true
unfolding safe_char
safe_char-is_safe c = elim (Bool-cases (is_safe c)) [
  | inl safe ↦ rw safe safe
  | inr other ↦ rw other hyphen-is_safe
]

safe_char-lower : (c : Char) → is_safe c ≡ true → safe_char (lower c) ≡ c
unfolding safe_char is_safe lower
safe_char-lower c h = ground (arith, h)

kept : (name : String) → all_chars is_safe name ≡ true → path_safe name ≡ name
unfolding path_safe
kept name h = map_text_same is_safe (λ c. safe_char (lower c)) name safe_char-lower h

path_safe-is_safe : (name : String) → all_chars is_safe (path_safe name) ≡ true
unfolding path_safe
path_safe-is_safe name =
    all_chars-map_text is_safe (λ c. safe_char (lower c)) name (λ c. safe_char-is_safe (lower c))

-- The segment of an event with that URLSafeName, if it has one, and that name.
abbrev pub IsSegment : Option String → String → String → Type 0
IsSegment none name seg =
    (all_chars is_safe seg ≡ true)
    × (all_chars is_safe name ≡ true → seg ≡ name)
    × (path_safe seg ≡ seg)
IsSegment (some url_safe_name) name seg = seg ≡ url_safe_name

segment_of-IsSegment :
    (url : Option String) (name : String) → IsSegment url name (segment_of url name)
segment_of-IsSegment none name =
    (path_safe-is_safe name, kept name, kept (path_safe name) (path_safe-is_safe name))
segment_of-IsSegment (some url_safe_name) name = refl

-- The one route that a registration adds, behind those that are there.
pub record IsRoute {X : Type 0} (rg : Router X) (url : Option String) (name : String)
    (mux mux' : List (Route X)) : Type 0 where
  pub route : Route X
  pub segment : String
  pub added : mux' ≡ mux ++ route ∷ []
  pub posted : route.method ≡ "POST"
  pub placed : route.pattern ≡ rg.prefix +s ("/events/" +s segment)
  pub is_segment : IsSegment url name segment

module _ {X E : Type 0} (std : Std) (encode : ReqError → Encoding)
    (coercer : Option Error → Option EventError) (validate : E → Option Error)
    (event_name : E → String) (of_fields : List Value → E) (handler : Context X → E → Option Error)
    (rg : Router X) where
  adapted-IsRoute :
      (url : Option String) (name : String) (mw : List (Middleware X)) (mux mux' : List (Route X))
      (cache now later : Cache) (a : Result (Cache → Cache → HandlerFunc X) × Cache)
      → (register_adapted encode rg "POST" ("/events/" +s segment_of url name) mw mux now later a).0
        ≡ registered mux'
      → IsRoute rg url name mux mux'
  unfolding handle_func
  adapted-IsRoute url name mw mux mux' cache now later (failed err, c) h = cc
  adapted-IsRoute url name mw mux mux' cache now later (ok plan, c) h =
      subst (λ m. IsRoute rg url name mux m) (registered_mux h)
        (record {
          route = record {
            method = "POST";
            pattern = rg.prefix +s ("/events/" +s segment_of url name);
            serve = serve_route encode rg (plan now later) mw;
          };
          segment = segment_of url name;
          added = refl;
          posted = refl;
          placed = refl;
          is_segment = segment_of-IsSegment url name;
        })

  -- A registration of an event that does not panic adds one route, a POST under the router's prefix
  -- and "/events/". Its last segment is the event's URLSafeName, as it stands, when the event has one.
  -- Otherwise the segment has none but the characters a to z, 0 to 9, dot, hyphen and underscore, it
  -- is the event's name when that has only such characters, and making a segment of it again changes
  -- nothing.
  pub register_endpoint-IsRoute :
      (type_name : String) (t : ReqType) (zero_req : List Value) (url : Option String)
      (name : String) (mw : List (Middleware X)) (mux mux' : List (Route X))
      (cache now later : Cache)
      → (register_endpoint std encode coercer validate event_name of_fields handler rg type_name t
          zero_req
          (ok (url, name))
          mw
          mux
          cache
          now
          later).0
        ≡ registered mux'
      → IsRoute rg url name mux mux'
  unfolding register_endpoint handle
  register_endpoint-IsRoute type_name t zero_req url name mw mux mux' cache now later h =
      adapted-IsRoute url name mw mux mux' cache now later
        (adapt std type_name t zero_req empty_resp
          (endpoint coercer validate event_name of_fields handler) rg.request_parser cache cache)
        h
