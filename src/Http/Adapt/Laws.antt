-- ===== src/Http/Adapt/Laws.antt =====
-- What a route of a typed handler answers.
use dfl.Base.{
  ℕ, ◌≡◌, refl, sym, subst, ap, ◌∙◌, String, Bool, true, false, List, Option, none, some, ◌==◌,
  ==_iff, if◌then◌else◌, Bool-cases, inl, inr,
}
use dfl.GoErrors.{Result, ok, failed}
use dfl.Http.Wire.{
  Context, Request, World, HandlerFunc, Outcome, returned, panicked, set_header, write_header,
  write,
}
use dfl.Http.Parser.Schema.{Value, ReqType, RequestParser, Std}
use dfl.Http.Parser.Plan.{Cache, Binder, build_binder, binder_for}
use dfl.Http.Parser.Planned.{IsPlanned, binder_for-IsAnswered}
use dfl.Http.Parser.Bind.{parse, prepare_for, prepared}
use dfl.Http.Adapt.{
  RespType, Reply, replied, refused, panicking, success_status_for, write_encoded, write_reply,
  after_parse, adapted, adapt, unless_unbindable, parser_or_default,
}

-- What an adapted handler leaves: behind a success the response is committed under the one status that
-- its type has, and behind an error or a panic nothing is written.
abbrev pub IsServed : {A : Type 0} → RespType A → World → Outcome × World → Type 0
IsServed t w (returned none, w') =
    w'.status ≡ some (if t.is_empty then 204 else success_status_for t)
IsServed t w (returned (some err), w') = w' ≡ w
IsServed t w (panicked p, w') = w' ≡ w

written_status :
    (n : ℕ) (buf : String) (w : World)
    → w.status ≡ none
    → (write buf (
        if n == 200
        then set_header "Content-Type" "application/json" w
        else write_header n (set_header "Content-Type" "application/json" w))).status
      ≡ some n
unfolding write write_header set_header
written_status n buf w h = elim (Bool-cases (n == 200)) [
  | inl plain ↦ rw (plain, h) (ap some (sym ((==_iff n 200).0 plain)))
  | inr other ↦ rw (other, h) refl
]

module _ {A : Type 0} (t : RespType A) (w : World) (open_still : w.status ≡ none) where
  write_encoded-IsServed :
      (r : Result String) → t.is_empty ≡ false → IsServed t w (write_encoded t r w)
  write_encoded-IsServed (failed err) h = refl
  write_encoded-IsServed (ok buf) h =
      written_status (success_status_for t) buf w open_still
      ∙ ap (λ e. some (if e then 204 else success_status_for t)) (sym h)

  empty-IsServed : t.is_empty ≡ true → IsServed t w (returned none, write_header 204 w)
  unfolding write_header
  empty-IsServed h =
      rw open_still (ap (λ e. some (if e then 204 else success_status_for t)) (sym h))

  if_IsServed :
      (c : Bool) (x y : Outcome × World)
      → (c ≡ true → IsServed t w x)
      → (c ≡ false → IsServed t w y)
      → IsServed t w (if c then x else y)
  if_IsServed true x y h k = h refl
  if_IsServed false x y h k = k refl

  write_reply-IsServed : (r : Reply A) → IsServed t w (write_reply t r w)
  write_reply-IsServed (panicking p) = refl
  write_reply-IsServed (refused err) = refl
  write_reply-IsServed (replied resp) =
      if_IsServed t.is_empty (returned none, write_header 204 w) (write_encoded t (t.encode resp) w)
        empty-IsServed (write_encoded-IsServed (t.encode resp))

module _ {X A : Type 0} (std : Std) (name : String) (t : ReqType) (zero_req : List Value)
    (resp : RespType A) (handler : Context X → List Value → Reply A) where
  -- An adapted handler on a response that is still open: behind no error the response is committed
  -- under 204 for an empty type and under the type's success status for any other, and behind an error
  -- of the parser, of the typed handler or of the encoder, and behind a panic, nothing is written.
  pub adapted-IsServed :
      (p : RequestParser) (now later : Cache) (r : Request X) (w : World)
      → w.status ≡ none
      → IsServed resp w (adapted std name t zero_req resp handler p now later r w)
  unfolding adapted
  adapted-IsServed p now later r w open_still = go (parse std p name t zero_req now later r).0
    where
      go : (q : Result (List Value)) → IsServed resp w (after_parse resp handler r w q)
      go (failed err) = refl
      go (ok req) = write_reply-IsServed resp w open_still (handler r.context req)

  -- Adapt's answer, for what the plan is.
  abbrev pub IsAdapted :
      RequestParser → Result Binder → Result (Cache → Cache → HandlerFunc X) → Type 0
  IsAdapted p (ok b) h = h ≡ ok (adapted std name t zero_req resp handler p)
  IsAdapted p (failed err) h = h ≡ failed err

  prepared-IsAdapted :
      (p : RequestParser) (a : Result Binder × Cache)
      → IsAdapted p a.0 (unless_unbindable std name t zero_req resp handler p (prepared a)).0
  prepared-IsAdapted p (ok b, cache) = refl
  prepared-IsAdapted p (failed err, cache) = refl

  -- Adapt refuses a Req type exactly when it has no plan, with that very error, whatever the cache
  -- holds, as long as each plan there is its type's.
  pub adapt-IsAdapted :
      (p : Option RequestParser) (types : String → ReqType) (cache later : Cache)
      → types name ≡ t
      → IsPlanned std (parser_or_default p) types cache
      → IsPlanned std (parser_or_default p) types later
      → IsAdapted
          (parser_or_default p)
          (build_binder std (parser_or_default p) t)
          (adapt std name t zero_req resp handler p cache later).0
  unfolding adapt prepare_for
  adapt-IsAdapted p types cache later typed before after =
      let q = parser_or_default p in
      let planned =
        subst (λ u. (binder_for std q name u cache later).0 ≡ build_binder std q u) typed
          (binder_for-IsAnswered std q types name cache later before after).0 in
      subst (λ b. IsAdapted q b (adapt std name t zero_req resp handler p cache later).0) planned
        (prepared-IsAdapted q (binder_for std q name t cache later))
