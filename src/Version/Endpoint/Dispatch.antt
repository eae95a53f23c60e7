-- ===== src/Version/Endpoint/Dispatch.antt =====
-- Which handler Endpoint.Serve runs, what it tells the handler, and what a withdrawal answers.
use dfl.Base.{
  ◌+s◌, ◌-◌, ◌≡◌, ◌≢◌, refl, subst, ap, ◌∙◌, Bool, true, false, Option, none, some, get_elem?,
  length, arith, Bool-cases, inl, inr, ◌⊎◌, String, lookup,
}
use dfl.GoErrors.{Error, Result, ok, failed, is_error}
use dfl.Http.Wire.{Request, World, Outcome, returned, HandlerFunc, set_header}
use dfl.Http.ReqError.{ReqError, status_code, code_statuses, to_error, wrap}
use dfl.Version.Scheme.{IsOrder, is_gt}
use dfl.Version.Resolver.{
  Resolved, resolve_pinned, err_latest_addr, err_preview_addr, err_withdrawn_addr,
}
use dfl.Version.Search.Laws.{lt_of_get_elem?}
use dfl.Version.Endpoint.{
  Variant, Endpoint, pick, newest, Asked, version, latest_pin, preview_pin, refused, asked_of,
  Chosen, reject, overlay, dated, choose, choose_newest, choose_picked, choose_preview, set_if,
  call_variant, serve_dated, serve_chosen, withdrawn_error, serve, unconfigured_error,
  is_unconfigured, channel,
}
use dfl.Version.Endpoint.Order.{IsOrdered}
use dfl.Version.Endpoint.Pick.{IsMember, IsNewestUpTo, not_newer_of_le, pick_sound}

-- The response is as it was, but for headers that are not sent yet.
pub record OnlyHeaders (w w' : World) : Type 0 where
  pub status : w'.status ≡ w.status
  pub sent : w'.sent_headers ≡ w.sent_headers
  pub body : w'.body ≡ w.body
  pub log : w'.log ≡ w.log

set_if-OnlyHeaders :
    (on : Bool) (name value : String) (w : World) → OnlyHeaders w (set_if on name value w)
unfolding set_header
set_if-OnlyHeaders on name value w = ground arith

set_twice-OnlyHeaders :
    (a b : Bool) (m n u v : String) (w : World) → OnlyHeaders w (set_if b n v (set_if a m u w))
set_twice-OnlyHeaders a b m n u v w =
    let p = set_if-OnlyHeaders a m u w in
    let q = set_if-OnlyHeaders b n v (set_if a m u w) in
    record {
      status = q.status ∙ p.status;
      sent = q.sent ∙ p.sent;
      body = q.body ∙ p.body;
      log = q.log ∙ p.log;
    }

module _ {V : Type 0} (zero_version : V) (e : Endpoint V) (o : IsOrder e.resolver.scheme.compare)
    (sorted : IsOrdered e) where
  -- Why a dated variant answers: it is what the pin asked for, or the newest of all on a channel.
  pub data Serves (asked : Result V) (res : Resolved V) (x : Variant V) : Type 0 where
    stable :
        asked ≡ ok res.requested
        → res.latest ≡ false
        → res.preview ≡ false
        → IsNewestUpTo e res.requested x
        → Serves asked res x
    on_channel :
        (err : Error)
        → asked ≡ failed err
        → ((res.latest ≡ true) × (res.preview ≡ false) × (is_error err_latest_addr err ≡ true))
          ⊎ ((res.latest ≡ false)
              × (res.preview ≡ true)
              × (is_error err_preview_addr err ≡ true)
              × (e.preview ≡ none))
        → res.requested ≡ x.version
        → ((y : Variant V)
            → IsMember e y
            → is_gt (e.resolver.scheme.compare y.version x.version) ≡ false)
        → Serves asked res x

  -- What Serve may do with a request.
  pub data Dispatched (r : Request (Resolved V)) (w : World) (out : Outcome × World) : Type 0 where
    answered_error : (err : Error) → out ≡ (returned (some err), w) → Dispatched r w out
    ran_variant :
        (x : Variant V) (h : HandlerFunc (Resolved V)) (res : Resolved V) (w' : World)
        → IsMember e x
        → x.handle ≡ some h
        → res.served ≡ x.version
        → Serves (resolve_pinned e.resolver r).0 res x
        → OnlyHeaders w w'
        → out ≡ call_variant h res r w'
        → Dispatched r w out
    ran_preview :
        (h : HandlerFunc (Resolved V)) (res : Resolved V) (w' : World)
        → e.preview ≡ some h
        → res.preview ≡ true
        → OnlyHeaders w w'
        → out ≡ call_variant h res r w'
        → Dispatched r w out

  serve_dated-Dispatched :
      (unpinned : Bool) (requested : V) (x : Variant V) (latest preview : Bool)
      (oh : Option (HandlerFunc (Resolved V))) (r : Request (Resolved V)) (w : World)
      → x.handle ≡ oh
      → IsMember e x
      → Serves
          (resolve_pinned e.resolver r).0
          (record { requested = requested; served = x.version; latest = latest; preview = preview })
          x
      → Dispatched r w (serve_dated e unpinned requested x latest preview oh r w)
  unfolding serve_dated
  serve_dated-Dispatched unpinned requested x latest preview none r w has mem why =
      answered_error _ refl
  serve_dated-Dispatched unpinned requested x latest preview (some h) r w has mem why =
      ran_variant x h _ _ mem has refl why (set_twice-OnlyHeaders unpinned true _ _ _ _ w) refl

  newest-IsMember :
      (x : Variant V)
      → newest e.variants ≡ some x
      → IsMember e x
        × ((y : Variant V)
            → IsMember e y
            → is_gt (e.resolver.scheme.compare y.version x.version) ≡ false)
  newest-IsMember x got =
      let (pos, at) = last x got in
      (
        (length e.variants - 1, at),
        λ y (k, at_k).
            not_newer_of_le e o sorted x.version k (length e.variants - 1) y x
              (ground (arith, lt_of_get_elem? e.variants k at_k)) at_k at,
      )
    where
      last :
          (x : Variant V)
          → newest e.variants ≡ some x
          → (length e.variants ≢ 0) × (get_elem? e.variants (length e.variants - 1) ≡ some x)
      last x got = ground arith

  picked-dated :
      (u v : V) (got : Option (Variant V)) (x : Variant V) (l p : Bool)
      → choose_picked e u got ≡ dated v x l p
      → (got ≡ some x) × (u ≡ v) × (l ≡ false) × (p ≡ false)
  picked-dated u v none x l p h = cc
  picked-dated u v (some y) x l p h = (cc, cc, cc, cc)

  newest-dated :
      (a b : Bool) (v : V) (got : Option (Variant V)) (x : Variant V) (l p : Bool)
      → choose_newest e a b got ≡ dated v x l p
      → (got ≡ some x) × (v ≡ x.version) × (l ≡ a) × (p ≡ b)
  newest-dated a b v none x l p h = cc
  newest-dated a b v (some y) x l p h = (cc, cc, cc, cc)

  preview-dated :
      (v : V) (overlaid : Option (HandlerFunc (Resolved V))) (x : Variant V) (l p : Bool)
      → choose_preview e overlaid ≡ dated v x l p
      → (overlaid ≡ none)
        × (newest e.variants ≡ some x)
        × (v ≡ x.version)
        × (l ≡ false)
        × (p ≡ true)
  preview-dated v none x l p h =
      let (at, same, left, right) = newest-dated false true v (newest e.variants) x l p h in
      (refl, at, same, left, right)
  preview-dated v (some h') x l p h = cc

  -- Where the choice falls on a dated variant, it is one that serves.
  choose-dated :
      (asked : Result V) (v : V) (x : Variant V) (l p : Bool)
      → choose e (asked_of asked) ≡ dated v x l p
      → IsMember e x
        × Serves asked (record { requested = v; served = x.version; latest = l; preview = p }) x
  unfolding choose
  choose-dated (ok u) v x l p got =
      let (found, same, left, right) = picked-dated u v (pick e u) x l p got in
      let (best, _) = pick_sound e o sorted u x found in
      (best.member, stable (ap ok same) left right (subst (λ s. IsNewestUpTo e s x) same best))
  choose-dated (failed err) v x l p got = elim (Bool-cases (is_error err_latest_addr err)) [
    | inl latest ↦
        let (at, same, left, right) =
          newest-dated true false v (newest e.variants) x l p (rw latest at got) in
        let (mem, top) = newest-IsMember x at in
        (mem, on_channel err refl (inl (left, right, latest)) same top)
    | inr not_latest ↦ elim (Bool-cases (is_error err_preview_addr err)) [
      | inl preview ↦
          let (bare, at, same, left, right) =
            preview-dated v e.preview x l p (rw (not_latest, preview) at got) in
          let (mem, top) = newest-IsMember x at in
          (mem, on_channel err refl (inr (left, right, preview, bare)) same top)
      | inr other ↦ (let bad : reject err ≡ dated v x l p = rw (not_latest, other) at got in cc)
    ]
  ]

  newest-ne-overlay :
      (a b : Bool) (got : Option (Variant V)) (h : HandlerFunc (Resolved V))
      → choose_newest e a b got ≢ overlay h
  newest-ne-overlay a b none h same = cc
  newest-ne-overlay a b (some x) h same = cc

  picked-ne-overlay :
      (v : V) (got : Option (Variant V)) (h : HandlerFunc (Resolved V))
      → choose_picked e v got ≢ overlay h
  picked-ne-overlay v none h same = cc
  picked-ne-overlay v (some x) h same = cc

  preview-overlay :
      (overlaid : Option (HandlerFunc (Resolved V))) (h : HandlerFunc (Resolved V))
      → choose_preview e overlaid ≡ overlay h
      → overlaid ≡ some h
  preview-overlay none h same = absurd (newest-ne-overlay false true (newest e.variants) h same)
  preview-overlay (some k) h same = cc

  choose-overlay :
      (a : Asked V) (h : HandlerFunc (Resolved V)) → choose e a ≡ overlay h → e.preview ≡ some h
  unfolding choose
  choose-overlay (version v) h same = absurd (picked-ne-overlay v (pick e v) h same)
  choose-overlay latest_pin h same =
      absurd (newest-ne-overlay true false (newest e.variants) h same)
  choose-overlay preview_pin h same = preview-overlay e.preview h same
  choose-overlay (refused err) h same = cc

  serve_chosen-Dispatched :
      (unpinned : Bool) (c : Chosen V) (r : Request (Resolved V)) (w : World)
      → choose e (asked_of (resolve_pinned e.resolver r).0) ≡ c
      → Dispatched r w (serve_chosen zero_version e unpinned c r w)
  unfolding serve_chosen
  serve_chosen-Dispatched unpinned (reject err) r w got = answered_error err refl
  serve_chosen-Dispatched unpinned (overlay h) r w got =
      ran_preview h _ _ (choose-overlay (asked_of (resolve_pinned e.resolver r).0) h got) refl
        (set_twice-OnlyHeaders unpinned true _ _ _ _ w) refl
  serve_chosen-Dispatched unpinned (dated v x l p) r w got =
      let (mem, why) = choose-dated (resolve_pinned e.resolver r).0 v x l p got in
      serve_dated-Dispatched unpinned v x l p x.handle r w refl mem why

  -- On an endpoint in order, for every request, Serve does one of three things: it returns an error and touches nothing; it
  -- runs a registered variant that serves what the request asked for, and the context names the
  -- version served; or it runs the preview variant. Before the handler runs only headers change.
  pub serve-Dispatched :
      (r : Request (Resolved V)) (w : World) → Dispatched r w (serve zero_version e r w)
  unfolding serve
  serve-Dispatched r w = elim (Bool-cases (is_unconfigured e)) [
    | inl empty ↦ answered_error unconfigured_error (rw empty)
    | inr configured ↦ rw configured (
        serve_chosen-Dispatched (resolve_pinned e.resolver r).1
          (choose e (asked_of (resolve_pinned e.resolver r).0)) r w refl)
  ]

  -- On an endpoint in order, a pin that resolves to a version for which a withdrawal is picked is
  -- answered with 410 endpoint_withdrawn, and no handler runs.
  pub serve-withdrawn :
      (r : Request (Resolved V)) (w : World) (v : V) (x : Variant V)
      → (resolve_pinned e.resolver r).0 ≡ ok v
      → pick e v ≡ some x
      → x.handle ≡ none
      → (q : ReqError) × (serve zero_version e r w ≡ (returned (some (to_error q)), w))
        × (q.code ≡ "endpoint_withdrawn")
        × (status_code q ≡ 410)
        × (is_error err_withdrawn_addr (to_error q) ≡ true)
  unfolding serve serve_chosen serve_dated choose withdrawn_error wrap status_code code_statuses
      lookup is_error
  serve-withdrawn r w v x asked found gone =
      let (k, at_k) = (pick_sound e o sorted v x found).0.member in
      let configured : is_unconfigured e ≡ false =
        ground (arith, lt_of_get_elem? e.variants k at_k) in
      (
        withdrawn_error e x.version false false,
        rw (configured, asked, found, gone),
        refl,
        refl,
        refl,
      )

  headed : (unpinned : Bool) (x : Variant V) (w : World) → World
  headed unpinned x w =
      set_if true e.resolver.status_header
        (channel false false +s ("; version=" +s e.resolver.scheme.format x.version))
        (set_if unpinned e.resolver.warn_header (e.resolver.scheme.format x.version) w)

  -- On an endpoint in order, a pin that resolves to a version for which a variant with a handler is
  -- picked is always served: that handler
  -- runs, on the request with the version asked for and the version served on its context, and
  -- nothing but headers is changed before it.
  pub serve-pinned :
      (r : Request (Resolved V)) (w : World) (v : V) (x : Variant V) (h : HandlerFunc (Resolved V))
      → (resolve_pinned e.resolver r).0 ≡ ok v
      → pick e v ≡ some x
      → x.handle ≡ some h
      → (w' : World) × OnlyHeaders w w'
        × (serve zero_version e r w
            ≡ call_variant h
                (record { requested = v; served = x.version; latest = false; preview = false })
                r
                w')
  unfolding serve serve_chosen serve_dated choose headed
  serve-pinned r w v x h asked found has =
      let (k, at_k) = (pick_sound e o sorted v x found).0.member in
      let configured : is_unconfigured e ≡ false =
        ground (arith, lt_of_get_elem? e.variants k at_k) in
      (
        headed (resolve_pinned e.resolver r).1 x w,
        set_twice-OnlyHeaders (resolve_pinned e.resolver r).1 true _ _ _ _ w,
        rw (configured, asked, found, has),
      )
