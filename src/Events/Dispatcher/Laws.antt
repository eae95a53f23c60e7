-- ===== src/Events/Dispatcher/Laws.antt =====
-- The subscribers of events/dispatcher.go, and their errors.
use dfl.Base.{
  String, ◌≡◌, refl, ◌↔◌, List, [], ◌∷◌, ◌++◌, Option, none, some, if◌then◌else◌, str_eq, eq_iff,
  lookup-insert, arith,
}
use dfl.GoErrors.{Error, join_all}
use dfl.Events.Wire.{Envelope, Context, World, HandlerFunc}
use dfl.Events.Dispatcher.{Dispatcher, subscribers, subscribe, gather, run_all, dispatch}

gather-nil : (o : Option Error) (es : List Error) → (gather o es ≡ []) ↔ ((o ≡ none) × (es ≡ []))
gather-nil none es = (λ h. (refl, h), λ h. h.1)
gather-nil (some e) es = (λ h. cc, λ h. cc)

join_all-none : (es : List Error) → (join_all es ≡ none) ↔ (es ≡ [])
join_all-none [] = (λ _. refl, λ _. refl)
join_all-none (e ∷ es) = (λ h. cc, λ h. cc)

module _ {T : Type 0} where
  -- A subscription adds one handler behind those of its name, and touches no other name.
  pub subscribers-subscribe :
      (d : Dispatcher T) (n m : String) (h : HandlerFunc T)
      → subscribers (subscribe d n h) m
        ≡ (if str_eq n m then subscribers d m ++ h ∷ [] else subscribers d m)
  unfolding subscribe
  subscribers-subscribe d n m h =
      ground (arith, lookup-insert n m (subscribers d n ++ h ∷ []) d.subs, eq_iff n m)

  module _ (ctx : Context) (env : Envelope) where
    -- Each handler in its turn, on the world that the one before it left, returns no error.
    abbrev pub AllSucceed : List (HandlerFunc T) → World T → Type 0
    AllSucceed [] w = Unit
    AllSucceed (h ∷ hs) w = ((h ctx env w).0 ≡ none) × AllSucceed hs (h ctx env w).1

    -- The errors of the handlers in their turn, none left out.
    abbrev pub all_errors : List (HandlerFunc T) → World T → List Error
    all_errors [] w = []
    all_errors (h ∷ hs) w = gather (h ctx env w).0 (all_errors hs (h ctx env w).1)

    abbrev pub world_after : List (HandlerFunc T) → World T → World T
    world_after [] w = w
    world_after (h ∷ hs) w = world_after hs (h ctx env w).1

    run_all_lem :
        (hs : List (HandlerFunc T)) (w : World T)
        → run_all ctx env hs w ≡ (all_errors hs w, world_after hs w)
    unfolding run_all
    run_all_lem [] w = refl
    run_all_lem (h ∷ hs) w = rw (run_all_lem hs (h ctx env w).1)

    all_errors-nil :
        (hs : List (HandlerFunc T)) (w : World T) → (all_errors hs w ≡ []) ↔ AllSucceed hs w
    all_errors-nil [] w = (λ _. tt, λ _. refl)
    all_errors-nil (h ∷ hs) w =
        let (to, from) = gather-nil (h ctx env w).0 (all_errors hs (h ctx env w).1) in
        let (to', from') = all_errors-nil hs (h ctx env w).1 in
        (λ e. let (a, b) = to e in (a, to' b), λ s. from (s.0, from' s.1))

    -- Dispatch reports success exactly when every handler of the name succeeds, and every handler
    -- runs, in the order of subscription, whatever the earlier ones returned.
    pub dispatch_lem :
        (d : Dispatcher T) (w : World T)
        → (((dispatch d ctx env w).0 ≡ none) ↔ AllSucceed (subscribers d env.name) w)
          × ((dispatch d ctx env w).1 ≡ world_after (subscribers d env.name) w)
          × ((dispatch d ctx env w).0 ≡ join_all (all_errors (subscribers d env.name) w))
    unfolding dispatch
    dispatch_lem d w =
        let (a, b) = join_all-none (all_errors (subscribers d env.name) w) in
        let (c, e) = all_errors-nil (subscribers d env.name) w in
        rw (run_all_lem (subscribers d env.name) w) ((λ h. c (a h), λ h. b (e h)), refl, refl)
