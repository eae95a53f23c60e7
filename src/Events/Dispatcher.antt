-- ===== src/Events/Dispatcher.antt =====
-- events/dispatcher.go and events/mem.go: the registries of subscribers.
pub mod Laws
use dfl.Base.{ℕ, String, List, [], ◌∷◌, ◌++◌, Option, none, some, lookup, insert, map}
use dfl.GoErrors.{Error, join_all}
use dfl.Events.Wire.{Envelope, Context, World, HandlerFunc}

-- The map of a Dispatcher or a MemSink, under its lock.
pub record Dispatcher (T : Type 0) : Type 0 where
  pub subs : List (String × List (HandlerFunc T))

-- `if err != nil { errs = append(errs, err) }`, with the later errors behind.
abbrev pub gather : Option Error → List Error → List Error
gather none errs = errs
gather (some e) errs = e ∷ errs

module _ {T : Type 0} where
  unfoldable pub new_dispatcher : Dispatcher T
  new_dispatcher = record { subs = [] }

  abbrev pub listed : Option (List (HandlerFunc T)) → List (HandlerFunc T)
  listed none = []
  listed (some hs) = hs

  -- The subscribers of a name: nil for a name without any.
  unfoldable pub subscribers : Dispatcher T → String → List (HandlerFunc T)
  subscribers d name = listed (lookup name d.subs)

  -- Subscribe
  unfoldable pub subscribe : Dispatcher T → String → HandlerFunc T → Dispatcher T
  unfolding subscribers
  subscribe d name deliver = record d {
    subs = insert name (subscribers d name ++ deliver ∷ []) d.subs;
  }

  -- The loop of Dispatch: the errors in order, and the world after the last handler.
  unfoldable pub run_all :
      Context → Envelope → List (HandlerFunc T) → World T → List Error × World T
  run_all ctx env [] w = ([], w)
  run_all ctx env (deliver ∷ subs) w =
      let (err, w') = deliver ctx env w in
      let (errs, w'') = run_all ctx env subs w' in (gather err errs, w'')

  -- Dispatch
  unfoldable pub dispatch : Dispatcher T → Context → Envelope → World T → Option Error × World T
  dispatch d ctx env w =
      let (errs, w') = run_all ctx env (subscribers d env.name) w in (join_all errs, w')

  -- MemSink.Publish: the deliveries that it starts, each on its own goroutine, on a context that no
  -- longer ends with the publisher's.
  unfoldable pub mem_publish :
      Dispatcher T → Context → Envelope → List (World T → Option Error × World T)
  mem_publish d ctx env =
      map (λ deliver. deliver (record ctx { err = none }) env) (subscribers d env.name)
