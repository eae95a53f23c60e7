-- ===== src/Events/Wire.antt =====
-- What handlers of the bus see and change. The context carries the logger and whether it has ended;
-- the world is the log and whatever else the handlers share.
use dfl.Base.{ℕ, String, List, [], ◌∷◌, ◌++◌, Option, none, some}
use dfl.GoErrors.{Error}

-- Envelope, from events/event.go.
pub record Envelope : Type 0 where
  pub name : String
  pub payload : String
  pub headers : List (String × String)

pub record Context : Type 0 where
  pub logger : Option ℕ
  -- ctx.Err()
  pub err : Option Error

pub record LogEntry : Type 0 where
  pub logger : Option ℕ
  pub message : String
  pub event : String
  pub attempts : ℕ
  pub action : String

pub record World (T : Type 0) : Type 0 where
  pub log : List LogEntry
  pub shared : T

module _ (T : Type 0) where
  abbrev pub HandlerFunc : Type 0
  HandlerFunc = Context → Envelope → World T → Option Error × World T

  abbrev pub Middleware : Type 0
  Middleware = HandlerFunc → HandlerFunc

  -- A PublishFunc may change the envelope, so it gives it back.
  abbrev pub PublishFunc : Type 0
  PublishFunc = Context → Envelope → World T → Option Error × World T

  abbrev pub PublishMiddleware : Type 0
  PublishMiddleware = PublishFunc → PublishFunc

unfoldable pub log_entry : {T : Type 0} → LogEntry → World T → World T
log_entry l w = record w { log = w.log ++ l ∷ [] }

-- withLogger, from events/logger.go.
unfoldable pub with_logger : Option ℕ → Context → Context
with_logger none ctx = ctx
with_logger (some l) ctx = record ctx { logger = some l }
