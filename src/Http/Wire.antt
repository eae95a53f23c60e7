-- ===== src/Http/Wire.antt =====
-- What a handler sees and changes: the request, the response that is being written and the log. This
-- is the part of net/http and log/slog that the package uses.
use dfl.Base.{
  leb, ◌&&◌, ◌||◌, not, ◌==◌, if◌then◌else◌, Bool, true, ℕ, String, List, [], ◌∷◌, ◌++◌, Option,
  none, some, insert, ◌+s◌,
}
use dfl.GoErrors.{Error}

-- What RequestMeta puts on the context (http/middleware.go).
pub record ClientMeta : Type 0 where
  pub client_ip : String
  pub user_agent : String

-- The context's values. Each key of the sources is a private type with one kind of value, so it is a
-- field; `extra` is the value that another package keeps there. A logger goes by its number.
pub record Context (X : Type 0) : Type 0 where
  pub logger : Option ℕ
  pub client : Option ClientMeta
  pub extra : Option X

pub record Request (X : Type 0) : Type 0 where
  pub path_value : String → String
  pub query : String → String
  pub header : String → String
  pub body : String
  pub remote_addr : String
  pub user_agent : String
  pub context : Context X

pub record LogEntry : Type 0 where
  -- `none` is slog.Default()
  pub logger : Option ℕ
  pub message : String

-- The http.ResponseWriter and the log. `status` is `none` until the response is committed.
pub record World : Type 0 where
  pub headers : List (String × String)
  pub status : Option ℕ
  pub sent_headers : List (String × String)
  pub body : String
  pub log : List LogEntry

-- A value that a handler panics with.
pub data Panic : Type 0 where
  abort_handler : Panic
  other_panic : String → Panic

-- How a HandlerFunc ends: it returns its error, nil being `none`, or panics.
pub data Outcome : Type 0 where
  returned : Option Error → Outcome
  panicked : Panic → Outcome

module _ (X : Type 0) where
  abbrev pub HandlerFunc : Type 0
  HandlerFunc = Request X → World → Outcome × World

  abbrev pub Middleware : Type 0
  Middleware = HandlerFunc → HandlerFunc

  -- http.HandlerFunc, as it stands on the mux: it returns nothing, or panics.
  abbrev pub ServeFunc : Type 0
  ServeFunc = Request X → World → Option Panic × World

-- Header().Set
unfoldable pub set_header : String → String → World → World
set_header k v w = record w { headers = insert k v w.headers }

-- WriteHeader of a code from 200 to 999: only the first call counts, and it sends the headers as
-- they stand.
unfoldable pub write_header : ℕ → World → World
write_header s w = elim w.status [
  | none ↦ record w { status = some s; sent_headers = w.headers }
  | some _ ↦ w
]

-- bodyAllowedForStatus
unfoldable pub body_allowed : Option ℕ → Bool
body_allowed none = true
body_allowed (some s) = leb 200 s && not (s == 204 || s == 304)

-- Write: commits a 200 if nothing is committed. A status without a body drops what is written.
unfoldable pub write : String → World → World
unfolding write_header body_allowed
write b w =
    let w' = write_header 200 w in
    record w' { body = if body_allowed w'.status then w'.body +s b else w'.body }

-- The codes that WriteHeader takes.
unfoldable pub is_status : ℕ → Bool
is_status s = leb 100 s && leb s 999

-- The codes of interim responses, which leave the response open.
unfoldable pub is_interim : ℕ → Bool
is_interim s = leb 100 s && leb s 199 && not (s == 101)

abbrev pub invalid_code : Panic
invalid_code = other_panic "invalid WriteHeader code"

-- WriteHeader of any code, on an open response.
unfoldable pub open_header : ℕ → World → Option Panic × World
unfolding write_header is_status is_interim
open_header s w =
    if is_status s
    then if is_interim s then (none, w) else (none, write_header s w)
    else (some invalid_code, w)

-- WriteHeader of any code.
unfoldable pub try_header : ℕ → World → Option Panic × World
unfolding open_header
try_header s w = elim w.status [ none ↦ open_header s w | some _ ↦ (none, w) ]

-- What json.Encoder makes of a value: its text, an error, or a panic of a MarshalJSON in it.
pub data Encoding : Type 0 where
  encoded : String → Encoding
  unencodable : Encoding
  encoder_panics : Panic → Encoding

unfoldable pub log_error : Option ℕ → String → World → World
log_error l m w = record w { log = w.log ++ (record { logger = l; message = m }) ∷ [] }

-- http.Error. The headers that it deletes are ones that its callers here have not set.
unfoldable pub http_error : String → ℕ → World → World
unfolding set_header write_header write
http_error message status w = write (message +s "\n") (
    write_header status (
      set_header "X-Content-Type-Options" "nosniff"
        (set_header "Content-Type" "text/plain; charset=utf-8" w)))
