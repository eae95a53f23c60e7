-- ===== src/Events/Headers.antt =====
-- The headers of an envelope as one text, the message attribute "headers" of events/aws/sqs,
-- events/aws/sns and events/gcp/pubsub, each of which has marshalHeaders and unmarshalHeaders.
-- encoding/json on a map of texts is the parameter `json`; a nil map is the empty one.
pub mod Tally
use dfl.Base.{
  or_empty, String, List, [], ◌∷◌, Option, none, some, ◌≡◌, ◌≢◌, str_eq, if◌then◌else◌, arith,
  eq_iff,
}

pub record HeaderJson : Type 0 where
  pub marshal : List (String × String) → Option String
  pub unmarshal : String → Option (List (String × String))

-- What encoding/json promises of such a map: it encodes, to a text that is not empty and decodes to
-- the map again.
pub record IsFaithful (json : HeaderJson) : Type 0 where
  pub encodes :
      (h : List (String × String))
      → (s : String) × (json.marshal h ≡ some s) × (json.unmarshal s ≡ some h) × (s ≢ "")

abbrev pub or_nil : Option (List (String × String)) → List (String × String)
or_nil none = []
or_nil (some h) = h

-- marshalHeaders
unfoldable pub marshal_headers : HeaderJson → List (String × String) → String
marshal_headers json [] = ""
marshal_headers json (h ∷ hs) = or_empty (json.marshal (h ∷ hs))

-- unmarshalHeaders
unfoldable pub unmarshal_headers : HeaderJson → String → List (String × String)
unmarshal_headers json s = if str_eq s "" then [] else or_nil (json.unmarshal s)

-- Headers come back as they went.
pub unmarshal_headers-marshal_headers :
    (json : HeaderJson) (h : List (String × String))
    → IsFaithful json
    → unmarshal_headers json (marshal_headers json h) ≡ h
unfolding unmarshal_headers marshal_headers
unmarshal_headers-marshal_headers json [] faithful = ground (arith, eq_iff "" "")
unmarshal_headers-marshal_headers json (h ∷ hs) faithful =
    let (s, out, back, full) = faithful.encodes (h ∷ hs) in ground (arith, eq_iff s "")
