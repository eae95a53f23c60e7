-- ===== src/Events/Sqs/Transport.antt =====
-- An envelope through the queue, and the backoff between failed polls.
use dfl.Base.{
  ℕ, ◌*◌, ◌^◌, ◌-◌, ◌≤◌, ◌≡◌, sym, ap, ◌∙◌, String, Option, some, lookup, insert, str_eq, eq_iff,
  arith, Bool-cases, inl, inr,
}
use dfl.Events.Wire.{Envelope}
use dfl.Events.Headers.{
  HeaderJson, IsFaithful, marshal_headers, unmarshal_headers, unmarshal_headers-marshal_headers,
}
use native.Mathlib.Nat.{pow-le-pow_right}
use dfl.Events.Retry.{clamp_attempt}
use dfl.Events.Retry.Backoff.{backoff-product}
use dfl.Events.Sqs.{
  Api, Sink, attributes_of, envelope_of, value_of, headers_of, input_of, default_backoff,
  backoff_base, backoff_ceiling,
}

name-attributes_of :
    (json : HeaderJson) (env : Envelope)
    → lookup "event" (attributes_of json env) ≡ some (some env.name)
unfolding attributes_of lookup insert
name-attributes_of json env = ground arith

headers-attributes_of :
    (json : HeaderJson) (env : Envelope)
    → IsFaithful json
    → headers_of json (value_of json (lookup "headers" (attributes_of json env))) ≡ env.headers
unfolding attributes_of lookup insert unmarshal_headers
headers-attributes_of json env faithful =
    let back = unmarshal_headers-marshal_headers json env.headers faithful in
    elim (Bool-cases (str_eq (marshal_headers json env.headers) "")) [
      | inl bare ↦ rw bare (
          sym (ap (unmarshal_headers json) ((eq_iff (marshal_headers json env.headers) "").0 bare))
          ∙ back)
      | inr full ↦ rw full back
    ]

-- The message that the queue makes of an envelope that was sent gives the very envelope to the
-- handlers, its headers included, when the JSON encoding of a map of texts is faithful.
pub envelope_of-input_of :
    {T : Type 0} (json : HeaderJson) (api : Api T) (s : Sink T) (env : Envelope)
    (receipt : Option String)
    → IsFaithful json
    → envelope_of json (record {
      attributes = (input_of json api s env).attributes;
      body = some (input_of json api s env).body;
      receipt = receipt;
    })
      ≡ env
unfolding envelope_of input_of
envelope_of-input_of json api s env receipt faithful =
    ground (arith, name-attributes_of json env, headers-attributes_of json env faithful)

doubled_range : (n : ℕ) → n ≤ 5 → 2 ^ (n - 1) ≤ 16
doubled_range n h = pow-le-pow_right {n = 2} (omega arith) {i = n - 1} {j = 4} (omega arith)

capped_range : (n : ℕ) → 6 ≤ n → 32 ≤ 2 ^ (clamp_attempt n - 1)
capped_range n h =
    pow-le-pow_right {n = 2} (omega arith) {i = 5} {j = clamp_attempt n - 1} (ground arith)

clamp_small : (n : ℕ) → 1 ≤ n → n ≤ 5 → clamp_attempt n ≡ n
clamp_small n low high = ground arith

-- Without WithBackoff the wait after the n-th failed poll in a row is 1 s doubled n - 1 times up to
-- the fifth failure, and 30 s from the sixth on.
pub default_backoff_lem :
    (n : ℕ)
    → (1 ≤ n → n ≤ 5 → default_backoff n ≡ backoff_base * 2 ^ (n - 1))
      × (6 ≤ n → default_backoff n ≡ backoff_ceiling)
unfolding default_backoff
default_backoff_lem n = (
  λ low high.
      let product = backoff-product backoff_base (omega arith) n in
      let small = doubled_range n high in
      rw (product, clamp_small n low high) (ground (arith, small)),
  λ high.
      let product = backoff-product backoff_base (omega arith) n in
      let large = capped_range n high in rw product (ground (arith, large)),
)
