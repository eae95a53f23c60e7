-- ===== src/Version/Tests.antt =====
-- Runs of a versioned endpoint on concrete requests, and the theorems at concrete inputs.
use Prim.Native.Nat.{Ordering, compare}
use text.Mathlib.TextEquality.{eq_iff}
use dfl.Base.{
  ℕ, true, false, List, [], ◌∷◌, none, some, ◌≡◌, ◌≢◌, refl, inr, contains, trim_space, scan, arith,
}
use dfl.GoErrors.{ok}
use dfl.Http.Wire.{Request, World, returned, HandlerFunc, write}
use dfl.Version.Scheme.Sequential.{sequential, sequential-IsOrder, trim_v, parse}
use dfl.Version.Resolver.{
  set_fallback, add_literals, Resolved, Resolver, header_source, query_source, allow_literals,
  resolve_raw, resolve_from, resolve_pinned, new_resolver,
}
use dfl.Version.Resolver.Literals.{
  set_fallback-IsWellFormed, IsWellFormed, new_resolver-IsWellFormed, allow_literals-IsWellFormed,
  Means, resolve_pinned-Means,
}
use dfl.Version.Search.{binary_search, search_loop, insert_at}
use dfl.Version.Endpoint.{
  compatible, exact, Variant, Endpoint, insert_variant, handle_func, withdraw, pick, serve,
  search_version, call_variant,
}
use dfl.Version.Endpoint.Order.{IsOrdered, handle_func-IsOrdered, withdraw-IsOrdered}
use dfl.Version.Endpoint.Pick.{IsNewestUpTo, pick_sound, pick_complete}
use dfl.Version.Endpoint.Dispatch.{Dispatched, serve-Dispatched, serve-pinned, OnlyHeaders}
use dfl.Version.Endpoint.Stability.{insert_variant-pick}

abbrev bare_resolver : Resolver ℕ
bare_resolver = record {
  scheme = sequential;
  sources = header_source "Version" ∷ query_source "v" ∷ [];
  latest = [];
  preview = [];
  fallback = "";
  status_header = "";
  warn_header = "";
}

abbrev resolver : Resolver ℕ
resolver = record bare_resolver { latest = "latest" ∷ [] }

abbrev request : Request (Resolved ℕ)
request = record {
  path_value = λ k. "";
  query = λ k. "7";
  header = λ k. " ";
  body = "";
  remote_addr = "10.0.0.1:4242";
  user_agent = "curl";
  context = record { logger = none; client = none; extra = none };
}

abbrev fresh : World
fresh = record { headers = []; status = none; sent_headers = []; body = ""; log = [] }

abbrev first_shape : HandlerFunc (Resolved ℕ)
first_shape r w = (returned none, write "v1" w)

abbrev endpoint_with : List (Variant ℕ) → Endpoint ℕ
endpoint_with variants = record {
  resolver = resolver;
  match = compatible;
  variants = variants;
  preview = none;
}

abbrev v2 : Variant ℕ
v2 = record { version = 2; handle = some first_shape }

abbrev withdrawn_at_5 : Variant ℕ
withdrawn_at_5 = record { version = 5; handle = none }

abbrev one_variant : Endpoint ℕ
one_variant = endpoint_with (v2 ∷ [])

abbrev two_variants : Endpoint ℕ
two_variants = endpoint_with (v2 ∷ withdrawn_at_5 ∷ [])

v2_parses : parse "v2" ≡ ok 2
unfolding parse trim_v scan
v2_parses = refl

v5_parses : parse "v5" ≡ ok 5
unfolding parse trim_v scan
v5_parses = refl

one_variant_registered : handle_func (endpoint_with []) "v2" first_shape ≡ some one_variant
unfolding handle_func insert_variant contains parse trim_v scan search_version binary_search
    insert_at
one_variant_registered = refl

two_variants_registered : withdraw one_variant "v5" ≡ some two_variants
unfolding withdraw insert_variant contains parse trim_v scan search_version binary_search
    search_loop insert_at
two_variants_registered = refl

bare_resolver-IsWellFormed : IsWellFormed bare_resolver
unfolding new_resolver
bare_resolver-IsWellFormed =
    new_resolver-IsWellFormed sequential (header_source "Version" ∷ query_source "v" ∷ [])
      bare_resolver refl

allow_literals-IsWellFormed_example : IsWellFormed resolver
unfolding allow_literals add_literals contains trim_space parse trim_v scan
allow_literals-IsWellFormed_example =
    allow_literals-IsWellFormed true bare_resolver ("latest" ∷ []) resolver refl
      bare_resolver-IsWellFormed

resolver-IsWellFormed : IsWellFormed resolver
unfolding allow_literals add_literals contains trim_space parse trim_v scan
resolver-IsWellFormed =
    allow_literals-IsWellFormed true bare_resolver ("latest" ∷ []) resolver refl
      bare_resolver-IsWellFormed

abbrev with_fallback : Resolver ℕ
with_fallback = record resolver { fallback = "latest" }

with_fallback-IsWellFormed : IsWellFormed with_fallback
unfolding set_fallback contains trim_space
with_fallback-IsWellFormed =
    set_fallback-IsWellFormed resolver "latest" with_fallback refl resolver-IsWellFormed

abbrev two_sources : Resolver ℕ
two_sources = record with_fallback { sources = header_source "Version" ∷ query_source "v" ∷ [] }

resolve_pinned-Means_example :
    ((resolve_pinned two_sources request).1 ≡ false)
    × Means two_sources "7" (resolve_pinned two_sources request).0
unfolding trim_space header_source query_source
resolve_pinned-Means_example =
    resolve_pinned-Means two_sources (header_source "Version" ∷ []) [] (query_source "v") request
      refl (inr refl, tt) refl (λ h. ground (arith, eq_iff "7" ""))

handle_func-IsOrdered_example : IsOrdered one_variant
handle_func-IsOrdered_example =
    handle_func-IsOrdered (endpoint_with []) sequential-IsOrder (λ k l x y h at_k at_l. cc) "v2"
      first_shape one_variant one_variant_registered

one_variant-IsOrdered : IsOrdered one_variant
one_variant-IsOrdered =
    handle_func-IsOrdered (endpoint_with []) sequential-IsOrder (λ k l x y h at_k at_l. cc) "v2"
      first_shape one_variant one_variant_registered

two_variants-IsOrdered : IsOrdered two_variants
two_variants-IsOrdered =
    withdraw-IsOrdered one_variant sequential-IsOrder one_variant-IsOrdered "v5" two_variants
      two_variants_registered

pick_seven : pick two_variants 7 ≡ some withdrawn_at_5
unfolding pick search_version binary_search search_loop
pick_seven = refl

pick_sound_example :
    IsNewestUpTo two_variants 7 withdrawn_at_5
    × (two_variants.match ≡ exact → compare withdrawn_at_5.version 7 ≡ Ordering.eq)
pick_sound_example =
    pick_sound two_variants sequential-IsOrder two_variants-IsOrdered 7 withdrawn_at_5 pick_seven

pick_one : pick one_variant 1 ≡ none
unfolding pick search_version binary_search search_loop
pick_one = refl

pick_complete_example :
    (one_variant.match ≡ compatible → compare v2.version 1 ≡ Ordering.gt)
    × (compare v2.version 1 ≢ Ordering.eq)
pick_complete_example =
    pick_complete one_variant sequential-IsOrder one_variant-IsOrdered 1 pick_one v2 (0, refl)

serve-Dispatched_example :
    Dispatched 0 two_variants sequential-IsOrder two_variants-IsOrdered request fresh
      (serve 0 two_variants request fresh)
serve-Dispatched_example =
    serve-Dispatched 0 two_variants sequential-IsOrder two_variants-IsOrdered request fresh

insert_variant-pick_example : pick two_variants 3 ≡ pick one_variant 3
unfolding withdraw contains
insert_variant-pick_example =
    insert_variant-pick one_variant sequential-IsOrder one_variant-IsOrdered "v5" 5 3 none
      two_variants v5_parses refl two_variants_registered

pick_three : pick two_variants 3 ≡ some v2
unfolding pick search_version binary_search search_loop
pick_three = refl

abbrev request_3 : Request (Resolved ℕ)
request_3 = record request { header = λ k. " v3" }

serve-pinned_example :
    (w' : World) × OnlyHeaders fresh w'
    × (serve 0 two_variants request_3 fresh
        ≡ call_variant first_shape
            (record { requested = 3; served = 2; latest = false; preview = false })
            request_3
            w')
unfolding resolve_pinned resolve_from trim_space header_source query_source resolve_raw contains
    parse trim_v scan
serve-pinned_example =
    serve-pinned 0 two_variants sequential-IsOrder two_variants-IsOrdered request_3 fresh 3 v2
      first_shape refl pick_three refl
