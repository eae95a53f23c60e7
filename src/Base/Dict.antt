-- ===== src/Base/Dict.antt =====
-- A Go map with string keys, as an association list: a key stands at most once when all writes go
-- through `insert`.
use Prim.Native.String.{String}
use mathlib.Core.Path.{◌≡◌, refl}
use mathlib.Core.Option.{Option, none, some}
use mathlib.Core.List.{List, [], ◌∷◌, map}
use text.Mathlib.TextEquality.{eq_iff}
use native.Mathlib.Omega.{arith}
use dfl.Base.Tests.{if◌then◌else◌}
use dfl.Base.Texts.{str_eq}

abbrev pub or_empty : Option String → String
or_empty none = ""
or_empty (some s) = s

module _ {ℓ} {V : Type ℓ} where
  unfoldable pub lookup : String → List (String × V) → Option V
  lookup key [] = none
  lookup key ((name, value) ∷ entries) =
      let rest = lookup key entries in if str_eq name key then some value else rest

  unfoldable pub insert : String → V → List (String × V) → List (String × V)
  insert key value [] = (key, value) ∷ []
  insert key value ((name, old) ∷ entries) =
      let rest = insert key value entries in
      if str_eq name key then (key, value) ∷ entries else (name, old) ∷ rest

  abbrev pub keys : List (String × V) → List String
  keys entries = map (λ e. e.0) entries

  -- A write is read back at its key, and leaves what stands at every other key.
  pub lookup-insert :
      (key wanted : String) (value : V) (entries : List (String × V))
      → lookup wanted (insert key value entries)
        ≡ (if str_eq key wanted then some value else lookup wanted entries)
  unfolding lookup insert
  lookup-insert key wanted value [] = refl
  lookup-insert key wanted value ((name, old) ∷ entries) =
      let behind = lookup-insert key wanted value entries in
      ground (arith, behind, eq_iff name key, eq_iff name wanted, eq_iff key wanted)
