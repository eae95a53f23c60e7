-- ===== src/Version/Scheme.antt =====
-- http/version/version.go: schemes give versions their format and order. A comparison's sign is an
-- Ordering. strconv.Atoi on digits reads 64-bit integers.
pub mod Sequential
use Prim.Native.Nat.{Ordering}
use dfl.Base.{String, ◌≡◌, Bool, true, false, arith}
use dfl.GoErrors.{Result}

pub record Scheme (V : Type 0) : Type 0 where
  pub parse : String → Result V
  pub compare : V → V → Ordering
  pub format : V → String

abbrev pub is_lt : Ordering → Bool
is_lt Ordering.lt = true
is_lt _ = false

abbrev pub is_eq : Ordering → Bool
is_eq Ordering.eq = true
is_eq _ = false

abbrev pub is_gt : Ordering → Bool
is_gt Ordering.gt = true
is_gt _ = false

abbrev pub flip : Ordering → Ordering
flip Ordering.lt = Ordering.gt
flip Ordering.eq = Ordering.eq
flip Ordering.gt = Ordering.lt

-- What a scheme's Compare has to be: a total order up to versions that it calls equal.
pub record IsOrder {V : Type 0} (cmp : V → V → Ordering) : Type 0 where
  pub equal_self : (a : V) → cmp a a ≡ Ordering.eq
  pub swapped : (a b : V) → cmp b a ≡ flip (cmp a b)
  pub le_trans :
      (a b c : V) → is_gt (cmp a b) ≡ false → is_gt (cmp b c) ≡ false → is_gt (cmp a c) ≡ false

module _ {V : Type 0} (cmp : V → V → Ordering) (o : IsOrder cmp) where
  open o use {swapped, le_trans}

  -- a < b ≤ c gives a < c.
  pub lt-le_trans :
      (a b c : V) → cmp a b ≡ Ordering.lt → is_gt (cmp b c) ≡ false → cmp a c ≡ Ordering.lt
  lt-le_trans a b c h k = ground (arith, swapped a b, swapped a c, swapped b c, le_trans b c a)

  -- a ≤ b < c gives a < c.
  pub le-lt_trans :
      (a b c : V) → is_gt (cmp a b) ≡ false → cmp b c ≡ Ordering.lt → cmp a c ≡ Ordering.lt
  le-lt_trans a b c h k = ground (arith, swapped a b, swapped a c, swapped b c, le_trans c a b)
