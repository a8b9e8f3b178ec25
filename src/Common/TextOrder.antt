-- ===== src/Common/TextOrder.antt =====
-- The order of texts (`str::cmp`, by code points) is a strict linear order.
use Prim.Native.Nat.{Ordering}
use Prim.Native.String.{String, compare, [], ◌∷◌}
use Prim.Native.String.compare
use mathlib.Core.Path.{◌≡◌}
use native.Mathlib.Omega.{arith}
use text.Mathlib.TextPositions.{compare_refl}

abbrev pub Lt : String → String → Type 0
Lt s t = compare s t ≡ Ordering.lt

-- A text that is greater the one way is less the other way.
pub lt_of_gt : (s t : String) → compare s t ≡ Ordering.gt → Lt t s
lt_of_gt [] [] h = ground (arith, compare_refl [])
lt_of_gt [] (d ∷ t) h = ground (arith, compare.nil-cons d t)
lt_of_gt (c ∷ s) [] h = compare.nil-cons c s
lt_of_gt (c ∷ s) (d ∷ t) h =
    ground (arith, compare.cons-cons c d s t, compare.cons-cons d c t s, lt_of_gt s t)

-- A text that is less the one way is greater the other way.
pub gt_of_lt : (s t : String) → Lt s t → compare t s ≡ Ordering.gt
gt_of_lt [] [] h = ground (arith, compare_refl [])
gt_of_lt [] (d ∷ t) h = compare.cons-nil d t
gt_of_lt (c ∷ s) [] h = ground (arith, compare.cons-nil c s)
gt_of_lt (c ∷ s) (d ∷ t) h =
    ground (arith, compare.cons-cons c d s t, compare.cons-cons d c t s, gt_of_lt s t)

not_lt_nil : (s : String) → ¬ (Lt s [])
not_lt_nil [] h = ground (arith, compare_refl [])
not_lt_nil (c ∷ s) h = ground (arith, compare.cons-nil c s)

pub lt_trans : (s t u : String) → Lt s t → Lt t u → Lt s u
lt_trans s [] u h k = absurd (not_lt_nil s h)
lt_trans [] (d ∷ t) [] h k = absurd (not_lt_nil (d ∷ t) k)
lt_trans [] (d ∷ t) (e ∷ u) h k = compare.nil-cons e u
lt_trans (c ∷ s) (d ∷ t) [] h k = absurd (not_lt_nil (d ∷ t) k)
lt_trans (c ∷ s) (d ∷ t) (e ∷ u) h k = ground (
  arith,
  compare.cons-cons c d s t,
  compare.cons-cons d e t u,
  compare.cons-cons c e s u,
  lt_trans s t u,
)

pub lt_irrefl : (s : String) → ¬ (Lt s s)
lt_irrefl s h = ground (arith, compare_refl s)
