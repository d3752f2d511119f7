-- ===== src/Double/Fixed.antt =====
-- Fixed-point numbers with six decimals: an instance of `Double` on which the program runs in tests
-- and witnesses. Its sums are exact; it stands in for nothing in the source.
use Prim.Native.Nat.{ℕ, zero, suc, ◌+◌, ◌*◌, ◌^◌}
use angry_balls.Base.{if◌then◌else◌, leb}
use angry_balls.Base.Int.{
  ℤ, pos, negsuc, pos_part, neg_part, sub_ℕ, ◌+ℤ◌, ◌-ℤ◌, ◌*ℤ◌, ltb_ℤ, leb_ℤ, div_ℕ, +ℤ_comm,
  +ℤ_assoc, +ℤ_cancel_left,
}
use angry_balls.Double.{Double, IsExact, IsOrder}
use native.Mathlib.Omega.{arith}

abbrev pub scale : ℕ
scale = 10 ^ 6

-- The integer part of a square root, one binary digit a round.
unfoldable pub root_from : ℕ → ℕ → ℕ → ℕ
root_from zero n r = r
root_from (suc k) n r = let r' = r + 2 ^ k in root_from k n (if leb (r' * r') n then r' else r)

unfoldable pub root : ℤ → ℤ
unfolding root_from
root a = pos (root_from 40 (pos_part a * scale) 0)

unfoldable pub fixed_product : ℤ → ℤ → ℤ
unfolding ◌*ℤ◌
fixed_product a b = div_ℕ (a *ℤ b) scale

unfoldable pub fixed_quotient : ℤ → ℤ → ℤ
unfolding ◌*ℤ◌
fixed_quotient a (pos b) = div_ℕ (a *ℤ pos scale) b
fixed_quotient a (negsuc b) = div_ℕ (a *ℤ negsuc 999_999) (suc b)

abbrev minus : ℤ → ℤ
minus a = sub_ℕ (neg_part a) (pos_part a)

instance unfoldable pub fixed : Double ℤ
unfolding ◌+ℤ◌ ◌-ℤ◌ root fixed_product fixed_quotient
fixed = record {
  sum = ◌+ℤ◌;
  difference = ◌-ℤ◌;
  product = fixed_product;
  quotient = fixed_quotient;
  negative = minus;
  less = ltb_ℤ;
  less_equal = leb_ℤ;
  of_ℕ = λ n. pos (n * scale);
  micro = pos 1;
  tenth = pos 100000;
  half = pos 500000;
  max = pos (10 ^ 18);
  sqrt = root;
  sin = λ a. a;
  cos = λ a. pos scale;
  asin = λ a. a;
  acos = λ a. pos 3141593;
  atan = λ a. a;
}

pub fixed-IsExact : IsExact ℤ
unfolding fixed
fixed-IsExact = record { sum_comm = +ℤ_comm; sum_assoc = +ℤ_assoc; sum-difference = +ℤ_cancel_left }

pub fixed-IsOrder : IsOrder ℤ
unfolding fixed
fixed-IsOrder = record { less_trans = λ a b c h k. ground arith; less_irrefl = λ a. ground arith }
