-- ===== src/Double.antt =====
-- `double`: a type with the operations of the C++ language and of <cmath> that the program calls.
-- Nothing is assumed of them here; a theorem that needs a law of them names it among its hypotheses.
pub mod Fixed
use angry_balls.Base.{true, false, ℕ, Bool, ◌≡◌}

pub record Double (N : Type 0) : Type 0 where
  pub sum : N → N → N
  pub difference : N → N → N
  pub product : N → N → N
  pub quotient : N → N → N
  pub negative : N → N
  pub less : N → N → Bool
  pub less_equal : N → N → Bool
  -- `static_cast<double>` of an integer, and the literals that are integers.
  pub of_ℕ : ℕ → N
  -- The literals 1e-6, 0.1 and 0.5.
  pub micro : N
  pub tenth : N
  pub half : N
  -- `std::numeric_limits<double>::max()`.
  pub max : N
  pub sqrt : N → N
  pub sin : N → N
  pub cos : N → N
  pub asin : N → N
  pub acos : N → N
  pub atan : N → N

module _ {N : Type 0} ⦃d : Double N⦄ where
  infixl 65 ◌+◌ ◌-◌
  infixl 70 ◌*◌ ◌/◌
  infix 50 ◌<◌ ◌<=◌ ◌>◌
  abbrev pub ◌+◌ : N → N → N
  ◌+◌ = d.sum

  abbrev pub ◌-◌ : N → N → N
  ◌-◌ = d.difference

  abbrev pub ◌*◌ : N → N → N
  ◌*◌ = d.product

  abbrev pub ◌/◌ : N → N → N
  ◌/◌ = d.quotient

  abbrev pub ◌<◌ : N → N → Bool
  ◌<◌ = d.less

  abbrev pub ◌<=◌ : N → N → Bool
  ◌<=◌ = d.less_equal

  abbrev pub ◌>◌ : N → N → Bool
  a > b = d.less b a

  abbrev pub real : ℕ → N
  real = d.of_ℕ

  abbrev pub zero : N
  zero = d.of_ℕ 0

  abbrev pub one : N
  one = d.of_ℕ 1

  abbrev pub two : N
  two = d.of_ℕ 2

-- Exact addition. Doubles have it only as far as no sum is rounded.
pub record IsExact (N : Type 0) ⦃d : Double N⦄ : Type 0 where
  pub sum_comm : (a b : N) → a + b ≡ b + a
  pub sum_assoc : (a b c : N) → (a + b) + c ≡ a + (b + c)
  pub sum-difference : (a b : N) → a + (b - a) ≡ b

-- `<` is a strict order, as it is on doubles with and without NaN.
pub record IsOrder (N : Type 0) ⦃d : Double N⦄ : Type 0 where
  pub less_trans : (a b c : N) → (a < b) ≡ true → (b < c) ≡ true → (a < c) ≡ true
  pub less_irrefl : (a : N) → (a < a) ≡ false
