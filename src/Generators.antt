-- ===== src/Generators.antt =====
-- lib/player_generators and lib/coin_generators: where new players and coins appear. Each generator
-- owns an engine of type `R`.
pub mod Placement
use Prim.Native.Nat.{◌+◌ as add}
use angry_balls.Base.{
  ℕ, zero, suc, ◌%◌, ◌^◌, List, [], ◌∷◌, Bool, ◌||◌, Option, none, some, if◌then◌else◌, ◌≡◌, refl,
  ◌⊎◌, inl, inr,
}
use angry_balls.Double.{Double, ◌-◌, ◌*◌, ◌/◌, ◌+◌, ◌<◌, ◌<=◌, real, one, two}
use angry_balls.Double
use angry_balls.Geometry.{Point, distance}
use angry_balls.Random.{Random}
use angry_balls.Units.{Player, Coin}

-- What a generator comes to: it returns, its search is still going on after the rounds given, or its
-- assertion about the radii fails.
pub data Found (A : Type 0) : Type 0 where
  found : A → Found A
  unplaced too_large : Found A

pub Found-cases :
    {A : Type 0} (x : Found A) → ((a : A) × (x ≡ found a)) ⊎ ((x ≡ unplaced) ⊎ (x ≡ too_large))
Found-cases (found a) = inl (a, refl)
Found-cases unplaced = inr (inl refl)
Found-cases too_large = inr (inr refl)

-- The two members of `DefaultPlayerGenerator`.
pub record PlayerGenerator (R : Type 0) : Type 0 where
  pub engine : R
  pub last_player_id : ℕ

module _ {N : Type 0} ⦃d : Double N⦄ where
  abbrev pub pi : N
  pi = d.atan one * real 4

  -- A point at `radius` and `alpha` about the centre.
  abbrev pub polar : N → N → Point N
  polar radius alpha = record { x = radius * d.cos alpha; y = radius * d.sin alpha }

  abbrev pub coin_at : N → N → N → Coin N
  coin_at coin_radius radius alpha = record {
    center = polar radius alpha;
    radius = coin_radius;
    value = one;
  }

  -- `DummyCoinGenerator::GetCoin`; `none` is the failed assertion.
  unfoldable pub get_dummy_coin : N → N → Option (Coin N)
  get_dummy_coin field_radius coin_radius =
      let max_radius = field_radius - coin_radius in
      if coin_radius < field_radius
      then some (coin_at coin_radius (max_radius / two) (pi / real 4))
      else none

  -- `new_player` at a drawn place.
  unfoldable pub player_at : ℕ → N → N → N → Player N
  player_at id player_radius radius alpha = record {
    id = id;
    score = Double.zero;
    center = polar radius alpha;
    radius = player_radius;
    velocity = record { x = Double.zero; y = Double.zero };
  }

  unfoldable pub overlaps : Player N → List (Player N) → Bool
  overlaps p [] = Bool.false
  overlaps p (q ∷ qs) = distance p.center q.center <= p.radius + q.radius || overlaps p qs

  module _ {R : Type 0} (random : Random N R) where
    -- `DefaultCoinGenerator::GetCoin`; `none` is the failed assertion.
    unfoldable pub get_default_coin : N → N → R → Option (Coin N × R)
    get_default_coin field_radius coin_radius engine =
        let max_radius = field_radius - coin_radius in
        let (radius, later) = random.uniform Double.zero max_radius engine in
        let (alpha, last) = random.uniform Double.zero (pi * two) later in
        if coin_radius < field_radius then some (coin_at coin_radius radius alpha, last) else none

    -- The draws of one round of the search: a place, and the engine left.
    unfoldable pub draw_player : N → N → PlayerGenerator R → Player N × R
    draw_player field_radius player_radius g =
        let (radius, later) = random.uniform Double.zero (field_radius - player_radius) g.engine in
        let (alpha, last) = random.uniform Double.zero (pi * two) later in
        (player_at g.last_player_id player_radius radius alpha, last)

    -- The `for (;;)` of `DefaultPlayerGenerator::GetPlayer`, for at most `fuel` rounds. The id counter is an `unsigned int`.
    unfoldable pub search :
        ℕ → N → N → List (Player N) → PlayerGenerator R → Found (Player N × PlayerGenerator R)
    search zero field_radius player_radius players g = unplaced
    search (suc fuel) field_radius player_radius players g =
        let (p, engine) = draw_player field_radius player_radius g in
        let again = search fuel field_radius player_radius players (record g { engine = engine }) in
        if overlaps p players
        then again
        else found (p, record { engine = engine; last_player_id = add g.last_player_id 1 % 2 ^ 32 })

    -- `DefaultPlayerGenerator::GetPlayer` behind its assertion.
    unfoldable pub get_default_player :
        ℕ → N → N → List (Player N) → PlayerGenerator R → Found (Player N × PlayerGenerator R)
    get_default_player fuel field_radius player_radius players g =
        if player_radius < field_radius
        then search fuel field_radius player_radius players g
        else too_large
