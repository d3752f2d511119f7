-- ===== src/Server/GameState/Interface.antt =====
-- What the game asks of its generators, and the default ones behind it.
use angry_balls.Base.{ℕ, ◌+◌, ◌%◌, ◌^◌, List, Option, some, none, ◌≡◌, refl, inl, inr, arith}
use angry_balls.Double.{Double, zero, one}
use angry_balls.Random.{Random}
use angry_balls.Units.{Player, Coin}
use angry_balls.Generators.{
  Found, found, unplaced, too_large, Found-cases, PlayerGenerator, get_default_player,
  get_default_coin,
}
use angry_balls.Generators.Placement.{get_default_player-IsNew}

-- `PlayerGeneratorInterface`, `CoinGeneratorInterface` and the manager's own engine, over the state
-- `G` that they share; `none` is the failed assertion of the coin generator.
pub record Generators (N G : Type 0) : Type 0 where
  pub get_player : N → N → List (Player N) → G → Found (Player N × G)
  pub get_coin : N → N → G → Option (Coin N × G)
  -- `std::uniform_real_distribution(0, 1)`.
  pub draw : G → N × G
  -- The id that the next player will get.
  pub next_id : G → ℕ

-- Players are numbered in the order in which they come, and nothing else takes a number.
pub record Counts {N G : Type 0} (gen : Generators N G) : Type 0 where
  pub id-get_player :
      (r s : N) (ps : List (Player N)) (g : G) {p : Player N} {g' : G}
      → gen.get_player r s ps g ≡ found (p, g')
      → (p.id ≡ gen.next_id g) × (gen.next_id g' ≡ (gen.next_id g + 1) % 2 ^ 32)
  pub next_id-get_coin :
      (r s : N) (g : G) {c : Coin N} {g' : G}
      → gen.get_coin r s g ≡ some (c, g')
      → gen.next_id g' ≡ gen.next_id g
  pub next_id-draw : (g : G) → gen.next_id (gen.draw g).1 ≡ gen.next_id g

-- The three engines of the server: the player generator's, the coin generator's, the manager's.
pub record Engines (R : Type 0) : Type 0 where
  pub player_generator : PlayerGenerator R
  pub coin_engine : R
  pub random_generator : R

module _ {N R : Type 0} ⦃d : Double N⦄ (random : Random N R) (fuel : ℕ) where
  unfoldable pub default_player : N → N → List (Player N) → Engines R → Found (Player N × Engines R)
  default_player r s ps e = elim (get_default_player random fuel r s ps e.player_generator) [
    | found (p, g) ↦ found (p, record e { player_generator = g })
    | unplaced ↦ unplaced
    | too_large ↦ too_large
  ]

  unfoldable pub default_coin : N → N → Engines R → Option (Coin N × Engines R)
  default_coin r s e = elim (get_default_coin random r s e.coin_engine) [
    | none ↦ none
    | some (c, g) ↦ some (c, record e { coin_engine = g })
  ]

  -- `Init<DefaultPlayerGenerator, DefaultCoinGenerator, …>`.
  unfoldable pub default_generators : Generators N (Engines R)
  unfolding default_player default_coin
  default_generators = record {
    get_player = default_player;
    get_coin = default_coin;
    draw = λ e.
        let (x, later) = random.uniform zero one e.random_generator in
        (x, record e { random_generator = later });
    next_id = λ e. e.player_generator.last_player_id;
  }

  id-default_player :
      (r s : N) (ps : List (Player N)) (e : Engines R) {p : Player N} {e' : Engines R}
      → default_player r s ps e ≡ found (p, e')
      → (p.id ≡ e.player_generator.last_player_id)
        × (e'.player_generator.last_player_id ≡ (e.player_generator.last_player_id + 1) % 2 ^ 32)
  unfolding default_player
  id-default_player r s ps e {p} {e'} h =
      elim (Found-cases (get_default_player random fuel r s ps e.player_generator)) [
        | inl ((q, g), good) ↦
            ground (arith, get_default_player-IsNew random fuel r s ps e.player_generator good)
        | inr (inl going_on) ↦ ground arith
        | inr (inr failed) ↦ ground arith
      ]

  -- The default generators keep the contract.
  pub default_generators-Counts : Counts default_generators
  unfolding default_generators
  default_generators-Counts = record {
    id-get_player = id-default_player;
    next_id-get_coin = λ r s g h. ground arith;
    next_id-draw = λ g. refl;
  }
