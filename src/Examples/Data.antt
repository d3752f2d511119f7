-- ===== src/Examples/Data.antt =====
-- The data of the examples: two players, three coins, an engine that counts its draws.
use Prim.Native.Nat.{ℕ, ◌+◌, ◌%◌}
use angry_balls.Base.{List, [], ◌∷◌}
use angry_balls.Base.Int.{ℤ, pos}
use angry_balls.Double.{real, one, zero}
use angry_balls.Double.Fixed.{fixed}
use angry_balls.Units.{Player, Coin, FieldState, Turn}
use angry_balls.Random.{Random}
use angry_balls.Server.Config.{GameConfig}
use angry_balls.Server.GameState.Interface.{Engines}

abbrev pub player_at_x : ℕ → ℕ → Player ℤ
player_at_x id x = record {
  id = id;
  score = zero;
  center = record { x = real x; y = zero };
  radius = one;
  velocity = record { x = one; y = zero };
}

abbrev pub coin_at_x : ℕ → Coin ℤ
coin_at_x x = record { center = record { x = real x; y = one }; radius = one; value = one }

abbrev pub two_players : List (Player ℤ)
two_players = player_at_x 0 0 ∷ player_at_x 1 10 ∷ []

abbrev pub three_coins : List (Coin ℤ)
three_coins = coin_at_x 10 ∷ coin_at_x 5 ∷ coin_at_x 0 ∷ []

abbrev pub field : FieldState ℤ
field = record {
  id = 3;
  radius = real 50;
  time_delta = real 100;
  velocity_max = real 5;
  players = two_players;
  coins = three_coins;
}

abbrev pub turn_of : ℕ → Turn ℤ
turn_of id = record { player_id = id; state_id = 3; acceleration = record { x = one; y = zero } }

abbrev pub two_turns : List (Turn ℤ)
two_turns = turn_of 0 ∷ turn_of 1 ∷ []

-- A draw is an eighth of the interval for each of the last draws, modulo seven.
abbrev pub counting_random : Random ℤ ℕ
counting_random = record {
  uniform = λ low high e. (
    fixed.sum low
        (fixed.quotient (fixed.product (fixed.difference high low) (real (e % 7))) (real 8)),
    e + 1,
  );
}

abbrev pub engines : Engines ℕ
engines = record {
  player_generator = record { engine = 0; last_player_id = 0 };
  coin_engine = 0;
  random_generator = 4;
}

abbrev pub config : GameConfig ℤ
config = record {
  min_players_count = 1;
  max_players_count = 2;
  max_states_count = 3;
  time_delta = 100;
  max_velocity = real 5;
  coin_probability = fixed.half;
  player_radius = one;
  field_radius = real 50;
  coin_radius = one;
  port = pos 8000;
}
