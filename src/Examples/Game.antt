-- ===== src/Examples/Game.antt =====
-- A game of the server with the default generators, from the first player to the end.
use angry_balls.Base.{ℕ, List, [], set, none, some, ◌≡◌, refl, ◌<◌, ◌≤◌, ◌⊎◌, arith}
use angry_balls.Base.Int.{ℤ, ◌-ℤ◌, ◌+ℤ◌, ◌*ℤ◌}
use angry_balls.Double.Fixed.{fixed, root, root_from, fixed_product, fixed_quotient}
use angry_balls.Units.{FieldState}
use angry_balls.Server.Config.{GameConfig}
use angry_balls.Generators.{
  get_default_coin, get_default_player, search, overlaps, player_at, draw_player,
}
use angry_balls.Geometry.{distance}
use angry_balls.Server.GameState.{
  push_coin, place_player, Manager, add_turn, add_player, generate_coin, init, advance,
}
use angry_balls.Server.GameState.Interface.{
  Generators, Counts, Engines, default_coin, default_player, default_generators,
  default_generators-Counts,
}
use angry_balls.Server.GameState.Invariant.{IsValid, add_turn_cases, Adds, add_player-Adds}
use angry_balls.Server.GameState.Round.{advance_lem, advanced}
use angry_balls.Server.GameState.Run.{
  waiting, Game, player_comes, turn_comes, begin, send, here, then_step,
}
use angry_balls.Server.GameState.Run.Rounds.{IsRun, Reaches-IsRun, Reaches-waiting}
use angry_balls.Examples.Data.{two_turns, field, counting_random, engines, config, turn_of}

abbrev pub gen : Generators ℤ (Engines ℕ)
gen = default_generators counting_random 3

-- Two players are in the game, and their turns have come.
abbrev pub busy : Manager ℤ (Engines ℕ)
busy = record {
  config = config;
  state = field;
  turns = two_turns;
  generators = record engines {
    player_generator = record (engines.player_generator) { last_player_id = 2 };
  };
}

abbrev with_room : Manager ℤ (Engines ℕ)
with_room = record busy { config = record config { max_players_count = 3 } }

pub default_generators-Counts_example : Counts gen
default_generators-Counts_example = default_generators-Counts counting_random 3

busy-IsValid : IsValid gen busy
unfolding default_generators
busy-IsValid = record {
  players_numbered = (refl, (refl, tt));
  turns_numbered = (refl, (refl, tt));
  same_length = refl;
  next_is = refl;
  room = omega arith;
  few = omega arith;
}

with_room-IsValid : IsValid gen with_room
unfolding default_generators
with_room-IsValid = record {
  players_numbered = (refl, (refl, tt));
  turns_numbered = (refl, (refl, tt));
  same_length = refl;
  next_is = refl;
  room = omega arith;
  few = omega arith;
}

add_player-Adds_example : Adds gen with_room (add_player gen with_room)
add_player-Adds_example =
    add_player-Adds gen default_generators-Counts_example with_room with_room-IsValid

add_turn_cases_example :
    ((1 < 2)
      × (m : Manager ℤ (Engines ℕ)) × (add_turn (turn_of 1) busy ≡ some m)
      × (m.turns ≡ set two_turns 1 (turn_of 1))
      × (m.state ≡ field)
      × (m.config ≡ config)
      × IsValid gen m)
    ⊎ ((2 ≤ 1) × (add_turn (turn_of 1) busy ≡ none))
add_turn_cases_example = add_turn_cases gen (turn_of 1) busy busy-IsValid

advance_lem_example : advance busy ≡ some (record busy { state = advanced gen busy })
advance_lem_example = advance_lem gen busy busy-IsValid

-- Two players come, the game starts, a turn comes in, and one round is played.
Reaches-IsRun_example : (k : Game ℤ (Engines ℕ)) × IsRun gen config k
unfolding default_generators default_player default_coin get_default_coin get_default_player search
    overlaps player_at draw_player distance fixed root root_from fixed_product fixed_quotient ◌-ℤ◌
    ◌+ℤ◌ ◌*ℤ◌ add_player place_player add_turn init generate_coin push_coin
Reaches-IsRun_example = (
  _,
  Reaches-IsRun gen config default_generators-Counts_example (omega arith) engines 0 refl
      (omega arith)
      (then_step
        (then_step (then_step (then_step here (player_comes refl)) (begin (omega arith)))
          (turn_comes (turn_of 0) refl))
        (send (omega arith) refl)),
)

abbrev narrow_config : GameConfig ℤ
narrow_config = record config { min_players_count = 3 }

Reaches-waiting_example : (waiting ≡ waiting) × (◌≡◌ {A = List (FieldState ℤ)} [] [])
unfolding default_generators default_player get_default_player search overlaps player_at draw_player
    distance fixed root root_from fixed_product fixed_quotient ◌-ℤ◌ ◌+ℤ◌ ◌*ℤ◌ add_player
    place_player init
Reaches-waiting_example =
    Reaches-waiting gen narrow_config default_generators-Counts_example (omega arith) engines 0 refl
      (omega arith) (omega arith)
      (then_step (then_step here (player_comes refl)) (player_comes refl))
