-- ===== src/Server/GameState.antt =====
-- src/server/game_state_manager.hpp and .cpp: the game's state, the turns received, and the loop of
-- the game. A call under the mutex is one function; `Run` is a step relation, since other threads
-- add players and turns between its critical sections.
pub mod Interface
pub mod Invariant
pub mod Round
pub mod Run
use angry_balls.Base.{
  ℕ, zero, suc, ◌+◌, ◌-◌, ◌<◌, List, [], ◌∷◌, ◌++◌, Bool, true, false, not, map, take, replicate,
  length, get_elem?, set, Option, none, some, ltb, leb, ◌==◌, if◌then◌else◌,
}
use angry_balls.Double.{Double, ◌<◌ as less}
use angry_balls.Double
use angry_balls.Units.{Player, Coin, FieldState, Turn}
use angry_balls.Emulator.{Emulated, done, fault, emulate, default_steps_number}
use angry_balls.Server.Config.{GameConfig}
use angry_balls.Generators.{Found, found, unplaced, too_large}
use Interface.{Generators}

-- The members that the methods read or write; `generators` holds the two generators and the random
-- engine of the manager.
pub record Manager (N G : Type 0) : Type 0 where
  pub config : GameConfig N
  pub state : FieldState N
  pub turns : List (Turn N)
  pub generators : G

-- `AddPlayer`: refused for want of room, added with its id, still looking for a place after the rounds
-- that the generator was given, aborted by the generator's assertion, or thrown out of by `at`.
pub data Added (N G : Type 0) : Type 0 where
  refused : Added N G
  added : ℕ → Manager N G → Added N G
  searching : Added N G
  aborted : Added N G
  out_of_range : Added N G

-- `std::vector::at(index) = value`; `none` is `std::out_of_range`.
abbrev pub set_at {ℓ} : {A : Type ℓ} → List A → ℕ → A → Option (List A)
set_at xs index value = if ltb index (length xs) then some (set xs index value) else none

-- `std::vector::resize`.
abbrev pub resize {ℓ} : {A : Type ℓ} → ℕ → A → List A → List A
resize n fill xs = take n xs ++ replicate (n - length xs) fill

module _ {N : Type 0} ⦃d : Double N⦄ where
  -- A turn as `AddPlayer` leaves it for the player `id`, and a value-initialised one.
  abbrev pub idle_turn : ℕ → Turn N
  idle_turn id = record {
    player_id = id;
    state_id = 0;
    acceleration = record { x = Double.zero; y = Double.zero };
  }

  -- The body of the loop of `FilterTurns`: what becomes of a turn that is not for this state.
  abbrev pub filtered : ℕ → Turn N → Turn N
  filtered id t =
      if t.state_id == id
      then t
      else record t { acceleration = record { x = Double.zero; y = Double.zero } }

module _ {N G : Type 0} ⦃d : Double N⦄ where
  -- `AddTurn`; `none` is `std::out_of_range`.
  unfoldable pub add_turn : Turn N → Manager N G → Option (Manager N G)
  add_turn t m = elim (set_at m.turns t.player_id t) [
    | none ↦ none
    | some turns ↦ some (record m { turns = turns })
  ]

  -- `FilterTurns`: the loop variable is a copy of each turn, and no copy is written back.
  unfoldable pub filter_turns : Manager N G → Manager N G
  filter_turns m = let copies = map (filtered m.state.id) m.turns in m

  module _ (gen : Generators N G) where
    -- The end of `AddPlayer`, for the player that the generator found.
    unfoldable pub place_player : Player N → Manager N G → Added N G
    place_player p m =
        let players = m.state.players ++ p ∷ [] in
        let turns = resize (length players) (idle_turn 0) m.turns in
        elim (set_at turns p.id (idle_turn p.id)) [
          | none ↦ out_of_range
          | some ts ↦
              added p.id (record m { state = record (m.state) { players = players }; turns = ts })
        ]

    -- `AddPlayer`.
    unfoldable pub add_player : Manager N G → Added N G
    unfolding place_player
    add_player m =
        if leb m.config.max_players_count (length m.state.players)
        then refused
        else elim (gen.get_player m.config.field_radius m.config.player_radius m.state.players
            m.generators) [
              | unplaced ↦ searching
              | too_large ↦ aborted
              | found (p, g) ↦ place_player p (record m { generators = g })
            ]

    unfoldable pub push_coin : Manager N G → Option (Manager N G)
    push_coin m = elim (gen.get_coin m.config.field_radius m.config.coin_radius m.generators) [
      | none ↦ none
      | some (c, g) ↦ some (record m {
        state = record (m.state) { coins = m.state.coins ++ c ∷ [] };
        generators = g;
      })
    ]

    -- `GenerateCoin`: the draw is made only if the coin is not obligatory.
    unfoldable pub generate_coin : Bool → Manager N G → Option (Manager N G)
    unfolding push_coin
    generate_coin true m = push_coin m
    generate_coin false m =
        let (x, g) = gen.draw m.generators in
        let drawn = record m { generators = g } in
        if less x m.config.coin_probability then push_coin drawn else some drawn

  -- The constructor; the number of the state is not set before the game starts.
  unfoldable pub init : GameConfig N → G → ℕ → Manager N G
  init config generators unset = record {
    config = config;
    state = record {
      id = unset;
      radius = config.field_radius;
      time_delta = Double.real config.time_delta;
      velocity_max = config.max_velocity;
      players = [];
      coins = [];
    };
    turns = [];
    generators = generators;
  }

  -- The second critical section of the loop: `FilterTurns` and `Emulate`; `none` is a fault.
  unfoldable pub advance : Manager N G → Option (Manager N G)
  unfolding filter_turns
  advance m =
      let filtered_manager = filter_turns m in
      elim (emulate default_steps_number filtered_manager.turns filtered_manager.state) [
        | done s ↦ some (record filtered_manager { state = s })
        | fault f ↦ none
      ]
