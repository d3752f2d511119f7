-- ===== src/Server/Config.antt =====
-- src/server/game_server.hpp and `ParseGameConfigOptions` of src/server/game_server.cpp.
pub mod Limits
use Prim.Native.String.{String}
use text.Mathlib.Text.{◌==◌ as str_eq}
use angry_balls.Base.{
  ℕ, ◌-◌, ◌*◌, ◌^◌, List, [], ◌∷◌, Bool, ◌&&◌, Option, none, some, ltb, if◌then◌else◌,
}
use angry_balls.Base.Int.{ℤ, pos, negsuc}
use angry_balls.Double.{Double, ◌*◌ as times, ◌<◌, zero, one, real}

-- Counts are `size_t`.
pub record GameConfig (N : Type 0) : Type 0 where
  pub min_players_count : ℕ
  pub max_players_count : ℕ
  pub max_states_count : ℕ
  pub time_delta : ℕ
  pub max_velocity : N
  pub coin_probability : N
  pub player_radius : N
  pub field_radius : N
  pub coin_radius : N
  pub port : ℤ

module _ {N : Type 0} ⦃d : Double N⦄ where
  -- `GameConfig::Check`, conjunct by conjunct.
  unfoldable pub check : GameConfig N → Bool
  check c =
      (ltb 0 c.min_players_count && ltb c.min_players_count 1000)
      && (ltb c.min_players_count c.max_states_count && ltb c.max_players_count 1000)
      && (ltb 0 c.max_states_count && ltb c.max_states_count 1_000_000_000)
      && (ltb 0 c.time_delta && ltb c.time_delta (60 * 1000))
      && (zero < c.coin_probability && c.coin_probability < one)
      && (zero < c.field_radius && c.field_radius < real 1000)
      && (zero < c.max_velocity && c.max_velocity < times c.field_radius d.half)
      && (zero < c.player_radius && c.player_radius < c.field_radius)
      && (zero < c.coin_radius && c.coin_radius < c.field_radius)

-- An `int` stored in a `size_t`.
abbrev pub to_size : ℤ → ℕ
to_size (pos n) = n
to_size (negsuc n) = 2 ^ 64 - 1 - n

-- `atoi` and `atof` of the C library.
module _ {N : Type 0} ⦃d : Double N⦄ (atoi : String → ℤ) (atof : String → N) where
  -- `ParseGameConfigOptions`, of `argc` and `argv` in one list; `none` prints the usage and exits.
  unfoldable pub parse_game_config_options : List String → Option (GameConfig N)
  parse_game_config_options
        (program ∷ k1 ∷ v1 ∷ k2 ∷ v2 ∷ k3 ∷ v3 ∷ k4 ∷ v4 ∷ k5 ∷ v5 ∷ k6 ∷ v6 ∷ k7 ∷ v7 ∷ k8 ∷ v8
          ∷ k9 ∷ v9 ∷ k10 ∷ v10 ∷ []) =
      let config : GameConfig N = record {
        min_players_count = to_size (atoi v1);
        max_players_count = to_size (atoi v2);
        max_states_count = to_size (atoi v3);
        time_delta = to_size (atoi v4);
        max_velocity = atof v5;
        coin_probability = atof v6;
        player_radius = atof v7;
        field_radius = atof v8;
        coin_radius = atof v9;
        port = atoi v10;
      } in
      if str_eq "--min-players-count" k1
        && str_eq "--max-players-count" k2
        && str_eq "--max-states-count" k3
        && str_eq "--time-delta" k4
        && str_eq "--max-velocity" k5
        && str_eq "--coin-probability" k6
        && str_eq "--player-radius" k7
        && str_eq "--field-radius" k8
        && str_eq "--coin-radius" k9
        && str_eq "--port" k10
        && check config
      then some config
      else none
  parse_game_config_options _ = none
