-- ===== src/Server/Config/Limits.antt =====
-- What `GameConfig::Check` guarantees to the game, and what it lets through.
use angry_balls.Base.{ℕ, ◌<◌, ◌^◌, true, ◌≡◌, arith}
use angry_balls.Double.{Double, ◌<◌ as is_below}
use angry_balls.Server.Config.{GameConfig, check}

module _ {N : Type 0} ⦃d : Double N⦄ where
  -- A configuration that `Check` accepts waits for at least one player and has at least two states to
  -- play, fewer than 1000 places for players, and fewer than 10^9 states.
  pub check-limits :
      (c : GameConfig N)
      → check c ≡ true
      → (0 < c.min_players_count)
        × (1 < c.max_states_count)
        × (c.max_players_count < 1000)
        × (c.max_states_count < 10 ^ 9)
  unfolding check
  check-limits c h = ground arith

  -- A coin of it is smaller than the field.
  pub check-coin_radius :
      (c : GameConfig N) → check c ≡ true → (is_below c.coin_radius c.field_radius) ≡ true
  unfolding check
  check-coin_radius c h = ground arith

  -- A player of it is smaller than the field.
  pub check-player_radius :
      (c : GameConfig N) → check c ≡ true → (is_below c.player_radius c.field_radius) ≡ true
  unfolding check
  check-player_radius c h = ground arith

  -- `Check` does not compare the greatest number of players with the least: what it accepts, it
  -- accepts with any other `max_players_count` below 1000.
  pub check-max_players_count :
      (c : GameConfig N) (count : ℕ)
      → check c ≡ true
      → count < 1000
      → check (record c { max_players_count = count }) ≡ true
  unfolding check
  check-max_players_count c count h low = ground arith
