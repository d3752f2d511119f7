-- ===== src/Examples/Field.antt =====
-- The emulator and the generators on two players and three coins.
use angry_balls.Base.{[], ◌∷◌, All, length, ◌%◌, ◌^◌, ◌≡◌, refl, ◌<◌, map, arith, true}
use angry_balls.Base.Int.{ℤ, ◌+ℤ◌, ◌-ℤ◌, ◌*ℤ◌}
use angry_balls.Double.{one, real, ◌/◌}
use angry_balls.Double.Fixed.{
  fixed, fixed-IsExact, fixed-IsOrder, root, root_from, fixed_product, fixed_quotient,
}
use angry_balls.Units.{FieldState, Turn}
use angry_balls.Geometry.{distance, less}
use angry_balls.Emulator.{done, emulate, emulate_steps, default_steps_number}
use angry_balls.Emulator.Aligned.{emulate_aligned}
use angry_balls.Emulator.Coins.{divide_coins, nearest, nearest_from, compare_distance}
use angry_balls.Emulator.Coins.Shares.{Shares, divide_coins-Shares}
use angry_balls.Emulator.Coins.Winners.{touched_winners}
use angry_balls.Emulator.Frame.{IsFrame, emulate-IsFrame}
use angry_balls.Emulator.Momentum.{total, handle_ball_to_ball_collisions-total}
use angry_balls.Emulator.Physics.{handle_ball_to_ball_collisions}
use angry_balls.Emulator.Turns.{accelerate_all}
use angry_balls.Generators.{
  found, unplaced, too_large, get_default_player, search, overlaps, player_at, draw_player,
}
use angry_balls.Generators.Placement.{get_default_player-IsNew, IsNew}
use angry_balls.Examples.Data.{
  player_at_x, coin_at_x, two_players, three_coins, field, two_turns, counting_random, engines,
}

abbrev advanced_field : FieldState ℤ
advanced_field =
    emulate_steps default_steps_number (field.time_delta / real 100 / real default_steps_number)
      (record field {
        players =
            accelerate_all field.time_delta field.velocity_max
              (map (λ (t : Turn ℤ). t.acceleration) two_turns) field.players;
      })

emulate_aligned_example : emulate default_steps_number two_turns field ≡ done advanced_field
emulate_aligned_example =
    emulate_aligned default_steps_number two_turns field (omega arith) refl (refl, (refl, tt))
      (refl, (refl, tt))

emulate-IsFrame_example : IsFrame field advanced_field
emulate-IsFrame_example =
    emulate-IsFrame default_steps_number two_turns field emulate_aligned_example

fixed-below_epsilon :
    (a b : ℤ) → fixed.less a (fixed.difference b fixed.micro) ≡ true → fixed.less a b ≡ true
unfolding fixed ◌-ℤ◌ ◌+ℤ◌
fixed-below_epsilon a b h = ground arith

divide_coins-Shares_example :
    let (players, left) = divide_coins two_players three_coins in
    Shares (fixed.sum one one) two_players three_coins two_players players left
divide_coins-Shares_example =
    divide_coins-Shares fixed-IsOrder fixed-below_epsilon (player_at_x 0 0) (player_at_x 1 10 ∷ [])
      (coin_at_x 10) (coin_at_x 5 ∷ coin_at_x 0 ∷ [])

touched_winners_example :
    (0 < length (nearest two_players (coin_at_x 10)).on_the_min_distance)
    × All (λ i. i < length two_players) (nearest two_players (coin_at_x 10)).on_the_min_distance
unfolding fixed nearest nearest_from compare_distance distance less root root_from fixed_product
    ◌-ℤ◌ ◌+ℤ◌ ◌*ℤ◌ fixed_quotient
touched_winners_example = touched_winners (real 2) two_players (coin_at_x 10) refl refl

handle_ball_to_ball_collisions-total_example :
    (total (λ p. p.velocity.x) (handle_ball_to_ball_collisions two_players)
      ≡ total (λ p. p.velocity.x) two_players)
    × (total (λ p. p.velocity.y) (handle_ball_to_ball_collisions two_players)
        ≡ total (λ p. p.velocity.y) two_players)
handle_ball_to_ball_collisions-total_example =
    handle_ball_to_ball_collisions-total fixed-IsExact two_players

get_default_player-IsNew_example :
    IsNew one 0 two_players
      (elim (get_default_player counting_random 3
        (real 50)
        one
        two_players
        engines.player_generator) [
          | found (p, g) ↦ p
          | unplaced ↦ player_at_x 0 0
          | too_large ↦ player_at_x 0 0
        ])
    × (1 ≡ 1 % 2 ^ 32)
unfolding get_default_player fixed search overlaps player_at distance draw_player root root_from
    fixed_product ◌-ℤ◌ ◌+ℤ◌ ◌*ℤ◌ fixed_quotient
get_default_player-IsNew_example =
    get_default_player-IsNew counting_random 3 (real 50) one two_players engines.player_generator
      refl
