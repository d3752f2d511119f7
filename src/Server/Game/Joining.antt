-- ===== src/Server/Game/Joining.antt =====
-- Who joins a game of the server: `AddPlayer` in the states that its threads can come to.
use Prim.Native.String.{String}
use angry_balls.Base.{ℕ, List, some, true, false, ◌≡◌, ◌≢◌, refl, subst, sym, inl, inr, arith}
use angry_balls.Base.Int.{ℤ}
use angry_balls.Double.{Double, ◌<◌ as is_below}
use angry_balls.Random.{Random}
use angry_balls.Generators.{too_large, get_default_player, Found-cases}
use angry_balls.Generators.Placement.{get_default_player-too_large}
use angry_balls.Server.Config.{GameConfig}
use angry_balls.Server.Config.Limits.{check-limits, check-player_radius}
use angry_balls.Server.GameState.{Manager, Added, aborted, out_of_range, add_player}
use angry_balls.Server.GameState.Interface.{
  Generators, Engines, default_player, default_generators, default_generators-Counts,
}
use angry_balls.Server.GameState.Invariant.{
  Adds, full, undecided, failed_assertion, one_more, asked, add_player-Adds,
}
use angry_balls.Server.GameState.Run.Rounds.{Reaches-IsRun}
use angry_balls.Server.Game.Main.{seeded, server_main, started}
use angry_balls.Server.Game.Threads.{Threads, game_server, Arrives, Arrives-IsComing}
use angry_balls.Units.{Player}

module _ {N G : Type 0} ⦃d : Double N⦄ (gen : Generators N G) {m : Manager N G} where
  Adds-aborted : {a : Added N G} → Adds gen m a → a ≡ aborted → asked gen m ≡ too_large
  Adds-aborted (full h) e = cc
  Adds-aborted (undecided h k) e = cc
  Adds-aborted (failed_assertion h k) e = k
  Adds-aborted (one_more p made h a b s t c v) e = cc

  Adds-ne-out_of_range : {a : Added N G} → Adds gen m a → a ≢ out_of_range
  Adds-ne-out_of_range (full h) e = cc
  Adds-ne-out_of_range (undecided h k) e = cc
  Adds-ne-out_of_range (failed_assertion h k) e = cc
  Adds-ne-out_of_range (one_more p made h a b s t c v) e = cc

module _ {N R : Type 0} ⦃d : Double N⦄ (random : Random N R) (fuel : ℕ) where
  default_player-too_large :
      (r s : N) (ps : List (Player N)) (e : Engines R)
      → default_player random fuel r s ps e ≡ too_large
      → is_below s r ≡ false
  unfolding default_player
  default_player-too_large r s ps e h =
      elim (Found-cases (get_default_player random fuel r s ps e.player_generator)) [
        | inl ((p, g), good) ↦ absurd (ground (arith, good, h))
        | inr (inl going_on) ↦ absurd (ground (arith, going_on, h))
        | inr (inr failed) ↦
            get_default_player-too_large random fuel r s ps e.player_generator failed
      ]

module _ {N : Type 0} ⦃d : Double N⦄ (atoi : String → ℤ) (atof : String → N) where
  module _ {R : Type 0} (random : Random N R) (fuel : ℕ) where
    -- Whatever the arguments of the server, if it starts a game with the default generators, then wherever
    -- its threads have come to, a subscription of a player neither fails the assertion of the generator,
    -- that the player is smaller than the field, nor throws by `at`.
    pub server_main-add_player :
        (e f r : R) (unset : ℕ) (args : List String) {start t : Threads N (Engines R)}
        → server_main atoi atof random fuel e f r unset args ≡ some start
        → Arrives (default_generators random fuel) start t
        → let outcome = add_player (default_generators random fuel) t.game.manager in
          (outcome ≢ aborted) × (outcome ≢ out_of_range)
    unfolding default_generators game_server
    server_main-add_player e f r unset args {start} {t} starts arrives =
        let gen = default_generators random fuel in
        let counts = default_generators-Counts random fuel in
        let (config, (reads, (accepted, is_start))) =
          started atoi atof random fuel e f r unset args starts in
        let (waits, plays, few, narrow) = check-limits config accepted in
        let coming = Arrives-IsComing gen (subst (λ s. Arrives gen s t) is_start arrives) in
        let run =
          Reaches-IsRun gen config counts (omega arith) (seeded atoi atof random fuel e f r) unset
            refl few coming.reached in
        let adds = add_player-Adds gen counts t.game.manager run.valid in
        let fits : is_below t.game.manager.config.player_radius t.game.manager.config.field_radius
            ≡ true =
          subst (λ (k : GameConfig N). is_below k.player_radius k.field_radius ≡ true)
            (sym run.config) (check-player_radius config accepted) in
        (
          λ stops.
              let large =
                default_player-too_large random fuel _ _ _ _ (Adds-aborted gen adds stops) in
              cc,
          Adds-ne-out_of_range gen adds,
        )
