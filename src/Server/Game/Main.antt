-- ===== src/Server/Game/Main.antt =====
-- `main` of src/server/game_server.cpp: a game of the configuration that the arguments give.
use Prim.Native.String.{String}
use angry_balls.Base.{
  ℕ, ◌<◌, List, [], ◌∷◌, Bool, true, false, ◌&&◌, Option, none, some, if◌then◌else◌, Option-cases,
  Bool-cases, inl, inr, ◌≡◌, ◌≢◌, refl, subst, arith,
}
use angry_balls.Base.Int.{ℤ}
use angry_balls.Double.{Double}
use angry_balls.Random.{Random}
use angry_balls.Server.Config.{GameConfig, check, parse_game_config_options}
use angry_balls.Server.Config.Limits.{check-limits, check-coin_radius}
use angry_balls.Server.GameState.Interface.{Engines, default_generators, default_generators-Counts}
use angry_balls.Server.GameState.Run.{start_of, waiting}
use angry_balls.Server.GameState.Run.Rounds.{Reaches-IsRun}
use angry_balls.Server.Game.Finishing.{default_generators-Brings, begun-left}
use angry_balls.Server.Game.Threads.{
  Threads, placing, left, threads, game_server, Arrives, IsComplete, Arrives-left, Arrives-IsComing,
}

accepted-check :
    {N : Type 0} ⦃d : Double N⦄ (named : Bool) (config c : GameConfig N)
    → (if named && check config then some config else none) ≡ some c
    → check c ≡ true
accepted-check false config c h = cc
accepted-check true config c h = elim (Bool-cases (check config)) [
  | inl passes ↦ let same : config ≡ c = ground (arith, passes, h) in rw (← same) passes
  | inr fails ↦ ground (arith, fails, h)
]

module _ {N : Type 0} ⦃d : Double N⦄ (atoi : String → ℤ) (atof : String → N) where
  parse_game_config_options-check :
      (args : List String) (c : GameConfig N)
      → parse_game_config_options atoi atof args ≡ some c
      → check c ≡ true
  unfolding parse_game_config_options
  parse_game_config_options-check
        (program ∷ k1 ∷ v1 ∷ k2 ∷ v2 ∷ k3 ∷ v3 ∷ k4 ∷ v4 ∷ k5 ∷ v5 ∷ k6 ∷ v6 ∷ k7 ∷ v7 ∷ k8 ∷ v8
          ∷ k9 ∷ v9 ∷ k10 ∷ v10 ∷ [])
        c h =
      accepted-check _ _ c h
  parse_game_config_options-check _ c h = cc

  module _ {R : Type 0} (random : Random N R) (fuel : ℕ) where
    -- The engines of the player generator, of the coin generator and of the manager.
    abbrev pub seeded : R → R → R → Engines R
    seeded e f r = record {
      player_generator = record { engine = e; last_player_id = 0 };
      coin_engine = f;
      random_generator = r;
    }

    -- The threads that `main` starts. `e`, `f` and `r` are the engines of the player generator, of the coin
    -- generator and of the manager, and `unset` is what the number of the state holds.
    unfoldable pub server_main : R → R → R → ℕ → List String → Option (Threads N (Engines R))
    server_main e f r unset args = elim (parse_game_config_options atoi atof args) [
      | none ↦ none
      | some config ↦
          some (threads (start_of (game_server {C = ℕ} config (seeded e f r) unset).manager))
    ]

    -- What is known of a start: the configuration that the arguments give, and that it was accepted.
    pub started :
        (e f r : R) (unset : ℕ) (args : List String) {start : Threads N (Engines R)}
        → server_main e f r unset args ≡ some start
        → (config : GameConfig N) × ((parse_game_config_options atoi atof args ≡ some config)
            × ((check config ≡ true)
                × (start
                    ≡ threads
                        (start_of (game_server {C = ℕ} config (seeded e f r) unset).manager))))
    unfolding server_main
    started e f r unset args {start} starts =
        elim (Option-cases (parse_game_config_options atoi atof args)) [
          | inl refused ↦ ground (arith, refused, starts)
          | inr (config, reads) ↦ (
            config,
            (
              reads,
              (parse_game_config_options-check args config reads, ground (arith, reads, starts)),
            ),
          )
        ]

    -- What `main` has done when the event loop of its server has ended.
    pub IsPlayed : List String → Threads N (Engines R) → Type 0
    IsPlayed args t =
        (config : GameConfig N) × ((parse_game_config_options atoi atof args ≡ some config)
          × ((1 < config.max_states_count) × IsComplete (default_generators random fuel) config t))

    -- Whatever the arguments of the server, if it starts a game with the default generators, then in
    -- whatever order its threads take their turns, when the event loop has ended, the game has finished, and
    -- exactly as many states were sent as the arguments say, of which there are at least two, numbered 1, 2,
    -- …; at most one batch of events came after the flag was set.
    pub server_main-IsPlayed :
        (e f r : R) (unset : ℕ) (args : List String) {start t : Threads N (Engines R)}
        → server_main e f r unset args ≡ some start
        → Arrives (default_generators random fuel) start t
        → t.loop ≡ left
        → IsPlayed args t
    unfolding IsPlayed default_generators
    server_main-IsPlayed e f r unset args {start} {t} starts arrives ends =
        let (config, (reads, (accepted, is_start))) = started e f r unset args starts in
        let (waits, plays, few, narrow) = check-limits config accepted in
        (
          config,
          (
            reads,
            (
              plays,
              Arrives-left (default_generators random fuel) config
                  (default_generators-Counts random fuel) (omega arith) (seeded e f r) unset refl
                  few (subst (λ s. Arrives (default_generators random fuel) s t) is_start arrives)
                  ends,
            ),
          ),
        )

    -- Whatever the arguments, once a game of the server has begun, wherever its threads have come to, if no
    -- handler is in a search for a player's place, for which it holds the mutex, they can come to the end
    -- of the event loop: no state of the field and no position of the threads but that search stops the
    -- thread of the game.
    pub server_main-left :
        (e f r : R) (unset : ℕ) (args : List String) {start t : Threads N (Engines R)}
        → server_main e f r unset args ≡ some start
        → Arrives (default_generators random fuel) start t
        → t.game.phase ≢ waiting
        → t.loop ≢ placing
        → (u : Threads N (Engines R)) × (Arrives (default_generators random fuel) start u
            × (u.loop ≡ left))
    unfolding default_generators game_server
    server_main-left e f r unset args {start} {t} starts arrives begun free =
        let gen = default_generators random fuel in
        let counts = default_generators-Counts random fuel in
        let (config, (reads, (accepted, is_start))) = started e f r unset args starts in
        let (waits, plays, few, narrow) = check-limits config accepted in
        let coming = Arrives-IsComing gen (subst (λ s. Arrives gen s t) is_start arrives) in
        let run =
          Reaches-IsRun gen config counts (omega arith) (seeded e f r) unset refl few
            coming.reached in
        begun-left gen config counts (omega arith) (default_generators-Brings random fuel)
          (check-coin_radius config accepted) arrives run begun free
