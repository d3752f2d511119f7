-- ===== src/Server/GameState/Run.antt =====
-- `GameStateManager::Run` among the threads that add players and turns. Each critical section under
-- the manager's mutex is one step, so every interleaving of the threads is a sequence of steps. The
-- number of the state is written between the sections, by the thread of `Run` alone, which is also
-- the only one to read it: a write is part of the step that follows or, at the start, precedes it.
pub mod Rounds
use angry_balls.Base.{
  ℕ, map, zero, suc, ◌+◌, ◌*◌, ◌%◌, ◌^◌, ◌≤◌, ◌<◌, List, [], ◌∷◌, ◌≡◌, refl, sym, ap, ◌∙◌, subst,
  length, length-append, false, Option, none, some, inl, inr, arith,
}
use native.Mathlib.Decide.{dec_lt}
use angry_balls.Double.{Double}
use angry_balls.Double
use angry_balls.Units.{Player, FieldState, Turn}
use angry_balls.Emulator.Frame.{IsFrame, marks}
use angry_balls.Server.Config.{GameConfig}
use angry_balls.Server.GameState.Interface.{Generators, Counts}
use angry_balls.Server.GameState.Invariant.{
  IsValid, init-IsValid, add_turn_cases, Adds, full, one_more, add_player-Adds, length-marks,
}
use angry_balls.Server.GameState.Round.{IsQuiet, generate_coin-IsValid, advance-IsValid}
use angry_balls.Server.GameState.{
  Manager, Added, added, add_turn, add_player, generate_coin, init, advance,
}

-- Where the thread of `Run` stands: in its first loop, at the head of the second, asleep in it, or
-- past it.
pub data Phase : Type 0 where
  waiting : Phase
  counting : Phase
  sleeping : Phase
  finished : Phase

-- `sent` holds the states that went to all observers, the last one first.
pub record Game (N G : Type 0) : Type 0 where
  pub phase : Phase
  pub manager : Manager N G
  pub sent : List (FieldState N)

-- `state_.id = …`; `FieldStateId` has 64 bits.
abbrev pub with_id : {N G : Type 0} → ℕ → Manager N G → Manager N G
with_id id m = record m { state = record (m.state) { id = id % 2 ^ 64 } }

abbrev pub start_of : {N G : Type 0} → Manager N G → Game N G
start_of m = record { phase = waiting; manager = m; sent = [] }

module _ {N G : Type 0} ⦃d : Double N⦄ (gen : Generators N G) where
  -- The last three constructors are the thread of `Run`; the first two are the other threads, which
  -- may come in at any time.
  pub data Step : Game N G → Game N G → Type 0 where
    player_comes :
        {p : Phase} {m m' : Manager N G} {sent : List (FieldState N)} {id : ℕ}
        → add_player gen m ≡ added id m'
        → Step
            (record { phase = p; manager = m; sent = sent })
            (record { phase = p; manager = m'; sent = sent })
    turn_comes :
        {p : Phase} {m m' : Manager N G} {sent : List (FieldState N)} (t : Turn N)
        → add_turn t m ≡ some m'
        → Step
            (record { phase = p; manager = m; sent = sent })
            (record { phase = p; manager = m'; sent = sent })
    begin :
        {m : Manager N G} {sent : List (FieldState N)}
        → m.config.min_players_count ≤ length m.state.players
        → Step
            (record { phase = waiting; manager = m; sent = sent })
            (record { phase = counting; manager = with_id 0 m; sent = sent })
    send :
        {m m' : Manager N G} {sent : List (FieldState N)}
        → m.state.id < m.config.max_states_count
        → generate_coin gen false (with_id (m.state.id + 1) m) ≡ some m'
        → Step
            (record { phase = counting; manager = m; sent = sent })
            (record { phase = sleeping; manager = m'; sent = m'.state ∷ sent })
    carry_out :
        {m m' : Manager N G} {sent : List (FieldState N)}
        → advance m ≡ some m'
        → Step
            (record { phase = sleeping; manager = m; sent = sent })
            (record { phase = counting; manager = m'; sent = sent })
    finish :
        {m : Manager N G} {sent : List (FieldState N)}
        → m.config.max_states_count ≤ m.state.id
        → Step
            (record { phase = counting; manager = m; sent = sent })
            (record { phase = finished; manager = m; sent = sent })

  pub data Reaches (g : Game N G) : Game N G → Type 0 where
    here : Reaches g g
    then_step : {h k : Game N G} → Reaches g h → Step h k → Reaches g k
