-- ===== src/Server/GameState/Round.antt =====
-- The two critical sections of a round of the game: a coin may appear, and the turns are carried out.
use angry_balls.Base.{
  Bool, true, false, ◌≡◌, refl, sym, ◌∙◌, map, some, Option-cases, Bool-cases, inl, inr, arith,
}
use angry_balls.Double.{Double, ◌<◌, ◌/◌, real}
use angry_balls.Units.{FieldState, Turn}
use angry_balls.Emulator.{done, emulate, emulate_steps, default_steps_number}
use angry_balls.Emulator.Aligned.{emulate_aligned}
use angry_balls.Emulator.Frame.{IsFrame, emulate-IsFrame}
use angry_balls.Emulator.Turns.{accelerate_all}
use angry_balls.Server.GameState.Interface.{Generators, Counts}
use angry_balls.Server.GameState.Invariant.{IsValid, PlayersFrom-marks, length-marks}
use angry_balls.Server.GameState.{Manager, filter_turns, push_coin, generate_coin, advance}

module _ {N G : Type 0} ⦃d : Double N⦄ (gen : Generators N G) where
  -- A draw or a coin changes neither the players nor the turns.
  pub record IsQuiet (m m' : Manager N G) : Type 0 where
    pub config : m'.config ≡ m.config
    pub id : m'.state.id ≡ m.state.id
    pub players : m'.state.players ≡ m.state.players
    pub turns : m'.turns ≡ m.turns
    pub next_id : gen.next_id m'.generators ≡ gen.next_id m.generators

  IsQuiet-IsValid : {m m' : Manager N G} → IsQuiet m m' → IsValid gen m → IsValid gen m'
  IsQuiet-IsValid {m} {m'} q v = record {
    players_numbered = rw q.players v.players_numbered;
    turns_numbered = rw q.turns v.turns_numbered;
    same_length = rw (q.turns, q.players) v.same_length;
    next_is = rw (q.next_id, q.players) v.next_is;
    room = rw (q.players, q.config) v.room;
    few = rw q.config v.few;
  }

  module _ (counts : Counts gen) where
    push_coin-IsQuiet :
        (m : Manager N G) {m' : Manager N G} → push_coin gen m ≡ some m' → IsQuiet m m'
    unfolding push_coin
    push_coin-IsQuiet m e =
        elim (Option-cases (gen.get_coin m.config.field_radius m.config.coin_radius m.generators)) [
          | inl bad ↦ ground arith
          | inr ((c, g), good) ↦ ground (arith, counts.next_id-get_coin _ _ _ good)
        ]

    generate_coin-IsQuiet :
        (obligatory : Bool) (m : Manager N G) {m' : Manager N G}
        → generate_coin gen obligatory m ≡ some m'
        → IsQuiet m m'
    unfolding generate_coin
    generate_coin-IsQuiet true m e = push_coin-IsQuiet m e
    generate_coin-IsQuiet false m {m'} e =
        let drawn : Manager N G = record m { generators = (gen.draw m.generators).1 } in
        let kept = counts.next_id-draw m.generators in
        elim (Bool-cases ((gen.draw m.generators).0 < m.config.coin_probability)) [
          | inl hit ↦
              let q = push_coin-IsQuiet drawn {m' = m'} (ground arith) in
              record {
                config = q.config;
                id = q.id;
                players = q.players;
                turns = q.turns;
                next_id = q.next_id ∙ kept;
              }
          | inr miss ↦ ground arith
        ]

    -- `GenerateCoin` keeps the state well-formed, the players and the turns as they were.
    pub generate_coin-IsValid :
        (obligatory : Bool) (m : Manager N G) {m' : Manager N G}
        → generate_coin gen obligatory m ≡ some m'
        → IsValid gen m
        → IsQuiet m m' × IsValid gen m'
    generate_coin-IsValid obligatory m e v =
        let q = generate_coin-IsQuiet obligatory m e in (q, IsQuiet-IsValid q v)

  -- The state after a round: each player accelerated by the turn recorded for him, then moved.
  abbrev pub advanced : Manager N G → FieldState N
  advanced m =
      emulate_steps default_steps_number (m.state.time_delta / real 100 / real default_steps_number)
        (record (m.state) {
          players =
              accelerate_all m.state.time_delta m.state.velocity_max
                (map (λ (t : Turn N). t.acceleration) m.turns) m.state.players;
        })

  emulate-advanced :
      (m : Manager N G)
      → IsValid gen m
      → emulate default_steps_number m.turns m.state ≡ done (advanced m)
  emulate-advanced m v =
      emulate_aligned default_steps_number m.turns m.state (omega arith) (sym v.same_length)
        v.players_numbered v.turns_numbered

  -- From a well-formed state the turns are carried out without a fault: each player is accelerated
  -- by the last turn that was recorded for him, whatever state that turn was meant for, and then
  -- moved through the steps of the emulator. `FilterTurns` has no part in it.
  pub advance_lem :
      (m : Manager N G) → IsValid gen m → advance m ≡ some (record m { state = advanced m })
  unfolding advance filter_turns
  advance_lem m v = rw (emulate-advanced m v, advance) refl

  advanced-IsValid :
      (m : Manager N G) → IsValid gen m → IsValid gen (record m { state = advanced m })
  advanced-IsValid m v =
      let f = emulate-IsFrame default_steps_number m.turns m.state (emulate-advanced m v) in
      let same = length-marks (advanced m).players m.state.players f.players in
      record {
        players_numbered =
            PlayersFrom-marks 0 (advanced m).players m.state.players f.players v.players_numbered;
        turns_numbered = v.turns_numbered;
        same_length = v.same_length ∙ sym same;
        next_is = v.next_is ∙ sym same;
        room = omega (arith, same, v.room);
        few = v.few;
      }

  -- A round keeps a well-formed state well-formed, and of the field it changes only where the players
  -- and the coins are: what `IsFrame` lists stays.
  pub advance-IsValid :
      (m : Manager N G)
      → IsValid gen m
      → (m' : Manager N G) × (advance m ≡ some m')
        × (m'.config ≡ m.config)
        × IsValid gen m'
        × IsFrame m.state m'.state
  advance-IsValid m v = (
    record m { state = advanced m },
    advance_lem m v,
    refl,
    advanced-IsValid m v,
    emulate-IsFrame default_steps_number m.turns m.state (emulate-advanced m v),
  )
