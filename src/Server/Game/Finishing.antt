-- ===== src/Server/Game/Finishing.antt =====
-- A game of the server that has begun can be brought to its end.
use angry_balls.Base.{
  ℕ, zero, suc, ◌+◌, ◌^◌, ◌<◌, ◌≤◌, List, ◌∷◌, length, Bool, true, false, some, Option-cases,
  Bool-cases, inl, inr, ◌≡◌, ◌≢◌, refl, sym, ap, subst, arith,
}
use native.Mathlib.Decide.{dec_le}
use angry_balls.Double.{Double}
use angry_balls.Double.{◌<◌ as is_below}
use angry_balls.Generators.{get_default_coin}
use angry_balls.Random.{Random}
use angry_balls.Units.{Coin, FieldState}
use angry_balls.Server.Config.{GameConfig}
use angry_balls.Server.GameState.{Manager, generate_coin, push_coin}
use angry_balls.Server.GameState.Interface.{
  Generators, Counts, Engines, default_generators, default_coin,
}
use angry_balls.Server.GameState.Round.{advance-IsValid}
use angry_balls.Server.GameState.Run.{
  Phase, Game, waiting, counting, sleeping, finished, with_id, send, carry_out, finish,
}
use angry_balls.Server.GameState.Run.Rounds.{IsRun, Step-IsRun}
use angry_balls.Server.Game.Threads.{
  Threads, Loop, testing, polling, handling, placing, left, manager_runs, manager_stops, leaves,
  batch_comes, batch_ends, Arrives, then_turn,
}

-- The generators bring a coin whenever it is smaller than the field.
unfoldable pub Brings : {N G : Type 0} ⦃d : Double N⦄ → Generators N G → Type 0
Brings {N} {G} gen =
    (obligatory : Bool) (m : Manager N G)
    → is_below m.config.coin_radius m.config.field_radius ≡ true
    → (m' : Manager N G) × (generate_coin gen obligatory m ≡ some m')

module _ {N R : Type 0} ⦃d : Double N⦄ (random : Random N R) (fuel : ℕ) where
  default_coin-returns :
      (r x : N) (e : Engines R)
      → is_below x r ≡ true
      → (p : Coin N × Engines R) × (default_coin random fuel r x e ≡ some p)
  unfolding default_coin get_default_coin
  default_coin-returns r x e small = elim (Option-cases (default_coin random fuel r x e)) [
    | inr drawn ↦ drawn
    | inl refused ↦ absurd (ground (arith, small, refused))
  ]

  push_coin-returns :
      (m : Manager N (Engines R))
      → is_below m.config.coin_radius m.config.field_radius ≡ true
      → (m' : Manager N (Engines R)) × (push_coin (default_generators random fuel) m ≡ some m')
  unfolding push_coin default_generators
  push_coin-returns m small = elim (Option-cases (push_coin (default_generators random fuel) m)) [
    | inr (m', pushed) ↦ (m', pushed)
    | inl refused ↦
        let ((coin, e), at) =
          default_coin-returns m.config.field_radius m.config.coin_radius m.generators small in
        absurd (ground (arith, refused, at))
  ]

  pub default_generators-Brings : Brings (default_generators random fuel)
  unfolding generate_coin Brings
  default_generators-Brings true m small = push_coin-returns m small
  default_generators-Brings false m small =
      let gen = default_generators random fuel in
      let drawn : Manager N (Engines R) = record m { generators = (gen.draw m.generators).1 } in
      elim (Bool-cases (is_below (gen.draw m.generators).0 m.config.coin_probability)) [
        | inl coin ↦
            let (m', pushed) = push_coin-returns drawn small in
            (m', rw (generate_coin, coin) pushed)
        | inr no_coin ↦ (drawn, rw (generate_coin, no_coin) refl)
      ]

-- The threads with this game, before the flag is set.
abbrev pub at_game : {N G : Type 0} → Loop → ℕ → Game N G → Threads N G
at_game l b g = record { game = g; stop = false; loop = l; batches = b }

module _ {N G : Type 0} ⦃d : Double N⦄ (gen : Generators N G) (c : GameConfig N)
    (counts : Counts gen) (narrow : c.max_states_count < 2 ^ 64) (brings : Brings gen)
    (small : is_below c.coin_radius c.field_radius ≡ true) where
  module _ {start : Threads N G} (l : Loop) (b : ℕ) (free : l ≢ placing) where
    over-finished :
        (m : Manager N G) (sent : List (FieldState N))
        → let g : Game N G = record { phase = counting; manager = m; sent = sent } in
          Arrives gen start (at_game l b g)
          → IsRun gen c g
          → c.max_states_count ≤ m.state.id
          → (h : Game N G) × ((h.phase ≡ finished) × Arrives gen start (at_game l b h))
    over-finished m sent arrives run over =
        let limit = ap (λ (k : GameConfig N). k.max_states_count) run.config in
        (
          record { phase = finished; manager = m; sent = sent },
          (
            refl,
            then_turn arrives (manager_runs (finish (omega (arith, limit, over))) (λ e. cc) free),
          ),
        )

    -- A state is sent and carried out.
    one_round :
        (m : Manager N G) (sent : List (FieldState N))
        → let g : Game N G = record { phase = counting; manager = m; sent = sent } in
          Arrives gen start (at_game l b g)
          → IsRun gen c g
          → m.state.id < c.max_states_count
          → (m' : Manager N G) × ((x : FieldState N) × (let h : Game N G = record {
            phase = counting;
            manager = m';
            sent = x ∷ sent;
          } in
                Arrives gen start (at_game l b h) × IsRun gen c h))
    unfolding Brings
    one_round m sent arrives run less =
        let limit = ap (λ (k : GameConfig N). k.max_states_count) run.config in
        let fits : is_below (m.config.coin_radius) (m.config.field_radius) ≡ true =
          subst (λ (k : GameConfig N). is_below k.coin_radius k.field_radius ≡ true)
            (sym run.config) small in
        let (m1, drawn) = brings false (with_id (m.state.id + 1) m) fits in
        let sending = send (omega (arith, limit, less)) drawn in
        let run1 = Step-IsRun gen c counts narrow sending run in
        let (m2, runs, config, valid, frame) = advance-IsValid gen m1 run1.valid in
        (
          m2,
          (
            m1.state,
            (
              then_turn (then_turn arrives (manager_runs sending (λ e. cc) free))
                  (manager_runs (carry_out runs) (λ e. cc) free),
              Step-IsRun gen c counts narrow (carry_out runs) run1,
            ),
          ),
        )

    -- The thread of the game alone brings it to its end, from the head of its second loop.
    counting-finished :
        (n : ℕ) (m : Manager N G) (sent : List (FieldState N))
        → let g : Game N G = record { phase = counting; manager = m; sent = sent } in
          Arrives gen start (at_game l b g)
          → IsRun gen c g
          → c.max_states_count ≤ length sent + n
          → (h : Game N G) × ((h.phase ≡ finished) × Arrives gen start (at_game l b h))
    counting-finished zero m sent arrives run enough =
        over-finished m sent arrives run (omega (arith, run.stage.0, enough))
    counting-finished (suc n) m sent arrives run enough =
        elim (dec_le c.max_states_count m.state.id) [
          | yes over ↦ over-finished m sent arrives run over
          | no more ↦
              let (m', (x, (arrives', run'))) =
                one_round m sent arrives run (omega (arith, more)) in
              counting-finished n m' (x ∷ sent) arrives' run' (omega (arith, enough))
        ]

    phase-finished :
        (p : Phase) (m : Manager N G) (sent : List (FieldState N))
        → let g : Game N G = record { phase = p; manager = m; sent = sent } in
          Arrives gen start (at_game l b g)
          → IsRun gen c g
          → p ≢ waiting
          → (h : Game N G) × ((h.phase ≡ finished) × Arrives gen start (at_game l b h))
    phase-finished waiting m sent arrives run begun = absurd (begun refl)
    phase-finished counting m sent arrives run begun =
        counting-finished c.max_states_count m sent arrives run (omega arith)
    phase-finished sleeping m sent arrives run begun =
        let (m2, runs, config, valid, frame) = advance-IsValid gen m run.valid in
        counting-finished c.max_states_count m2 sent
          (then_turn arrives (manager_runs (carry_out runs) (λ e. cc) free))
          (Step-IsRun gen c counts narrow (carry_out runs) run) (omega arith)
    phase-finished finished m sent arrives run begun =
        (record { phase = finished; manager = m; sent = sent }, (refl, arrives))

  -- The loop ends once the flag is set, after one batch of events if it waits for one.
  stopped_ends :
      {start : Threads N G} (g : Game N G) (l : Loop) (b : ℕ)
      → l ≢ placing
      → Arrives gen start (record { game = g; stop = true; loop = l; batches = b })
      → (u : Threads N G) × (Arrives gen start u × (u.loop ≡ left))
  stopped_ends g testing b free arrives = (_, (then_turn arrives leaves, refl))
  stopped_ends g polling b free arrives =
      (_, (then_turn (then_turn (then_turn arrives batch_comes) batch_ends) leaves, refl))
  stopped_ends g handling b free arrives =
      (_, (then_turn (then_turn arrives batch_ends) leaves, refl))
  stopped_ends g placing b free arrives = absurd (free refl)
  stopped_ends g left b free arrives = (_, (arrives, refl))

  -- Wherever the threads have come to, if the game has begun and no search for a place holds the mutex, they
  -- can come to the end of the event loop.
  pub begun-left :
      {start t : Threads N G}
      → Arrives gen start t
      → IsRun gen c t.game
      → t.game.phase ≢ waiting
      → t.loop ≢ placing
      → (u : Threads N G) × (Arrives gen start u × (u.loop ≡ left))
  begun-left {start} {t} arrives run begun free =
      by_flag t.stop t.game t.loop t.batches arrives run begun free
    where
      by_flag :
          (stop : Bool) (g : Game N G) (l : Loop) (b : ℕ)
          → Arrives gen start (record { game = g; stop = stop; loop = l; batches = b })
          → IsRun gen c g
          → g.phase ≢ waiting
          → l ≢ placing
          → (u : Threads N G) × (Arrives gen start u × (u.loop ≡ left))
      by_flag true g l b arrives run begun free = stopped_ends g l b free arrives
      by_flag false g l b arrives run begun free =
          let (h, (ended, on)) =
            phase-finished l b free g.phase g.manager g.sent arrives run begun in
          stopped_ends h l b free (then_turn on (manager_stops ended))
