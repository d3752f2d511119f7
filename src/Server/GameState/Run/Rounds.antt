-- ===== src/Server/GameState/Run/Rounds.antt =====
-- What holds in every game that the threads of the server can reach.
use angry_balls.Base.{
  ℕ, map, zero, suc, ◌+◌, ◌^◌, ◌≤◌, ◌<◌, List, [], ◌∷◌, ◌≡◌, refl, ap, ◌∙◌, subst, length, false,
  some, inl, inr, arith,
}
use angry_balls.Double.{Double}
use angry_balls.Units.{FieldState, Turn}
use angry_balls.Server.Config.{GameConfig}
use angry_balls.Server.GameState.Interface.{Generators, Counts}
use angry_balls.Server.GameState.Invariant.{
  IsValid, init-IsValid, add_turn_cases, Adds, one_more, add_player-Adds,
}
use angry_balls.Server.GameState.Round.{generate_coin-IsValid, advance-IsValid}
use angry_balls.Server.GameState.Run.{
  Phase, waiting, counting, sleeping, finished, Game, with_id, start_of, Step, player_comes,
  turn_comes, begin, send, carry_out, finish, Reaches, here, then_step,
}
use angry_balls.Server.GameState.{Manager, added, add_turn, generate_coin, init, advance}

-- n, n - 1, …, 1.
abbrev pub countdown : ℕ → List ℕ
countdown zero = []
countdown (suc n) = suc n ∷ countdown n

-- How the number of the state, the count of the states sent and their limit stand to each other.
abbrev pub Stage : Phase → ℕ → ℕ → ℕ → Type 0
Stage waiting id count limit = count ≡ 0
Stage counting id count limit = (id ≡ count) × (count ≤ limit)
Stage sleeping id count limit = (id ≡ count) × (count ≤ limit)
Stage finished id count limit = (id ≡ count) × (count ≡ limit)

module _ {N G : Type 0} ⦃d : Double N⦄ (gen : Generators N G) (c : GameConfig N) where
  pub record IsRun (g : Game N G) : Type 0 where
    pub valid : IsValid gen g.manager
    pub config : g.manager.config ≡ c
    pub stage : Stage g.phase g.manager.state.id (length g.sent) c.max_states_count
    pub numbers : map (λ (s : FieldState N). s.id) g.sent ≡ countdown (length g.sent)

  module _ (counts : Counts gen) (narrow : c.max_states_count < 2 ^ 64) where
    Adds-IsRun :
        {p : Phase} {m m' : Manager N G} {sent : List (FieldState N)} {id : ℕ}
        → Adds gen m (added id m')
        → IsRun (record { phase = p; manager = m; sent = sent })
        → IsRun (record { phase = p; manager = m'; sent = sent })
    Adds-IsRun (one_more q made room id_is same state turns config valid) r = record {
      valid = valid;
      config = config ∙ r.config;
      stage = rw state r.stage;
      numbers = r.numbers;
    }

    turn-IsRun :
        {p : Phase} {m m' : Manager N G} {sent : List (FieldState N)} (t : Turn N)
        → add_turn t m ≡ some m'
        → IsRun (record { phase = p; manager = m; sent = sent })
        → IsRun (record { phase = p; manager = m'; sent = sent })
    turn-IsRun {m} {m'} t e r = elim (add_turn_cases gen t m r.valid) [
      | inl (known, n, taken, turns, state, config, valid) ↦
          let same : m' ≡ n = cc in
          record {
            valid = rw same valid;
            config = rw same (config ∙ r.config);
            stage = rw (same, state) r.stage;
            numbers = r.numbers;
          }
      | inr (unknown, thrown) ↦ cc
    ]

    send-IsRun :
        {m m' : Manager N G} {sent : List (FieldState N)}
        → m.state.id < m.config.max_states_count
        → generate_coin gen false (with_id (m.state.id + 1) m) ≡ some m'
        → IsRun (record { phase = counting; manager = m; sent = sent })
        → IsRun (record { phase = sleeping; manager = m'; sent = m'.state ∷ sent })
    send-IsRun {m} {m'} {sent} less drawn r =
        let v = r.valid in
        let numbered : IsValid gen (with_id (m.state.id + 1) m) = record {
          players_numbered = v.players_numbered;
          turns_numbered = v.turns_numbered;
          same_length = v.same_length;
          next_is = v.next_is;
          room = v.room;
          few = v.few;
        } in
        let (quiet, valid) = generate_coin-IsValid gen counts false _ {m' = m'} drawn numbered in
        record {
          valid = valid;
          config = quiet.config ∙ r.config;
          stage = (ground arith, ground arith);
          numbers = rw r.numbers (ap (λ k. k ∷ countdown (length sent)) (ground arith));
        }

    carry_out-IsRun :
        {m m' : Manager N G} {sent : List (FieldState N)}
        → advance m ≡ some m'
        → IsRun (record { phase = sleeping; manager = m; sent = sent })
        → IsRun (record { phase = counting; manager = m'; sent = sent })
    carry_out-IsRun {m} {m'} e r =
        let (n, runs, config, valid, frame) = advance-IsValid gen m r.valid in
        let same : m' ≡ n = cc in
        record {
          valid = rw same valid;
          config = rw same (config ∙ r.config);
          stage = rw (same, frame.id) r.stage;
          numbers = r.numbers;
        }

    pub Step-IsRun : {g h : Game N G} → Step gen g h → IsRun g → IsRun h
    Step-IsRun (player_comes {m} {m'} {id} come) r =
        Adds-IsRun (subst (Adds gen m) come (add_player-Adds gen counts m r.valid)) r
    Step-IsRun (turn_comes t come) r = turn-IsRun t come r
    Step-IsRun (begin enough) r = record {
      valid = record {
        players_numbered = r.valid.players_numbered;
        turns_numbered = r.valid.turns_numbered;
        same_length = r.valid.same_length;
        next_is = r.valid.next_is;
        room = r.valid.room;
        few = r.valid.few;
      };
      config = r.config;
      stage = (ground arith, ground arith);
      numbers = r.numbers;
    }
    Step-IsRun (send less drawn) r = send-IsRun less drawn r
    Step-IsRun (carry_out round) r = carry_out-IsRun round r
    Step-IsRun (finish over) r = record {
      valid = r.valid;
      config = r.config;
      stage = (r.stage.0, ground arith);
      numbers = r.numbers;
    }

    -- In every game that the threads can reach from a fresh manager, whatever players and turns come
    -- in between: players and turns are numbered alike, the configuration stands, the states sent
    -- carry the numbers 1, 2, …, in that order and never more than `max_states_count` of them, and
    -- when the game has finished exactly that many were sent. It asks that the generators number the
    -- players, that `max_players_count` is below 1000 and `max_states_count` below 2 ^ 64.
    pub Reaches-IsRun :
        (g : G) (unset : ℕ)
        → gen.next_id g ≡ 0
        → c.max_players_count < 1000
        → {k : Game N G} → Reaches gen (start_of (init c g unset)) k
        → IsRun k
    unfolding init
    Reaches-IsRun g unset fresh few here = record {
      valid = init-IsValid gen c g unset fresh few;
      config = refl;
      stage = refl;
      numbers = refl;
    }
    Reaches-IsRun g unset fresh few (then_step before s) =
        Step-IsRun s (Reaches-IsRun g unset fresh few before)

    IsRun-waiting :
        c.max_players_count < c.min_players_count
        → {g h : Game N G} → Step gen g h
        → IsRun g
        → g.phase ≡ waiting
        → h.phase ≡ waiting
    IsRun-waiting low (player_comes come) r e = e
    IsRun-waiting low (turn_comes t come) r e = e
    IsRun-waiting low (begin enough) r e = let v = r.valid in let config = r.config in ground arith
    IsRun-waiting low (send less drawn) r e = cc
    IsRun-waiting low (carry_out round) r e = cc
    IsRun-waiting low (finish over) r e = cc

    Reaches-phase :
        (g : G) (unset : ℕ)
        → gen.next_id g ≡ 0
        → c.max_players_count < 1000
        → c.max_players_count < c.min_players_count
        → {k : Game N G} → Reaches gen (start_of (init c g unset)) k
        → k.phase ≡ waiting
    Reaches-phase g unset fresh few low here = refl
    Reaches-phase g unset fresh few low (then_step before s) =
        IsRun-waiting low s (Reaches-IsRun g unset fresh few before)
          (Reaches-phase g unset fresh few low before)

    Stage-waiting :
        (p : Phase) (id limit : ℕ) (xs : List (FieldState N))
        → Stage p id (length xs) limit
        → p ≡ waiting
        → xs ≡ []
    Stage-waiting waiting id limit [] st e = refl
    Stage-waiting waiting id limit (x ∷ xs) st e = ground arith
    Stage-waiting counting id limit xs st e = cc
    Stage-waiting sleeping id limit xs st e = cc
    Stage-waiting finished id limit xs st e = cc

    -- If the configuration admits fewer players than it waits for, no run of the threads ever leaves
    -- the first loop: whoever comes, the phase stays `waiting` and no state is sent. It asks what
    -- `Reaches-IsRun` asks.
    pub Reaches-waiting :
        (g : G) (unset : ℕ)
        → gen.next_id g ≡ 0
        → c.max_players_count < 1000
        → c.max_players_count < c.min_players_count
        → {k : Game N G} → Reaches gen (start_of (init c g unset)) k
        → (k.phase ≡ waiting) × (k.sent ≡ [])
    Reaches-waiting g unset fresh few low {k} reached =
        let at = Reaches-phase g unset fresh few low reached in
        let r = Reaches-IsRun g unset fresh few reached in
        (at, Stage-waiting k.phase k.manager.state.id c.max_states_count k.sent r.stage at)
