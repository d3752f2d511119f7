-- ===== src/Server/GameState/Invariant.antt =====
-- Players and turns are numbered alike, from zero; every operation keeps it so, and under it none of
-- the indexed accesses is out of range.
use angry_balls.Base.{
  ℕ, zero, suc, ◌+◌, ◌-◌, ◌≤◌, ◌<◌, List, [], ◌∷◌, ◌++◌, true, false, ◌≡◌, refl, ap, ◌∙◌, length,
  length-append, length-set, set, take_all, set-append_length, ◌⊎◌, none, some, inl, inr, leb,
  arith,
}
use native.Mathlib.Decide.{dec_lt}
use angry_balls.Double.{Double}
use angry_balls.Units.{Player, Turn}
use angry_balls.Emulator.Aligned.{PlayersFrom, TurnsFrom}
use angry_balls.Emulator.Frame.{marks}
use angry_balls.Server.Config.{GameConfig}
use angry_balls.Generators.{Found, found, unplaced, too_large, Found-cases}
use angry_balls.Server.GameState.Interface.{Generators, Counts}
use angry_balls.Server.GameState.{
  Manager, Added, refused, added, searching, aborted, resize, idle_turn, add_turn, place_player,
  add_player, init,
}

pub record IsValid {N G : Type 0} (gen : Generators N G) (m : Manager N G) : Type 0 where
  pub players_numbered : PlayersFrom 0 m.state.players
  pub turns_numbered : TurnsFrom 0 m.turns
  pub same_length : length m.turns ≡ length m.state.players
  pub next_is : gen.next_id m.generators ≡ length m.state.players
  pub room : length m.state.players ≤ m.config.max_players_count
  pub few : m.config.max_players_count < 1000

module _ {N : Type 0} where
  PlayersFrom-append :
      (k : ℕ) (ps : List (Player N)) (p : Player N)
      → PlayersFrom k ps
      → p.id ≡ k + length ps
      → PlayersFrom k (ps ++ p ∷ [])
  PlayersFrom-append k [] p h e = (omega arith, tt)
  PlayersFrom-append k (q ∷ ps) p (h, hs) e = (h, PlayersFrom-append (suc k) ps p hs (omega arith))

  TurnsFrom-append :
      (k : ℕ) (ts : List (Turn N)) (t : Turn N)
      → TurnsFrom k ts
      → t.player_id ≡ k + length ts
      → TurnsFrom k (ts ++ t ∷ [])
  TurnsFrom-append k [] t h e = (omega arith, tt)
  TurnsFrom-append k (u ∷ ts) t (h, hs) e = (h, TurnsFrom-append (suc k) ts t hs (omega arith))

  TurnsFrom-set :
      (k i : ℕ) (ts : List (Turn N)) (t : Turn N)
      → TurnsFrom k ts
      → t.player_id ≡ k + i
      → TurnsFrom k (set ts i t)
  TurnsFrom-set k i [] t h e = tt
  TurnsFrom-set k zero (u ∷ ts) t (h, hs) e = (omega arith, hs)
  TurnsFrom-set k (suc i) (u ∷ ts) t (h, hs) e = (h, TurnsFrom-set (suc k) i ts t hs (omega arith))

  pub PlayersFrom-marks :
      (k : ℕ) (ps qs : List (Player N)) → marks ps ≡ marks qs → PlayersFrom k qs → PlayersFrom k ps
  PlayersFrom-marks k [] qs e h = tt
  PlayersFrom-marks k (p ∷ ps) [] e h = cc
  PlayersFrom-marks k (p ∷ ps) (q ∷ qs) e (h, hs) =
      (ground arith, PlayersFrom-marks (suc k) ps qs (cc) hs)

  pub length-marks : (ps qs : List (Player N)) → marks ps ≡ marks qs → length ps ≡ length qs
  length-marks [] [] e = refl
  length-marks [] (q ∷ qs) e = cc
  length-marks (p ∷ ps) [] e = cc
  length-marks (p ∷ ps) (q ∷ qs) e = ap suc (length-marks ps qs (cc))

-- One more slot at the end.
resize_one {ℓ} :
    {A : Type ℓ} (xs : List A) (fill : A) (n : ℕ)
    → n ≡ suc (length xs)
    → resize n fill xs ≡ xs ++ fill ∷ []
resize_one {A} xs fill n e =
    let one_more : n - length xs ≡ 1 = omega arith in rw (one_more, take_all xs n (omega arith))

module _ {N G : Type 0} ⦃d : Double N⦄ (gen : Generators N G) where
  pub init-IsValid :
      (c : GameConfig N) (g : G) (unset : ℕ)
      → gen.next_id g ≡ 0
      → c.max_players_count < 1000
      → IsValid gen (init c g unset)
  unfolding init
  init-IsValid c g unset e h = record {
    players_numbered = tt;
    turns_numbered = tt;
    same_length = refl;
    next_is = e;
    room = omega arith;
    few = h;
  }

  -- `AddTurn` on a turn for a player that there is replaces that player's turn and keeps the
  -- numbering; on any other it throws.
  pub add_turn_cases :
      (t : Turn N) (m : Manager N G)
      → IsValid gen m
      → ((t.player_id < length m.state.players)
          × (m' : Manager N G) × (add_turn t m ≡ some m')
          × (m'.turns ≡ set m.turns t.player_id t)
          × (m'.state ≡ m.state)
          × (m'.config ≡ m.config)
          × IsValid gen m')
        ⊎ ((length m.state.players ≤ t.player_id) × (add_turn t m ≡ none))
  unfolding add_turn
  add_turn_cases t m v = elim (dec_lt t.player_id (length m.turns)) [
    | yes h ↦
        let turns = set m.turns t.player_id t in
        inl (
          omega (arith, v.same_length),
          record m { turns = turns },
          ground arith,
          refl,
          refl,
          refl,
          record {
            players_numbered = v.players_numbered;
            turns_numbered = TurnsFrom-set 0 t.player_id m.turns t v.turns_numbered (omega arith);
            same_length = length-set m.turns t.player_id t ∙ v.same_length;
            next_is = v.next_is;
            room = v.room;
            few = v.few;
          },
        )
    | no h ↦ inr (omega (arith, v.same_length), ground arith)
  ]

  place_player_lem :
      (p : Player N) (m : Manager N G)
      → p.id ≡ length m.state.players
      → length m.turns ≡ length m.state.players
      → place_player gen p m
        ≡ added p.id (record m {
          state = record (m.state) { players = m.state.players ++ p ∷ [] };
          turns = m.turns ++ idle_turn p.id ∷ [];
        })
  unfolding place_player
  place_player_lem p m e l =
      let size = length-append m.state.players (p ∷ []) in
      let grown =
        resize_one m.turns (idle_turn 0) (length (m.state.players ++ p ∷ [])) (omega arith) in
      let at_end : p.id ≡ length m.turns = omega arith in
      let written = set-append_length m.turns (idle_turn 0) (idle_turn p.id) [] in
      ground (arith, grown, at_end, written, length-append m.turns (idle_turn 0 ∷ []))

  -- What the generator is asked for a player of the state.
  abbrev pub asked : Manager N G → Found (Player N × G)
  asked m = gen.get_player m.config.field_radius m.config.player_radius m.state.players m.generators

  -- What a call of `AddPlayer` may come to.
  pub data Adds (m : Manager N G) : Added N G → Type 0 where
    full : m.config.max_players_count ≤ length m.state.players → Adds m refused
    undecided :
        length m.state.players < m.config.max_players_count → asked m ≡ unplaced → Adds m searching
    failed_assertion :
        length m.state.players < m.config.max_players_count → asked m ≡ too_large → Adds m aborted
    one_more :
        {id : ℕ} {m' : Manager N G} (p : Player N)
        → ((g : G) × (asked m ≡ found (p, g)))
        → length m.state.players < m.config.max_players_count
        → p.id ≡ length m.state.players
        → id ≡ length m.state.players
        → m'.state ≡ record (m.state) { players = m.state.players ++ p ∷ [] }
        → m'.turns ≡ m.turns ++ idle_turn id ∷ []
        → m'.config ≡ m.config
        → IsValid gen m'
        → Adds m (added id m')

  module _ (counts : Counts gen) where
    add_player_placed :
        (m : Manager N G) (p : Player N) (g : G)
        → IsValid gen m
        → length m.state.players < m.config.max_players_count
        → asked m ≡ found (p, g)
        → Adds m (place_player gen p (record m { generators = g }))
    add_player_placed m p g v h e =
        let (id_is, next) = counts.id-get_player _ _ _ _ e in
        let fresh : p.id ≡ length m.state.players = id_is ∙ v.next_is in
        rw (place_player_lem p (record m { generators = g }) fresh v.same_length) (
          one_more p (g, e) h fresh fresh refl refl refl
            (record {
              players_numbered =
                  PlayersFrom-append 0 m.state.players p v.players_numbered (omega arith);
              turns_numbered =
                  TurnsFrom-append 0 m.turns (idle_turn p.id) v.turns_numbered
                    (omega (arith, v.same_length));
              same_length = omega (
                arith,
                length-append m.turns (idle_turn p.id ∷ []),
                length-append m.state.players (p ∷ []),
                v.same_length,
              );
              next_is =
                  omega (arith, next, v.next_is, v.few, length-append m.state.players (p ∷ []));
              room = omega (arith, length-append m.state.players (p ∷ []));
              few = v.few;
            }))

    -- From a well-formed state, with generators that number the players, `AddPlayer` never throws by `at`:
    -- on a full field it refuses; else, if the generator brings a player, that one is added, numbered by how
    -- many there were, with an idle turn of his own, and the state stays well-formed; if the assertion of
    -- the generator fails, the call aborts; if the generator has found no place in the rounds that it
    -- was given, the call has not returned yet.
    pub add_player-Adds : (m : Manager N G) → IsValid gen m → Adds m (add_player gen m)
    unfolding add_player
    add_player-Adds m v = elim (dec_lt (length m.state.players) m.config.max_players_count) [
      | yes h ↦ elim (Found-cases (asked m)) [
        | inl ((p, g), e) ↦ rw (open_leb h, e, add_player) (add_player_placed m p g v h e)
        | inr (inl e) ↦ rw (open_leb h, e) (undecided h e)
        | inr (inr e) ↦ rw (open_leb h, e) (failed_assertion h e)
      ]
      | no h ↦ rw (shut_leb h) (full (omega arith))
    ]
      where
        open_leb :
            length m.state.players < m.config.max_players_count
            → leb m.config.max_players_count (length m.state.players) ≡ false
        open_leb h = ground arith

        shut_leb :
            ¬ (length m.state.players < m.config.max_players_count)
            → leb m.config.max_players_count (length m.state.players) ≡ true
        shut_leb h = ground arith
