-- ===== src/Emulator/Aligned.antt =====
-- The server numbers its players and their turns from zero, in one order: then every player has his
-- own turn, no read goes past the end of the turns, and a turn of the game can be carried out.
use angry_balls.Base.{
  ℕ, suc, ◌<◌, List, [], ◌∷◌, ◌++◌, ◌≡◌, refl, map, some, All, All-append, length, arith, lt→ltb,
  ==_iff, append_assoc,
}
use angry_balls.Double.{Double, ◌/◌, real}
use angry_balls.Units.{Player, FieldState, Turn}
use angry_balls.Emulator.{done, emulate, emulate_steps}
use angry_balls.Emulator.Turns.{find_turn, get_accelerations, apply_acceleration, accelerate_all}

module _ {N : Type 0} where
  abbrev pub PlayersFrom : ℕ → List (Player N) → Type 0
  PlayersFrom k [] = Unit
  PlayersFrom k (p ∷ ps) = (p.id ≡ k) × PlayersFrom (suc k) ps

  abbrev pub TurnsFrom : ℕ → List (Turn N) → Type 0
  TurnsFrom k [] = Unit
  TurnsFrom k (t ∷ ts) = (t.player_id ≡ k) × TurnsFrom (suc k) ts

  find_turn_behind :
      (k : ℕ) (before : List (Turn N)) (t : Turn N) (ts : List (Turn N))
      → All (λ u. u.player_id < k) before
      → t.player_id ≡ k
      → find_turn k (before ++ t ∷ ts) ≡ some t
  unfolding find_turn
  find_turn_behind k [] t ts b e = ground arith
  find_turn_behind k (u ∷ before) t ts (b, bs) e =
      ground (arith, find_turn_behind k before t ts bs e)

  All-weaken :
      (k : ℕ) (ts : List (Turn N))
      → All (λ u. u.player_id < k) ts
      → All (λ u. u.player_id < suc k) ts
  All-weaken k [] a = tt
  All-weaken k (t ∷ ts) (a, as') = (omega arith, All-weaken k ts as')

  -- Each player gets the acceleration of the turn at his own place.
  get_accelerations_aligned :
      (k : ℕ) (ps : List (Player N)) (before ts : List (Turn N))
      → length ps ≡ length ts
      → PlayersFrom k ps
      → TurnsFrom k ts
      → All (λ u. u.player_id < k) before
      → get_accelerations ps (before ++ ts) ≡ some (map (λ (t : Turn N). t.acceleration) ts)
  unfolding get_accelerations
  get_accelerations_aligned k [] before [] l p t b = refl
  get_accelerations_aligned k [] before (u ∷ ts) l p t b = absurd (omega arith)
  get_accelerations_aligned k (q ∷ ps) before [] l p t b = absurd (omega arith)
  get_accelerations_aligned k (q ∷ ps) before (u ∷ ts) l (p, ps-ok) (t, ts-ok) b =
      let shifted : get_accelerations ps ((before ++ u ∷ []) ++ ts)
          ≡ some (map (λ (t : Turn N). t.acceleration) ts) =
        get_accelerations_aligned (suc k) ps (before ++ u ∷ []) ts (omega arith) ps-ok ts-ok (
          All-append (λ (v : Turn N). v.player_id < suc k) before (u ∷ []) (All-weaken k before b)
            (omega arith)) in
      rw (p, find_turn_behind k before u ts b t, ← append_assoc before (u ∷ []) ts, shifted)

module _ {N : Type 0} ⦃d : Double N⦄ where
  -- With players and turns numbered alike, and at least one step, `Emulate` neither fails an
  -- assertion nor reads past the end, and gives each player the acceleration of his own turn.
  pub emulate_aligned :
      (steps_number : ℕ) (turns : List (Turn N)) (s : FieldState N)
      → 0 < steps_number
      → length s.players ≡ length turns
      → PlayersFrom 0 s.players
      → TurnsFrom 0 turns
      → emulate steps_number turns s
        ≡ done (
            emulate_steps steps_number (s.time_delta / real 100 / real steps_number) (record s {
              players =
                  accelerate_all s.time_delta s.velocity_max
                    (map (λ (t : Turn N). t.acceleration) turns)
                    s.players;
            }))
  unfolding emulate apply_acceleration
  emulate_aligned steps_number turns s pos l p t = rw (
    (==_iff (length s.players) (length turns)).1 l,
    lt→ltb 0 steps_number pos,
    get_accelerations_aligned 0 s.players [] turns l p t tt,
  )
