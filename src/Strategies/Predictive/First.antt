-- ===== src/Strategies/Predictive/First.antt =====
-- What the search of the predictive strategy finds.
use angry_balls.Base.{
  ℕ, zero, suc, ◌+◌, ◌<◌, List, [], ◌∷◌, Option, none, some, Option-cases, All, map, get_elem?, ◌⊎◌,
  inl, inr, ◌≡◌, refl, subst, arith,
}
use native.Mathlib.Decide.{dec_lt}
use angry_balls.Double.{Double, ◌*◌, real}
use angry_balls.Double
use angry_balls.Units.{Player, FieldState, Acceleration}
use angry_balls.Strategies.Predictive.Search.{
  BestMoveToCoin, Courses, reached, moved, player_accelerations, coin_of, next, sweep, search,
  get_best_move,
}

module _ {N : Type 0} ⦃d : Double N⦄ (garbage : N) (state : FieldState N) (player : Player N) where
  -- Where the player is after `q` states of the simulation under one acceleration.
  abbrev pub after : ℕ → Acceleration N → Player N
  after zero a = player
  after (suc q) a = next garbage state player a (after q a)

  -- The coin that he then touches first in the list of coins.
  abbrev pub touched : ℕ → Acceleration N → Option ℕ
  touched q a = coin_of garbage state player (after q a)

  abbrev courses_of : ℕ → List (Acceleration N) → Courses N
  courses_of q angles = map (λ a. (a, after q a)) angles

  -- A place in the list whose element satisfies `P`.
  abbrev At : (Acceleration N → Type 0) → List (Acceleration N) → Type 0
  At P angles = (k : ℕ) × (a : Acceleration N) × (get_elem? angles k ≡ some a) × P a

  sweep-courses_of :
      (q : ℕ) (angles : List (Acceleration N))
      → ((a : Acceleration N) × (i : ℕ) × (k : ℕ) × (sweep garbage state player
              (courses_of q angles)
            ≡ reached a i)
          × (get_elem? angles k ≡ some a)
          × (touched (suc q) a ≡ some i))
        ⊎ ((sweep garbage state player (courses_of q angles) ≡ moved (courses_of (suc q) angles))
            × All (λ a. touched (suc q) a ≡ none) angles)
  unfolding sweep
  sweep-courses_of q [] = inr (refl, tt)
  sweep-courses_of q (a ∷ angles) = elim (Option-cases (touched (suc q) a)) [
    | inr (i, e) ↦ inl (a, i, 0, rw (sweep, e) refl, refl, e)
    | inl e ↦ elim (sweep-courses_of q angles) [
      | inl (b, i, k, s, at, t) ↦ inl (b, i, suc k, rw (sweep, e, s) refl, at, t)
      | inr (s, all) ↦ inr (rw (sweep, e, s) refl, (e, all))
    ]
  ]

  -- No acceleration leads to a coin in the states after `low` up to the one before `high`.
  abbrev pub NoneTouched : List (Acceleration N) → ℕ → ℕ → Type 0
  NoneTouched angles low high = (s : ℕ) → low < s → s < high → All (λ a. touched s a ≡ none) angles

  none_touched :
      (angles : List (Acceleration N)) (low high : ℕ)
      → All (λ a. touched (suc low) a ≡ none) angles
      → NoneTouched angles (suc low) high
      → NoneTouched angles low high
  none_touched angles low high now later s l h = elim (dec_lt (suc low) s) [
    | yes more ↦ later s more h
    | no not_more ↦
        let here : suc low ≡ s = omega (arith, not_more) in
        subst (λ s. All (λ a. touched s a ≡ none) angles) here now
  ]

  -- The earliest of the states after `low` up to `high` in which some acceleration has led to a coin, with
  -- that acceleration and the first coin that it leads to there; or that there is none.
  pub data IsFirst (angles : List (Acceleration N)) (low high : ℕ) : BestMoveToCoin N → Type 0 where
    first :
        (s k i : ℕ) (a : Acceleration N)
        → low < s
        → s < suc high
        → get_elem? angles k ≡ some a
        → touched s a ≡ some i
        → NoneTouched angles low s
        → IsFirst angles low high (record {
          best_time = state.time_delta * real s;
          best_acceleration = a;
          coin_id = some i;
        })
    never :
        NoneTouched angles low (suc high)
        → IsFirst angles low high (record {
          best_time = d.negative Double.one;
          best_acceleration = record { x = Double.zero; y = Double.zero };
          coin_id = none;
        })

  one_state_earlier :
      (angles : List (Acceleration N)) (low high : ℕ) {m : BestMoveToCoin N}
      → All (λ a. touched (suc low) a ≡ none) angles
      → IsFirst angles (suc low) high m
      → IsFirst angles low high m
  one_state_earlier angles low high now (first s k i a l h at t e) =
      first s k i a (omega arith) h at t (none_touched angles low s now e)
  one_state_earlier angles low high now (never e) = never (none_touched angles low (suc high) now e)

  search-IsFirst :
      (angles : List (Acceleration N)) (n low high : ℕ)
      → low + n ≡ high
      → IsFirst angles low high (search garbage state player n (suc low) (courses_of low angles))
  unfolding search
  search-IsFirst angles zero low high e = never (λ s l h. absurd (omega arith))
  search-IsFirst angles (suc n) low high e = elim (sweep-courses_of low angles) [
    | inl (a, i, k, s, at, t) ↦
        rw (search, s)
          (first (suc low) k i a (omega arith) (omega arith) at t (λ s l h. absurd (omega arith)))
    | inr (s, all) ↦
        rw (search, s)
          (one_state_earlier angles low high all
            (search-IsFirst angles n (suc low) high (omega arith)))
  ]

  -- Among the states 1 to 100 of the simulation and the hundred directions, GetBestMove finds the
  -- earliest state in which a player who accelerates in one direction all the time touches a coin: it
  -- returns the time of that state, a direction that leads to a coin in it and the first such coin, and
  -- no direction leads to a coin in an earlier state; if it returns none, no direction leads to a coin
  -- in any of these states.
  pub get_best_move-IsFirst :
      IsFirst player_accelerations 0 100 (get_best_move garbage state player)
  unfolding get_best_move
  get_best_move-IsFirst = search-IsFirst player_accelerations 100 0 100 (omega arith)
