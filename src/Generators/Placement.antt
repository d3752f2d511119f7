-- ===== src/Generators/Placement.antt =====
-- What the generators promise of a new player.
use Prim.Native.Nat.{◌+◌ as add}
use angry_balls.Base.{
  ℕ, zero, suc, ◌%◌, ◌^◌, List, [], ◌∷◌, false, ◌≡◌, All, Bool-cases, inl, inr, arith,
}
use angry_balls.Double.{Double}
use angry_balls.Double
use angry_balls.Geometry.{intersect}
use angry_balls.Random.{Random}
use angry_balls.Units.{Player}
use angry_balls.Generators.{
  found, too_large, PlayerGenerator, player_at, overlaps, draw_player, search, get_default_player,
}

module _ {N : Type 0} ⦃d : Double N⦄ where
  -- The ball of the first touches the ball of none of the others.
  abbrev pub IsFree : Player N → List (Player N) → Type 0
  IsFree p = All (λ q. intersect p.center p.radius q.center q.radius ≡ false)

  overlaps-IsFree : (p : Player N) (qs : List (Player N)) → overlaps p qs ≡ false → IsFree p qs
  unfolding overlaps intersect
  overlaps-IsFree p [] h = tt
  overlaps-IsFree p (q ∷ qs) h = ground (arith, overlaps-IsFree p qs)

  pub record IsNew (radius : N) (id : ℕ) (players : List (Player N)) (p : Player N) : Type 0 where
    pub id_is : p.id ≡ id
    pub score_is : p.score ≡ Double.zero
    pub radius_is : p.radius ≡ radius
    pub rests : (p.velocity.x ≡ Double.zero) × (p.velocity.y ≡ Double.zero)
    pub is_free : IsFree p players

  module _ {R : Type 0} (random : Random N R) where
    search-IsNew :
        (fuel : ℕ) (field_radius player_radius : N) (players : List (Player N))
        (g : PlayerGenerator R) {p : Player N} {g' : PlayerGenerator R}
        → search random fuel field_radius player_radius players g ≡ found (p, g')
        → IsNew player_radius g.last_player_id players p
          × (g'.last_player_id ≡ add g.last_player_id 1 % 2 ^ 32)
    unfolding search draw_player player_at
    search-IsNew zero field_radius player_radius players g e = cc
    search-IsNew (suc fuel) field_radius player_radius players g {p} {g'} e =
        let next = draw_player random field_radius player_radius g in
        elim (Bool-cases (overlaps next.0 players)) [
          | inl hit ↦
              search-IsNew fuel field_radius player_radius players (record g { engine = next.1 })
                {p = p} {g' = g'} (ground arith)
          | inr free ↦ ground (arith, overlaps-IsFree next.0 players free)
        ]

    -- A player that the generator returns carries the next id, rests at score zero with the radius
    -- asked for, and touches no player of the field; the id counter goes up by one, modulo 2^32.
    pub get_default_player-IsNew :
        (fuel : ℕ) (field_radius player_radius : N) (players : List (Player N))
        (g : PlayerGenerator R) {p : Player N} {g' : PlayerGenerator R}
        → get_default_player random fuel field_radius player_radius players g ≡ found (p, g')
        → IsNew player_radius g.last_player_id players p
          × (g'.last_player_id ≡ add g.last_player_id 1 % 2 ^ 32)
    unfolding get_default_player
    get_default_player-IsNew fuel field_radius player_radius players g {p} {g'} e =
        elim (Bool-cases (d.less player_radius field_radius)) [
          | inl fits ↦
              search-IsNew fuel field_radius player_radius players g {p = p} {g' = g'}
                (ground arith)
          | inr big ↦ ground arith
        ]

    search-more :
        (fuel more : ℕ) (field_radius player_radius : N) (players : List (Player N))
        (g : PlayerGenerator R) {r : Player N × PlayerGenerator R}
        → search random fuel field_radius player_radius players g ≡ found r
        → search random (add fuel more) field_radius player_radius players g ≡ found r
    unfolding search
    search-more zero more field_radius player_radius players g e = cc
    search-more (suc fuel) more field_radius player_radius players g {r} e =
        let next = draw_player random field_radius player_radius g in
        let one_more : add (suc fuel) more ≡ suc (add fuel more) = omega arith in
        let later =
          search-more fuel more field_radius player_radius players (record g { engine = next.1 })
            {r = r} in
        rw (one_more) (ground (arith, later))

    -- A player who is found within some rounds is found, the same, when more rounds are given.
    pub get_default_player-more :
        (fuel more : ℕ) (field_radius player_radius : N) (players : List (Player N))
        (g : PlayerGenerator R) {r : Player N × PlayerGenerator R}
        → get_default_player random fuel field_radius player_radius players g ≡ found r
        → get_default_player random (add fuel more) field_radius player_radius players g ≡ found r
    unfolding get_default_player
    get_default_player-more fuel more field_radius player_radius players g {r} e =
        ground (arith, search-more fuel more field_radius player_radius players g {r = r})

    search-not_too_large :
        (fuel : ℕ) (field_radius player_radius : N) (players : List (Player N))
        (g : PlayerGenerator R)
        → ¬ (search random fuel field_radius player_radius players g ≡ too_large)
    unfolding search
    search-not_too_large zero field_radius player_radius players g e = cc
    search-not_too_large (suc fuel) field_radius player_radius players g e =
        let next = draw_player random field_radius player_radius g in
        let later =
          search-not_too_large fuel field_radius player_radius players
            (record g { engine = next.1 }) in
        ground (arith, later)

    -- The assertion fails only for a player that is not smaller than the field.
    pub get_default_player-too_large :
        (fuel : ℕ) (field_radius player_radius : N) (players : List (Player N))
        (g : PlayerGenerator R)
        → get_default_player random fuel field_radius player_radius players g ≡ too_large
        → d.less player_radius field_radius ≡ false
    unfolding get_default_player
    get_default_player-too_large fuel field_radius player_radius players g e =
        elim (Bool-cases (d.less player_radius field_radius)) [
          | inr big ↦ big
          | inl fits ↦
              let off = search-not_too_large fuel field_radius player_radius players g in
              ground (arith, fits, off)
        ]
