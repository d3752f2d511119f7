-- ===== src/Emulator/Momentum.antt =====
-- Collisions between players move no momentum out of the field (all players weigh the same).
use angry_balls.Base.{ℕ, zero, suc, List, [], ◌∷◌, ◌≡◌, refl, sym, ap, ◌∙◌, length, arith}
use angry_balls.Double.{Double, IsExact, ◌+◌, ◌-◌, ◌/◌}
use angry_balls.Double
use angry_balls.Geometry.{Point}
use angry_balls.Units.{Player}
use angry_balls.Emulator.Physics.{
  collision_axis, exchange, resolve_collision, collide_pair, collide_with, collide_from,
  handle_ball_to_ball_collisions,
}

module _ {N : Type 0} ⦃d : Double N⦄ where
  -- The sum of a number taken of each player.
  abbrev pub total : (Player N → N) → List (Player N) → N
  total f [] = Double.zero
  total f (p ∷ ps) = f p + total f ps

  module _ (exact : IsExact N) where
    open exact use {sum_comm, sum_assoc, sum-difference}

    sum_swap : (a b c : N) → a + (b + c) ≡ b + (a + c)
    sum_swap a b c = sym (sum_assoc a b c) ∙ ap (λ s. s + c) (sum_comm a b) ∙ sum_assoc b a c

    -- What one loses the other gains.
    sum_transfer : (a b t : N) → (a + t) + (b - t) ≡ a + b
    sum_transfer a b t = sum_assoc a t (b - t) ∙ ap (λ s. a + s) (sum-difference t b)

    module _ (f : Player N → N)
        (pair : (p q : Player N)
          → f (collide_pair p q).0 + f (collide_pair p q).1 ≡ f p + f q) where
      total-collide_with :
          (p : Player N) (qs : List (Player N))
          → f (collide_with p qs).0 + total f (collide_with p qs).1 ≡ f p + total f qs
      unfolding collide_with
      total-collide_with p [] = refl
      total-collide_with p (q ∷ qs) =
          let p' = (collide_pair p q).0 in
          let q' = (collide_pair p q).1 in
          let rest = collide_with p' qs in
          sum_swap (f rest.0) (f q') (total f rest.1)
          ∙ ap (λ s. f q' + s) (total-collide_with p' qs)
          ∙ sum_swap (f q') (f p') (total f qs)
          ∙ sym (sum_assoc (f p') (f q') (total f qs))
          ∙ ap (λ s. s + total f qs) (pair p q)
          ∙ sum_assoc (f p) (f q) (total f qs)

      total-collide_from : (n : ℕ) (ps : List (Player N)) → total f (collide_from n ps) ≡ total f ps
      unfolding collide_from
      total-collide_from zero ps = refl
      total-collide_from (suc n) [] = refl
      total-collide_from (suc n) (p ∷ ps) =
          ap (λ s. f (collide_with p ps).0 + s) (total-collide_from n (collide_with p ps).1)
          ∙ total-collide_with p ps

    abbrev SameTotal : (Player N → N) → Player N → Player N → Player N × Player N → Type 0
    SameTotal f p q r = f r.0 + f r.1 ≡ f p + f q

    exchange-SameTotal :
        (c : Point N) (p q : Player N)
        → SameTotal (λ b. b.velocity.x) p q (exchange c p q)
          × SameTotal (λ b. b.velocity.y) p q (exchange c p q)
    unfolding exchange
    exchange-SameTotal c p q = (sum_transfer _ _ _, sum_transfer _ _ _)

    collide_pair-SameTotal :
        (p q : Player N)
        → SameTotal (λ b. b.velocity.x) p q (collide_pair p q)
          × SameTotal (λ b. b.velocity.y) p q (collide_pair p q)
    unfolding collide_pair resolve_collision
    collide_pair-SameTotal p q =
        let (c, apart) = collision_axis p q in
        ground (arith, exchange-SameTotal (record { x = c.x / apart; y = c.y / apart }) p q)

    -- In exact arithmetic the collisions between the players leave the sum of their velocities, in x
    -- and in y, as it was.
    pub handle_ball_to_ball_collisions-total :
        (ps : List (Player N))
        → (total (λ p. p.velocity.x) (handle_ball_to_ball_collisions ps)
            ≡ total (λ p. p.velocity.x) ps)
          × (total (λ p. p.velocity.y) (handle_ball_to_ball_collisions ps)
              ≡ total (λ p. p.velocity.y) ps)
    unfolding handle_ball_to_ball_collisions
    handle_ball_to_ball_collisions-total ps = (
      total-collide_from (λ p. p.velocity.x) (λ p q. (collide_pair-SameTotal p q).0) (length ps) ps,
      total-collide_from (λ p. p.velocity.y) (λ p q. (collide_pair-SameTotal p q).1) (length ps) ps,
    )
