-- ===== src/Strategies/Closest.antt =====
-- The coin that the strategy runs for.
use angry_balls.Base.{
  ℕ, suc, List, [], ◌∷◌, ◌++◌, true, false, Option, none, some, All, All-append, length,
  length-append, get_elem?, get_elem?-append_left, get_elem?-append_length, lt_of_get_elem?,
  append_assoc, append-nil, Bool-cases, inl, inr, ◌≡◌, refl, sym, ◌∙◌, arith,
}
use angry_balls.Double.{Double, IsOrder, ◌<◌}
use angry_balls.Geometry.{Point, distance}
use angry_balls.Units.{Coin}
use angry_balls.Strategies.{closest_from, closest_coin_index}

module _ {N : Type 0} ⦃d : Double N⦄ (center : Point N) where
  abbrev pub NoneNearer : N → List (Coin N) → Type 0
  NoneNearer dist = All (λ c. (distance center c.center < dist) ≡ false)

  -- Where the least distance so far comes from.
  abbrev pub Source : List (Coin N) → N → Option ℕ → Type 0
  Source cs dist none = dist ≡ d.max
  Source cs dist (some i) =
      (c : Coin N) × (get_elem? cs i ≡ some c) × (dist ≡ distance center c.center)

  Source-append :
      (cs : List (Coin N)) (c : Coin N) (dist : N) (o : Option ℕ)
      → Source cs dist o
      → Source (cs ++ c ∷ []) dist o
  Source-append cs c dist none s = s
  Source-append cs c dist (some i) (k, at, e) =
      (k, get_elem?-append_left cs (c ∷ []) i (lt_of_get_elem? cs i at) ∙ at, e)

  module _ (order : IsOrder N) where
    NoneNearer-less :
        (a b : N) (cs : List (Coin N)) → (a < b) ≡ true → NoneNearer b cs → NoneNearer a cs
    NoneNearer-less a b [] h n = tt
    NoneNearer-less a b (c ∷ cs) h (n, ns) = (
      elim (Bool-cases (distance center c.center < a)) [
        | inl nearer ↦ let still = order.less_trans (distance center c.center) a b nearer h in cc
        | inr other ↦ other
      ],
      NoneNearer-less a b cs h ns,
    )

    closest_from-NoneNearer :
        (before cs : List (Coin N)) (dist : N) (o : Option ℕ)
        → NoneNearer dist before
        → Source before dist o
        → (least : N) × NoneNearer least (before ++ cs)
          × Source (before ++ cs) least (closest_from center (length before) dist o cs)
    unfolding closest_from
    closest_from-NoneNearer before [] dist o n s =
        (dist, rw (append-nil before) n, rw (append-nil before) s)
    closest_from-NoneNearer before (c ∷ cs) dist o n s =
        let here = distance center c.center in
        let one_more : length (before ++ c ∷ []) ≡ suc (length before) =
          omega (arith, length-append before (c ∷ [])) in
        let assoc : (before ++ c ∷ []) ++ cs ≡ before ++ c ∷ cs = append_assoc before (c ∷ []) cs in
        elim (Bool-cases (here < dist)) [
          | inl nearer ↦
              let all =
                All-append _ before (c ∷ []) (NoneNearer-less here dist before nearer n)
                  (order.less_irrefl here, tt) in
              let (least, m, t) =
                closest_from-NoneNearer (before ++ c ∷ []) cs here (some (length before)) all
                  (c, get_elem?-append_length before c [], refl) in
              (least, rw (sym assoc) m, rw (nearer, sym one_more, sym assoc) t)
          | inr other ↦
              let all = All-append _ before (c ∷ []) n (other, tt) in
              let (least, m, t) =
                closest_from-NoneNearer (before ++ c ∷ []) cs dist o all
                  (Source-append before c dist o s) in
              (least, rw (sym assoc) m, rw (other, sym one_more, sym assoc) t)
        ]

    -- The coin that is chosen is there, and no coin is nearer to the player; if none is chosen, no coin
    -- is nearer than the largest double. It asks that `<` is a strict order.
    pub closest_coin_index-NoneNearer :
        (coins : List (Coin N))
        → (least : N) × NoneNearer least coins
          × Source coins least (closest_coin_index center coins)
    unfolding closest_coin_index
    closest_coin_index-NoneNearer coins = closest_from-NoneNearer [] coins d.max none tt refl
