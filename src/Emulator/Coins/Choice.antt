-- ===== src/Emulator/Coins/Choice.antt =====
-- Which players `DivideCoins` finds for a coin, described without its loop.
use angry_balls.Base.{
  ℕ, suc, ◌+◌, List, [], ◌∷◌, ◌++◌, true, false, ◌≡◌, ◌⊎◌, inl, inr, refl, subst, length,
  length-append, append_assoc, append-nil, All, All-append, Bool-cases, if◌then◌else◌, arith,
}
use angry_balls.Double.{Double, IsOrder}
use angry_balls.Geometry.{Point, distance, less, equal}
use angry_balls.Units.{Player, Coin}
use angry_balls.Emulator.Coins.{Nearest, compare_distance, nearest_from, nearest}

module _ {N : Type 0} ⦃d : Double N⦄ where
  -- The indices, from `i` on, of the players whose distance is `m` up to the epsilon.
  abbrev pub ties : Point N → N → ℕ → List (Player N) → List ℕ
  ties center m i [] = []
  ties center m i (q ∷ qs) =
      let others = ties center m (suc i) qs in
      if equal (distance center q.center) m d.micro then i ∷ others else others

  -- No player is nearer than the distance by more than the epsilon. The winners are the first player who
  -- stands exactly at the distance and those behind him in the vector who are at it up to the epsilon; or the distance is the largest double, and the winners are those at it up to the epsilon.
  pub record IsChoice (center : Point N) (ps : List (Player N)) (m : N) (winners : List ℕ)
      : Type 0 where
    pub least : All (λ q. less (distance center q.center) m d.micro ≡ false) ps
    pub at_least :
        ((m ≡ d.max) × (winners ≡ ties center m 0 ps))
        ⊎ ((before : List (Player N)) × ((q : Player N) × ((after : List (Player N)) × ((ps
                    ≡ before ++ q ∷ after)
                  × (((distance center q.center ≡ m)
                        × All (λ b. ¬ (distance center b.center ≡ m)) before)
                      × (winners ≡ length before ∷ ties center m (suc (length before)) after))))))

  ties-append :
      (center : Point N) (m : N) (i : ℕ) (qs : List (Player N)) (p : Player N)
      → ties center m i (qs ++ p ∷ [])
        ≡ ties center m i qs ++ ties center m (i + length qs) (p ∷ [])
  ties-append center m i [] p = let here : i + 0 ≡ i = omega arith in rw (here) refl
  ties-append center m i (q ∷ qs) p =
      let further : i + suc (length qs) ≡ suc i + length qs = omega arith in
      elim (Bool-cases (equal (distance center q.center) m d.micro)) [
        | inl e ↦ rw (e, further, ties-append center m (suc i) qs p) refl
        | inr e ↦ rw (e, further, ties-append center m (suc i) qs p) refl
      ]

  -- One more player, who is not nearer.
  no_nearer-IsChoice :
      (center : Point N) (seen : List (Player N)) (p : Player N) (m : N) (winners : List ℕ)
      → IsChoice center seen m winners
      → less (distance center p.center) m d.micro ≡ false
      → IsChoice center (seen ++ p ∷ []) m (winners ++ ties center m (length seen) (p ∷ []))
  no_nearer-IsChoice center seen p m winners c far = record {
    least = All-append _ seen (p ∷ []) c.least (far, tt);
    at_least = elim c.at_least [
      | inl (largest, all) ↦
          let from_start : 0 + length seen ≡ length seen = omega arith in
          inl (largest, rw (all, ties-append center m 0 seen p, from_start) refl)
      | inr (before, (q, (after, (split, (exact, all))))) ↦
          let size : length seen ≡ suc (length before) + length after =
            rw (split, length-append before (q ∷ after)) (omega arith) in
          inr (
            before,
            (
              q,
              (
                after ++ p ∷ [],
                (
                  rw (split) (append_assoc before (q ∷ after) (p ∷ [])),
                  (exact, rw (all, size, ties-append center m (suc (length before)) after p) refl),
                ),
              ),
            ),
          )
    ];
  }

  module _ (order : IsOrder N)
      (below_epsilon : (a b : N) → d.less a (d.difference b d.micro) ≡ true → d.less a b ≡ true)
      (center : Point N) where
    still_least :
        (seen : List (Player N)) (far m : N)
        → less far m d.micro ≡ true
        → All (λ q. less (distance center q.center) m d.micro ≡ false) seen
        → All (λ q. less (distance center q.center) far d.micro ≡ false) seen
    unfolding less
    still_least [] far m nearer _ = tt
    still_least (q ∷ seen) far m nearer (not_less, rest) = (
      elim (Bool-cases (less (distance center q.center) far d.micro)) [
        | inr e ↦ e
        | inl e ↦
            let under = below_epsilon (distance center q.center) far e in
            let off =
              order.less_trans (distance center q.center) far (d.difference m d.micro) under
                nearer in
            cc
      ],
      still_least seen far m nearer rest,
    )

    none_exact :
        (seen : List (Player N)) (far m : N)
        → less far m d.micro ≡ true
        → All (λ q. less (distance center q.center) m d.micro ≡ false) seen
        → All (λ q. ¬ (distance center q.center ≡ far)) seen
    none_exact [] far m nearer _ = tt
    none_exact (q ∷ seen) far m nearer (not_less, rest) = (
      λ e. let off : less (distance center q.center) m d.micro ≡ true = rw (e) nearer in cc,
      none_exact seen far m nearer rest,
    )

    not_below : (far : N) → less far far d.micro ≡ false
    unfolding less
    not_below far = elim (Bool-cases (less far far d.micro)) [
      | inr e ↦ e
      | inl e ↦ let off = below_epsilon far far e in let same = order.less_irrefl far in cc
    ]

    compare_distance-IsChoice :
        (seen : List (Player N)) (p : Player N) (n : Nearest N)
        → IsChoice center seen n.min_distance n.on_the_min_distance
        → let n' = compare_distance center (length seen) p n in
          IsChoice center (seen ++ p ∷ []) n'.min_distance n'.on_the_min_distance
    unfolding compare_distance
    compare_distance-IsChoice seen p n c =
        let far = distance center p.center in
        elim (Bool-cases (less far n.min_distance d.micro)) [
          | inl nearer ↦ rw (nearer) (record {
            least =
                All-append _ seen (p ∷ []) (still_least seen far n.min_distance nearer c.least)
                  (not_below far, tt);
            at_least = inr (
              seen,
              (p, ([], (refl, ((refl, none_exact seen far n.min_distance nearer c.least), refl)))),
            );
          })
          | inr no_nearer ↦
              let next =
                no_nearer-IsChoice center seen p n.min_distance n.on_the_min_distance c no_nearer in
              elim (Bool-cases (equal far n.min_distance d.micro)) [
                | inl same ↦
                    rw (no_nearer, same)
                      (subst
                        (λ l.
                          IsChoice center (seen ++ p ∷ []) n.min_distance
                            (n.on_the_min_distance ++ l))
                        (rw (same) refl) next)
                | inr other ↦
                    rw (no_nearer, other)
                      (subst (λ l. IsChoice center (seen ++ p ∷ []) n.min_distance l)
                        (rw (other) (append-nil n.on_the_min_distance)) next)
              ]
        ]

    nearest_from-IsChoice :
        (rest seen : List (Player N)) (n : Nearest N)
        → IsChoice center seen n.min_distance n.on_the_min_distance
        → let n' = nearest_from center (length seen) rest n in
          IsChoice center (seen ++ rest) n'.min_distance n'.on_the_min_distance
    unfolding nearest_from
    nearest_from-IsChoice [] seen n c = rw (append-nil seen) c
    nearest_from-IsChoice (p ∷ rest) seen n c =
        let next = compare_distance center (length seen) p n in
        let size : length (seen ++ p ∷ []) ≡ suc (length seen) =
          omega (arith, length-append seen (p ∷ [])) in
        let whole =
          nearest_from-IsChoice rest (seen ++ p ∷ []) next (compare_distance-IsChoice seen p n c) in
        subst
          (λ k.
            IsChoice center (seen ++ p ∷ rest) (nearest_from center k rest next).min_distance
              (nearest_from center k rest next).on_the_min_distance)
          size
          (subst
            (λ l.
              let n' = nearest_from center (length (seen ++ p ∷ [])) rest next in
              IsChoice center l n'.min_distance n'.on_the_min_distance)
            (append_assoc seen (p ∷ []) rest) whole)

    pub nearest-IsChoice :
        (ps : List (Player N)) (c : Coin N)
        → c.center ≡ center
        → let n = nearest ps c in IsChoice center ps n.min_distance n.on_the_min_distance
    unfolding nearest
    nearest-IsChoice ps c e = rw (e) (
        nearest_from-IsChoice ps [] (record { min_distance = d.max; on_the_min_distance = [] })
          (record { least = tt; at_least = inl (refl, refl) }))
