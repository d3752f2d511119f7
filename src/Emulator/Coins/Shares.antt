-- ===== src/Emulator/Coins/Shares.antt =====
-- What `DivideCoins` pays to whom, described without its loops.
use angry_balls.Base.{
  ℕ, zero, suc, ◌+◌, ◌<◌, List, [], ◌∷◌, Bool, true, false, ◌||◌, not, ◌==◌, ◌≡◌, refl, sym, length,
  Bool-cases, inl, inr, if◌then◌else◌, arith,
}
use angry_balls.Double.{Double, IsOrder, ◌+◌ as plus, ◌/◌, real}
use angry_balls.Geometry.{Point}
use angry_balls.Units.{Player, Coin}
use angry_balls.Emulator.Coins.{nearest, add_score, add_scores, award, divide_coins}
use angry_balls.Emulator.Coins.Choice.{ties, IsChoice, nearest-IsChoice}
use angry_balls.Emulator.Coins.Split.{keep, touched, award_all, divide_coins-split}

abbrev pub member : ℕ → List ℕ → Bool
member i [] = false
member i (j ∷ js) = (i == j) || member i js

-- No index comes twice.
abbrev IsDistinct : List ℕ → Type 0
IsDistinct [] = Unit
IsDistinct (i ∷ is) = (member i is ≡ false) × IsDistinct is

module _ {N : Type 0} ⦃d : Double N⦄ where
  -- The players, the first of them with the index `i`, when each of the winners has got the share.
  abbrev pub paid : N → List ℕ → ℕ → List (Player N) → List (Player N)
  paid share winners i [] = []
  paid share winners i (q ∷ qs) =
      let others = paid share winners (suc i) qs in
      if member i winners then record q { score = plus q.score share } ∷ others else q ∷ others

  paid-none : (share : N) (k : ℕ) (qs : List (Player N)) → paid share [] k qs ≡ qs
  paid-none share k [] = refl
  paid-none share k (q ∷ qs) = rw (paid-none share (suc k) qs) refl

  -- A winner whose index lies before the players.
  paid-before :
      (share : N) (j : ℕ) (is : List ℕ) (k : ℕ) (qs : List (Player N))
      → j < k
      → paid share (j ∷ is) k qs ≡ paid share is k qs
  paid-before share j is k [] h = refl
  paid-before share j is k (q ∷ qs) h =
      let other : (k == j) ≡ false = ground arith in
      rw (other, paid-before share j is (suc k) qs (omega arith)) refl

  paid-add_score :
      (share : N) (i j : ℕ) (is : List ℕ) (k : ℕ) (qs : List (Player N))
      → i ≡ k + j
      → member i is ≡ false
      → paid share is k (add_score share qs j) ≡ paid share (i ∷ is) k qs
  unfolding add_score
  paid-add_score share i j is k [] e out = refl
  paid-add_score share i zero is k (q ∷ qs) e out =
      let same : i ≡ k = omega arith in
      let here : (k == k) ≡ true = ground arith in
      let absent : member k is ≡ false = rw (← same) out in
      rw (same, here, absent, paid-before share i is (suc k) qs (omega arith)) refl
  paid-add_score share i (suc j) is k (q ∷ qs) e out =
      let other : (k == i) ≡ false = ground arith in
      rw (other, paid-add_score share i j is (suc k) qs (omega arith) out) refl

  add_scores-paid :
      (share : N) (winners : List ℕ) (qs : List (Player N))
      → IsDistinct winners
      → add_scores share winners qs ≡ paid share winners 0 qs
  unfolding add_scores
  add_scores-paid share [] qs _ = sym (paid-none share 0 qs)
  add_scores-paid share (i ∷ is) qs (out, distinct) =
      rw (add_scores-paid share is (add_score share qs i) distinct)
        (paid-add_score share i i is 0 qs (omega arith) out)

  member-ties :
      (center : Point N) (m : N) (i j : ℕ) (qs : List (Player N))
      → i < j
      → member i (ties center m j qs) ≡ false
  member-ties center m i j [] h = refl
  member-ties center m i j (q ∷ qs) h =
      let other : (i == j) ≡ false = ground arith in
      ground (arith, other, member-ties center m i (suc j) qs (omega arith))

  ties-IsDistinct :
      (center : Point N) (m : N) (j : ℕ) (qs : List (Player N)) → IsDistinct (ties center m j qs)
  ties-IsDistinct center m j [] = tt
  ties-IsDistinct center m j (q ∷ qs) =
      ground (
        arith,
        member-ties center m j (suc j) qs (omega arith),
        ties-IsDistinct center m (suc j) qs,
      )

  choice-IsDistinct :
      (center : Point N) (ps : List (Player N)) (m : N) (winners : List ℕ)
      → IsChoice center ps m winners
      → IsDistinct winners
  choice-IsDistinct center ps m winners c = elim c.at_least [
    | inl (largest, all) ↦ rw (all) (ties-IsDistinct center m 0 ps)
    | inr (before, (q, (after, (split, (exact, all))))) ↦ rw (all) (
      member-ties center m (length before) (suc (length before)) after (omega arith),
      ties-IsDistinct center m (suc (length before)) after,
    )
  ]

  -- From the coins and the players before to the players and the coins after: a coin whose distance is
  -- below the reach goes to its winners in equal parts, any other stays. Who wins is decided by the
  -- players `ps`.
  pub data Shares (reach : N) (ps : List (Player N))
      : List (Coin N) → List (Player N) → List (Player N) → List (Coin N) → Type 0 where
    no_coin : {qs : List (Player N)} → Shares reach ps [] qs qs []
    taken :
        {c : Coin N} {cs left : List (Coin N)} {qs out : List (Player N)} (m : N) (winners : List ℕ)
        → IsChoice c.center ps m winners
        → d.less m reach ≡ true
        → Shares reach ps cs (paid (c.value / real (length winners)) winners 0 qs) out left
        → Shares reach ps (c ∷ cs) qs out left
    stays :
        {c : Coin N} {cs left : List (Coin N)} {qs out : List (Player N)} (m : N) (winners : List ℕ)
        → IsChoice c.center ps m winners
        → d.less m reach ≡ false
        → Shares reach ps cs qs out left
        → Shares reach ps (c ∷ cs) qs out (c ∷ left)

  module _ (order : IsOrder N)
      (below_epsilon : (a b : N)
        → d.less a (d.difference b d.micro) ≡ true
        → d.less a b ≡ true) where
    award_all-Shares :
        (reach : N) (ps : List (Player N)) (cs : List (Coin N)) (qs : List (Player N))
        → Shares reach ps cs qs (award_all reach ps cs qs) (keep (λ c. not (touched reach ps c)) cs)
    unfolding award
    award_all-Shares reach ps [] qs = no_coin
    award_all-Shares reach ps (c ∷ cs) qs =
        let n = nearest ps c in
        let choice = nearest-IsChoice order below_epsilon c.center ps c refl in
        let share = c.value / real (length n.on_the_min_distance) in
        let pays =
          add_scores-paid share n.on_the_min_distance qs
            (choice-IsDistinct c.center ps n.min_distance n.on_the_min_distance choice) in
        elim (Bool-cases (touched reach ps c)) [
          | inl reached ↦
              rw (reached, pays)
                (taken n.min_distance n.on_the_min_distance choice reached
                  (award_all-Shares reach ps cs (paid share n.on_the_min_distance 0 qs)))
          | inr beyond ↦ rw (beyond) (
              stays n.min_distance n.on_the_min_distance choice beyond
                (award_all-Shares reach ps cs qs))
        ]

    -- For some players and some coins: each coin, in their order, has a distance that no player undercuts by
    -- more than the epsilon, and winners: the first player who stands exactly at that distance and those behind
    -- him who are at it up to the epsilon; or, if the distance is the largest double, those who are at it
    -- up to the epsilon. If the distance is below
    -- the sum of the radii of the first player and the first coin, the score of each winner grows by the
    -- coin's value divided by their number, and no other score; else the coin stays, in the old order.
    -- All distances are those from the start. It asks that `<` is a strict order and that what is below a
    -- number less the epsilon is below the number.
    pub divide_coins-Shares :
        (p : Player N) (ps : List (Player N)) (c : Coin N) (cs : List (Coin N))
        → let (players, left) = divide_coins (p ∷ ps) (c ∷ cs) in
          Shares (plus p.radius c.radius) (p ∷ ps) (c ∷ cs) (p ∷ ps) players left
    divide_coins-Shares p ps c cs =
        rw (divide_coins-split p ps c cs)
          (award_all-Shares (plus p.radius c.radius) (p ∷ ps) (c ∷ cs) (p ∷ ps))
