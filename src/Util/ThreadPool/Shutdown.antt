-- ===== src/Util/ThreadPool/Shutdown.antt =====
-- `Shutdown` after its `notify_all`: the workers that it joins come to their ends.
use angry_balls.Base.{
  ℕ, suc, ◌+◌, ◌*◌, ◌≤◌, List, [], ◌∷◌, ◌++◌, replicate, length, length-append, Bool, true, ◌⊎◌,
  inl, inr, ◌≡◌, refl, ap, ◌∙◌, arith,
}
use angry_balls.Util.ThreadPool.{
  Pool, Worker, waiting, dequeuing, running, exited, run, worker_dequeue, count, is_waiting,
  is_active, after_turn, Reaches,
}
use angry_balls.Util.ThreadPool.Wakeup.{count_middle, run_quits, Reaches-IsAwake}

module _ {J : Type 0} where
  -- `k` steps of workers that neither wait nor have exited, one after another. A function that is
  -- running ends with a step.
  pub data Winds (p : Pool J) : ℕ → Pool J → Type 0 where
    rests : Winds p 0 p
    turns :
        {k : ℕ} {q : Pool J} (xs : List (Worker J)) (w : Worker J) (ys : List (Worker J))
        → Winds p k q
        → q.workers ≡ xs ++ w ∷ ys
        → is_active w ≡ 1
        → Winds p (suc k) (after_turn q xs (run q.should_quit q.work_queue w) ys)

  abbrev cost : Worker J → ℕ
  cost dequeuing = 1
  cost waiting = 2
  cost (running f) = 2
  cost exited = 0

  count-cost : (ws : List (Worker J)) → count cost ws ≤ 2 * length ws
  count-cost [] = omega arith
  count-cost (dequeuing ∷ ws) = omega (arith, count-cost ws)
  count-cost (waiting ∷ ws) = omega (arith, count-cost ws)
  count-cost (running f ∷ ws) = omega (arith, count-cost ws)
  count-cost (exited ∷ ws) = omega (arith, count-cost ws)

  cheaper :
      (b : Bool) (q : List J) (w : Worker J)
      → b ≡ true
      → is_active w ≡ 1
      → (cost w ≡ suc (cost (run b q w).worker)) × ((run b q w).queue ≡ q)
  unfolding run worker_dequeue
  cheaper b q dequeuing e a = rw e (refl, refl)
  cheaper b q waiting e a = absurd (omega arith)
  cheaper b q (running f) e a = (refl, refl)
  cheaper b q exited e a = absurd (omega arith)

  quiet : (b : Bool) (q : List J) (w : Worker J) → b ≡ true → is_waiting (run b q w).worker ≡ 0
  quiet b q w e = rw e (run_quits q w)

  -- What holds all along.
  record Along (p : Pool J) (k : ℕ) (q : Pool J) : Type 0 where
    quits : q.should_quit ≡ true
    same_queue : q.work_queue ≡ p.work_queue
    same_length : length q.workers ≡ length p.workers
    paid : k + count cost q.workers ≤ count cost p.workers
    up : count is_waiting q.workers ≡ 0

  turn-Along :
      (p : Pool J) (k : ℕ) (q : Pool J) (xs : List (Worker J)) (w : Worker J) (ys : List (Worker J))
      → q.workers ≡ xs ++ w ∷ ys
      → is_active w ≡ 1
      → Along p k q
      → Along p (suc k) (after_turn q xs (run q.should_quit q.work_queue w) ys)
  turn-Along p k q xs w ys e a h =
      let t = run q.should_quit q.work_queue w in
      let (less, same) = cheaper q.should_quit q.work_queue w h.quits a in
      let old_cost = ap (count cost) e ∙ count_middle cost xs w ys in
      let old_waiting = ap (count is_waiting) e ∙ count_middle is_waiting xs w ys in
      let old_length = ap length e ∙ length-append xs (w ∷ ys) in
      record {
        quits = h.quits;
        same_queue = same ∙ h.same_queue;
        same_length = omega (arith, h.same_length, old_length, length-append xs (t.worker ∷ ys));
        paid = omega (arith, h.paid, less, old_cost, count_middle cost xs t.worker ys);
        up = omega (
          arith,
          h.up,
          old_waiting,
          quiet q.should_quit q.work_queue w h.quits,
          count_middle is_waiting xs t.worker ys,
        );
      }

  Winds-Along :
      {p : Pool J} {k : ℕ} {q : Pool J}
      → p.should_quit ≡ true
      → count is_waiting p.workers ≡ 0
      → Winds p k q
      → Along p k q
  Winds-Along {p} e u rests = record {
    quits = e;
    same_queue = refl;
    same_length = refl;
    paid = omega arith;
    up = u;
  }
  Winds-Along {p} e u (turns {k} {q} xs w ys r s a) =
      turn-Along p k q xs w ys s a (Winds-Along e u r)

  -- A worker that can still take a step.
  abbrev Movable : List (Worker J) → Type 0
  Movable ws =
      (xs : List (Worker J)) × (w : Worker J) × (ys : List (Worker J)) × (ws ≡ xs ++ w ∷ ys)
      × (is_active w ≡ 1)

  Movable-later : (v : Worker J) (ws : List (Worker J)) → Movable ws → Movable (v ∷ ws)
  Movable-later v ws (xs, w, ys, e, a) = (v ∷ xs, w, ys, ap (λ l. v ∷ l) e, a)

  exited_or_Movable :
      (ws : List (Worker J))
      → count is_waiting ws ≡ 0
      → (ws ≡ replicate (length ws) exited) ⊎ Movable ws
  exited_or_Movable [] h = inl refl
  exited_or_Movable (dequeuing ∷ ws) h = inr ([], dequeuing, ws, refl, refl)
  exited_or_Movable (waiting ∷ ws) h = absurd (omega arith)
  exited_or_Movable (running f ∷ ws) h = inr ([], running f, ws, refl, refl)
  exited_or_Movable (exited ∷ ws) h = elim (exited_or_Movable ws (omega arith)) [
    | inl e ↦ inl (ap (λ l. exited ∷ l) e)
    | inr m ↦ inr (Movable-later exited ws m)
  ]

  -- Once Shutdown has notified all, the workers take at most two steps for each of them and start no
  -- function, whatever their order; and wherever they stand, either all have exited, so that the
  -- joins return, or one of them can take a further step. A function that is running is taken to end.
  pub Winds-exited :
      {n : ℕ} {fs gs : List J} {p : Pool J} {k : ℕ} {q : Pool J}
      → Reaches n fs gs p
      → p.told ≡ true
      → Winds p k q
      → (k ≤ 2 * length p.workers)
        × (q.work_queue ≡ p.work_queue)
        × ((q.workers ≡ replicate (length p.workers) exited) ⊎ ((q' : Pool J) × Winds p (suc k) q'))
  Winds-exited {p} {q} r told s =
      let h = Reaches-IsAwake r in
      let a = Winds-Along (h.quits told) (h.up told) s in
      (
        omega (arith, a.paid, count-cost p.workers),
        a.same_queue,
        elim (exited_or_Movable q.workers a.up) [
          | inl e ↦ inl (e ∙ ap (λ m. replicate m exited) a.same_length)
          | inr (xs, w, ys, e, m) ↦
              inr (after_turn q xs (run q.should_quit q.work_queue w) ys, turns xs w ys s e m)
        ],
      )
