-- ===== src/Util/ThreadPool/Wakeup.antt =====
-- A notification comes after the section that pushes, and `notify_one` may find nobody waiting; still
-- no wake-up is lost.
use angry_balls.Base.{
  ℕ, zero, suc, ◌+◌, ◌<◌, ◌≤◌, List, [], ◌∷◌, ◌++◌, map, replicate, length, length-append, Bool,
  true, false, ◌≡◌, refl, ap, ◌∙◌, arith,
}
use angry_balls.Util.ThreadPool.{
  Pool, Worker, waiting, dequeuing, running, exited, run, worker_dequeue, thread_pool, enqueue,
  set_should_quit, notify_all, wake, count, is_waiting, is_active, Turned, after_turn, Reaches,
  begins, pushes, notifies, unheard, works, shuts_down, tells_all,
}

replicate-is_waiting : (J : Type 0) (n : ℕ) → count {J = J} is_waiting (replicate n dequeuing) ≡ 0
replicate-is_waiting J zero = refl
replicate-is_waiting J (suc n) = omega (arith, replicate-is_waiting J n)

replicate-is_active : (J : Type 0) (n : ℕ) → count {J = J} is_active (replicate n dequeuing) ≡ n
replicate-is_active J zero = refl
replicate-is_active J (suc n) = omega (arith, replicate-is_active J n)

module _ {J : Type 0} where
  pub count_middle :
      (f : Worker J → ℕ) (xs : List (Worker J)) (w : Worker J) (ys : List (Worker J))
      → count f (xs ++ w ∷ ys) ≡ count f xs + f w + count f ys
  count_middle f [] w ys = omega arith
  count_middle f (x ∷ xs) w ys = omega (arith, count_middle f xs w ys)

  pub count-wake : (ws : List (Worker J)) → count is_waiting (map wake ws) ≡ 0
  count-wake [] = refl
  count-wake (dequeuing ∷ ws) = omega (arith, count-wake ws)
  count-wake (waiting ∷ ws) = omega (arith, count-wake ws)
  count-wake (running f ∷ ws) = omega (arith, count-wake ws)
  count-wake (exited ∷ ws) = omega (arith, count-wake ws)

  -- While nobody shuts down, each worker waits or is active, and if one waits, the active ones and the
  -- pending notifications are as many as the functions in the queue; once all were told, nobody waits.
  pub record IsAwake (n : ℕ) (p : Pool J) : Type 0 where
    pub each : p.should_quit ≡ false → count is_waiting p.workers + count is_active p.workers ≡ n
    pub served :
        p.should_quit ≡ false
        → 0 < count is_waiting p.workers
        → length p.work_queue ≤ count is_active p.workers + p.notifications
    pub quits : p.told ≡ true → p.should_quit ≡ true
    pub up : p.told ≡ true → count is_waiting p.workers ≡ 0

  -- What a step of a worker does to the numbers while nobody shuts down; he starts to wait only with
  -- nothing in the queue.
  record Keeps (q : List J) (w : Worker J) (t : Turned J) : Type 0 where
    each : is_waiting t.worker + is_active t.worker ≡ is_waiting w + is_active w
    asleep : 0 < is_waiting t.worker → length t.queue ≡ 0
    fewer : is_waiting t.worker ≡ 0 → length t.queue + is_active w ≤ length q + is_active t.worker

  run-Keeps : (q : List J) (w : Worker J) → Keeps q w (run false q w)
  unfolding run worker_dequeue
  run-Keeps [] dequeuing = record { each = refl; asleep = λ h. refl; fewer = λ h. omega arith }
  run-Keeps (f ∷ fs) dequeuing = record {
    each = refl;
    asleep = λ h. absurd (omega arith);
    fewer = λ h. omega arith;
  }
  run-Keeps q waiting = record {
    each = refl;
    asleep = λ h. absurd (omega arith);
    fewer = λ h. omega arith;
  }
  run-Keeps q (running f) = record {
    each = refl;
    asleep = λ h. absurd (omega arith);
    fewer = λ h. omega arith;
  }
  run-Keeps q exited = record {
    each = refl;
    asleep = λ h. absurd (omega arith);
    fewer = λ h. omega arith;
  }

  pub run_quits : (q : List J) (w : Worker J) → is_waiting (run true q w).worker ≡ 0
  unfolding run worker_dequeue
  run_quits q dequeuing = refl
  run_quits q waiting = refl
  run_quits q (running f) = refl
  run_quits q exited = refl

  run-quit : (b : Bool) (q : List J) (w : Worker J) → b ≡ true → is_waiting (run b q w).worker ≡ 0
  run-quit b q w e = rw e (run_quits q w)

  run-Keeps_awake : (b : Bool) (q : List J) (w : Worker J) → b ≡ false → Keeps q w (run b q w)
  run-Keeps_awake b q w e = rw e (run-Keeps q w)

  works-IsAwake :
      (n : ℕ) (p : Pool J) (xs : List (Worker J)) (w : Worker J) (ys : List (Worker J))
      → p.workers ≡ xs ++ w ∷ ys
      → IsAwake n p
      → IsAwake n (after_turn p xs (run p.should_quit p.work_queue w) ys)
  works-IsAwake n p xs w ys e h =
      let t = run p.should_quit p.work_queue w in
      let old_waiting = ap (count is_waiting) e ∙ count_middle is_waiting xs w ys in
      let old_active = ap (count is_active) e ∙ count_middle is_active xs w ys in
      let new_waiting = count_middle is_waiting xs t.worker ys in
      let new_active = count_middle is_active xs t.worker ys in
      record {
        each = λ q.
            let k = run-Keeps_awake p.should_quit p.work_queue w q in
            omega (arith, h.each q, k.each, old_waiting, old_active, new_waiting, new_active);
        served = λ q some_wait.
            let k = run-Keeps_awake p.should_quit p.work_queue w q in
            ground (
              arith,
              h.served q,
              k.each,
              k.asleep,
              k.fewer,
              old_waiting,
              old_active,
              new_waiting,
              new_active,
            );
        quits = h.quits;
        up = λ told.
            let quits = run-quit p.should_quit p.work_queue w (h.quits told) in
            omega (arith, h.up told, quits, old_waiting, new_waiting);
      }

  notifies-IsAwake :
      (n k : ℕ) (p : Pool J) (xs ys : List (Worker J))
      → p.notifications ≡ suc k
      → p.workers ≡ xs ++ waiting ∷ ys
      → IsAwake n p
      → IsAwake n (record p { workers = xs ++ dequeuing ∷ ys; notifications = k })
  notifies-IsAwake n k p xs ys c e h =
      let old_waiting = ap (count is_waiting) e ∙ count_middle is_waiting xs waiting ys in
      let old_active = ap (count is_active) e ∙ count_middle is_active xs waiting ys in
      let new_waiting = count_middle is_waiting xs dequeuing ys in
      let new_active = count_middle is_active xs dequeuing ys in
      record {
        each = λ q. omega (arith, h.each q, old_waiting, old_active, new_waiting, new_active);
        served = λ q some_wait.
            ground (arith, h.served q, old_waiting, old_active, new_waiting, new_active);
        quits = h.quits;
        up = λ told. omega (arith, h.up told, old_waiting, new_waiting);
      }

  enqueue-IsAwake : (n : ℕ) (fn : J) (p : Pool J) → IsAwake n p → IsAwake n (enqueue fn p)
  unfolding enqueue
  enqueue-IsAwake n fn p h = record {
    each = h.each;
    served = λ q w. let bound = h.served q w in omega (arith, length-append p.work_queue (fn ∷ []));
    quits = h.quits;
    up = h.up;
  }

  pub Reaches-IsAwake : {n : ℕ} {fs gs : List J} {p : Pool J} → Reaches n fs gs p → IsAwake n p
  unfolding thread_pool set_should_quit notify_all
  Reaches-IsAwake {n} begins =
      let none_waits = replicate-is_waiting J n in
      record {
        each = λ _. omega (arith, replicate-is_active J n);
        served = λ _ h. absurd (omega arith);
        quits = λ e. cc;
        up = λ _. none_waits;
      }
  Reaches-IsAwake {n} (pushes {p} fn r) = enqueue-IsAwake n fn p (Reaches-IsAwake r)
  Reaches-IsAwake {n} (notifies {p} {k} xs ys r c e) =
      notifies-IsAwake n k p xs ys c e (Reaches-IsAwake r)
  Reaches-IsAwake (unheard r c e) =
      let h = Reaches-IsAwake r in
      record { each = h.each; served = λ q w. absurd (omega arith); quits = h.quits; up = h.up }
  Reaches-IsAwake {n} (works {p} xs w ys r e) = works-IsAwake n p xs w ys e (Reaches-IsAwake r)
  Reaches-IsAwake (shuts_down r) =
      let h = Reaches-IsAwake r in
      record { each = λ e. cc; served = λ e. cc; quits = λ _. refl; up = h.up }
  Reaches-IsAwake (tells_all {p} r q) = record {
    each = λ e. cc;
    served = λ e. cc;
    quits = λ _. q;
    up = λ _. count-wake p.workers;
  }

  -- No wake-up is lost: in every pool that the threads can reach, while nobody shuts it down and no call
  -- of Enqueue has yet to notify, some worker is at work or on his way to the queue whenever there is
  -- a function in it; in a pool of at least one worker.
  pub Reaches-active :
      {n : ℕ} {fs gs : List J} {p : Pool J}
      → Reaches n fs gs p
      → 0 < n
      → p.should_quit ≡ false
      → p.notifications ≡ 0
      → 0 < length p.work_queue
      → 0 < count is_active p.workers
  Reaches-active r some_worker q c some_work =
      let h = Reaches-IsAwake r in ground (arith, h.each q, h.served q)
