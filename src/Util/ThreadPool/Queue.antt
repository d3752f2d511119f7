-- ===== src/Util/ThreadPool/Queue.antt =====
-- The order in which the workers start what was enqueued.
use angry_balls.Base.{
  ℕ, List, [], ◌∷◌, ◌++◌, append_assoc, ◌≡◌, refl, sym, ap, ◌∙◌, Bool, true, false,
}
use angry_balls.Util.ThreadPool.{
  Pool, Worker, waiting, dequeuing, running, exited, run, worker_dequeue, thread_pool, enqueue,
  set_should_quit, notify_all, Reaches, begins, pushes, notifies, unheard, works, shuts_down,
  tells_all,
}

module _ {J : Type 0} where
  run-queue :
      (quit : Bool) (q : List J) (w : Worker J) → (run quit q w).started ++ (run quit q w).queue ≡ q
  unfolding run worker_dequeue
  run-queue true q dequeuing = refl
  run-queue false [] dequeuing = refl
  run-queue false (f ∷ fs) dequeuing = refl
  run-queue quit q waiting = refl
  run-queue quit q (running f) = refl
  run-queue quit q exited = refl

  -- Whatever the threads do, the functions started, in the order of their start, and after them those
  -- in the queue are exactly the functions enqueued, in their order: none is lost, started twice or
  -- overtaken.
  pub Reaches-queue :
      {n : ℕ} {fs gs : List J} {p : Pool J} → Reaches n fs gs p → fs ≡ gs ++ p.work_queue
  unfolding thread_pool enqueue set_should_quit notify_all
  Reaches-queue begins = refl
  Reaches-queue (pushes {gs} {p} fn r) =
      ap (λ l. l ++ fn ∷ []) (Reaches-queue r) ∙ append_assoc gs p.work_queue (fn ∷ [])
  Reaches-queue (notifies xs ys r _ _) = Reaches-queue r
  Reaches-queue (unheard r _ _) = Reaches-queue r
  Reaches-queue (works {gs} {p} xs w ys r _) =
      let t = run p.should_quit p.work_queue w in
      let kept = run-queue p.should_quit p.work_queue w in
      Reaches-queue r ∙ ap (λ l. gs ++ l) (sym kept) ∙ sym (append_assoc gs t.started t.queue)
  Reaches-queue (shuts_down r) = Reaches-queue r
  Reaches-queue (tells_all r _) = Reaches-queue r
