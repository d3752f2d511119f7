-- ===== src/Examples/Pool.antt =====
-- A pool of two workers with functions 7 and 8: one is started, then the pool is shut down.
use angry_balls.Base.{
  ℕ, ◌*◌, ◌≤◌, ◌<◌, [], ◌∷◌, ◌++◌, replicate, length, false, true, ◌⊎◌, ◌≡◌, refl, arith,
}
use angry_balls.Util.ThreadPool.{
  Pool, dequeuing, running, exited, run, worker_dequeue, thread_pool, enqueue, set_should_quit,
  notify_all, count, is_active, Reaches, begins, pushes, notifies, works, shuts_down, tells_all,
  unheard,
}
use angry_balls.Util.ThreadPool.Queue.{Reaches-queue}
use angry_balls.Util.ThreadPool.Wakeup.{Reaches-active}
use angry_balls.Util.ThreadPool.Shutdown.{Winds, rests, turns, Winds-exited}

-- The first worker finds nothing to do and waits; 7 and 8 come in, and he is told.
abbrev served : Pool ℕ
served = record {
  workers = dequeuing ∷ dequeuing ∷ [];
  work_queue = 7 ∷ 8 ∷ [];
  should_quit = false;
  notifications = 0;
  told = false;
}

served-Reaches : Reaches 2 (7 ∷ 8 ∷ []) [] served
unfolding thread_pool enqueue run worker_dequeue
served-Reaches =
    unheard
      (notifies [] (dequeuing ∷ [])
        (pushes 8 (pushes 7 (works [] dequeuing (dequeuing ∷ []) begins refl))) refl refl)
      refl refl

abbrev started : Pool ℕ
started = record served { workers = running 7 ∷ dequeuing ∷ []; work_queue = 8 ∷ [] }

started-Reaches : Reaches 2 (7 ∷ 8 ∷ []) (7 ∷ []) started
unfolding run worker_dequeue
started-Reaches = works [] dequeuing (dequeuing ∷ []) served-Reaches refl

Reaches-queue_example : 7 ∷ 8 ∷ [] ≡ (7 ∷ []) ++ started.work_queue
Reaches-queue_example = Reaches-queue started-Reaches

Reaches-active_example : 0 < count is_active started.workers
Reaches-active_example = Reaches-active started-Reaches (omega arith) refl refl (omega arith)

abbrev told : Pool ℕ
told = record started { should_quit = true; told = true }

told-Reaches : Reaches 2 (7 ∷ 8 ∷ []) (7 ∷ []) told
unfolding set_should_quit notify_all
told-Reaches = tells_all (shuts_down started-Reaches) refl

abbrev second_left : Pool ℕ
second_left = record told { workers = running 7 ∷ exited ∷ [] }

second_left-Winds : Winds told 1 second_left
unfolding run worker_dequeue
second_left-Winds = turns (running 7 ∷ []) dequeuing [] rests refl refl

Winds-exited_example :
    (1 ≤ 2 * length told.workers)
    × (second_left.work_queue ≡ told.work_queue)
    × ((second_left.workers ≡ replicate (length told.workers) exited)
        ⊎ ((q : Pool ℕ) × Winds told 2 q))
Winds-exited_example = Winds-exited told-Reaches refl second_left-Winds
