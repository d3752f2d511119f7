-- ===== src/Util/ThreadPool.antt =====
-- src/include/util/thread_pool.h and src/lib/util/thread_pool.cpp: the pool of threads that serves the
-- viewers' browsers. Each critical section under the pool's mutex is one step, and so is each
-- notification, which comes after its section, so every interleaving is a sequence of steps.
pub mod Queue
pub mod Wakeup
pub mod Shutdown
use angry_balls.Base.{
  ℕ, zero, suc, ◌+◌, List, [], ◌∷◌, ◌++◌, map, replicate, Bool, true, false, ◌≡◌,
}

-- Where a worker stands: about to enter the critical section of `WorkerDequeue`, in the wait for more
-- work, in `fn()`, or past the end of `Run`.
pub data Worker (J : Type 0) : Type 0 where
  dequeuing : Worker J
  waiting : Worker J
  running : J → Worker J
  exited : Worker J

-- `notifications` counts the calls of `Enqueue` that have pushed and not yet notified; `told` says that
-- `Shutdown` has notified all.
pub record Pool (J : Type 0) : Type 0 where
  pub workers : List (Worker J)
  pub work_queue : List J
  pub should_quit : Bool
  pub notifications : ℕ
  pub told : Bool

-- A critical section of `WorkerDequeue`: the worker waits, is to return, or has the front of the queue.
pub data Dequeued (J : Type 0) : Type 0 where
  waits : Dequeued J
  quits : Dequeued J
  gets : J → List J → Dequeued J

-- What a step of a worker leaves: where he stands, the queue, and the functions he has started.
pub record Turned (J : Type 0) : Type 0 where
  pub worker : Worker J
  pub queue : List J
  pub started : List J

module _ {J : Type 0} where
  unfoldable pub thread_pool : ℕ → Pool J
  thread_pool num_workers = record {
    workers = replicate num_workers dequeuing;
    work_queue = [];
    should_quit = false;
    notifications = 0;
    told = false;
  }

  -- `Enqueue` under the lock; its notification is `Reaches.notifies` or `Reaches.unheard`.
  unfoldable pub enqueue : J → Pool J → Pool J
  enqueue fn p = record p {
    work_queue = p.work_queue ++ fn ∷ [];
    notifications = suc p.notifications;
  }

  unfoldable pub worker_dequeue : Bool → List J → Dequeued J
  worker_dequeue true q = quits
  worker_dequeue false [] = waits
  worker_dequeue false (f ∷ fs) = gets f fs

  -- A step of `Run`. A worker may wake without a notification; a function that throws is caught, so
  -- that its worker goes round again as after one that returns.
  unfoldable pub run : Bool → List J → Worker J → Turned J
  unfolding worker_dequeue
  run quit q dequeuing = elim (worker_dequeue quit q) [
    | waits ↦ record { worker = waiting; queue = q; started = [] }
    | quits ↦ record { worker = exited; queue = q; started = [] }
    | gets f fs ↦ record { worker = running f; queue = fs; started = f ∷ [] }
  ]
  run quit q waiting = record { worker = dequeuing; queue = q; started = [] }
  run quit q (running f) = record { worker = dequeuing; queue = q; started = [] }
  run quit q exited = record { worker = exited; queue = q; started = [] }

  abbrev pub wake : Worker J → Worker J
  wake dequeuing = dequeuing
  wake waiting = dequeuing
  wake (running f) = running f
  wake exited = exited

  -- The pool after a step of the worker between `xs` and `ys`.
  abbrev pub after_turn : Pool J → List (Worker J) → Turned J → List (Worker J) → Pool J
  after_turn p xs t ys = record p { workers = xs ++ t.worker ∷ ys; work_queue = t.queue }

  -- The three steps of `Shutdown`; it joins when every worker has exited.
  unfoldable pub set_should_quit : Pool J → Pool J
  set_should_quit p = record p { should_quit = true }

  unfoldable pub notify_all : Pool J → Pool J
  notify_all p = record p { workers = map wake p.workers; told = true }

  abbrev pub is_waiting : Worker J → ℕ
  is_waiting dequeuing = 0
  is_waiting waiting = 1
  is_waiting (running f) = 0
  is_waiting exited = 0

  abbrev pub is_active : Worker J → ℕ
  is_active dequeuing = 1
  is_active waiting = 0
  is_active (running f) = 1
  is_active exited = 0

  abbrev pub count : (Worker J → ℕ) → List (Worker J) → ℕ
  count f [] = 0
  count f (w ∷ ws) = f w + count f ws

  -- The pools that a pool of `n` workers reaches, with the functions enqueued and those started.
  pub data Reaches (n : ℕ) : List J → List J → Pool J → Type 0 where
    begins : Reaches n [] [] (thread_pool n)
    pushes :
        {fs gs : List J} {p : Pool J} (fn : J)
        → Reaches n fs gs p
        → Reaches n (fs ++ fn ∷ []) gs (enqueue fn p)
    notifies :
        {fs gs : List J} {p : Pool J} {k : ℕ} (xs ys : List (Worker J))
        → Reaches n fs gs p
        → p.notifications ≡ suc k
        → p.workers ≡ xs ++ waiting ∷ ys
        → Reaches n fs gs (record p { workers = xs ++ dequeuing ∷ ys; notifications = k })
    unheard :
        {fs gs : List J} {p : Pool J} {k : ℕ}
        → Reaches n fs gs p
        → p.notifications ≡ suc k
        → count is_waiting p.workers ≡ 0
        → Reaches n fs gs (record p { notifications = k })
    works :
        {fs gs : List J} {p : Pool J} (xs : List (Worker J)) (w : Worker J) (ys : List (Worker J))
        → Reaches n fs gs p
        → p.workers ≡ xs ++ w ∷ ys
        → Reaches n fs
            (gs ++ (run p.should_quit p.work_queue w).started)
            (after_turn p xs (run p.should_quit p.work_queue w) ys)
    shuts_down :
        {fs gs : List J} {p : Pool J} → Reaches n fs gs p → Reaches n fs gs (set_should_quit p)
    tells_all :
        {fs gs : List J} {p : Pool J}
        → Reaches n fs gs p
        → p.should_quit ≡ true
        → Reaches n fs gs (notify_all p)
