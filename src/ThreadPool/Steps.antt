-- ===== src/ThreadPool/Steps.antt =====
-- src/thread/threadpool.c: the threads of a pool, one section of `worker`, `manager`,
-- `threadPoolAdd` or `threadPoolDestroy` at a time. A waiting thread may wake up at any time, so the
-- signals, which only make it do so, are left out. A call of `threadPoolAdd` that waits or is refused
-- changes nothing.
use adrift.Base.{ℕ, zero, suc, ◌≤◌, ◌≡◌, false, List, [], ◌∷◌, ◌++◌, ok}
use adrift.ThreadPool.{
  Task, ThreadPool, thread_pool_create, added, thread_pool_add, Taking, waits, leaves, closes,
  takes, take_task, wake_up, start_working, end_working, thread_exit, add_threads, dismiss_threads,
  shut_down,
}

-- Where a worker is.
pub data Phase : Type 0 where
  -- before it takes `mutexPool`
  looping : Phase
  waiting : Phase
  -- with a task, before and after it has counted itself busy
  holding : Task → Phase
  working : Task → Phase
  -- before `threadExit`, dismissed or because of the shutdown, and behind it
  leaving : Phase
  closing : Phase
  closed : Phase

pub record Worker : Type 0 where
  pub tid : ℕ
  pub phase : Phase

-- Where the manager is, with what it has read.
pub data Managing : Type 0 where
  testing : Managing
  sleeping : Managing
  counted : (queue_size live_num : ℕ) → Managing
  sampled : (queue_size live_num busy_num : ℕ) → Managing
  grown : (live_num busy_num : ℕ) → Managing

-- `offered` and `taken` are the tasks that went into the queue and out of it, in order.
pub record System : Type 0 where
  pub pool : ThreadPool
  pub workers : List Worker
  pub manager : Managing
  pub offered : List Task
  pub taken : List Task

abbrev pub pool_of : Taking → ThreadPool
pool_of (waits p) = p
pool_of (leaves p) = p
pool_of (closes p) = p
pool_of (takes t p) = p

abbrev pub phase_of : Taking → Phase
phase_of (waits p) = waiting
phase_of (leaves p) = leaving
phase_of (closes p) = closing
phase_of (takes t p) = holding t

abbrev pub tasks_of : Taking → List Task
tasks_of (waits p) = []
tasks_of (leaves p) = []
tasks_of (closes p) = []
tasks_of (takes t p) = t ∷ []

-- The threads that a loop creates, behind `n` of them.
abbrev pub new_workers : (ℕ → ℕ) → ℕ → ℕ → List Worker
new_workers fresh n zero = []
new_workers fresh n (suc m) =
    record { tid = fresh n; phase = looping } ∷ new_workers fresh (suc n) m

-- The state after a worker's section.
abbrev pub after : System → List Worker → ℕ → Taking → List Worker → System
after s xs tid r ys = record s {
  pool = pool_of r;
  workers = xs ++ record { tid = tid; phase = phase_of r } ∷ ys;
  taken = s.taken ++ tasks_of r;
}

pub data Step (s : System) : System → Type 0 where
  adds :
      (task : Task) (pool : ThreadPool)
      → thread_pool_add task s.pool ≡ ok (added pool)
      → Step s (record s { pool = pool; offered = s.offered ++ task ∷ [] })
  enters :
      (xs ys : List Worker) (tid : ℕ) (r : Taking)
      → s.workers ≡ xs ++ record { tid = tid; phase = looping } ∷ ys
      → take_task s.pool ≡ ok r
      → Step s (after s xs tid r ys)
  wakes :
      (xs ys : List Worker) (tid : ℕ) (r : Taking)
      → s.workers ≡ xs ++ record { tid = tid; phase = waiting } ∷ ys
      → wake_up s.pool ≡ ok r
      → Step s (after s xs tid r ys)
  starts :
      (xs ys : List Worker) (tid : ℕ) (task : Task)
      → s.workers ≡ xs ++ record { tid = tid; phase = holding task } ∷ ys
      → Step s (record s {
        pool = start_working s.pool;
        workers = xs ++ record { tid = tid; phase = working task } ∷ ys;
      })
  ends :
      (xs ys : List Worker) (tid : ℕ) (task : Task)
      → s.workers ≡ xs ++ record { tid = tid; phase = working task } ∷ ys
      → Step s (record s {
        pool = end_working s.pool;
        workers = xs ++ record { tid = tid; phase = looping } ∷ ys;
      })
  exits :
      (xs ys : List Worker) (tid : ℕ)
      → s.workers ≡ xs ++ record { tid = tid; phase = leaving } ∷ ys
      → Step s (record s { pool = thread_exit tid s.pool; workers = xs ++ ys })
  closes_down :
      (xs ys : List Worker) (tid : ℕ)
      → s.workers ≡ xs ++ record { tid = tid; phase = closing } ∷ ys
      → Step s (record s {
        pool = thread_exit tid s.pool;
        workers = xs ++ record { tid = tid; phase = closed } ∷ ys;
      })
  naps : s.manager ≡ testing → s.pool.shutdown ≡ false → Step s (record s { manager = sleeping })
  counts :
      s.manager ≡ sleeping
      → Step s (record s { manager = counted s.pool.queue_size s.pool.live_num })
  samples :
      (queue_size live_num : ℕ)
      → s.manager ≡ counted queue_size live_num
      → Step s (record s { manager = sampled queue_size live_num s.pool.busy_num })
  grows :
      (fresh : ℕ → ℕ) (queue_size live_num busy_num : ℕ)
      → s.manager ≡ sampled queue_size live_num busy_num
      → Step s (record s {
        pool = (add_threads fresh queue_size live_num s.pool).0;
        workers = new_workers fresh 0 (add_threads fresh queue_size live_num s.pool).1 ++ s.workers;
        manager = grown live_num busy_num;
      })
  dismisses :
      (live_num busy_num : ℕ)
      → s.manager ≡ grown live_num busy_num
      → Step s (record s { pool = dismiss_threads busy_num live_num s.pool; manager = testing })
  shuts : Step s (record s { pool = shut_down s.pool })

-- From a pool that has just been created with `min` workers of `max`.
pub data Reach : System → Type 0 where
  start :
      (fresh : ℕ → ℕ) (tasks : ℕ → Task) (min max queue_capacity : ℕ) (pool : ThreadPool)
      → min ≤ max
      → thread_pool_create fresh tasks min max queue_capacity ≡ ok pool
      → Reach (record {
        pool = pool;
        workers = new_workers fresh 0 min;
        manager = testing;
        offered = [];
        taken = [];
      })
  later : {s t : System} → Reach s → Step s t → Reach t
