-- ===== src/Tests/Pool.antt =====
-- src/thread/threadpool.c: runs of its sections, and the theorems at them.
use adrift.Base.{ℕ, ◌+◌, ◌≤◌, ◌≡◌, refl, false, [], ◌∷◌, ◌++◌, ok, arith, ◌==◌, if◌then◌else◌}
use adrift.ThreadPool.{
  Task, ThreadPool, thread_pool_create, thread_pool_busy_num, thread_pool_live_num, create_first,
  Adding, full, added, add_task, thread_pool_add, Taking, leaves, takes, pop_task, take_task,
  wake_up, create_more, add_threads, thread_exit, clear_id, dismiss_threads,
}
use adrift.ThreadPool.Steps.{holding, System, Reach, adds, enters, start, later, testing}
use adrift.ThreadPool.Census.{count, is_busy, is_live}
use adrift.ThreadPool.Ring.{queued}
use adrift.ThreadPool.Fifo.{tasks_in_order}
use adrift.ThreadPool.Counters.{counters_count}

abbrev identity : ℕ → ℕ
identity i = i + 7

abbrev task_at : ℕ → Task
task_at i = record { function = i; arg = 0 }

-- One worker of at most 3, and room for 2 tasks.
abbrev new_pool : ThreadPool
new_pool = record {
  task_q = λ _. task_at 0;
  queue_capacity = 2;
  queue_size = 0;
  queue_front = 0;
  queue_rear = 0;
  thread_ids = 7 ∷ 0 ∷ 0 ∷ [];
  min_num = 1;
  max_num = 3;
  busy_num = 0;
  live_num = 1;
  exit_num = 0;
  shutdown = false;
}

pool_created : thread_pool_create identity (λ _. task_at 0) 1 3 2 ≡ ok new_pool
unfolding thread_pool_create create_first
pool_created = refl

abbrev one_task : ThreadPool
one_task = record new_pool {
  task_q = λ j. if 0 == j then task_at 1 else task_at 0;
  queue_rear = 1;
  queue_size = 1;
}

abbrev two_tasks : ThreadPool
two_tasks = record one_task {
  task_q = λ j. if 1 == j then task_at 2 else if 0 == j then task_at 1 else task_at 0;
  queue_rear = 0;
  queue_size = 2;
}

task_added : thread_pool_add (task_at 1) new_pool ≡ ok (added one_task)
unfolding thread_pool_add add_task
task_added = refl

task_added_again : thread_pool_add (task_at 2) one_task ≡ ok (added two_tasks)
unfolding thread_pool_add add_task
task_added_again = refl

full_waits : thread_pool_add (task_at 3) two_tasks ≡ ok full
unfolding thread_pool_add add_task
full_waits = refl

-- The worker takes the first task.
abbrev first_taken : ThreadPool
first_taken = record two_tasks { queue_front = 1; queue_size = 1 }

task_taken : take_task two_tasks ≡ ok (takes (task_at 1) first_taken)
unfolding take_task pop_task
task_taken = refl

-- With 3 tasks counted for 1 worker, 2 more are created.
threads_added : (add_threads identity 3 1 new_pool).1 ≡ 2
unfolding add_threads create_more
threads_added = refl

exited : (thread_exit 7 new_pool).thread_ids ≡ 0 ∷ 0 ∷ 0 ∷ []
unfolding thread_exit clear_id
exited = refl

-- Of 2 workers one may go.
dismissed : (dismiss_threads 0 2 new_pool).exit_num ≡ 2
unfolding dismiss_threads
dismissed = refl

-- It goes although a task waits.
left_behind :
    wake_up (record one_task { live_num = 2; exit_num = 2 })
    ≡ ok (leaves (record one_task { live_num = 1; exit_num = 1 }))
unfolding wake_up take_task pop_task
left_behind = refl

abbrev working_system : System
working_system = record {
  pool = first_taken;
  workers = record { tid = 7; phase = holding (task_at 1) } ∷ [];
  manager = testing;
  offered = task_at 1 ∷ task_at 2 ∷ [];
  taken = task_at 1 ∷ [];
}

working_system-Reach : Reach working_system
working_system-Reach =
    later
      (later
        (later (start identity (λ _. task_at 0) 1 3 2 new_pool (omega arith) pool_created)
          (adds (task_at 1) one_task task_added))
        (adds (task_at 2) two_tasks task_added_again))
      (enters [] [] 7 (takes (task_at 1) first_taken) refl task_taken)

tasks_in_order_example :
    (task_at 1 ∷ task_at 2 ∷ [] ≡ (task_at 1 ∷ []) ++ queued first_taken)
    × (1 ≤ 2)
    × ((r : Adding) × (thread_pool_add (task_at 3) first_taken ≡ ok r))
    × ((r : Taking) × (take_task first_taken ≡ ok r))
    × ((r : Taking) × (wake_up first_taken ≡ ok r))
tasks_in_order_example = tasks_in_order (task_at 3) working_system-Reach

counters_count_example :
    (thread_pool_busy_num first_taken ≡ count is_busy working_system.workers)
    × (thread_pool_live_num first_taken ≡ count is_live working_system.workers)
    × (1 ≤ 1)
    × (1 ≤ 3)
counters_count_example = counters_count working_system-Reach
