-- ===== src/ThreadPool.antt =====
-- src/thread/threadpool.c: a ring of tasks, workers that take them and a manager that adds and
-- dismisses workers. What a thread does between taking `mutexPool` and giving it back, or waiting,
-- is one function. Neither `malloc` nor the `pthread` calls fail; `fresh i` is the identification
-- of the i-th thread that a loop creates. The counters are below `maxNum` and `queueCapacity`, which
-- are of type int, so they are natural numbers.
pub mod Steps
pub mod Ring
pub mod Sections
pub mod Fifo
pub mod Census
pub mod Effects
pub mod Counters
use adrift.Base.{
  ℕ, zero, suc, ◌+◌, ◌-◌, ◌*◌, ◌%◌, Bool, true, false, ◌&&◌, not, List, [], ◌∷◌, Run, ok, fault,
  read_overrun, write_overrun, ◌>>=◌, ◌==◌, ltb, if◌then◌else◌, replicate, update,
}

-- `NUMBER`
abbrev pub number : ℕ
number = 2

pub record Task : Type 0 where
  pub function : ℕ
  pub arg : ℕ

-- `task_q` is a block of `queue_capacity` tasks. A `thread_ids` entry of 0 is free.
pub record ThreadPool : Type 0 where
  pub task_q : ℕ → Task
  pub queue_capacity : ℕ
  pub queue_size : ℕ
  pub queue_front : ℕ
  pub queue_rear : ℕ
  pub thread_ids : List ℕ
  pub min_num : ℕ
  pub max_num : ℕ
  pub busy_num : ℕ
  pub live_num : ℕ
  pub exit_num : ℕ
  pub shutdown : Bool

-- The loop that creates the first workers, behind `n` of them.
unfoldable pub create_first : (ℕ → ℕ) → ℕ → ℕ → List ℕ → Run (List ℕ)
create_first fresh n zero ids = ok ids
create_first fresh n (suc m) [] = fault write_overrun
create_first fresh n (suc m) (id ∷ ids) = do
  rest ← create_first fresh (suc n) m ids
  ok (fresh n ∷ rest)

-- `tasks` is what `malloc` leaves in the block.
unfoldable pub thread_pool_create : (ℕ → ℕ) → (ℕ → Task) → ℕ → ℕ → ℕ → Run ThreadPool
unfolding create_first
thread_pool_create fresh tasks min max queue_capacity = do
  ids ← create_first fresh 0 min (replicate max 0)
  ok (record {
    task_q = tasks;
    queue_capacity = queue_capacity;
    queue_size = 0;
    queue_front = 0;
    queue_rear = 0;
    thread_ids = ids;
    min_num = min;
    max_num = max;
    busy_num = 0;
    live_num = min;
    exit_num = 0;
    shutdown = false;
  })

pub data Adding : Type 0 where
  -- waits for `notFull`
  full : Adding
  -- returns, as the pool is shut down
  refused : Adding
  added : ThreadPool → Adding

unfoldable pub add_task : Task → ThreadPool → Run Adding
add_task task pool =
    if ltb pool.queue_rear pool.queue_capacity
    then ok (
        added (record pool {
          task_q = update pool.task_q pool.queue_rear task;
          queue_rear = (pool.queue_rear + 1) % pool.queue_capacity;
          queue_size = suc pool.queue_size;
        }))
    else fault write_overrun

-- From the test of the loop, which is made at entry and after each wait.
unfoldable pub thread_pool_add : Task → ThreadPool → Run Adding
thread_pool_add task pool =
    if pool.queue_size == pool.queue_capacity && not pool.shutdown
    then ok full
    else if pool.shutdown
    then ok refused
    else add_task task pool

abbrev pub thread_pool_busy_num : ThreadPool → ℕ
thread_pool_busy_num pool = pool.busy_num

abbrev pub thread_pool_live_num : ThreadPool → ℕ
thread_pool_live_num pool = pool.live_num

-- The first line of `threadPoolDestroy`. What it frees in the end, while workers may still be
-- running, is left out.
abbrev pub shut_down : ThreadPool → ThreadPool
shut_down pool = record pool { shutdown = true }

pub data Taking : Type 0 where
  -- waits for `notEmpty`
  waits : ThreadPool → Taking
  -- is dismissed, and goes to `threadExit`
  leaves : ThreadPool → Taking
  -- goes to `threadExit`, as the pool is shut down
  closes : ThreadPool → Taking
  takes : Task → ThreadPool → Taking

unfoldable pub pop_task : ThreadPool → Run Taking
pop_task pool =
    if ltb pool.queue_front pool.queue_capacity
    then ok (
        takes (pool.task_q pool.queue_front) (record pool {
          queue_front = (pool.queue_front + 1) % pool.queue_capacity;
          queue_size = pool.queue_size - 1;
        }))
    else fault read_overrun

-- `worker` from the test of its inner loop.
unfoldable pub take_task : ThreadPool → Run Taking
take_task pool =
    if pool.queue_size == 0 && not pool.shutdown
    then ok (waits pool)
    else if pool.shutdown
    then ok (closes pool)
    else pop_task pool

-- `worker` from the end of its wait.
unfoldable pub wake_up : ThreadPool → Run Taking
wake_up pool =
    let asked : ThreadPool = record pool { exit_num = pool.exit_num - 1 } in
    if not (ltb 0 pool.exit_num)
    then take_task pool
    else if ltb pool.min_num pool.live_num
    then ok (leaves (record asked { live_num = pool.live_num - 1 }))
    else take_task asked

-- `worker` around a task, under `mutexBusy`.
unfoldable pub start_working : ThreadPool → ThreadPool
start_working pool = record pool { busy_num = pool.busy_num + 1 }

unfoldable pub end_working : ThreadPool → ThreadPool
end_working pool = record pool { busy_num = pool.busy_num - 1 }

-- The loop of `threadExit`.
unfoldable pub clear_id : ℕ → List ℕ → List ℕ
clear_id tid [] = []
clear_id tid (id ∷ ids) = let rest = clear_id tid ids in if id == tid then 0 ∷ ids else id ∷ rest

unfoldable pub thread_exit : ℕ → ThreadPool → ThreadPool
unfolding clear_id
thread_exit tid pool = record pool { thread_ids = clear_id tid pool.thread_ids }

-- The loop of `manager` over `threadIDs`, which has `maxNum` entries, with the number of threads
-- created. Once its other two tests fail they do so in every later round.
unfoldable pub create_more : (ℕ → ℕ) → ℕ → ℕ → ℕ → List ℕ → List ℕ × ℕ
create_more fresh max counter live [] = ([], counter)
create_more fresh max counter live (id ∷ ids) =
    let creates = ltb counter number && ltb live max && (id == 0) in
    let more = if creates then 1 else 0 in
    let rest = create_more fresh max (counter + more) (live + more) ids in
    ((if creates then fresh counter else id) ∷ rest.0, rest.1)

-- With what the manager has read of `queueSize` and `liveNum`, and the number of new threads.
unfoldable pub add_threads : (ℕ → ℕ) → ℕ → ℕ → ThreadPool → ThreadPool × ℕ
unfolding create_more
add_threads fresh queue_size live_num pool =
    let made = create_more fresh pool.max_num 0 pool.live_num pool.thread_ids in
    if ltb live_num queue_size && ltb live_num pool.max_num
    then (record pool { thread_ids = made.0; live_num = pool.live_num + made.1 }, made.1)
    else (pool, 0)

-- With what the manager has read of `busyNum` and `liveNum`.
unfoldable pub dismiss_threads : ℕ → ℕ → ThreadPool → ThreadPool
dismiss_threads busy_num live_num pool =
    if ltb (busy_num * 2) live_num && ltb pool.min_num live_num
    then record pool { exit_num = number }
    else pool
