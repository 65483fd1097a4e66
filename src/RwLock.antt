-- ===== src/RwLock.antt =====
-- src/rwlock/rwlock.h and rwlock.c: a lock for readers and writers from a mutex and two condition
-- variables, used by any number of threads. A step is one stretch of code between two points at
-- which a thread can be stopped; the mutex, the conditions and their queues are those of POSIX.
pub mod Threads
pub mod Mutex
pub mod Safety
pub mod Wakeups
pub mod Starvation
use Prim.Native.Nat.{ℕ, zero, suc, ◌+◌, ◌-◌, ◌<◌, ◌≤◌}
use adrift.Base.{
  ◌≡◌, ◌≢◌, Bool, true, false, Option, none, some, ◌==◌, ltb, ◌||◌, if◌then◌else◌, update,
}

-- Where a thread stands. `want_` is before a mutex is taken, `check_` before the test of a loop,
-- with the mutex held; `wait_` is asleep in `pthread_cond_wait`, `woken_` behind a wake-up and
-- before the mutex is taken again; `leave_` is at the `pthread_mutex_unlock` of a lock function.
pub data Pc : Type 0 where
  idle : Pc
  want_read check_read wait_read woken_read leave_read : Pc
  reading want_read_unlock in_read_unlock : Pc
  want_write check_write wait_write woken_write leave_write : Pc
  writing want_write_unlock in_write_unlock : Pc

-- The mutex's owner and the two counters; the conditions' queues are the threads that wait.
pub record RwLock : Type 0 where
  pub owner : Option ℕ
  pub reader_count : ℕ
  pub writer_count : ℕ
  pub pc : ℕ → Pc

-- `rwlock_ctor`, with every thread outside the lock.
abbrev pub rwlock_ctor : RwLock
rwlock_ctor = record { owner = none; reader_count = 0; writer_count = 0; pc = λ _. idle }

-- A thread that waits on `read_cond` is woken by a broadcast.
abbrev pub wake_reader : Pc → Pc
wake_reader wait_read = woken_read
wake_reader p = p

abbrev pub broadcast_read : (ℕ → Pc) → ℕ → Pc
broadcast_read pc i = wake_reader (pc i)

-- Threads and their number: a thread from `n` on never moves.
pub data Step (n : ℕ) (s : RwLock) : RwLock → Type 0 where
  -- the calls
  call_read : (i : ℕ) → i < n → s.pc i ≡ idle → Step n s (record s { pc = update s.pc i want_read })
  call_write :
      (i : ℕ) → i < n → s.pc i ≡ idle → Step n s (record s { pc = update s.pc i want_write })
  call_read_unlock :
      (i : ℕ)
      → i < n
      → s.pc i ≡ reading
      → Step n s (record s { pc = update s.pc i want_read_unlock })
  call_write_unlock :
      (i : ℕ)
      → i < n
      → s.pc i ≡ writing
      → Step n s (record s { pc = update s.pc i want_write_unlock })
  -- `pthread_mutex_lock`, at the start of a function or behind a wake-up
  lock_read :
      (i : ℕ)
      → i < n
      → s.owner ≡ none
      → s.pc i ≡ want_read
      → Step n s (record s { owner = some i; pc = update s.pc i check_read })
  relock_read :
      (i : ℕ)
      → i < n
      → s.owner ≡ none
      → s.pc i ≡ woken_read
      → Step n s (record s { owner = some i; pc = update s.pc i check_read })
  lock_write :
      (i : ℕ)
      → i < n
      → s.owner ≡ none
      → s.pc i ≡ want_write
      → Step n s (record s { owner = some i; pc = update s.pc i check_write })
  relock_write :
      (i : ℕ)
      → i < n
      → s.owner ≡ none
      → s.pc i ≡ woken_write
      → Step n s (record s { owner = some i; pc = update s.pc i check_write })
  lock_read_unlock :
      (i : ℕ)
      → i < n
      → s.owner ≡ none
      → s.pc i ≡ want_read_unlock
      → Step n s (record s { owner = some i; pc = update s.pc i in_read_unlock })
  lock_write_unlock :
      (i : ℕ)
      → i < n
      → s.owner ≡ none
      → s.pc i ≡ want_write_unlock
      → Step n s (record s { owner = some i; pc = update s.pc i in_write_unlock })
  -- `while (writer_count > 0) pthread_cond_wait(...)`, then `++reader_count`
  read_blocks :
      (i : ℕ)
      → i < n
      → s.pc i ≡ check_read
      → 0 < s.writer_count
      → Step n s (record s { owner = none; pc = update s.pc i wait_read })
  read_enters :
      (i : ℕ)
      → i < n
      → s.pc i ≡ check_read
      → s.writer_count ≡ 0
      → Step n s (record s { reader_count = s.reader_count + 1; pc = update s.pc i leave_read })
  read_locked :
      (i : ℕ)
      → i < n
      → s.pc i ≡ leave_read
      → Step n s (record s { owner = none; pc = update s.pc i reading })
  -- `while (writer_count > 0 || reader_count > 0) pthread_cond_wait(...)`, then `++writer_count`
  write_blocks :
      (i : ℕ)
      → i < n
      → s.pc i ≡ check_write
      → 0 < s.writer_count + s.reader_count
      → Step n s (record s { owner = none; pc = update s.pc i wait_write })
  write_enters :
      (i : ℕ)
      → i < n
      → s.pc i ≡ check_write
      → s.writer_count ≡ 0
      → s.reader_count ≡ 0
      → Step n s (record s { writer_count = s.writer_count + 1; pc = update s.pc i leave_write })
  write_locked :
      (i : ℕ)
      → i < n
      → s.pc i ≡ leave_write
      → Step n s (record s { owner = none; pc = update s.pc i writing })
  -- `rwlock_read_unlock`: with other readers left nothing is signalled; the last one signals the
  -- writers, which wakes the waiting thread `j`, if one waits
  read_unlocks :
      (i : ℕ)
      → i < n
      → s.pc i ≡ in_read_unlock
      → s.reader_count ≢ 1
      → Step n s
          (record s { owner = none; reader_count = s.reader_count - 1; pc = update s.pc i idle })
  last_read_unlocks :
      (i j : ℕ)
      → i < n
      → j < n
      → s.pc i ≡ in_read_unlock
      → s.reader_count ≡ 1
      → s.pc j ≡ wait_write
      → Step n s (record s {
        owner = none;
        reader_count = 0;
        pc = update (update s.pc j woken_write) i idle;
      })
  last_read_unlocks_alone :
      (i : ℕ)
      → i < n
      → s.pc i ≡ in_read_unlock
      → s.reader_count ≡ 1
      → ((j : ℕ) → s.pc j ≢ wait_write)
      → Step n s (record s { owner = none; reader_count = 0; pc = update s.pc i idle })
  -- `rwlock_write_unlock`: a signal to the writers and a broadcast to the readers
  write_unlocks :
      (i j : ℕ)
      → i < n
      → j < n
      → s.pc i ≡ in_write_unlock
      → s.writer_count ≡ 1
      → s.pc j ≡ wait_write
      → Step n s (record s {
        owner = none;
        writer_count = 0;
        pc = broadcast_read (update (update s.pc j woken_write) i idle);
      })
  write_unlocks_alone :
      (i : ℕ)
      → i < n
      → s.pc i ≡ in_write_unlock
      → s.writer_count ≡ 1
      → ((j : ℕ) → s.pc j ≢ wait_write)
      → Step n s
          (record s { owner = none; writer_count = 0; pc = broadcast_read (update s.pc i idle) })
  write_unlocks_inner :
      (i : ℕ)
      → i < n
      → s.pc i ≡ in_write_unlock
      → s.writer_count ≢ 1
      → Step n s
          (record s { owner = none; writer_count = s.writer_count - 1; pc = update s.pc i idle })
  -- POSIX lets a waiting thread wake up for no reason
  spurious_read :
      (i : ℕ) → i < n → s.pc i ≡ wait_read → Step n s (record s { pc = update s.pc i woken_read })
  spurious_write :
      (i : ℕ) → i < n → s.pc i ≡ wait_write → Step n s (record s { pc = update s.pc i woken_write })

pub data Reach (n : ℕ) : RwLock → Type 0 where
  start : Reach n rwlock_ctor
  later : {s t : RwLock} → Reach n s → Step n s t → Reach n t
