-- ===== src/Tests/Locks.antt =====
-- src/rwlock/rwlock.c: a schedule of two threads, and the theorems at it.
use adrift.Base.{◌+◌, ◌<◌, ◌≡◌, ◌⊎◌, refl, arith}
use adrift.RwLock.{
  read_enters, read_locked, write_blocks, wait_read, wait_write, lock_read, read_blocks, RwLock,
  Reach, start, later, call_write, call_read, lock_write, write_enters, write_locked,
}
use adrift.RwLock.Starvation.{Waits, writer_starves}
use adrift.RwLock.Threads.{sum}
use adrift.RwLock.Wakeups.{tries_write, no_lost_wakeup}
use adrift.RwLock.Safety.{holds_read, holds_write, mutual_exclusion}

-- Thread 1 has called `rwlock_read_lock`, thread 0 has got the lock for writing.
abbrev one_writer : (s : RwLock) × Reach 2 s × (holds_write (s.pc 0) ≡ 1)
one_writer = (
  _,
  later
      (later
        (later
          (later (later start (call_write 0 (omega arith) refl))
            (lock_write 0 (omega arith) refl refl))
          (write_enters 0 (omega arith) refl refl refl))
        (call_read 1 (omega arith) refl))
      (write_locked 0 (omega arith) refl),
  refl,
)

mutual_exclusion_example :
    (holds_write (one_writer.0.pc 1) ≡ 0) × (holds_read (one_writer.0.pc 1) ≡ 0)
mutual_exclusion_example =
    mutual_exclusion 0 1 one_writer.1 (omega arith) (omega arith) (omega arith) one_writer.2

-- Then thread 1 waits.
abbrev waiting_reader : (s : RwLock) × Reach 2 s × (s.pc 1 ≡ wait_read)
waiting_reader = (
  _,
  later (later one_writer.1 (lock_read 1 (omega arith) refl refl))
      (read_blocks 1 (omega arith) refl (omega arith)),
  refl,
)

no_lost_wakeup_example :
    ((waiting_reader.0.pc 1 ≡ wait_read) × (0 < waiting_reader.0.writer_count))
    ⊎ ((waiting_reader.0.pc 1 ≡ wait_write)
        × (0
            < waiting_reader.0.reader_count
              + waiting_reader.0.writer_count
              + sum tries_write 2 waiting_reader.0.pc))
no_lost_wakeup_example = no_lost_wakeup 1 waiting_reader.1 (omega arith) refl

-- Thread 0 reads, and thread 1 waits to write.
abbrev waiting_writer : (s : RwLock) × Reach 3 s × (s.pc 1 ≡ wait_write)
waiting_writer = (
  _,
  later
      (later
        (later
          (later
            (later
              (later (later start (call_read 0 (omega arith) refl))
                (lock_read 0 (omega arith) refl refl))
              (read_enters 0 (omega arith) refl refl))
            (read_locked 0 (omega arith) refl))
          (call_write 1 (omega arith) refl))
        (lock_write 1 (omega arith) refl refl))
      (write_blocks 1 (omega arith) refl (omega arith)),
  refl,
)

writer_starves_example : (t : RwLock) × Waits 3 2 1 waiting_writer.0 100 t
writer_starves_example =
    writer_starves 2 1 0 100 waiting_writer.1 (omega arith) (omega arith) refl refl refl refl
