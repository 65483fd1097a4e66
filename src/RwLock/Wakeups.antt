-- ===== src/RwLock/Wakeups.antt =====
-- src/rwlock/rwlock.c: no wake-up is lost.
use adrift.Base.{
  ℕ, ◌+◌, ◌<◌, ◌≤◌, ◌≡◌, ◌≢◌, refl, ap, arith, update, Option, none, some, Bool, true, false, ◌⊎◌,
  inl, inr,
}
use adrift.RwLock.{
  Pc, idle, want_read, check_read, wait_read, woken_read, leave_read, reading, want_read_unlock,
  in_read_unlock, want_write, check_write, wait_write, woken_write, leave_write, writing,
  want_write_unlock, in_write_unlock, RwLock, wake_reader, broadcast_read, Step, Reach, start,
  later, call_read, call_write, call_read_unlock, call_write_unlock, lock_read, relock_read,
  lock_write, relock_write, lock_read_unlock, lock_write_unlock, read_blocks, read_enters,
  read_locked, write_blocks, write_enters, write_locked, read_unlocks, last_read_unlocks,
  last_read_unlocks_alone, write_unlocks, write_unlocks_alone, write_unlocks_inner, spurious_read,
  spurious_write,
}
use adrift.RwLock.Safety.{Inv, Reach-Inv, moved, awake, holds_read, holds_write}
use adrift.RwLock.Threads.{sum, sum-map, sum-const, sum-zero, weight-le-sum}

abbrev waits_read : Pc → ℕ
waits_read wait_read = 1
waits_read _ = 0

abbrev waits_write : Pc → ℕ
waits_write wait_write = 1
waits_write _ = 0

-- Inside `pthread_cond_wait`.
abbrev pub asleep : Pc → Bool
asleep wait_read = true
asleep wait_write = true
asleep _ = false

-- A writer that has been woken, or that is before the test of its loop.
abbrev pub tries_write : Pc → ℕ
tries_write woken_write = 1
tries_write check_write = 1
tries_write _ = 0

-- While a thread waits, there is one that wakes it.
record Watched (n : ℕ) (s : RwLock) : Type 0 where
  pub readers : 0 < sum waits_read n s.pc → 0 < s.writer_count
  pub writers :
      0 < sum waits_write n s.pc → 0 < s.reader_count + s.writer_count + sum tries_write n s.pc

-- A step of thread `i` after which no more threads wait and no fewer try.
goes_on :
    {n : ℕ} {s : RwLock} (i : ℕ) (p p' : Pc) (owner : Option ℕ)
    → Watched n s
    → i < n
    → s.pc i ≡ p
    → waits_read p' ≤ waits_read p
    → waits_write p' ≤ waits_write p
    → tries_write p ≤ tries_write p'
    → Watched n (record s { owner = owner; pc = update s.pc i p' })
goes_on {n} {s} i p p' owner w low e f g h = record {
  readers = λ k. w.readers (omega (arith, moved waits_read n i s.pc p p' low e));
  writers = λ k.
      let waiting = moved waits_write n i s.pc p p' low e in
      let trying = moved tries_write n i s.pc p p' low e in
      omega (arith, w.writers (omega (arith, waiting)));
}

-- The lock has a holder, of whatever kind, or a writer tries to take it.
held :
    {n : ℕ} {s : RwLock}
    → (0 < sum waits_read n s.pc → 0 < s.writer_count)
    → 0 < s.reader_count + s.writer_count + sum tries_write n s.pc
    → Watched n s
held f h = record { readers = f; writers = λ k. h }

-- Nobody waits to write.
none_waits : (n : ℕ) (pc : ℕ → Pc) → ((j : ℕ) → pc j ≢ wait_write) → sum waits_write n pc ≡ 0
none_waits n pc f = sum-zero waits_write n pc (λ i. weightless (pc i) (f i))
  where
    weightless : (p : Pc) → p ≢ wait_write → waits_write p ≡ 0
    weightless p g = ground arith

-- The writer that a signal has woken tries, when the thread that has signalled is gone.
signalled :
    (n i j : ℕ) (pc : ℕ → Pc) (p : Pc)
    → i < n
    → j < n
    → pc i ≡ p
    → pc j ≡ wait_write
    → p ≢ wait_write
    → tries_write p ≡ 0
    → 0 < sum tries_write n (update (update pc j woken_write) i idle)
signalled n i j pc p low low' e e' f g =
    let first = moved tries_write n j pc wait_write woken_write low' e' in
    let second =
      moved tries_write n i (update pc j woken_write) p idle low (awake pc i j p e e' f) in
    omega (arith, first, second)

-- Behind a broadcast no reader waits, and the writers stand as before it.
broadcast_waits : (n : ℕ) (pc : ℕ → Pc) → sum waits_read n (broadcast_read pc) ≡ 0
broadcast_waits n pc = sum-zero waits_read n (broadcast_read pc) (λ i. woken (pc i))
  where
    woken : (p : Pc) → waits_read (wake_reader p) ≡ 0
    woken p = ground arith

broadcast_tries :
    (n : ℕ) (pc : ℕ → Pc)
    → (sum tries_write n (broadcast_read pc) ≡ sum tries_write n pc)
      × (sum waits_write n (broadcast_read pc) ≡ sum waits_write n pc)
broadcast_tries n pc = (
  sum-map tries_write wake_reader (λ p. ground arith) n pc,
  sum-map waits_write wake_reader (λ p. ground arith) n pc,
)

Step-Watched : {n : ℕ} {s t : RwLock} → Step n s t → Inv n s → Watched n s → Watched n t
Step-Watched {s} (call_read i low e) inv w =
    goes_on i idle want_read s.owner w low e (omega arith) (omega arith) (omega arith)
Step-Watched {s} (call_write i low e) inv w =
    goes_on i idle want_write s.owner w low e (omega arith) (omega arith) (omega arith)
Step-Watched {s} (call_read_unlock i low e) inv w =
    goes_on i reading want_read_unlock s.owner w low e (omega arith) (omega arith) (omega arith)
Step-Watched {s} (call_write_unlock i low e) inv w =
    goes_on i writing want_write_unlock s.owner w low e (omega arith) (omega arith) (omega arith)
Step-Watched (lock_read i low f e) inv w =
    goes_on i want_read check_read (some i) w low e (omega arith) (omega arith) (omega arith)
Step-Watched (relock_read i low f e) inv w =
    goes_on i woken_read check_read (some i) w low e (omega arith) (omega arith) (omega arith)
Step-Watched (lock_write i low f e) inv w =
    goes_on i want_write check_write (some i) w low e (omega arith) (omega arith) (omega arith)
Step-Watched (relock_write i low f e) inv w =
    goes_on i woken_write check_write (some i) w low e (omega arith) (omega arith) (omega arith)
Step-Watched (lock_read_unlock i low f e) inv w =
    goes_on i want_read_unlock in_read_unlock (some i) w low e (omega arith) (omega arith)
      (omega arith)
Step-Watched (lock_write_unlock i low f e) inv w =
    goes_on i want_write_unlock in_write_unlock (some i) w low e (omega arith) (omega arith)
      (omega arith)
Step-Watched (read_locked i low e) inv w =
    goes_on i leave_read reading none w low e (omega arith) (omega arith) (omega arith)
Step-Watched (write_locked i low e) inv w =
    goes_on i leave_write writing none w low e (omega arith) (omega arith) (omega arith)
Step-Watched {s} (spurious_read i low e) inv w =
    goes_on i wait_read woken_read s.owner w low e (omega arith) (omega arith) (omega arith)
Step-Watched {s} (spurious_write i low e) inv w =
    goes_on i wait_write woken_write s.owner w low e (omega arith) (omega arith) (omega arith)
Step-Watched (read_blocks i low e h) inv w = held (λ k. h) (omega arith)
Step-Watched {n} {s} (read_enters i low e h) inv w =
    held (λ k. w.readers (omega (arith, moved waits_read n i s.pc check_read leave_read low e)))
      (omega arith)
Step-Watched {n} {s} (write_blocks i low e h) inv w =
    held (λ k. w.readers (omega (arith, moved waits_read n i s.pc check_write wait_write low e)))
      (omega arith)
Step-Watched (write_enters i low e h k) inv w = held (λ _. omega arith) (omega arith)
Step-Watched {n} {s} (read_unlocks i low e h) inv w =
    let one : holds_read (s.pc i) ≡ 1 = ap holds_read e in
    held (λ k. w.readers (omega (arith, moved waits_read n i s.pc in_read_unlock idle low e)))
      (omega (arith, weight-le-sum holds_read n s.pc i low, inv.readers, h))
Step-Watched {n} {s} (last_read_unlocks i j low low' e h e') inv w =
    let first = moved waits_read n j s.pc wait_write woken_write low' e' in
    let second =
      moved waits_read n i (update s.pc j woken_write) in_read_unlock idle low
        (awake s.pc i j in_read_unlock e e' (λ f. cc)) in
    held (λ k. w.readers (omega (arith, first, second)))
      (omega (arith, signalled n i j s.pc in_read_unlock low low' e e' (λ f. cc) refl))
Step-Watched {n} {s} (last_read_unlocks_alone i low e h f) inv w = record {
  readers = λ k. w.readers (omega (arith, moved waits_read n i s.pc in_read_unlock idle low e));
  writers = λ k.
      absurd
        (omega (arith, none_waits n s.pc f, moved waits_write n i s.pc in_read_unlock idle low e));
}
Step-Watched {n} {s} (write_unlocks i j low low' e h e') inv w =
    let pc = update (update s.pc j woken_write) i idle in
    held (λ k. absurd (omega (arith, broadcast_waits n pc)))
      (omega (
        arith,
        (broadcast_tries n pc).0,
        signalled n i j s.pc in_write_unlock low low' e e' (λ f. cc) refl,
      ))
Step-Watched {n} {s} (write_unlocks_alone i low e h f) inv w = record {
  readers = λ k. absurd (omega (arith, broadcast_waits n (update s.pc i idle)));
  writers = λ k. absurd (
      omega (
        arith,
        (broadcast_tries n (update s.pc i idle)).1,
        none_waits n s.pc f,
        moved waits_write n i s.pc in_write_unlock idle low e,
      ));
}
Step-Watched {n} {s} (write_unlocks_inner i low e h) inv w =
    let one : holds_write (s.pc i) ≡ 1 = ap holds_write e in
    absurd (omega (arith, weight-le-sum holds_write n s.pc i low, inv.writers, inv.one_writer))

Reach-Watched : {n : ℕ} {s : RwLock} → Reach n s → Watched n s
Reach-Watched {n} start = record {
  readers = λ k. absurd (omega (arith, sum-const waits_read idle refl n));
  writers = λ k. absurd (omega (arith, sum-const waits_write idle refl n));
}
Reach-Watched (later r st) = Step-Watched st (Reach-Inv r) (Reach-Watched r)

-- In every reachable state, whatever the interleaving, a thread that sleeps either waits to read
-- while a writer holds the lock, or waits to write while a reader or a writer holds the lock or
-- another writer has been woken or is before the test of its loop. So nobody sleeps beside a free
-- lock that nobody is about to take.
pub no_lost_wakeup :
    {n : ℕ} {s : RwLock} (i : ℕ)
    → Reach n s
    → i < n
    → asleep (s.pc i) ≡ true
    → ((s.pc i ≡ wait_read) × (0 < s.writer_count))
      ⊎ ((s.pc i ≡ wait_write) × (0 < s.reader_count + s.writer_count + sum tries_write n s.pc))
no_lost_wakeup {n} {s} i r low sleeps =
    let w = Reach-Watched r in
    elim (asleep-cases (s.pc i) sleeps) [
      | inl e ↦ inl (
        e,
        w.readers (
            at_least waits_read (s.pc i) wait_read e (weight-le-sum waits_read n s.pc i low)
              (omega arith)),
      )
      | inr e ↦ inr (
        e,
        w.writers (
            at_least waits_write (s.pc i) wait_write e (weight-le-sum waits_write n s.pc i low)
              (omega arith)),
      )
    ]
  where
    at_least : (f : Pc → ℕ) (p q : Pc) {k : ℕ} → p ≡ q → f p ≤ k → 0 < f q → 0 < k
    at_least f p q e h g = let same = ap f e in omega arith

    asleep-cases : (p : Pc) → asleep p ≡ true → (p ≡ wait_read) ⊎ (p ≡ wait_write)
    asleep-cases p e = ground arith
