-- ===== src/RwLock/Safety.antt =====
-- src/rwlock/rwlock.c: mutual exclusion in every reachable state.
use adrift.Base.{
  ℕ, ◌+◌, ◌<◌, ◌≤◌, ◌≡◌, ◌≢◌, refl, sym, ap, ◌∙◌, inl, inr, arith, Bool-cases, ==_iff, update, ◌==◌,
  Option, none, some,
}
use adrift.RwLock.{
  Pc, idle, want_read, check_read, wait_read, woken_read, leave_read, reading, want_read_unlock,
  in_read_unlock, want_write, check_write, wait_write, woken_write, leave_write, writing,
  want_write_unlock, in_write_unlock, RwLock, wake_reader, broadcast_read, Step, Reach, start,
  later, call_read, call_write, call_read_unlock, call_write_unlock, lock_read, relock_read,
  lock_write, relock_write, lock_read_unlock, lock_write_unlock, read_blocks, read_enters,
  read_locked, write_blocks, write_enters, write_locked, read_unlocks, last_read_unlocks,
  last_read_unlocks_alone, write_unlocks, write_unlocks_alone, write_unlocks_inner, spurious_read,
  spurious_write,
}
use adrift.RwLock.Threads.{sum, sum-update, sum-map, sum-const, weight-le-sum, two-le-sum}

-- From `++reader_count` to `--reader_count`.
abbrev pub holds_read : Pc → ℕ
holds_read leave_read = 1
holds_read reading = 1
holds_read want_read_unlock = 1
holds_read in_read_unlock = 1
holds_read _ = 0

-- From `++writer_count` to `--writer_count`.
abbrev pub holds_write : Pc → ℕ
holds_write leave_write = 1
holds_write writing = 1
holds_write want_write_unlock = 1
holds_write in_write_unlock = 1
holds_write _ = 0

-- The counters count the holders; a writer is alone.
pub record Inv (n : ℕ) (s : RwLock) : Type 0 where
  pub readers : sum holds_read n s.pc ≡ s.reader_count
  pub writers : sum holds_write n s.pc ≡ s.writer_count
  pub one_writer : s.writer_count ≤ 1
  pub no_readers : 0 < s.writer_count → s.reader_count ≡ 0

sum-broadcast_read :
    (n : ℕ) (pc : ℕ → Pc) → sum holds_read n (broadcast_read pc) ≡ sum holds_read n pc
sum-broadcast_read = sum-map holds_read wake_reader (λ p. ground arith)

sum-broadcast_write :
    (n : ℕ) (pc : ℕ → Pc) → sum holds_write n (broadcast_read pc) ≡ sum holds_write n pc
sum-broadcast_write = sum-map holds_write wake_reader (λ p. ground arith)

-- Thread `i` goes from `p` to `p'`.
pub moved :
    (w : Pc → ℕ) (n i : ℕ) (pc : ℕ → Pc) (p p' : Pc)
    → i < n
    → pc i ≡ p
    → sum w n (update pc i p') + w p ≡ sum w n pc + w p'
moved w n i pc p p' low e = rw (← e) (sum-update w n pc i p' low)

-- A thread that moves without changing what it holds.
still :
    {n : ℕ} {s : RwLock} (i : ℕ) (p p' : Pc) (owner : Option ℕ)
    → Inv n s
    → i < n
    → s.pc i ≡ p
    → holds_read p ≡ holds_read p'
    → holds_write p ≡ holds_write p'
    → Inv n (record s { owner = owner; pc = update s.pc i p' })
still {n} {s} i p p' owner inv low e r w = record {
  readers = omega (arith, inv.readers, moved holds_read n i s.pc p p' low e);
  writers = omega (arith, inv.writers, moved holds_write n i s.pc p p' low e);
  one_writer = inv.one_writer;
  no_readers = inv.no_readers;
}

-- The last reader leaves.
release_read :
    {n : ℕ} {s : RwLock} (i : ℕ)
    → Inv n s
    → i < n
    → s.pc i ≡ in_read_unlock
    → s.reader_count ≡ 1
    → Inv n (record s { owner = none; reader_count = 0; pc = update s.pc i idle })
release_read {n} {s} i inv low e h = record {
  readers = omega (arith, inv.readers, moved holds_read n i s.pc in_read_unlock idle low e);
  writers = omega (arith, inv.writers, moved holds_write n i s.pc in_read_unlock idle low e);
  one_writer = inv.one_writer;
  no_readers = λ w. refl;
}

-- The writer leaves.
release_write :
    {n : ℕ} {s : RwLock} (i : ℕ)
    → Inv n s
    → i < n
    → s.pc i ≡ in_write_unlock
    → s.writer_count ≡ 1
    → Inv n (record s { owner = none; writer_count = 0; pc = broadcast_read (update s.pc i idle) })
release_write {n} {s} i inv low e h = record {
  readers = omega (
    arith,
    inv.readers,
    sum-broadcast_read n (update s.pc i idle),
    moved holds_read n i s.pc in_write_unlock idle low e,
  );
  writers = omega (
    arith,
    inv.writers,
    sum-broadcast_write n (update s.pc i idle),
    moved holds_write n i s.pc in_write_unlock idle low e,
  );
  one_writer = omega arith;
  no_readers = λ w. absurd (omega arith);
}

-- Waking another thread leaves thread `i` where it is.
pub awake :
    (pc : ℕ → Pc) (i j : ℕ) (p : Pc)
    → pc i ≡ p
    → pc j ≡ wait_write
    → p ≢ wait_write
    → update pc j woken_write i ≡ p
awake pc i j p e e' f = elim (Bool-cases (j == i)) [
  | inr n ↦ rw n e
  | inl y ↦ absurd (f (sym e ∙ ap pc (sym ((==_iff j i).0 y)) ∙ e'))
]

pub Step-Inv : {n : ℕ} {s t : RwLock} → Step n s t → Inv n s → Inv n t
Step-Inv {s} (call_read i low e) inv = still i idle want_read s.owner inv low e refl refl
Step-Inv {s} (call_write i low e) inv = still i idle want_write s.owner inv low e refl refl
Step-Inv {s} (call_read_unlock i low e) inv =
    still i reading want_read_unlock s.owner inv low e refl refl
Step-Inv {s} (call_write_unlock i low e) inv =
    still i writing want_write_unlock s.owner inv low e refl refl
Step-Inv (lock_read i low f e) inv = still i want_read check_read (some i) inv low e refl refl
Step-Inv (relock_read i low f e) inv = still i woken_read check_read (some i) inv low e refl refl
Step-Inv (lock_write i low f e) inv = still i want_write check_write (some i) inv low e refl refl
Step-Inv (relock_write i low f e) inv = still i woken_write check_write (some i) inv low e refl refl
Step-Inv (lock_read_unlock i low f e) inv =
    still i want_read_unlock in_read_unlock (some i) inv low e refl refl
Step-Inv (lock_write_unlock i low f e) inv =
    still i want_write_unlock in_write_unlock (some i) inv low e refl refl
Step-Inv (read_blocks i low e h) inv = still i check_read wait_read none inv low e refl refl
Step-Inv {n} {s} (read_enters i low e h) inv = record {
  readers = omega (arith, inv.readers, moved holds_read n i s.pc check_read leave_read low e);
  writers = omega (arith, inv.writers, moved holds_write n i s.pc check_read leave_read low e);
  one_writer = inv.one_writer;
  no_readers = λ w. absurd (omega arith);
}
Step-Inv (read_locked i low e) inv = still i leave_read reading none inv low e refl refl
Step-Inv (write_blocks i low e h) inv = still i check_write wait_write none inv low e refl refl
Step-Inv {n} {s} (write_enters i low e h k) inv = record {
  readers = omega (arith, inv.readers, moved holds_read n i s.pc check_write leave_write low e);
  writers = omega (arith, inv.writers, moved holds_write n i s.pc check_write leave_write low e);
  one_writer = omega arith;
  no_readers = λ w. k;
}
Step-Inv (write_locked i low e) inv = still i leave_write writing none inv low e refl refl
Step-Inv {n} {s} (read_unlocks i low e h) inv = record {
  readers = omega (arith, inv.readers, moved holds_read n i s.pc in_read_unlock idle low e);
  writers = omega (arith, inv.writers, moved holds_write n i s.pc in_read_unlock idle low e);
  one_writer = inv.one_writer;
  no_readers = λ w. omega (arith, inv.no_readers w);
}
Step-Inv {n} {s} (last_read_unlocks i j low low' e h e') inv =
    release_read i (still j wait_write woken_write s.owner inv low' e' refl refl) low
      (awake s.pc i j in_read_unlock e e' (λ f. cc)) h
Step-Inv (last_read_unlocks_alone i low e h f) inv = release_read i inv low e h
Step-Inv {n} {s} (write_unlocks i j low low' e h e') inv =
    release_write i (still j wait_write woken_write s.owner inv low' e' refl refl) low
      (awake s.pc i j in_write_unlock e e' (λ f. cc)) h
Step-Inv (write_unlocks_alone i low e h f) inv = release_write i inv low e h
Step-Inv {n} {s} (write_unlocks_inner i low e h) inv = record {
  readers = omega (arith, inv.readers, moved holds_read n i s.pc in_write_unlock idle low e);
  writers = omega (arith, inv.writers, moved holds_write n i s.pc in_write_unlock idle low e);
  one_writer = omega (arith, inv.one_writer);
  no_readers = λ w. inv.no_readers (omega arith);
}
Step-Inv {s} (spurious_read i low e) inv = still i wait_read woken_read s.owner inv low e refl refl
Step-Inv {s} (spurious_write i low e) inv =
    still i wait_write woken_write s.owner inv low e refl refl

pub Reach-Inv : {n : ℕ} {s : RwLock} → Reach n s → Inv n s
Reach-Inv {n} start = record {
  readers = sum-const holds_read idle refl n;
  writers = sum-const holds_write idle refl n;
  one_writer = omega arith;
  no_readers = λ w. refl;
}
Reach-Inv (later r st) = Step-Inv st (Reach-Inv r)

-- In every reachable state, while a thread holds the lock for writing, no other thread holds it for
-- reading or for writing.
pub mutual_exclusion :
    {n : ℕ} {s : RwLock} (i j : ℕ)
    → Reach n s
    → i < n
    → j < n
    → i ≢ j
    → holds_write (s.pc i) ≡ 1
    → (holds_write (s.pc j) ≡ 0) × (holds_read (s.pc j) ≡ 0)
mutual_exclusion {n} {s} i j r low low' differ holds =
    let inv = Reach-Inv r in
    let two = two-le-sum holds_write n s.pc i j low low' differ in
    let reader = weight-le-sum holds_read n s.pc j low' in
    (
      omega (arith, inv.writers, inv.one_writer),
      omega (arith, inv.readers, inv.writers, inv.no_readers),
    )
