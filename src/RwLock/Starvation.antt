-- ===== src/RwLock/Starvation.antt =====
-- src/rwlock/rwlock.c: the lock does not prefer writers.
use adrift.Base.{
  ℕ, zero, suc, ◌+◌, ◌-◌, ◌<◌, ◌≡◌, ◌≢◌, refl, subst, ap, Option, none, some, arith, update,
  eqb_refl, ne→==_false,
}
use adrift.RwLock.{
  Pc, idle, want_read, check_read, leave_read, reading, want_read_unlock, in_read_unlock,
  wait_write, RwLock, Step, Reach, call_read, call_read_unlock, lock_read, lock_read_unlock,
  read_enters, read_locked, read_unlocks,
}
use adrift.RwLock.Safety.{Reach-Inv, holds_read}
use adrift.RwLock.Threads.{weight-le-sum}

-- The step with which a reader comes out of `rwlock_read_lock`.
abbrev pub arrives : Pc → Pc → ℕ
arrives leave_read reading = 1
arrives _ _ = 0

-- Steps from state `s` during which thread `j` waits to write all the time, and thread `i` gets the
-- lock for reading `k` times.
pub data Waits (n i j : ℕ) (s : RwLock) : ℕ → RwLock → Type 0 where
  stays : s.pc j ≡ wait_write → Waits n i j s 0 s
  goes_on :
      {t u : RwLock} (k m : ℕ)
      → Waits n i j s k t
      → Step n t u
      → u.pc j ≡ wait_write
      → m ≡ k + arrives (t.pc i) (u.pc i)
      → Waits n i j s m u

module _ (n : ℕ) (s : RwLock) (i j : ℕ) (low : i < n) (differ : i ≢ j) where
  record At (k : ℕ) (p : Pc) (t : RwLock) : Type 0 where
    pub path : Waits n i j s k t
    pub here : t.pc i ≡ p
    pub waits : t.pc j ≡ wait_write

  -- A step of thread `i`.
  turn :
      {k : ℕ} {p : Pc} {t : RwLock} (m : ℕ) (p' : Pc) (owner : Option ℕ) (readers : ℕ)
      → At k p t
      → Step n t (record t { owner = owner; reader_count = readers; pc = update t.pc i p' })
      → m ≡ k + arrives p p'
      → At m p' (record t { owner = owner; reader_count = readers; pc = update t.pc i p' })
  turn {k} {p} {t} m p' owner readers a step count =
      let here : update t.pc i p' i ≡ p' = rw (eqb_refl i) refl in
      let waits : update t.pc i p' j ≡ wait_write = rw (ne→==_false i j differ) a.waits in
      record {
        path = goes_on k m a.path step waits (rw (a.here, eqb_refl i) count);
        here = here;
        waits = waits;
      }

  -- Between two reads of thread `i`.
  record Between (k : ℕ) (t : RwLock) : Type 0 where
    pub at : At k idle t
    pub free : t.owner ≡ none
    pub no_writer : t.writer_count ≡ 0
    pub shared : 0 < t.reader_count

  -- A read: the call, the mutex, the test, the unlock, and the same on the way out.
  round : (k : ℕ) (t : RwLock) → Between k t → (u : RwLock) × Between (k + 1) u
  round k t b =
      let c = t.reader_count in
      let same : k ≡ k + 0 = omega arith in
      let same' : k + 1 ≡ k + 1 + 0 = omega arith in
      let a₁ = turn k want_read t.owner c b.at (call_read i low b.at.here) same in
      let a₂ = turn k check_read (some i) c a₁ (lock_read i low b.free a₁.here) same in
      let a₃ = turn k leave_read (some i) (c + 1) a₂ (read_enters i low a₂.here b.no_writer) same in
      let a₄ = turn (k + 1) reading none (c + 1) a₃ (read_locked i low a₃.here) refl in
      let a₅ =
        turn (k + 1) want_read_unlock none (c + 1) a₄ (call_read_unlock i low a₄.here) same' in
      let a₆ =
        turn (k + 1) in_read_unlock (some i) (c + 1) a₅ (lock_read_unlock i low refl a₅.here)
          same' in
      let a₇ =
        turn (k + 1) idle none (c + 1 - 1) a₆
          (read_unlocks i low a₆.here (λ e. absurd (omega (arith, b.shared)))) same' in
      (
        _,
        record { at = a₇; free = refl; no_writer = b.no_writer; shared = omega (arith, b.shared) },
      )

  rounds : (k : ℕ) → Between 0 s → (t : RwLock) × Between k t
  rounds zero b = (s, b)
  rounds (suc k) b =
      let (t, b') = rounds k b in
      let (u, b'') = round k t b' in (u, subst (λ m. Between m u) (omega arith) b'')

-- In every reachable state in which the mutex is free, thread `r` reads, thread `j` waits to write
-- and thread `i` is outside the lock, the readers can keep the writer out for ever: for every `k`
-- there are steps during which thread `j` waits all the time and thread `i` gets the lock for
-- reading `k` times. So the lock does not prefer writers.
pub writer_starves :
    {n : ℕ} {s : RwLock} (i j r k : ℕ)
    → Reach n s
    → i < n
    → r < n
    → s.owner ≡ none
    → s.pc r ≡ reading
    → s.pc i ≡ idle
    → s.pc j ≡ wait_write
    → (t : RwLock) × Waits n i j s k t
writer_starves {n} {s} i j r k reached low low' free reads outside waits =
    let inv = Reach-Inv reached in
    let differ : i ≢ j = λ e. (cc (outside, waits, ap s.pc e)) in
    let weight : holds_read (s.pc r) ≡ 1 = ap holds_read reads in
    let shared : 0 < s.reader_count =
      omega (arith, weight-le-sum holds_read n s.pc r low', inv.readers) in
    let (t, b) = rounds n s i j low differ k (record {
      at = record { path = stays waits; here = outside; waits = waits };
      free = free;
      no_writer = grind (arith, inv.no_readers);
      shared = shared;
    }) in
    (t, b.at.path)
