-- ===== src/RwLock/Mutex.antt =====
-- src/rwlock/rwlock.c: the stretches of code between `pthread_mutex_lock` and
-- `pthread_mutex_unlock` or a wait exclude one another, so that the steps are not interrupted.
use adrift.Base.{
  ℕ, ◌≡◌, refl, sym, ap, ◌∙◌, inl, inr, arith, Bool, true, false, Bool-cases, Option, none, some,
  ==_iff, ◌==◌, update,
}
use adrift.RwLock.{
  Pc, idle, want_read, check_read, wait_read, woken_read, leave_read, reading, want_read_unlock,
  in_read_unlock, want_write, check_write, wait_write, woken_write, leave_write, writing,
  want_write_unlock, in_write_unlock, RwLock, wake_reader, broadcast_read, Step, Reach, start,
  later, call_read, call_write, call_read_unlock, call_write_unlock, lock_read, relock_read,
  lock_write, relock_write, lock_read_unlock, lock_write_unlock, read_blocks, read_enters,
  read_locked, write_blocks, write_enters, write_locked, read_unlocks, last_read_unlocks,
  last_read_unlocks_alone, write_unlocks, write_unlocks_alone, write_unlocks_inner, spurious_read,
  spurious_write,
}

-- From the return of `pthread_mutex_lock` to the unlock or the wait.
abbrev in_section : Pc → Bool
in_section check_read = true
in_section leave_read = true
in_section in_read_unlock = true
in_section check_write = true
in_section leave_write = true
in_section in_write_unlock = true
in_section _ = false

-- A thread in a section owns the mutex.
abbrev Owned : Option ℕ → (ℕ → Pc) → Type 0
Owned owner pc = (j : ℕ) → in_section (pc j) ≡ true → owner ≡ some j

-- Thread `i` goes outside the sections, or to sleep and wakes up there.
outside :
    (owner : Option ℕ) (pc : ℕ → Pc) (i : ℕ) (p : Pc)
    → Owned owner pc
    → in_section p ≡ false
    → Owned owner (update pc i p)
outside owner pc i p h out j e = elim (Bool-cases (i == j)) [
  | inl y ↦ absurd (clash (rw y at e))
  | inr n ↦ h j (rw n at e)
]
  where
    clash : in_section p ≡ true → ⊥
    clash f = cc

-- Thread `i` gets the mutex.
enter : (pc : ℕ → Pc) (i : ℕ) (p : Pc) → Owned none pc → Owned (some i) (update pc i p)
enter pc i p h j e = elim (Bool-cases (i == j)) [
  | inl y ↦ ap some ((==_iff i j).0 y)
  | inr n ↦ absurd (clash j (h j (rw n at e)))
]
  where
    clash : (j : ℕ) → ◌≡◌ {A = Option ℕ} none (some j) → ⊥
    clash j f = cc

-- Thread `i` goes on inside its section.
stay :
    (owner : Option ℕ) (pc : ℕ → Pc) (i : ℕ) (p : Pc)
    → Owned owner pc
    → in_section (pc i) ≡ true
    → Owned owner (update pc i p)
stay owner pc i p h inside j e = elim (Bool-cases (i == j)) [
  | inl y ↦ h i inside ∙ ap some ((==_iff i j).0 y)
  | inr n ↦ h j (rw n at e)
]

-- Thread `i` gives the mutex up.
leave :
    (owner : Option ℕ) (pc : ℕ → Pc) (i : ℕ) (p : Pc)
    → Owned owner pc
    → in_section (pc i) ≡ true
    → in_section p ≡ false
    → Owned none (update pc i p)
leave owner pc i p h inside out j e = elim (Bool-cases (i == j)) [
  | inl y ↦ absurd (clash (rw y at e))
  | inr n ↦ absurd (twice j n (h j (rw n at e)))
]
  where
    clash : in_section p ≡ true → ⊥
    clash f = cc

    twice : (j : ℕ) → (i == j) ≡ false → owner ≡ some j → ⊥
    twice j n f =
        let both : some i ≡ some j = sym (h i inside) ∙ f in
        let e : i ≡ j = cc both in cc (n, (==_iff i j).1 e)

broadcast : (owner : Option ℕ) (pc : ℕ → Pc) → Owned owner pc → Owned owner (broadcast_read pc)
broadcast owner pc h j e = h j (awake (pc j) e)
  where
    awake : (p : Pc) → in_section (wake_reader p) ≡ true → in_section p ≡ true
    awake p f = ground arith

-- Waking a sleeping thread leaves thread `i` in its section.
still_in :
    (pc : ℕ → Pc) (i j : ℕ) (p : Pc)
    → pc i ≡ p
    → pc j ≡ wait_write
    → in_section p ≡ true
    → in_section (update pc j woken_write i) ≡ true
still_in pc i j p e e' inside = elim (Bool-cases (j == i)) [
  | inr n ↦ rw n (ap in_section e ∙ inside)
  | inl y ↦
      let same : p ≡ wait_write = sym e ∙ ap pc (sym ((==_iff j i).0 y)) ∙ e' in
      absurd (clash (sym (ap in_section same) ∙ inside))
]
  where
    clash : ◌≡◌ {A = Bool} false true → ⊥
    clash f = cc

Step-Owned : {n : ℕ} {s t : RwLock} → Step n s t → Owned s.owner s.pc → Owned t.owner t.pc
Step-Owned {s} (call_read i low e) h = outside s.owner s.pc i want_read h refl
Step-Owned {s} (call_write i low e) h = outside s.owner s.pc i want_write h refl
Step-Owned {s} (call_read_unlock i low e) h = outside s.owner s.pc i want_read_unlock h refl
Step-Owned {s} (call_write_unlock i low e) h = outside s.owner s.pc i want_write_unlock h refl
Step-Owned {s} (lock_read i low f e) h = enter s.pc i check_read (rw f at h)
Step-Owned {s} (relock_read i low f e) h = enter s.pc i check_read (rw f at h)
Step-Owned {s} (lock_write i low f e) h = enter s.pc i check_write (rw f at h)
Step-Owned {s} (relock_write i low f e) h = enter s.pc i check_write (rw f at h)
Step-Owned {s} (lock_read_unlock i low f e) h = enter s.pc i in_read_unlock (rw f at h)
Step-Owned {s} (lock_write_unlock i low f e) h = enter s.pc i in_write_unlock (rw f at h)
Step-Owned {s} (read_blocks i low e k) h = leave s.owner s.pc i wait_read h (ap in_section e) refl
Step-Owned {s} (read_enters i low e k) h = stay s.owner s.pc i leave_read h (ap in_section e)
Step-Owned {s} (read_locked i low e) h = leave s.owner s.pc i reading h (ap in_section e) refl
Step-Owned {s} (write_blocks i low e k) h = leave s.owner s.pc i wait_write h (ap in_section e) refl
Step-Owned {s} (write_enters i low e k k') h = stay s.owner s.pc i leave_write h (ap in_section e)
Step-Owned {s} (write_locked i low e) h = leave s.owner s.pc i writing h (ap in_section e) refl
Step-Owned {s} (read_unlocks i low e k) h = leave s.owner s.pc i idle h (ap in_section e) refl
Step-Owned {s} (last_read_unlocks i j low low' e k e') h =
    leave s.owner (update s.pc j woken_write) i idle (outside s.owner s.pc j woken_write h refl)
      (still_in s.pc i j in_read_unlock e e' refl) refl
Step-Owned {s} (last_read_unlocks_alone i low e k f) h =
    leave s.owner s.pc i idle h (ap in_section e) refl
Step-Owned {s} (write_unlocks i j low low' e k e') h =
    broadcast none (update (update s.pc j woken_write) i idle) (
      leave s.owner (update s.pc j woken_write) i idle (outside s.owner s.pc j woken_write h refl)
        (still_in s.pc i j in_write_unlock e e' refl) refl)
Step-Owned {s} (write_unlocks_alone i low e k f) h =
    broadcast none (update s.pc i idle) (leave s.owner s.pc i idle h (ap in_section e) refl)
Step-Owned {s} (write_unlocks_inner i low e k) h =
    leave s.owner s.pc i idle h (ap in_section e) refl
Step-Owned {s} (spurious_read i low e) h = outside s.owner s.pc i woken_read h refl
Step-Owned {s} (spurious_write i low e) h = outside s.owner s.pc i woken_write h refl

Reach-Owned : {n : ℕ} {s : RwLock} → Reach n s → Owned s.owner s.pc
Reach-Owned start = λ j e. (cc e)
Reach-Owned (later r st) = Step-Owned st (Reach-Owned r)

-- In every reachable state at most one thread is between taking the mutex and giving it up, and
-- that thread is the mutex's owner.
one_in_section :
    {n : ℕ} {s : RwLock} (i j : ℕ)
    → Reach n s
    → in_section (s.pc i) ≡ true
    → in_section (s.pc j) ≡ true
    → (i ≡ j) × (s.owner ≡ some i)
one_in_section {n} {s} i j r e e' =
    let h = Reach-Owned r in let both : some i ≡ some j = sym (h i e) ∙ h j e' in (cc both, h i e)
