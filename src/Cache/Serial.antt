-- ===== src/Cache/Serial.antt =====
-- src/protocol/cache.c and src/rwlock/rwlock.c: the calls of all threads as one sequence.
use adrift.Base.{
  ℕ, ◌<◌, ◌≡◌, ◌≢◌, refl, sym, ap, ◌∙◌, subst, inl, inr, true, Bool-cases, List, [], ◌∷◌, ◌++◌, All,
  ok, ◌==◌, ==_iff, update, arith,
}
use adrift.Cache.{Cache, cache_insert, cache_find}
use adrift.Cache.Threads.{
  Work, nothing, find_called, finding, find_done, insert_called, inserting, insert_done, place,
  Insertion, Lookup, System, Step, locks, find_calls, find_begins, find_ends, find_returns,
  insert_calls, insert_begins, insert_ends, insert_returns, Reach, start, later, replay,
}
use adrift.RwLock.{Pc, reading, writing, idle}
use adrift.RwLock as RwLock
use adrift.RwLock.Safety.{holds_read, holds_write, mutual_exclusion}

-- What a thread has read is what the cache is.
Sees : Cache → Work → Type 0
Sees c (finding cache_type key seen) = seen ≡ c
Sees c (inserting cache_type key node seen) = seen ≡ c
Sees c _ = Unit

-- The lookup's result is that of `cache_find` after the insertions that had ended before it, and
-- these are the first ones of all.
pub Answered : Cache → List Insertion → Lookup → Type 0
Answered c all f =
    (newer : List Insertion) × (seen : Cache) × (all ≡ newer ++ f.before)
    × (replay c (f.before) ≡ ok seen)
    × (cache_find (f.cache_type) (f.key) seen ≡ ok (f.result))

record Inv (n : ℕ) (c : Cache) (s : System) : Type 0 where
  pub lock : RwLock.Reach n s.lock
  pub placed : (i : ℕ) → i < n → place (s.work i) (s.lock.pc i) ≡ true
  pub sees : (i : ℕ) → i < n → Sees s.cache (s.work i)
  pub replayed : replay c s.insertions ≡ ok s.cache
  pub answered : All (Answered c s.insertions) s.lookups

place-found :
    (cache_type : ℕ) (key : List ℕ) (seen : Cache) (p : Pc)
    → place (finding cache_type key seen) p ≡ true
    → place find_done p ≡ true
unfolding place
place-found cache_type key seen p h = ground arith

place-inserted :
    (cache_type node : ℕ) (key : List ℕ) (seen : Cache) (p : Pc)
    → place (inserting cache_type key node seen) p ≡ true
    → (place insert_done p ≡ true) × (holds_write p ≡ 1)
unfolding place
place-inserted cache_type node key seen p h = ground arith

place-call :
    (p : Pc) (cache_type node : ℕ) (key : List ℕ)
    → place nothing p ≡ true
    → (place (find_called cache_type key) p ≡ true)
      × (place (insert_called cache_type key node) p ≡ true)
unfolding place
place-call p cache_type node key h = ground arith

-- A thread that does not hold the lock has not read the cache.
Sees-outside :
    (c : Cache) (w : Work) (p : Pc)
    → place w p ≡ true
    → holds_write p ≡ 0
    → holds_read p ≡ 0
    → Sees c w
unfolding place Sees
Sees-outside c nothing p h e e' = tt
Sees-outside c (find_called _ _) p h e e' = tt
Sees-outside c (finding _ _ _) p h e e' = ground arith
Sees-outside c find_done p h e e' = tt
Sees-outside c (insert_called _ _ _) p h e e' = tt
Sees-outside c (inserting _ _ _ _) p h e e' = ground arith
Sees-outside c insert_done p h e e' = tt

Answered-later :
    (c : Cache) (x : Insertion) (all : List Insertion) (fs : List Lookup)
    → All (Answered c all) fs
    → All (Answered c (x ∷ all)) fs
unfolding Answered
Answered-later c x all [] h = tt
Answered-later c x all (f ∷ fs) ((newer, seen, e, r, q), h) =
    ((x ∷ newer, seen, ap (λ l. x ∷ l) e, r, q), Answered-later c x all fs h)

-- A property of every thread after one has gone on.
at_update :
    (P : ℕ → Work → Type 0) (work : ℕ → Work) (n i : ℕ) (w : Work)
    → P i w
    → ((j : ℕ) → j < n → i ≢ j → P j (work j))
    → (j : ℕ) → j < n
    → P j (update work i w j)
at_update P work n i w h others j low = elim (Bool-cases (i == j)) [
  | inl e ↦ rw e (subst (λ k. P k w) ((==_iff i j).0 e) h)
  | inr e ↦ rw e (others j low (λ f. ground arith))
]

module _ {n : ℕ} {c : Cache} {s : System} (inv : Inv n c s) where
  -- A thread goes on in its call.
  goes_on :
      (i : ℕ) (w : Work)
      → place w (s.lock.pc i) ≡ true
      → Sees s.cache w
      → Inv n c (record s { work = update s.work i w })
  goes_on i w here sees = record {
    lock = inv.lock;
    placed =
        at_update (λ j v. place v (s.lock.pc j) ≡ true) s.work n i w here
          (λ j low f. inv.placed j low);
    sees = at_update (λ j v. Sees s.cache v) s.work n i w sees (λ j low f. inv.sees j low);
    replayed = inv.replayed;
    answered = inv.answered;
  }

  at_work : (i : ℕ) (w : Work) → i < n → s.work i ≡ w → place w (s.lock.pc i) ≡ true
  at_work i w low e = rw (← e) (inv.placed i low)

  seen_by : (i : ℕ) (w : Work) → i < n → s.work i ≡ w → Sees s.cache w
  seen_by i w low e = subst (Sees s.cache) e (inv.sees i low)

  Step-Inv : {t : System} → Step n s t → Inv n c t
  unfolding Answered Sees replay
  Step-Inv (locks l st h) = record {
    lock = RwLock.later inv.lock st;
    placed = h;
    sees = inv.sees;
    replayed = inv.replayed;
    answered = inv.answered;
  }
  Step-Inv (find_calls i cache_type key low e valid) =
      goes_on i (find_called cache_type key)
        ((place-call (s.lock.pc i) cache_type 0 key (at_work i nothing low e)).0) tt
  Step-Inv (find_begins i cache_type key low e at) =
      goes_on i (finding cache_type key s.cache) (unfold place in rw at refl) refl
  Step-Inv (find_ends i cache_type key seen result low e run) =
      let here = at_work i (finding cache_type key seen) low e in
      let next = goes_on i find_done (place-found cache_type key seen (s.lock.pc i) here) tt in
      let same = seen_by i (finding cache_type key seen) low e in
      record {
        lock = next.lock;
        placed = next.placed;
        sees = next.sees;
        replayed = next.replayed;
        answered = (
          ([], s.cache, refl, inv.replayed, ap (cache_find cache_type key) (sym same) ∙ run),
          inv.answered,
        );
      }
  Step-Inv (find_returns i low e at) = goes_on i nothing (unfold place in rw at refl) tt
  Step-Inv (insert_calls i cache_type key node low e valid) =
      goes_on i (insert_called cache_type key node)
        ((place-call (s.lock.pc i) cache_type node key (at_work i nothing low e)).1) tt
  Step-Inv (insert_begins i cache_type key node low e at) =
      goes_on i (inserting cache_type key node s.cache) (unfold place in rw at refl) refl
  Step-Inv (insert_ends i cache_type key node seen written low e run) =
      let w = inserting cache_type key node seen in
      let (here, holds) =
        place-inserted cache_type node key seen (s.lock.pc i) (at_work i w low e) in
      let same = seen_by i w low e in
      let next = goes_on i insert_done here tt in
      record {
        lock = next.lock;
        placed = next.placed;
        sees =
            at_update (λ j v. Sees written v) s.work n i insert_done tt
              (λ j low' f.
                let alone = mutual_exclusion i j inv.lock low low' f holds in
                Sees-outside written (s.work j) (s.lock.pc j) (inv.placed j low') alone.0 alone.1);
        replayed = rw inv.replayed (ap (cache_insert cache_type key node) (sym same) ∙ run);
        answered =
            Answered-later c (record { cache_type = cache_type; key = key; node = node })
              s.insertions s.lookups inv.answered;
      }
  Step-Inv (insert_returns i low e at) = goes_on i nothing (unfold place in rw at refl) tt

Reach-Inv : {n : ℕ} {c : Cache} {s : System} → Reach n c s → Inv n c s
Reach-Inv start = record {
  lock = RwLock.start;
  placed = λ i low. unfold place in refl;
  sees = λ i low. unfold Sees in tt;
  replayed = unfold replay in refl;
  answered = tt;
}
Reach-Inv (later r st) = Step-Inv (Reach-Inv r) st

-- Calls of `cache_insert` and `cache_find` by any number of threads, interleaved in any way that the
-- lock lets them be, have the effect of calls one after the other: in every reachable state the
-- cache is what the finished insertions, in the order in which they ended, make of the first cache,
-- and every finished lookup has the result of `cache_find` on the cache that the insertions that
-- had ended before it make, which are the first ones of all.
pub cache_serial :
    {n : ℕ} {c : Cache} {s : System}
    → Reach n c s
    → (replay c s.insertions ≡ ok s.cache) × All (Answered c s.insertions) s.lookups
cache_serial r = let inv = Reach-Inv r in (inv.replayed, inv.answered)
