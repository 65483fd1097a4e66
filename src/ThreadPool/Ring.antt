-- ===== src/ThreadPool/Ring.antt =====
-- src/thread/threadpool.c: the block `taskQ` as a ring that holds the queue's tasks.
use adrift.Base.{
  ℕ, zero, suc, ◌+◌, ◌-◌, ◌%◌, ◌≤◌, ◌<◌, ◌≡◌, ◌≢◌, refl, ap, ◌⊎◌, inl, inr, List, [], ◌∷◌, ◌++◌,
  arith, update, ◌==◌, eqb_refl, ne→==_false, ==_iff, Bool-cases,
}
use native.Mathlib.Nat.{mod_self, mod-eq_of_lt}
use adrift.ThreadPool.{Task, ThreadPool}

-- The index behind `i`, with or without turning round.
pub next-cases :
    {cap i : ℕ}
    → i < cap
    → (((i + 1) % cap ≡ i + 1) × (i + 1 < cap)) ⊎ (((i + 1) % cap ≡ 0) × (i + 1 ≡ cap))
next-cases {cap} {i} low = elim (Bool-cases (i + 1 == cap)) [
  | inl e ↦ let wrap : i + 1 ≡ cap = (==_iff (i + 1) cap).0 e in inr (rw wrap (mod_self cap), wrap)
  | inr e ↦ let below : i + 1 < cap = ground arith in inl (mod-eq_of_lt below, below)
]

pub next-lt : {cap i : ℕ} → i < cap → (i + 1) % cap < cap
next-lt low = elim (next-cases low) [
  | inl (e, below) ↦ omega (arith, e)
  | inr (e, wrap) ↦ omega (arith, e)
]

-- `n` tasks from index `front` on.
abbrev pub window : (ℕ → Task) → ℕ → ℕ → ℕ → List Task
window q cap front zero = []
window q cap front (suc n) = q front ∷ window q cap ((front + 1) % cap) n

-- The queue's tasks, the next one first.
abbrev pub queued : ThreadPool → List Task
queued p = window p.task_q p.queue_capacity p.queue_front p.queue_size

-- `n` places behind `front`, in the ring, is `rear`.
abbrev pub Behind : ℕ → ℕ → ℕ → ℕ → Type 0
Behind cap front n rear = (rear ≡ front + n) ⊎ (rear + cap ≡ front + n)

pub Behind-next_front :
    {cap front n rear : ℕ}
    → front < cap
    → rear < cap
    → Behind cap front (suc n) rear
    → n < cap
    → Behind cap ((front + 1) % cap) n rear
Behind-next_front {cap} {front} {n} {rear} low low' b few = elim (next-cases low) [
  | inl (e, below) ↦ rw e (turn b)
  | inr (e, wrap) ↦ rw e (inl (back wrap b))
]
  where
    turn : Behind cap front (suc n) rear → Behind cap (front + 1) n rear
    turn (inl h) = inl (omega arith)
    turn (inr h) = inr (omega arith)

    back : front + 1 ≡ cap → Behind cap front (suc n) rear → rear ≡ 0 + n
    back w (inl h) = omega arith
    back w (inr h) = omega arith

pub Behind-next_rear :
    {cap front n rear : ℕ}
    → front < cap
    → rear < cap
    → Behind cap front n rear
    → n < cap
    → Behind cap front (suc n) ((rear + 1) % cap)
Behind-next_rear {cap} {front} {n} {rear} low low' b few = elim (next-cases low') [
  | inl (e, below) ↦ rw e (turn b)
  | inr (e, wrap) ↦ rw e (back wrap b)
]
  where
    turn : Behind cap front n rear → Behind cap front (suc n) (rear + 1)
    turn (inl h) = inl (omega arith)
    turn (inr h) = inr (omega arith)

    back : rear + 1 ≡ cap → Behind cap front n rear → Behind cap front (suc n) 0
    back w (inl h) = inr (omega arith)
    back w (inr h) = absurd (omega arith)

ahead : {cap front n rear : ℕ} → Behind cap front (suc n) rear → suc n < cap → rear ≢ front
ahead (inl h) few e = omega arith
ahead (inr h) few e = omega arith

-- A task written behind the last one.
pub window-snoc :
    (q : ℕ → Task) (cap : ℕ) (task : Task) (n front rear : ℕ)
    → front < cap
    → rear < cap
    → n < cap
    → Behind cap front n rear
    → window (update q rear task) cap front (suc n) ≡ window q cap front n ++ task ∷ []
window-snoc q cap task zero front rear low low' room b =
    let here : rear ≡ front = first b in rw (here, eqb_refl front) refl
  where
    first : Behind cap front 0 rear → rear ≡ front
    first (inl h) = omega arith
    first (inr h) = omega arith
window-snoc q cap task (suc n) front rear low low' room b =
    let rest =
      window-snoc q cap task n ((front + 1) % cap) rear (next-lt low) low' (omega arith)
        (Behind-next_front low low' b (omega arith)) in
    rw (ne→==_false rear front (ahead b room)) (ap (λ ts. q front ∷ ts) rest)

-- The indices are those of a ring; a ring of no tasks has no index.
pub record IsRing (cap size front rear : ℕ) : Type 0 where
  pub few : size ≤ cap
  pub front_low : 0 < cap → front < cap
  pub rear_low : 0 < cap → rear < cap
  pub behind : Behind cap front size rear

abbrev pub Ringed : ThreadPool → Type 0
Ringed p = IsRing p.queue_capacity p.queue_size p.queue_front p.queue_rear

pub window-head :
    (q : ℕ → Task) (cap front n : ℕ)
    → n ≢ 0
    → window q cap front n ≡ q front ∷ window q cap ((front + 1) % cap) (n - 1)
window-head q cap front zero some = absurd (some refl)
window-head q cap front (suc n) some = let one : suc n - 1 ≡ n = omega arith in rw one refl

pub Behind-pred :
    (cap front n rear : ℕ) → n ≢ 0 → Behind cap front n rear → Behind cap front (suc (n - 1)) rear
Behind-pred cap front n rear some (inl h) = inl (omega arith)
Behind-pred cap front n rear some (inr h) = inr (omega arith)
