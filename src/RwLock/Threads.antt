-- ===== src/RwLock/Threads.antt =====
-- Sums over the threads of a system.
use adrift.Base.{
  ℕ, zero, suc, ◌+◌, ◌<◌, ◌≤◌, ◌≡◌, ◌≢◌, refl, inl, inr, arith, update, ◌==◌, Bool-cases,
}

module _ {ℓ} {A : Type ℓ} (weight : A → ℕ) where
  -- The weights of the first `n` threads, added up.
  pub sum : ℕ → (ℕ → A) → ℕ
  sum zero f = 0
  sum (suc n) f = sum n f + weight (f n)

  sum-update_above : (n : ℕ) (f : ℕ → A) (i : ℕ) (a : A) → n ≤ i → sum n (update f i a) ≡ sum n f
  unfolding sum
  sum-update_above zero f i a h = refl
  sum-update_above (suc n) f i a h = ground (arith, sum-update_above n f i a)

  pub sum-update :
      (n : ℕ) (f : ℕ → A) (i : ℕ) (a : A)
      → i < n
      → sum n (update f i a) + weight (f i) ≡ sum n f + weight a
  unfolding sum
  sum-update zero f i a h = absurd (omega arith)
  sum-update (suc n) f i a h = elim (Bool-cases (i == n)) [
    | inl e ↦ ground (arith, sum-update_above n f i a)
    | inr e ↦ ground (arith, sum-update n f i a)
  ]

  pub weight-le-sum : (n : ℕ) (f : ℕ → A) (i : ℕ) → i < n → weight (f i) ≤ sum n f
  unfolding sum
  weight-le-sum zero f i h = absurd (omega arith)
  weight-le-sum (suc n) f i h = elim (Bool-cases (i == n)) [
    | inl e ↦ ground arith
    | inr e ↦ ground (arith, weight-le-sum n f i)
  ]

  -- Two threads weigh no more than all.
  pub two-le-sum :
      (n : ℕ) (f : ℕ → A) (i j : ℕ) → i < n → j < n → i ≢ j → weight (f i) + weight (f j) ≤ sum n f
  unfolding sum
  two-le-sum zero f i j h k d = absurd (omega arith)
  two-le-sum (suc n) f i j h k d = elim (Bool-cases (i == n)) [
    | inl e ↦ ground (arith, weight-le-sum n f j)
    | inr e ↦ elim (Bool-cases (j == n)) [
      | inl e' ↦ ground (arith, weight-le-sum n f i)
      | inr e' ↦ ground (arith, two-le-sum n f i j)
    ]
  ]

  pub sum-map :
      (g : A → A)
      → ((a : A) → weight (g a) ≡ weight a)
      → (n : ℕ) (f : ℕ → A) → sum n (λ i. g (f i)) ≡ sum n f
  unfolding sum
  sum-map g h zero f = refl
  sum-map g h (suc n) f = omega (arith, sum-map g h n f, h (f n))

  pub sum-const : (a : A) → weight a ≡ 0 → (n : ℕ) → sum n (λ _. a) ≡ 0
  unfolding sum
  sum-const a h zero = refl
  sum-const a h (suc n) = omega (arith, sum-const a h n)

  pub sum-zero : (n : ℕ) (f : ℕ → A) → ((i : ℕ) → weight (f i) ≡ 0) → sum n f ≡ 0
  unfolding sum
  sum-zero zero f h = refl
  sum-zero (suc n) f h = omega (arith, sum-zero n f h, h n)
