-- ===== src/Base/Runs.antt =====
-- A run of C code: a value, or the fault that ends it.
use Prim.Native.Nat.{ℕ}
use mathlib.Core.Path.{◌≡◌, refl, subst}
use mathlib.Core.Logic.{◌⊎◌, inl, inr}
use mathlib.Core.Bool.{Bool, true, false}
use mathlib.Core.List.{List, [], ◌∷◌}
use adrift.Base.Checks.{if◌then◌else◌}

-- Undefined behaviour, told apart by its cause; `out_of_fuel` is the model's own.
pub data Fault : Type 0 where
  read_overrun : Fault
  write_overrun : Fault
  bad_pointer : Fault
  out_of_fuel : Fault

pub data Run {ℓ} (A : Type ℓ) : Type ℓ where
  ok : A → Run A
  fault : Fault → Run A

infixl 5 ◌>>=◌
abbrev pub ◌>>=◌ {ℓ κ} : {A : Type ℓ} {B : Type κ} → Run A → (A → Run B) → Run B
ok a >>= f = f a
fault e >>= f = fault e

pub Run-cases {ℓ} :
    {A : Type ℓ} (r : Run A) → ((a : A) × (r ≡ ok a)) ⊎ ((e : Fault) × (r ≡ fault e))
Run-cases (ok a) = inl (a, refl)
Run-cases (fault e) = inr (e, refl)

-- A pointer into an object is the list of the bytes from there to the object's end.
abbrev pub read : List ℕ → Run ℕ
read [] = fault read_overrun
read (b ∷ p) = ok b

pub bind_assoc {ℓ} :
    {A B C : Type ℓ} (r : Run A) (f : A → Run B) (g : B → Run C)
    → ((r >>= f) >>= g) ≡ (r >>= λ a. f a >>= g)
bind_assoc (ok a) f g = refl
bind_assoc (fault e) f g = refl

-- A run that ends normally or by a read past an object's end.
abbrev pub Ends {ℓ} : {A : Type ℓ} → Run A → Type ℓ
Ends {A} r = ((a : A) × (r ≡ ok a)) ⊎ (r ≡ fault read_overrun)

pub >>=-Ends {ℓ κ} :
    {A : Type ℓ} {B : Type κ} (r : Run A) (f : A → Run B)
    → Ends r
    → ((a : A) → Ends (f a))
    → Ends (r >>= f)
>>=-Ends r f (inl (a, e)) h = rw e (h a)
>>=-Ends r f (inr e) h = inr (rw e)

pub if-Ends {ℓ} :
    {A : Type ℓ} (b : Bool) (x y : Run A) → Ends x → Ends y → Ends (if b then x else y)
if-Ends true x y h k = h
if-Ends false x y h k = k

pub read-Ends : (p : List ℕ) → Ends (read p)
read-Ends [] = inr refl
read-Ends (b ∷ p) = inl (b, refl)

-- What a run of two parts that ends normally has done.
pub >>=-parts {ℓ κ} :
    {A : Type ℓ} {B : Type κ} {f : A → Run B} (r : Run A) (b : B)
    → r >>= f ≡ ok b
    → (a : A) × (r ≡ ok a) × (f a ≡ ok b)
>>=-parts (ok a) b e = (a, refl, e)
>>=-parts (fault w) b e = cc

module _ {ℓ} {A : Type ℓ} where
  pub ok-injective : {a b : A} → ok a ≡ ok b → a ≡ b
  ok-injective e = cc e

  -- A run behind a guard that ends normally has passed the guard.
  pub guard_then :
      (b : Bool) (w : Fault) (r : Run A) {a : A}
      → (if b then fault w else r) ≡ ok a
      → (b ≡ false) × (r ≡ ok a)
  guard_then true w r e = cc e
  guard_then false w r e = (refl, e)

  pub guard_else :
      (b : Bool) (w : Fault) (r : Run A) {a : A}
      → (if b then r else fault w) ≡ ok a
      → (b ≡ true) × (r ≡ ok a)
  guard_else true w r e = (refl, e)
  guard_else false w r e = cc e

-- A property of the result, if there is one.
abbrev pub Always {ℓ κ} : {A : Type ℓ} → (A → Type κ) → Run A → Type κ
Always P (ok a) = P a
Always P (fault w) = Unit

pub >>=-Always {ℓ κ μ} :
    {A : Type ℓ} {B : Type κ} (P : B → Type μ) (r : Run A) (f : A → Run B)
    → ((a : A) → r ≡ ok a → Always P (f a))
    → Always P (r >>= f)
>>=-Always P (ok a) f h = h a refl
>>=-Always P (fault w) f h = tt

pub Always-ok {ℓ κ} :
    {A : Type ℓ} (P : A → Type κ) (r : Run A) (a : A) → r ≡ ok a → Always P r → P a
Always-ok P (ok b) a e h = subst P (ok-injective e) h
Always-ok P (fault w) a e h = cc e

pub if-Always {ℓ κ} :
    {A : Type ℓ} (P : A → Type κ) (b : Bool) (x y : Run A)
    → Always P x
    → Always P y
    → Always P (if b then x else y)
if-Always P true x y h k = h
if-Always P false x y h k = k

pub Always-weaken {ℓ κ μ} :
    {A : Type ℓ} (P : A → Type κ) (Q : A → Type μ) (r : Run A)
    → ((a : A) → P a → Q a)
    → Always P r
    → Always Q r
Always-weaken P Q (ok a) f h = f a h
Always-weaken P Q (fault w) f h = tt
