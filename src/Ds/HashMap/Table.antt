-- ===== src/Ds/HashMap/Table.antt =====
-- src/ds/hash_map.h: the table of chains, and `hash_map_rehash`.
use mathlib.Core.List.{flatten}
use adrift.Base.{
  ℕ, zero, suc, ◌+◌, ◌%◌, ◌<◌, ◌≡◌, ◌≢◌, refl, sym, ap, ◌∙◌, inl, inr, List, [], ◌∷◌, ◌++◌, All,
  arith, ok, length, length-append, get_or, set, ◌==◌, if◌then◌else◌, Bool-cases,
}
use adrift.Util.Text.{same, same_iff, text_hash}
use adrift.Ds.HashMap.{HashMapEntry, chain_at}
use adrift.Ds.HashMap.Chain.{text, IsEntry, lookup, count, count-append, lookup-none}

abbrev pub Table : Type 0
Table = List (List HashMapEntry)

-- Entries of chain `i`.
abbrev pub InChain : ℕ → ℕ → List HashMapEntry → Type 0
InChain cap i es = All (λ e. IsEntry e × (e.hash_ % cap ≡ i)) es

-- The chains of a table from number `k` on.
abbrev pub Placed : ℕ → ℕ → Table → Type 0
Placed cap k [] = Unit
Placed cap k (c ∷ cs) = InChain cap k c × Placed cap (suc k) cs

-- The chain of a text.
abbrev pub home : ℕ → Table → List ℕ → List HashMapEntry
home cap table t = get_or table (text_hash t % cap) []

pub chain_at-get_or :
    (table : Table) (i : ℕ) → i < length table → chain_at table i ≡ ok (get_or table i [])
unfolding chain_at
chain_at-get_or [] i h = absurd (omega arith)
chain_at-get_or (c ∷ cs) zero h = refl
chain_at-get_or (c ∷ cs) (suc i) h = chain_at-get_or cs i (omega arith)

pub get_or-set :
    (table : Table) (i j : ℕ) (c : List HashMapEntry)
    → i < length table
    → get_or (set table i c) j [] ≡ (if i == j then c else get_or table j [])
get_or-set [] i j c h = absurd (omega arith)
get_or-set (x ∷ xs) zero zero c h = refl
get_or-set (x ∷ xs) zero (suc j) c h = ground arith
get_or-set (x ∷ xs) (suc i) zero c h = ground arith
get_or-set (x ∷ xs) (suc i) (suc j) c h = ground (arith, get_or-set xs i j c)

pub Placed-get :
    (cap k i j : ℕ) (table : Table)
    → Placed cap k table
    → k + i ≡ j
    → InChain cap j (get_or table i [])
Placed-get cap k i j [] p e = tt
Placed-get cap k zero j (c ∷ cs) p e = let u : k ≡ j = omega arith in rw (← u) p.0
Placed-get cap k (suc i) j (c ∷ cs) p e = Placed-get cap (suc k) i j cs p.1 (omega arith)

pub Placed-set :
    (cap k i j : ℕ) (table : Table) (c : List HashMapEntry)
    → Placed cap k table
    → k + i ≡ j
    → InChain cap j c
    → Placed cap k (set table i c)
Placed-set cap k i j [] c p e q = tt
Placed-set cap k zero j (x ∷ xs) c p e q = let u : k ≡ j = omega arith in (rw u q, p.1)
Placed-set cap k (suc i) j (x ∷ xs) c p e q =
    (p.0, Placed-set cap (suc k) i j xs c p.1 (omega arith) q)

pub length-flatten-set :
    (table : Table) (i : ℕ) (c : List HashMapEntry)
    → i < length table
    → length (flatten (set table i c)) + length (get_or table i [])
      ≡ length (flatten table) + length c
unfolding flatten
length-flatten-set [] i c h = absurd (omega arith)
length-flatten-set (x ∷ xs) zero c h =
    omega (arith, length-append c (flatten xs), length-append x (flatten xs))
length-flatten-set (x ∷ xs) (suc i) c h = omega (
  arith,
  length-append x (flatten xs),
  length-append x (flatten (set xs i c)),
  length-flatten-set xs i c,
)

-- An entry for `t` stands in no chain but its own.
count-foreign :
    (cap i : ℕ) (t : List ℕ) (es : List HashMapEntry)
    → InChain cap i es
    → text_hash t % cap ≢ i
    → count t es ≡ 0
unfolding count
count-foreign cap i t [] p f = refl
count-foreign cap i t (e ∷ es) p f = elim (Bool-cases (same (text e) t)) [
  | inr n ↦ rw n (omega (arith, count-foreign cap i t es p.1 f))
  | inl y ↦
      let u : e.hash_ ≡ text_hash t = p.0.0.hashed ∙ ap text_hash ((same_iff (text e) t).0 y) in
      absurd (f (ap (λ h. h % cap) (sym u) ∙ p.0.1))
]

count-before :
    (cap k : ℕ) (t : List ℕ) (table : Table)
    → Placed cap k table
    → text_hash t % cap < k
    → count t (flatten table) ≡ 0
unfolding count flatten
count-before cap k t [] p h = refl
count-before cap k t (c ∷ cs) p h = omega (
  arith,
  count-append t c (flatten cs),
  count-foreign cap k t c p.0 (omega arith),
  count-before cap (suc k) t cs p.1 (omega arith),
)

pub lookup-append_left :
    (t : List ℕ) (xs ys : List HashMapEntry) → count t ys ≡ 0 → lookup t (xs ++ ys) ≡ lookup t xs
unfolding lookup
lookup-append_left t [] ys h = lookup-none t ys h
lookup-append_left t (e ∷ xs) ys h = rw (lookup-append_left t xs ys h)

pub lookup-append_right :
    (t : List ℕ) (xs ys : List HashMapEntry) → count t xs ≡ 0 → lookup t (xs ++ ys) ≡ lookup t ys
unfolding lookup count
lookup-append_right t [] ys h = refl
lookup-append_right t (e ∷ xs) ys h = ground (arith, lookup-append_right t xs ys)

-- All entries in a row: what a text finds there, it finds in its own chain.
pub flatten-home :
    (cap k i : ℕ) (t : List ℕ) (table : Table)
    → Placed cap k table
    → text_hash t % cap ≡ k + i
    → i < length table
    → (count t (flatten table) ≡ count t (get_or table i []))
      × (lookup t (flatten table) ≡ lookup t (get_or table i []))
unfolding flatten
flatten-home cap k i t [] p e h = absurd (omega arith)
flatten-home cap k zero t (c ∷ cs) p e h =
    let none_after = count-before cap (suc k) t cs p.1 (omega arith) in
    (
      omega (arith, count-append t c (flatten cs), none_after),
      lookup-append_left t c (flatten cs) none_after,
    )
flatten-home cap k (suc i) t (c ∷ cs) p e h =
    let none_here = count-foreign cap k t c p.0 (omega arith) in
    let (counts, finds) = flatten-home cap (suc k) i t cs p.1 (omega arith) (omega arith) in
    (
      omega (arith, count-append t c (flatten cs), none_here),
      lookup-append_right t c (flatten cs) none_here ∙ finds,
    )
