-- ===== src/Ds/HashMap/Entry.antt =====
-- src/ds/hash_map.h: `hash_map_entry_ctor`, and a table with one more entry.
use native.Mathlib.Nat.{mod-lt}
use adrift.Base.{
  ℕ, zero, suc, ◌+◌, ◌-◌, ◌%◌, ◌≤◌, ◌<◌, ◌≡◌, refl, sym, ap, ◌∙◌, inl, inr, none, some, List, ◌∷◌,
  ◌++◌, arith, ok, fault, write_overrun, length, length-set, set, replicate, drop, ◌==◌, ==_iff,
  false, ltb, lt→ltb, if◌then◌else◌, Bool-cases,
}
use adrift.Util.Text.{
  IsText, same, same_iff, text_hash, stream_length-text, stream_copy-text, hash-text,
}
use adrift.Ds.List.{Store, list_ctor}
use adrift.Ds.HashMap.{HashMapEntry, HashMap, key_size, hash_map_entry_ctor}
use adrift.Ds.HashMap.Chain.{text, IsEntry, until_nul-text, lookup, count, count-zero}
use adrift.Ds.HashMap.Table.{home, get_or-set, Placed-get, Placed-set, length-flatten-set}
use adrift.Ds.HashMap.Rehash.{IsTable, view}

drop-replicate : (n m k : ℕ) (x : ℕ) → n + suc k ≡ m → drop n (replicate m x) ≡ x ∷ replicate k x
drop-replicate zero zero k x e = absurd (omega arith)
drop-replicate zero (suc m) k x e = let u : m ≡ k = omega arith in rw u
drop-replicate (suc n) zero k x e = absurd (omega arith)
drop-replicate (suc n) (suc m) k x e = drop-replicate n m k x (omega arith)

-- The entry of a text that fits its array, with a NUL.
abbrev pub entry_of : List ℕ → ℕ → HashMapEntry
entry_of t l = record { hash_ = text_hash t; key = t ++ 0 ∷ replicate (45 - length t) 0; value = l }

module _ (t rest : List ℕ) (is_text : IsText t) (s : Store) where
  pub entry_ctor-text :
      length t < key_size
      → hash_map_entry_ctor (t ++ 0 ∷ rest) s ≡ ok (entry_of t ((list_ctor s).0), (list_ctor s).1)
  unfolding hash_map_entry_ctor
  entry_ctor-text fits = rw (
    stream_length-text t rest is_text,
    hash-text t (0 ∷ rest),
    stream_copy-text t (replicate key_size 0) rest is_text,
    ltb_false 46 (length t) (omega arith),
    drop-replicate (length t) 46 (45 - length t) 0 (omega arith),
  )
    where
      ltb_false : (a b : ℕ) → b ≤ a → ltb a b ≡ false
      ltb_false a b h = ground arith

  -- A longer text is copied past the end of the array.
  pub entry_ctor_long :
      key_size < length t → hash_map_entry_ctor (t ++ 0 ∷ rest) s ≡ fault write_overrun
  unfolding hash_map_entry_ctor
  entry_ctor_long long = rw (
    stream_length-text t rest is_text,
    hash-text t (0 ∷ rest),
    stream_copy-text t (replicate key_size 0) rest is_text,
    lt→ltb 46 (length t) long,
  )

entry_of-IsEntry :
    (t : List ℕ) (l : ℕ) → IsText t → IsEntry (entry_of t l) × (text (entry_of t l) ≡ t)
entry_of-IsEntry t l is_text =
    let named : text (entry_of t l) ≡ t = until_nul-text t (replicate (45 - length t) 0) is_text in
    (
      record {
        behind = replicate (45 - length t) 0;
        stored = rw named refl;
        hashed = rw named refl;
      },
      named,
    )

-- `m` with an entry for `t` in front of its chain.
abbrev pub with_entry : HashMap → List ℕ → ℕ → HashMap
with_entry m t l = record m {
  table = set m.table (text_hash t % m.capacity) (entry_of t l ∷ home m.capacity m.table t);
  size = m.size + 1;
}

module _ (m : HashMap) (v : IsTable m) (t : List ℕ) (is_text : IsText t) (l : ℕ) where
  home-with_entry :
      (u : List ℕ)
      → home m.capacity (with_entry m t l).table u ≡ (
          if text_hash t % m.capacity == text_hash u % m.capacity
          then entry_of t l ∷ home m.capacity m.table t
          else home m.capacity m.table u)
  home-with_entry u =
      get_or-set m.table (text_hash t % m.capacity) (text_hash u % m.capacity)
        (entry_of t l ∷ home m.capacity m.table t) (rw v.width (mod-lt (text_hash t) v.positive))

  pub with_entry_reads :
      (u : List ℕ)
      → (view (with_entry m t l) u ≡ (if same t u then some l else view m u))
        × (count u (home m.capacity (with_entry m t l).table u)
            ≡ (if same t u then 1 else 0) + count u (home m.capacity m.table u))
  unfolding view
  with_entry_reads u =
      let i = text_hash t % m.capacity in
      let j = text_hash u % m.capacity in
      let named = (entry_of-IsEntry t l is_text).1 in
      elim (Bool-cases (i == j)) [
        | inl y ↦
            let e : i ≡ j = (==_iff i j).0 y in
            rw (home-with_entry u, y, e) (unfold lookup count in rw named (refl, refl))
        | inr n ↦
            let other : same t u ≡ false = differ u n in
            rw (home-with_entry u, n, other) (refl, omega arith)
      ]
    where
      differ :
          (u : List ℕ)
          → (text_hash t % m.capacity == text_hash u % m.capacity) ≡ false
          → same t u ≡ false
      differ u n = elim (Bool-cases (same t u)) [
        | inr f ↦ f
        | inl y ↦
            let e = ap (λ w. text_hash w % m.capacity) ((same_iff t u).0 y) in
            cc (n, (==_iff (text_hash t % m.capacity) (text_hash u % m.capacity)).1 e)
      ]

  pub with_entry-IsTable : view m t ≡ none → IsTable (with_entry m t l)
  unfolding view
  with_entry-IsTable absent =
      let i = text_hash t % m.capacity in
      let low : i < length m.table = rw v.width (mod-lt (text_hash t) v.positive) in
      let alone = count-zero t (home m.capacity m.table t) absent in
      record {
        width = length-set m.table i _ ∙ v.width;
        positive = v.positive;
        placed = Placed-set m.capacity 0 i i m.table _ v.placed (omega arith) (
          ((entry_of-IsEntry t l is_text).0, refl),
          Placed-get m.capacity 0 i i m.table v.placed (omega arith),
        );
        once = λ u. rw ((with_entry_reads u).1) (at_most u alone);
        counted = omega (
          arith,
          v.counted,
          length-flatten-set m.table i (entry_of t l ∷ home m.capacity m.table t) low,
        );
      }
    where
      at_most :
          (u : List ℕ)
          → count t (home m.capacity m.table t) ≡ 0
          → (if same t u then 1 else 0) + count u (home m.capacity m.table u) ≤ 1
      at_most u alone = elim (Bool-cases (same t u)) [
        | inr f ↦ rw f (omega (arith, v.once u))
        | inl y ↦ let e : u ≡ t = sym ((same_iff t u).0 y) in rw y (rw e (omega arith))
      ]
