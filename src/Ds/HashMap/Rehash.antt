-- ===== src/Ds/HashMap/Rehash.antt =====
-- src/ds/hash_map.h: `hash_map_rehash` keeps every lookup.
use mathlib.Core.List.{flatten}
use mathlib.Core.Path.{fun_ext}
use native.Mathlib.Nat.{mod-lt}
use adrift.Base.{
  ℕ, zero, suc, ◌+◌, ◌%◌, ◌≤◌, ◌<◌, ◌≡◌, ◌≢◌, refl, ap, ◌∙◌, inl, inr, Option, none, List, [], ◌∷◌,
  ◌++◌, All, arith, ok, ◌>>=◌, Run-cases, length, length-set, length-replicate, get_or, set,
  replicate, ◌==◌, ==_iff, false, Bool-cases, append-nil,
}
use adrift.Util.Text.{same, same_iff, text_hash}
use adrift.Ds.HashMap.{
  HashMapEntry, HashMap, chain_at, move_chain, move_table, hash_map_ctor, hash_map_rehash,
}
use adrift.Ds.HashMap.Chain.{text, IsEntry, lookup, count, lookup-none}
use adrift.Ds.HashMap.Table.{
  Table, InChain, Placed, home, chain_at-get_or, get_or-set, Placed-get, Placed-set,
  length-flatten-set, flatten-home,
}

-- `after` is `table` with `es` put in front of the chains.
record Moved (cap : ℕ) (es : List HashMapEntry) (table after : Table) : Type 0 where
  width : length after ≡ cap
  placed : Placed cap 0 after
  finds : (t : List ℕ) → lookup t (home cap after t) ≡ lookup t (es ++ home cap table t)
  counts : (t : List ℕ) → count t (home cap after t) ≡ count t (es ++ home cap table t)
  total : length (flatten after) ≡ length es + length (flatten table)

lookup_step :
    (t : List ℕ) (e : HashMapEntry) (es c : List HashMapEntry)
    → count t (e ∷ (es ++ c)) ≤ 1
    → (lookup t (es ++ e ∷ c) ≡ lookup t (e ∷ (es ++ c)))
      × (count t (es ++ e ∷ c) ≡ count t (e ∷ (es ++ c)))
unfolding lookup count
lookup_step t e [] c h = (refl, refl)
lookup_step t e (f ∷ es) c h = ground (arith, lookup_step t e es c, lookup-none t (es ++ c))

other_text :
    (t : List ℕ) (e : HashMapEntry) (cap : ℕ)
    → IsEntry e
    → e.hash_ % cap ≢ text_hash t % cap
    → same (text e) t ≡ false
other_text t e cap v f = elim (Bool-cases (same (text e) t)) [
  | inr n ↦ n
  | inl y ↦ absurd (f (ap (λ h. h % cap) (v.hashed ∙ ap text_hash ((same_iff (text e) t).0 y))))
]

-- An entry put in front of its chain is found before the entries that follow it.
put_step :
    (cap : ℕ) (e : HashMapEntry) (es : List HashMapEntry) (table : Table) (t : List ℕ)
    → IsEntry e
    → e.hash_ % cap < length table
    → count t (e ∷ (es ++ home cap table t)) ≤ 1
    → let next = set table (e.hash_ % cap) (e ∷ get_or table (e.hash_ % cap) []) in
      (lookup t (es ++ home cap next t) ≡ lookup t (e ∷ (es ++ home cap table t)))
      × (count t (es ++ home cap next t) ≡ count t (e ∷ (es ++ home cap table t)))
put_step cap e es table t v low once =
    let i = e.hash_ % cap in
    let j = text_hash t % cap in
    let got = get_or-set table i j (e ∷ get_or table i []) low in
    elim (Bool-cases (i == j)) [
      | inl y ↦
          let u : i ≡ j = (==_iff i j).0 y in
          rw (got, y, u) (lookup_step t e es (home cap table t) once)
      | inr n ↦
          let f : i ≢ j = λ u. cc (n, (==_iff i j).1 u) in
          rw (got, n) (unfold lookup count in rw (other_text t e cap v f) (refl, omega arith))
    ]

module _ (cap : ℕ) (pos : 0 < cap) where
  move_chain-Moved :
      (es : List HashMapEntry) (table : Table)
      → length table ≡ cap
      → Placed cap 0 table
      → All IsEntry es
      → ((t : List ℕ) → count t (es ++ home cap table t) ≤ 1)
      → (after : Table) × (move_chain cap es table ≡ ok after) × Moved cap es table after
  unfolding move_chain
  move_chain-Moved [] table width placed v once = (
    table,
    refl,
    record {
      width = width;
      placed = placed;
      finds = λ t. refl;
      counts = λ t. refl;
      total = omega arith;
    },
  )
  move_chain-Moved (e ∷ es) table width placed v once =
      let i = e.hash_ % cap in
      let low : i < length table = rw width (mod-lt e.hash_ pos) in
      let old = get_or table i [] in
      let next = set table i (e ∷ old) in
      let step = λ (t : List ℕ). put_step cap e es table t v.0 low (once t) in
      let (after, run, m) =
        move_chain-Moved es next (length-set table i (e ∷ old) ∙ width)
          (Placed-set cap 0 i i table (e ∷ old) placed (omega arith)
            ((v.0, refl), Placed-get cap 0 i i table placed (omega arith)))
          v.1 (λ t. rw ((step t).1) (once t)) in
      (
        after,
        rw (chain_at-get_or table i low) run,
        record {
          width = m.width;
          placed = m.placed;
          finds = λ t. m.finds t ∙ (step t).0;
          counts = λ t. m.counts t ∙ (step t).1;
          total = omega (arith, m.total, length-flatten-set table i (e ∷ old) low);
        },
      )

  move_chain-append :
      (xs ys : List HashMapEntry) (table : Table)
      → move_chain cap (xs ++ ys) table ≡ (move_chain cap xs table >>= move_chain cap ys)
  unfolding move_chain
  move_chain-append [] ys table = refl
  move_chain-append (e ∷ xs) ys table = elim (Run-cases (chain_at table (e.hash_ % cap))) [
    | inl (c, r) ↦ rw r (move_chain-append xs ys (set table (e.hash_ % cap) (e ∷ c)))
    | inr (f, r) ↦ rw r
  ]

  -- The two nested loops run through all entries in a row.
  move_table-flatten :
      (cs table : Table) → move_table cap cs table ≡ move_chain cap (flatten cs) table
  unfolding move_table flatten
  move_table-flatten [] table = unfold move_chain in refl
  move_table-flatten (c ∷ cs) table =
      rw (move_chain-append c (flatten cs) table, fun_ext (move_table-flatten cs))

  empty_home :
      (k n : ℕ) → get_or (replicate n (let none_yet : List HashMapEntry = [] in none_yet)) k [] ≡ []
  empty_home k zero = refl
  empty_home zero (suc n) = refl
  empty_home (suc k) (suc n) = empty_home k n

  pub empty-Placed : (k n : ℕ) → Placed cap k (replicate n [])
  empty-Placed k zero = tt
  empty-Placed k (suc n) = (tt, empty-Placed (suc k) n)

All-append : (xs ys : List HashMapEntry) → All IsEntry xs → All IsEntry ys → All IsEntry (xs ++ ys)
All-append [] ys v w = w
All-append (e ∷ xs) ys v w = (v.0, All-append xs ys v.1 w)

pub chain-entries : (cap i : ℕ) (es : List HashMapEntry) → InChain cap i es → All IsEntry es
chain-entries cap i [] p = tt
chain-entries cap i (e ∷ es) p = (p.0.0, chain-entries cap i es p.1)

flatten-entries : (cap k : ℕ) (table : Table) → Placed cap k table → All IsEntry (flatten table)
unfolding flatten
flatten-entries cap k [] p = tt
flatten-entries cap k (c ∷ cs) p =
    All-append c (flatten cs) (chain-entries cap k c p.0) (flatten-entries cap (suc k) cs p.1)

flatten-empty : (n : ℕ) → length (flatten (let t : Table = replicate n [] in t)) ≡ 0
unfolding flatten
flatten-empty zero = refl
flatten-empty (suc n) = flatten-empty n

-- The table of a hash map: each entry stands in the chain of its hash, no text has two entries,
-- and `size` counts the entries.
pub record IsTable (m : HashMap) : Type 0 where
  pub width : length m.table ≡ m.capacity
  pub positive : 0 < m.capacity
  pub placed : Placed m.capacity 0 m.table
  pub once : (t : List ℕ) → count t (home m.capacity m.table t) ≤ 1
  pub counted : m.size ≡ length (flatten m.table)

-- What the map holds for a text.
unfoldable pub view : HashMap → List ℕ → Option ℕ
view m t = lookup t (home m.capacity m.table t)

-- Rehashing a well-formed table to a capacity that is not 0 ends, keeps the table well formed, and
-- changes no lookup.
pub hash_map_rehash-view :
    (m : HashMap) (capacity : ℕ)
    → IsTable m
    → 0 < capacity
    → (m' : HashMap) × (hash_map_rehash m capacity ≡ ok m')
      × IsTable m'
      × (m'.capacity ≡ capacity)
      × (m'.size ≡ m.size)
      × ((t : List ℕ) → view m' t ≡ view m t)
unfolding hash_map_rehash view
hash_map_rehash-view m capacity v positive =
    let fresh : Table = replicate capacity [] in
    let home_of = λ (t : List ℕ).
      flatten-home m.capacity 0 (text_hash t % m.capacity) t m.table v.placed (omega arith)
        (rw v.width (mod-lt (text_hash t) v.positive)) in
    let alone = λ (t : List ℕ).
      ap (λ c. flatten m.table ++ c)
        (empty_home capacity positive (text_hash t % capacity) capacity)
      ∙ append-nil (flatten m.table) in
    let (after, run, moved) =
      move_chain-Moved capacity positive (flatten m.table) fresh (length-replicate capacity [])
        (empty-Placed capacity positive 0 capacity) (flatten-entries m.capacity 0 m.table v.placed)
        (λ t. rw (alone t, (home_of t).0) (v.once t)) in
    (
      record m { table = after; capacity = capacity },
      rw (move_table-flatten capacity positive m.table fresh, run),
      record {
        width = moved.width;
        positive = positive;
        placed = moved.placed;
        once = λ t. rw (moved.counts t, alone t, (home_of t).0) (v.once t);
        counted = omega (arith, moved.total, flatten-empty capacity, v.counted);
      },
      refl,
      refl,
      λ t. moved.finds t ∙ ap (lookup t) (alone t) ∙ (home_of t).1,
    )

-- A new map has 16 empty chains.
pub hash_map_ctor-IsTable : IsTable hash_map_ctor × ((t : List ℕ) → view hash_map_ctor t ≡ none)
unfolding hash_map_ctor view count flatten lookup
hash_map_ctor-IsTable =
    let alone = λ (t : List ℕ). empty_home 16 (omega arith) (text_hash t % 16) 16 in
    (
      record {
        width = refl;
        positive = omega arith;
        placed = empty-Placed 16 (omega arith) 0 16;
        once = λ t. rw (alone t) (omega arith);
        counted = refl;
      },
      λ t. ap (lookup t) (alone t),
    )
