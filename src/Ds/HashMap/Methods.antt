-- ===== src/Ds/HashMap/Methods.antt =====
-- src/ds/hash_map.h: `hash_map_find` and `hash_map_insert` against a map from texts.

use native.Mathlib.Nat.{mod-lt}
use adrift.Base.{
  ℕ, ◌+◌, ◌*◌, ◌%◌, ◌≤◌, ◌<◌, ◌≡◌, refl, ◌∙◌, inl, inr, none, some, List, ◌∷◌, ◌++◌, arith, ok,
  fault, write_overrun, ◌>>=◌, length, if◌then◌else◌, Bool-cases,
}
use adrift.Util.Text.{IsText, same, text_hash, stream_length-text, hash-text}
use adrift.Ds.List.{Store, list_ctor, list_push_back}
use adrift.Ds.HashMap.{
  HashMap, hash_map_ctor, key_size, growth_factor, is_loaded, hash_map_rehash, hash_map_insert,
  hash_map_find, find_entry, chain_at, insert_found,
}
use adrift.Ds.HashMap.Chain.{find_entry-lookup}
use adrift.Ds.HashMap.Table.{home, chain_at-get_or, Placed-get}
use adrift.Ds.HashMap.Rehash.{IsTable, view, chain-entries, hash_map_rehash-view}
use adrift.Ds.HashMap.Entry.{
  entry_ctor-text, entry_ctor_long, with_entry, with_entry_reads, with_entry-IsTable,
}
use adrift.Ds.HashMap.Rehash.{hash_map_ctor-IsTable}

-- The table is well formed and at most three quarters full.
pub record IsHashMap (m : HashMap) : Type 0 where
  pub table : IsTable m
  pub sparse : m.size * 4 ≤ m.capacity * 3

module _ (m : HashMap) (v : IsTable m) (t rest : List ℕ) (is_text : IsText t) where
  abbrev index : ℕ
  index = text_hash t % m.capacity

  index-lt : index < length m.table
  index-lt = rw v.width (mod-lt (text_hash t) v.positive)

  search_home :
      (chain_at m.table index >>= find_entry (text_hash t) (t ++ 0 ∷ rest)) ≡ ok (view m t)
  unfolding view
  search_home = rw (chain_at-get_or m.table index index-lt) (
      find_entry-lookup (home m.capacity m.table t) t rest
        (chain-entries m.capacity index (home m.capacity m.table t)
          (Placed-get m.capacity 0 index index m.table v.placed (omega arith)))
        is_text)

  -- On a well-formed table `hash_map_find` ends without a fault and returns what the map holds for
  -- the text of the key.
  pub hash_map_find-view : hash_map_find m (t ++ 0 ∷ rest) ≡ ok (view m t)
  unfolding hash_map_find
  hash_map_find-view = rw (stream_length-text t rest is_text, hash-text t (0 ∷ rest)) search_home

  insert_home :
      (node : ℕ) (s : Store)
      → hash_map_insert m (t ++ 0 ∷ rest) node s
        ≡ insert_found (view m t) m index (home m.capacity m.table t) (t ++ 0 ∷ rest) node s
  unfolding hash_map_insert view
  insert_home node s = rw (
    stream_length-text t rest is_text,
    hash-text t (0 ∷ rest),
    chain_at-get_or m.table index index-lt,
    find_entry-lookup (home m.capacity m.table t) t rest
        (chain-entries m.capacity index (home m.capacity m.table t)
          (Placed-get m.capacity 0 index index m.table v.placed (omega arith)))
        is_text,
  )

  -- With the text in the map, inserting pushes the node onto the list that stands there.
  pub hash_map_insert-present :
      (node : ℕ) (s : Store) (l : ℕ)
      → view m t ≡ some l
      → hash_map_insert m (t ++ 0 ∷ rest) node s ≡ (list_push_back l node s >>= λ s'. ok (m, s'))
  hash_map_insert-present node s l e = insert_home node s ∙ rw e (unfold insert_found in refl)

-- The result of inserting a text that the map does not hold.
pub record Inserted (m : HashMap) (t : List ℕ) (l : ℕ) (m' : HashMap) : Type 0 where
  pub valid : IsHashMap m'
  pub size : m'.size ≡ m.size + 1
  pub reads : (u : List ℕ) → view m' u ≡ (if same t u then some l else view m u)

grow_with_entry :
    (m : HashMap) (v : IsHashMap m) (t : List ℕ) (l : ℕ)
    → IsText t
    → view m t ≡ none
    → let m₁ = with_entry m t l in
      (m' : HashMap) × ((if is_loaded m₁
          then hash_map_rehash m₁ (m₁.capacity * growth_factor)
          else ok m₁)
        ≡ ok m')
      × Inserted m t l m'
grow_with_entry m v t l is_text absent =
    let m₁ = with_entry m t l in
    let v₁ = with_entry-IsTable m v.table t is_text l absent in
    let reads = λ (u : List ℕ). (with_entry_reads m v.table t is_text l u).0 in
    let positive = v.table.positive in
    elim (Bool-cases (is_loaded m₁)) [
      | inr light ↦ (
        m₁,
        rw light,
        record { valid = record { table = v₁; sparse = ground arith }; size = refl; reads = reads },
      )
      | inl heavy ↦
          let (m', run, v', width, size, same_view) =
            hash_map_rehash-view m₁ (m₁.capacity * growth_factor) v₁ (omega arith) in
          (
            m',
            rw heavy run,
            record {
              valid = record { table = v'; sparse = omega (arith, v.sparse) };
              size = size;
              reads = λ u. same_view u ∙ reads u;
            },
          )
    ]

-- On a well-formed map that is at most three quarters full and does not hold the text, inserting a
-- text of at most 45 bytes makes a list for it, pushes the node there, and leaves such a map, which
-- holds that list for the text and what it held before for every other text.
pub hash_map_insert-absent :
    (m : HashMap) (v : IsHashMap m) (t rest : List ℕ) (node : ℕ) (s : Store)
    → IsText t
    → length t < key_size
    → view m t ≡ none
    → (m' : HashMap) × Inserted m t (list_ctor s).0 m'
      × (hash_map_insert m (t ++ 0 ∷ rest) node s
          ≡ (list_push_back (list_ctor s).0 node (list_ctor s).1 >>= λ s'. ok (m', s')))
hash_map_insert-absent m v t rest node s is_text fits absent =
    let (m', run, inserted) = grow_with_entry m v t (list_ctor s).0 is_text absent in
    (
      m',
      inserted,
      insert_home m v.table t rest is_text node s
          ∙ rw absent (unfold insert_found in rw (entry_ctor-text t rest is_text s fits, run) refl),
    )

-- A text of 47 bytes or more that the map does not hold is copied past the end of its key array.
pub hash_map_insert_long :
    (m : HashMap) (v : IsHashMap m) (t rest : List ℕ) (node : ℕ) (s : Store)
    → IsText t
    → key_size < length t
    → view m t ≡ none
    → hash_map_insert m (t ++ 0 ∷ rest) node s ≡ fault write_overrun
hash_map_insert_long m v t rest node s is_text long absent =
    insert_home m v.table t rest is_text node s
    ∙ rw absent (unfold insert_found in rw (entry_ctor_long t rest is_text s long))

-- A new map is well formed and holds nothing.
pub hash_map_ctor-IsHashMap : IsHashMap hash_map_ctor × ((t : List ℕ) → view hash_map_ctor t ≡ none)
unfolding hash_map_ctor
hash_map_ctor-IsHashMap =
    let (table, empty) = hash_map_ctor-IsTable in
    (record { table = table; sparse = omega arith }, empty)
