-- ===== src/Ds/HashMap.antt =====
-- src/ds/hash_map.h: a chained hash table from domain names to lists. Chains are lists of entries,
-- since no other pointer leads to an entry; the lists that they refer to stand in the store.
pub mod Chain
pub mod Table
pub mod Rehash
pub mod Entry
pub mod Methods
pub mod Interface
pub mod Shrink
use adrift.Base.{
  ℕ, zero, suc, ◌+◌, ◌*◌, ◌%◌, Bool, true, false, Option, none, some, List, [], ◌∷◌, Run, ok, fault,
  read_overrun, ◌>>=◌, ◌==◌, ltb, if◌then◌else◌, replicate, set,
}
use adrift.Util.{stream_length, stream_copy, stream_compare, is_zero, hash}
use adrift.Ds.List.{Store, list_ctor, list_push_back}

-- `IPV6_ADDR_BUF_SIZE`
abbrev pub key_size : ℕ
key_size = 46

abbrev pub default_capacity : ℕ
default_capacity = 16

abbrev pub growth_factor : ℕ
growth_factor = 2

-- `key` is the array with all its bytes; `value` is the address of a list.
pub record HashMapEntry : Type 0 where
  pub hash_ : ℕ
  pub key : List ℕ
  pub value : ℕ

pub record HashMap : Type 0 where
  pub table : List (List HashMapEntry)
  pub size : ℕ
  pub capacity : ℕ

unfoldable pub hash_map_entry_ctor : List ℕ → Store → Run (HashMapEntry × Store)
hash_map_entry_ctor key s = do
  n ← stream_length key
  h ← hash key n
  copied ← stream_copy (replicate key_size 0) key
  let (l, s') = list_ctor s
  ok (record { hash_ = h; key = copied; value = l }, s')

unfoldable pub hash_map_ctor : HashMap
hash_map_ctor = record {
  table = replicate default_capacity [];
  size = 0;
  capacity = default_capacity;
}

-- `table[i]`
pub chain_at : List (List HashMapEntry) → ℕ → Run (List HashMapEntry)
chain_at [] i = fault read_overrun
chain_at (c ∷ cs) zero = ok c
chain_at (c ∷ cs) (suc i) = chain_at cs i

-- `entry->hash == hash_ && stream_compare(entry->key, key) == 0`
pub matches : ℕ → List ℕ → HashMapEntry → Run Bool
matches h key e =
    if e.hash_ == h then (do z ← stream_compare e.key key; ok (is_zero z)) else ok false

-- The loop along a chain.
pub find_entry : ℕ → List ℕ → List HashMapEntry → Run (Option ℕ)
find_entry h key [] = ok none
find_entry h key (e ∷ es) = do
  hit ← matches h key e
  let rest = find_entry h key es
  if hit then ok (some e.value) else rest

-- The inner loop of `hash_map_rehash`: entries go to the front of their new chain.
pub move_chain : ℕ → List HashMapEntry → List (List HashMapEntry) → Run (List (List HashMapEntry))
move_chain capacity [] table = ok table
move_chain capacity (e ∷ es) table = do
  c ← chain_at table (e.hash_ % capacity)
  move_chain capacity es (set table (e.hash_ % capacity) (e ∷ c))

pub move_table :
    ℕ → List (List HashMapEntry) → List (List HashMapEntry) → Run (List (List HashMapEntry))
move_table capacity [] table = ok table
move_table capacity (c ∷ cs) table = do
  table' ← move_chain capacity c table
  move_table capacity cs table'

unfoldable pub hash_map_rehash : HashMap → ℕ → Run HashMap
unfolding chain_at move_chain move_table
hash_map_rehash m capacity = do
  table ← move_table capacity m.table (replicate capacity [])
  ok (record m { table = table; capacity = capacity })

-- The load factor of 0.75 without fractions: the doubles are exact below 2 ^ 53.
abbrev pub is_loaded : HashMap → Bool
is_loaded m = ltb (m.capacity * 3) (m.size * 4)

-- The part of `hash_map_insert` behind its loop.
unfoldable pub insert_entry :
    HashMap → ℕ → List HashMapEntry → List ℕ → ℕ → Store → Run (HashMap × Store)
insert_entry m idx chain key node s = do
  (e, s₁) ← hash_map_entry_ctor key s
  s₂ ← list_push_back e.value node s₁
  let m₁ : HashMap = record m { table = set m.table idx (e ∷ chain); size = m.size + 1 }
  let grown = hash_map_rehash m₁ (m₁.capacity * growth_factor)
  m₂ ← if is_loaded m₁ then grown else ok m₁
  ok (m₂, s₂)

unfoldable pub insert_found :
    Option ℕ → HashMap → ℕ → List HashMapEntry → List ℕ → ℕ → Store → Run (HashMap × Store)
unfolding insert_entry
insert_found (some l) m idx chain key node s = do s' ← list_push_back l node s; ok (m, s')
insert_found none m idx chain key node s = insert_entry m idx chain key node s

unfoldable pub hash_map_insert : HashMap → List ℕ → ℕ → Store → Run (HashMap × Store)
unfolding chain_at matches find_entry
hash_map_insert m key node s = do
  n ← stream_length key
  h ← hash key n
  chain ← chain_at m.table (h % m.capacity)
  found ← find_entry h key chain
  insert_found found m (h % m.capacity) chain key node s

unfoldable pub hash_map_find : HashMap → List ℕ → Run (Option ℕ)
unfolding chain_at matches find_entry
hash_map_find m key = do
  n ← stream_length key
  h ← hash key n
  chain ← chain_at m.table (h % m.capacity)
  find_entry h key chain
