-- ===== src/Tests/Caching.antt =====
-- src/protocol/cache.c: the theorems at a cache of one list.
use adrift.Base.{
  ℕ, none, some, List, [], ◌∷◌, ◌++◌, ◌≡◌, refl, ok, fault, read_overrun, write_overrun, ◌>>=◌,
  arith, replicate, update, inr,
}
use adrift.Ds.List.{list_push_back}
use adrift.Ds.List.Segment.{item_of}
use adrift.Ds.Trie.{list_or_new}
use adrift.Ds.HashMap.{hash_map_ctor}
use adrift.Ds.HashMap.Methods.{hash_map_ctor-IsHashMap}
use adrift.Ds.Trie.Laws.{trie_view, at_path}
use adrift.Ds.Trie.{null}
use adrift.Ds.List.{list_dtor, free_nodes}
use adrift.Ds.Trie.{trie_dtor, trie_node_dtor}
use adrift.Ds.HashMap.Shrink.{hash_map_dtor, table_dtor, hash_map_entry_dtor}
use adrift.Cache.{Cache, no_cache, cache_dtor, cache_find, cache_insert, cache_type_ipv4}
use adrift.Cache.Laws.{IsCache, Stored, cache_view, cache_find-view, cache_insert-view}
use adrift.Cache.Insert.{Found, cache_insert-Found_present}
use adrift.Cache.Faults.{cache_find_outside, cache_insert_overrun}
use adrift.Tests.Containers.{
  linked_store, linked, linked-IsList, planted, lone_node, key, other_key, key-IsKey,
}

-- A cache in which "a." leads to list 0.
abbrev pub small_cache : Cache
small_cache = record {
  trie = update (λ _. null) 0 planted;
  hash_map = update (no_cache.hash_map) 0 hash_map_ctor;
  store = linked_store;
}

pub small_cache-IsCache : IsCache small_cache cache_type_ipv4
small_cache-IsCache = record { root = refl; map = hash_map_ctor-IsHashMap.0 }

small_cache_present : cache_view small_cache cache_type_ipv4 other_key ≡ some 0
unfolding cache_view trie_view at_path
small_cache_present = refl

pub small_cache_absent : cache_view small_cache cache_type_ipv4 key ≡ none
unfolding cache_view trie_view at_path
small_cache_absent = refl

-- A name of 47 letters.
abbrev long_key : List ℕ
long_key = replicate 47 b'a'

small_cache_long : cache_view small_cache cache_type_ipv4 long_key ≡ none
unfolding cache_view
small_cache_long = hash_map_ctor-IsHashMap.1 long_key

cache_find-view_example :
    cache_find cache_type_ipv4 (other_key ++ 0 ∷ []) small_cache
    ≡ ok (cache_view small_cache cache_type_ipv4 other_key)
cache_find-view_example =
    cache_find-view small_cache cache_type_ipv4 small_cache-IsCache other_key [] (ground arith)

cache_insert-view_example :
    let (l, s) = list_or_new (cache_view small_cache cache_type_ipv4 key) linked_store in
    (c' : Cache) × (cache_insert cache_type_ipv4 (key ++ 0 ∷ []) 3 small_cache
      ≡ (list_push_back l 3 s >>= λ s'. ok (record c' { store = s' })))
    × Stored small_cache cache_type_ipv4 key l c'
cache_insert-view_example =
    cache_insert-view small_cache cache_type_ipv4 small_cache-IsCache key [] key-IsKey 3
      (omega arith)

cache_insert-Found_present_example :
    (c' : Cache) × Found small_cache cache_type_ipv4 other_key [] 3 0
      (linked ++ (3, item_of lone_node) ∷ [])
      c'
cache_insert-Found_present_example =
    cache_insert-Found_present small_cache cache_type_ipv4 small_cache-IsCache other_key []
      (ground arith) (omega arith) 3 lone_node refl refl 0 linked small_cache_present linked-IsList
      (ground arith) (omega arith)

-- "a\xe9", with a byte of Latin-1.
cache_find_outside_example :
    cache_find cache_type_ipv4 (b'a' ∷ 233 ∷ 0 ∷ []) small_cache ≡ fault read_overrun
cache_find_outside_example =
    cache_find_outside small_cache cache_type_ipv4 b'a' 233 [] [] small_cache-IsCache (ground arith)
      tt (omega arith) (inr (omega arith)) (omega arith)

cache_insert_overrun_example :
    cache_insert cache_type_ipv4 (long_key ++ 0 ∷ []) 3 small_cache ≡ fault write_overrun
cache_insert_overrun_example =
    cache_insert_overrun small_cache cache_type_ipv4 long_key [] 3 small_cache-IsCache
      (ground arith) (omega arith) small_cache_long

-- The list of the short name is freed with its nodes.
cache_dtor_run :
    (c : Cache) × (cache_dtor cache_type_ipv4 small_cache ≡ ok c)
    × (c.store.list 0 ≡ none)
    × (c.store.node 2 ≡ none)
unfolding cache_dtor hash_map_dtor table_dtor hash_map_entry_dtor trie_dtor trie_node_dtor list_dtor
    free_nodes hash_map_ctor
cache_dtor_run = (_, refl, refl, refl)
