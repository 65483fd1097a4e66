-- ===== src/Cache.antt =====
-- src/protocol/cache.h and cache.c: for each type of record a trie for the short names and a hash
-- map for the long ones. The functions here are what a call does when it has the lock; the calls of
-- the lock are in Cache/Threads. The logging is left out.
pub mod Laws
pub mod Insert
pub mod First
pub mod Faults
pub mod Threads
pub mod Serial
use adrift.Base.{
  ℕ, ◌+◌, ◌-◌, Bool, true, false, Option, none, some, List, [], ◌∷◌, Run, ok, fault, read_overrun,
  ◌>>=◌, ◌==◌, ltb, ◌||◌, not, if◌then◌else◌, update, read,
}
use adrift.Util.{stream_length}
use adrift.Ds.List.{Store, empty_store}
use adrift.Ds.HashMap.{HashMap, hash_map_ctor, hash_map_insert, hash_map_find}
use adrift.Ds.Trie.{TrieNode, null, trie_ctor, trie_insert, trie_find, trie_dtor}
use adrift.Ds.HashMap.Shrink.{hash_map_dtor}

-- `CacheType`
abbrev pub cache_type_ipv4 : ℕ
cache_type_ipv4 = 0

abbrev pub cache_type_ipv6 : ℕ
cache_type_ipv6 = 1

abbrev pub cache_type_cname : ℕ
cache_type_cname = 2

-- The global arrays `trie` and `hash_map`, by type, and the store of their lists.
pub record Cache : Type 0 where
  pub trie : ℕ → TrieNode
  pub hash_map : ℕ → HashMap
  pub store : Store

-- Before `cache_ctor` the pointers are NULL. The lock, which `cache_ctor` makes and `cache_dtor`
-- destroys, is not part of this state.
abbrev pub no_cache : Cache
no_cache = record {
  trie = λ _. null;
  hash_map = λ _. record { table = []; size = 0; capacity = 0 };
  store = empty_store;
}

unfoldable pub cache_ctor : ℕ → Cache → Cache
cache_ctor cache_type c = record c {
  trie = update c.trie cache_type trie_ctor;
  hash_map = update c.hash_map cache_type hash_map_ctor;
}

-- The pointer `trie` keeps the address of what has been freed, and is NULL here.
unfoldable pub cache_dtor : ℕ → Cache → Run Cache
cache_dtor cache_type c = do
  s ← trie_dtor (c.trie cache_type) (hash_map_dtor (c.hash_map cache_type) c.store)
  ok (record c {
    trie = update c.trie cache_type null;
    hash_map = update c.hash_map cache_type (record { table = []; size = 0; capacity = 0 });
    store = s;
  })

-- `*key - 33 < 0 || *key - 33 > 94`, over integers
abbrev pub is_invalid : ℕ → Bool
is_invalid c = ltb c 33 || ltb 94 (c - 33)

-- The loop over the key: `key_` runs, and `*key`, the first byte, is tested each time.
pub check_key : ℕ → List ℕ → Run Bool
check_key first_byte [] = fault read_overrun
check_key first_byte (c ∷ key_) =
    let rest = check_key first_byte key_ in
    if c == 0 then ok true else if is_invalid first_byte then ok false else rest

unfoldable pub valid_key : List ℕ → Run Bool
unfolding check_key
valid_key key = do first_byte ← read key; check_key first_byte key

unfoldable pub cache_insert : ℕ → List ℕ → ℕ → Cache → Run Cache
unfolding valid_key
cache_insert cache_type key node c = do
  valid ← valid_key key
  let into_trie = (do
    n ← stream_length key
    let short = (do
      (root, s) ← trie_insert (c.trie cache_type) key node c.store
      ok (record c { trie = update c.trie cache_type root; store = s }))
    let long = (do
      (m, s) ← hash_map_insert (c.hash_map cache_type) key node c.store
      ok (record c { hash_map = update c.hash_map cache_type m; store = s }))
    if ltb 16 n then long else short)
  if valid then into_trie else ok c

unfoldable pub cache_find : ℕ → List ℕ → Cache → Run (Option ℕ)
unfolding valid_key
cache_find cache_type key c = do
  valid ← valid_key key
  let find = (do
    n ← stream_length key
    if ltb 16 n
        then hash_map_find (c.hash_map cache_type) key
        else trie_find (c.trie cache_type) key)
  if valid then find else ok none
