-- ===== src/Tests/Hosting.antt =====
-- src/main.c: the hosts file "7 abc.cn", with a `strtok` that cuts at the first space and an
-- `inet_pton` that knows the text "7".
use adrift.Base.{
  ℕ, false, Option, none, some, List, [], ◌∷◌, ◌++◌, ◌≡◌, refl, ok, fault, bad_pointer, ◌>>=◌,
  arith, ◌==◌, if◌then◌else◌, suc,
}
use adrift.Cache.{
  Cache, no_cache, cache_ctor, cache_dtor, cache_insert, cache_find, cache_type_ipv4,
  cache_type_ipv6, cache_type_cname,
}
use adrift.Ds.HashMap.{hash_map_ctor}
use adrift.Ds.HashMap.Shrink.{hash_map_dtor, table_dtor, hash_map_entry_dtor}
use adrift.Ds.List.{
  list_ctor, list_node_ctor, list_node_ctor_with_info, list_push_back, list_dtor, free_nodes,
}
use adrift.Ds.Trie.{
  trie_ctor, trie_node_ctor, trie_insert, child_index, present, trie_dtor, trie_node_dtor,
}
use adrift.Util.{stream_length}
use adrift.Cache.Insert.{head_item}
use adrift.Cache.Laws.{IsCache, cache_ctor-view}
use adrift.Ds.List.Push.{IsList}
use adrift.Hosts.{insert_host, read_hosts_file, with_dot, is_zero_address}
use adrift.Hosts.Laws.{hosts_item, read_hosts_file-Found}
use adrift.Tests.Containers.{key, key-IsKey}

unfoldable pub tokens_from : List ℕ → List ℕ → Option (List ℕ × List ℕ)
tokens_from word [] = none
tokens_from word (c ∷ line) =
    let rest = tokens_from (word ++ c ∷ []) line in if c == b' ' then some (word, line) else rest

unfoldable pub address_of : List ℕ → Option (List ℕ)
address_of [] = none
address_of (c ∷ ip) = if c == b'7' then some (7 ∷ 7 ∷ 7 ∷ 7 ∷ []) else none

abbrev pub domain : List ℕ
domain = b'a' ∷ b'b' ∷ b'c' ∷ b'.' ∷ b'c' ∷ b'n' ∷ []

abbrev pub line : List ℕ
line = b'7' ∷ b' ' ∷ domain

abbrev fresh_cache : Cache
fresh_cache = cache_ctor cache_type_ipv4 no_cache

pub line-tokens : tokens_from [] line ≡ some (b'7' ∷ [], domain)
unfolding tokens_from
line-tokens = refl

pub domain-dot : with_dot domain ≡ ok key
unfolding with_dot
domain-dot = refl

pub line-address : address_of (b'7' ∷ []) ≡ some (7 ∷ 7 ∷ 7 ∷ 7 ∷ [])
unfolding address_of
line-address = refl

pub address_not_zero : is_zero_address (7 ∷ 7 ∷ 7 ∷ 7 ∷ []) ≡ false
unfolding is_zero_address
address_not_zero = refl

read_hosts_file-Found_example :
    (c' : Cache) × (read_hosts_file (tokens_from []) address_of (line ∷ []) fresh_cache
      ≡ read_hosts_file (tokens_from []) address_of [] c')
    × IsCache c' cache_type_ipv4
    × (cache_find cache_type_ipv4 (key ++ 0 ∷ []) c' ≡ ok (some fresh_cache.store.free_list))
    × IsList c'.store fresh_cache.store.free_list (
        (suc fresh_cache.store.free_node, head_item)
        ∷ (fresh_cache.store.free_node, hosts_item key (7 ∷ 7 ∷ 7 ∷ 7 ∷ []))
        ∷ [])
read_hosts_file-Found_example =
    read_hosts_file-Found (tokens_from []) address_of line [] (b'7' ∷ []) domain key
      (7 ∷ 7 ∷ 7 ∷ 7 ∷ []) fresh_cache line-tokens domain-dot line-address address_not_zero
      ((cache_ctor-view no_cache cache_type_ipv4).0) key-IsKey (omega arith)
      ((cache_ctor-view no_cache cache_type_ipv4).1 key)

-- The node of the address 0.0.0.0 stands in three lists, and is freed with the first of them.
abbrev three_caches : Cache
three_caches =
    cache_ctor cache_type_cname (cache_ctor cache_type_ipv6 (cache_ctor cache_type_ipv4 no_cache))

freed_twice :
    (insert_host (b'a' ∷ b'.' ∷ []) (0 ∷ 0 ∷ 0 ∷ 0 ∷ []) three_caches >>= λ c.
    cache_dtor cache_type_ipv4 c >>= λ c'. cache_dtor cache_type_ipv6 c')
    ≡ fault bad_pointer
unfolding insert_host cache_ctor cache_dtor cache_insert is_zero_address hash_map_ctor hash_map_dtor
    table_dtor hash_map_entry_dtor list_ctor list_node_ctor list_node_ctor_with_info list_push_back
    list_dtor free_nodes trie_ctor trie_node_ctor trie_insert child_index present trie_dtor
    trie_node_dtor stream_length
freed_twice = refl
