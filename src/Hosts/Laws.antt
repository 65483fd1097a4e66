-- ===== src/Hosts/Laws.antt =====
-- src/main.c, `read_hosts_file`: what a line of the hosts file leaves in the cache.
use adrift.Base.{
  suc, ℕ, ◌++◌, ◌≡◌, ◌<◌, Option, none, some, List, [], ◌∷◌, refl, ok, ◌>>=◌, length, false, ◌∙◌,
  ap,
}
use adrift.Cache.{Cache, cache_find, cache_type_ipv4}
use adrift.Cache.Laws.{IsCache, cache_view}
use adrift.Cache.Insert.{head_item}
use adrift.Cache.First.{First, record_item, store_record-First}
use adrift.Ds.HashMap.{key_size}
use adrift.Ds.List.{answer}
use adrift.Ds.List.Push.{IsList}
use adrift.Ds.List.Segment.{Item}
use adrift.Ds.Trie.Laws.{IsKey}
use adrift.Hosts.{
  hosts_record, is_zero_address, with_dot, insert_host, read_tokens, read_hosts_file,
}

-- A hosts record in the cache: it has no times, so it does not expire.
abbrev pub hosts_item : List ℕ → List ℕ → Item
hosts_item domain addr = record_item (hosts_record domain addr) answer 0 0

-- A line's record under a name that the cache does not hold.
pub insert_host-First :
    (name addr : List ℕ) (c : Cache)
    → is_zero_address addr ≡ false
    → IsCache c cache_type_ipv4
    → IsKey name
    → length name < key_size
    → cache_view c cache_type_ipv4 name ≡ none
    → (c' : Cache) × (insert_host name addr c ≡ ok c')
      × First c cache_type_ipv4 name (hosts_item name addr) c'
unfolding insert_host
insert_host-First name addr c real v key fits absent =
    let (s, c', made, ran, f) =
      store_record-First (hosts_record name addr) answer 0 0 c cache_type_ipv4 name v key fits
        absent in
    (c', rw (made, ran, real) refl, f)

pub read_hosts_file-host :
    (tokens : List ℕ → Option (List ℕ × List ℕ)) (inet_pton : List ℕ → Option (List ℕ))
    (line : List ℕ) (lines : List (List ℕ)) (ip domain name addr : List ℕ) (c : Cache)
    → tokens line ≡ some (ip, domain)
    → with_dot domain ≡ ok name
    → inet_pton ip ≡ some addr
    → read_hosts_file tokens inet_pton (line ∷ lines) c
      ≡ (insert_host name addr c >>= λ c'. read_hosts_file tokens inet_pton lines c')
unfolding read_hosts_file read_tokens
read_hosts_file-host tokens inet_pton line lines ip domain name addr c split dotted parsed =
    rw (split, dotted, parsed) refl

-- In a cache whose containers for IPv4 are well formed, a line that gives an address other than
-- 0.0.0.0 to a name that the cache does not hold, of at most 45 bytes from 33 to 127, makes the
-- name known, and the loop goes on: `cache_find` then returns for the name a well-formed list whose
-- one record has this address and the times 0.
pub read_hosts_file-Found :
    (tokens : List ℕ → Option (List ℕ × List ℕ)) (inet_pton : List ℕ → Option (List ℕ))
    (line : List ℕ) (lines : List (List ℕ)) (ip domain name addr : List ℕ) (c : Cache)
    → tokens line ≡ some (ip, domain)
    → with_dot domain ≡ ok name
    → inet_pton ip ≡ some addr
    → is_zero_address addr ≡ false
    → IsCache c cache_type_ipv4
    → IsKey name
    → length name < key_size
    → cache_view c cache_type_ipv4 name ≡ none
    → (c' : Cache) × (read_hosts_file tokens inet_pton (line ∷ lines) c
        ≡ read_hosts_file tokens inet_pton lines c')
      × IsCache c' cache_type_ipv4
      × (cache_find cache_type_ipv4 (name ++ 0 ∷ []) c' ≡ ok (some c.store.free_list))
      × IsList c'.store c.store.free_list
          ((suc c.store.free_node, head_item) ∷ (c.store.free_node, hosts_item name addr) ∷ [])
read_hosts_file-Found tokens inet_pton line lines ip domain name addr c split dotted parsed real v
      key fits absent =
    let (c', ran, f) = insert_host-First name addr c real v key fits absent in
    (
      c',
      read_hosts_file-host tokens inet_pton line lines ip domain name addr c split dotted parsed
          ∙ ap (λ r. r >>= λ d. read_hosts_file tokens inet_pton lines d) ran,
      f.valid,
      f.found,
      f.list,
    )
