-- ===== src/Hosts.antt =====
-- src/main.c, `read_hosts_file`: the records of the hosts file. `fgets` yields the lines one by one.
-- `strtok` and `inet_pton` are parameters: `tokens` returns the first two tokens of a line, without
-- a NUL, and `inet_pton` the four bytes of an address.
pub mod Laws
pub mod Blocked
use adrift.Base.{
  ℕ, ◌++◌, Bool, true, false, ◌&&◌, Option, none, some, List, [], ◌∷◌, Run, ok, fault, read_overrun,
  ◌>>=◌, ◌==◌, if◌then◌else◌, length,
}
use adrift.Cache.{Cache, cache_insert, cache_type_ipv4, cache_type_ipv6, cache_type_cname}
use adrift.Ds.List.{answer, list_node_ctor_with_info}
use adrift.Protocol.Record.{DnsResourceRecord}

-- The last byte of a token; `strtok` returns none that is empty.
unfoldable pub last_byte : List ℕ → Run ℕ
last_byte [] = fault read_overrun
last_byte (c ∷ []) = ok c
last_byte (c ∷ d ∷ t) = last_byte (d ∷ t)

-- `if (domain[strlen(domain) - 1] != '.')` a dot is added.
unfoldable pub with_dot : List ℕ → Run (List ℕ)
unfolding last_byte
with_dot domain = do c ← last_byte domain; ok (if c == b'.' then domain else domain ++ b'.' ∷ [])

-- The record of a line.
abbrev pub hosts_record : List ℕ → List ℕ → DnsResourceRecord
hosts_record domain addr = record {
  name = domain ++ 0 ∷ [];
  rtype = 1;
  class = 1;
  ttl = 180;
  rdlength = 4;
  rdata = addr;
}

-- `addr.s_addr == 0`
unfoldable pub is_zero_address : List ℕ → Bool
is_zero_address [] = true
is_zero_address (b ∷ bs) = b == 0 && is_zero_address bs

-- What a line with an address and a domain does to the cache; for the address 0.0.0.0 the same
-- node goes into three lists.
unfoldable pub insert_host : List ℕ → List ℕ → Cache → Run Cache
insert_host domain addr c = do
  (node, s) ← list_node_ctor_with_info (hosts_record domain addr) answer 0 0 c.store
  c₁ ← cache_insert cache_type_ipv4 (domain ++ 0 ∷ []) node (record c { store = s })
  let rest = (do
    c₂ ← cache_insert cache_type_ipv6 (domain ++ 0 ∷ []) node c₁
    cache_insert cache_type_cname (domain ++ 0 ∷ []) node c₂)
  if is_zero_address addr then rest else ok c₁

-- The part of a round behind `strtok`: without two tokens, or without an address, nothing happens.
unfoldable pub read_tokens :
    (List ℕ → Option (List ℕ)) → Option (List ℕ × List ℕ) → Cache → Run Cache
read_tokens inet_pton none c = ok c
read_tokens inet_pton (some (ip, domain)) c = do
  domain' ← with_dot domain
  elim (inet_pton ip) [ none ↦ ok c | some addr ↦ insert_host domain' addr c ]

-- The loop over the lines; an empty line has no token either.
unfoldable pub read_hosts_file :
    (List ℕ → Option (List ℕ × List ℕ))
    → (List ℕ → Option (List ℕ))
    → List (List ℕ)
    → Cache
    → Run Cache
unfolding read_tokens
read_hosts_file tokens inet_pton [] c = ok c
read_hosts_file tokens inet_pton (line ∷ lines) c = do
  c' ← read_tokens inet_pton (tokens line) c
  read_hosts_file tokens inet_pton lines c'
