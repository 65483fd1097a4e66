-- ===== src/Hosts/Blocked.antt =====
-- src/main.c, `read_hosts_file`: a line with the address 0.0.0.0, whose node goes into three lists.
use adrift.Base.{
  ℕ, suc, ◌<◌, ◌≡◌, ◌≢◌, refl, sym, ap, subst, ◌∙◌, true, none, some, List, [], ◌∷◌, ◌++◌, ok,
  length, arith,
}
use adrift.Cache.{
  Cache, cache_find, cache_insert, cache_type_ipv4, cache_type_ipv6, cache_type_cname,
}
use adrift.Cache.First.{same_containers, store_record-First}
use adrift.Cache.Insert.{Apart, cache_insert-Found_absent}
use adrift.Cache.Laws.{IsCache, cache_view, cache_find-view}
use adrift.Ds.HashMap.{key_size}
use adrift.Ds.List.{answer}
use adrift.Ds.List.Segment.{Item, item_of}
use adrift.Ds.Trie.Laws.{IsKey}
use adrift.Handle.Blocked.{Ahead, IsList-Ahead, Ahead-shared}
use adrift.Hosts.{hosts_record, is_zero_address, insert_host}
use adrift.Hosts.Laws.{hosts_item}

-- The name leads to the record in the containers of a type.
unfoldable pub Leads : Cache → ℕ → List ℕ → List ℕ → Type 0
Leads c cache_type name addr =
    (l head_at node_at : ℕ) × (cache_find cache_type (name ++ 0 ∷ []) c ≡ ok (some l))
    × Ahead c.store l head_at node_at (hosts_item name addr)

-- The containers of a type are well formed and do not hold the name.
unfoldable pub Lacks : Cache → ℕ → List ℕ → Type 0
Lacks c cache_type name = IsCache c cache_type × (cache_view c cache_type name ≡ none)

-- What a name leads to in containers that stay the same.
found_again :
    (c c' : Cache) (k : ℕ) (name : List ℕ) (l : ℕ)
    → (c'.trie k ≡ c.trie k) × (c'.hash_map k ≡ c.hash_map k)
    → IsKey name
    → IsCache c k
    → cache_find k (name ++ 0 ∷ []) c ≡ ok (some l)
    → IsCache c' k × (cache_find k (name ++ 0 ∷ []) c' ≡ ok (some l))
found_again c c' k name l same key v found =
    let (v', views) = same_containers c c' k same v in
    (
      v',
      cache_find-view c' k v' name [] key
          ∙ (ap ok (views name) ∙ (sym (cache_find-view c k v name [] key) ∙ found)),
    )

-- The node that a list ends with is put into a new list for another type.
record Shared (c : Cache) (cache_type : ℕ) (name : List ℕ) (n : ℕ) (i : Item) (c' : Cache)
    : Type 0 where
  pub ran : cache_insert cache_type (name ++ 0 ∷ []) n c ≡ ok c'
  pub valid : IsCache c' cache_type
  pub found : cache_find cache_type (name ++ 0 ∷ []) c' ≡ ok (some c.store.free_list)
  pub others : (k : ℕ) → k ≢ cache_type → (c'.trie k ≡ c.trie k) × (c'.hash_map k ≡ c.hash_map k)
  pub apart : Apart c n c'
  pub ahead : Ahead c'.store c.store.free_list c.store.free_node n i

share :
    (c : Cache) (cache_type : ℕ) (name : List ℕ) (l head_at n : ℕ) (i : Item)
    → IsKey name
    → length name < key_size
    → Lacks c cache_type name
    → Ahead c.store l head_at n i
    → n ≢ c.store.free_node
    → (c' : Cache) × Shared c cache_type name n i c'
unfolding Lacks
share c cache_type name l head_at n i key short (v, absent) a old =
    let (c', f, apart) =
      cache_insert-Found_absent c cache_type v name [] key short n a.second a.at_node a.ends absent
        old in
    let ahead =
      IsList-Ahead c'.store c.store.free_list c.store.free_node n (item_of a.second) f.list
        (omega (arith, apart.next_node, a.room)) in
    (
      c',
      record {
        ran = f.ran;
        valid = f.valid;
        found = f.found;
        others = f.others;
        apart = apart;
        ahead = subst (Ahead c'.store c.store.free_list c.store.free_node n) a.carries ahead;
      },
    )

Lacks-same :
    (c c' : Cache) (k : ℕ) (name : List ℕ)
    → (c'.trie k ≡ c.trie k) × (c'.hash_map k ≡ c.hash_map k)
    → Lacks c k name
    → Lacks c' k name
unfolding Lacks
Lacks-same c c' k name same (v, absent) =
    let (v', views) = same_containers c c' k same v in (v', views name ∙ absent)

-- In caches of the three types that are well formed and do not hold a name of at most 45 bytes from
-- 33 to 127, a line that gives it the address 0.0.0.0 makes it lead to the line's record in all
-- three of them.
pub insert_host-Leads :
    (name addr : List ℕ) (c : Cache)
    → is_zero_address addr ≡ true
    → IsKey name
    → length name < key_size
    → Lacks c cache_type_ipv4 name
    → Lacks c cache_type_ipv6 name
    → Lacks c cache_type_cname name
    → (c' : Cache) × (insert_host name addr c ≡ ok c')
      × Leads c' cache_type_ipv4 name addr
      × Leads c' cache_type_ipv6 name addr
      × Leads c' cache_type_cname name addr
unfolding insert_host Leads Lacks
insert_host-Leads name addr c zero key short lacks4 lacks6 lacksc =
    let n = c.store.free_node in
    let l = c.store.free_list in
    let i = hosts_item name addr in
    let (v, absent) = lacks4 in
    let (s, c₁, made, ran, f) =
      store_record-First (hosts_record name addr) answer 0 0 c cache_type_ipv4 name v key short
        absent in
    let a = IsList-Ahead c₁.store l (suc n) n i f.list (omega (arith, f.next_node)) in
    let (c₂, g) =
      share c₁ cache_type_ipv6 name l (suc n) n i key short
        (Lacks-same c c₁ cache_type_ipv6 name (f.others 1 (omega arith)) lacks6) a
        (omega (arith, f.next_node)) in
    let lacksc₁ = Lacks-same c c₁ cache_type_cname name (f.others 2 (omega arith)) lacksc in
    let (c₃, h) =
      share c₂ cache_type_cname name c₁.store.free_list c₁.store.free_node n i key short
        (Lacks-same c₁ c₂ cache_type_cname name (g.others 2 (omega arith)) lacksc₁) g.ahead
        (omega (arith, f.next_node, g.apart.next_node)) in
    let a₂ =
      Ahead-shared g.apart a (omega (arith, f.next_list)) (omega (arith, f.next_node)) (omega arith)
        g.ahead in
    let a₃ =
      Ahead-shared h.apart a₂ (omega (arith, f.next_list, g.apart.next_list))
        (omega (arith, f.next_node, g.apart.next_node)) (omega arith) h.ahead in
    let b₃ =
      Ahead-shared h.apart g.ahead (omega (arith, g.apart.next_list))
        (omega (arith, g.apart.next_node)) (omega (arith, f.next_node)) h.ahead in
    let (v₂, at₂) =
      found_again c₁ c₂ cache_type_ipv4 name l (g.others 0 (omega arith)) key f.valid f.found in
    let at₃ = found_again c₂ c₃ cache_type_ipv4 name l (h.others 0 (omega arith)) key v₂ at₂ in
    let again =
      found_again c₂ c₃ cache_type_ipv6 name c₁.store.free_list (h.others 1 (omega arith)) key
        g.valid g.found in
    (
      c₃,
      rw (made, ran, zero, g.ran, h.ran) refl,
      (l, suc n, n, at₃.1, a₃),
      (c₁.store.free_list, c₁.store.free_node, n, again.1, b₃),
      (c₂.store.free_list, c₂.store.free_node, n, h.found, h.ahead),
    )
