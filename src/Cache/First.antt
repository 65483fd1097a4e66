-- ===== src/Cache/First.antt =====
-- src/protocol/cache.c and src/ds/list.h: a node that is made for a record and stored under a new
-- name, as `read_hosts_file` and `handle_receive_response` do.
use adrift.Base.{
  ℕ, suc, ◌≡◌, ◌≢◌, ◌<◌, refl, ◌∙◌, none, some, List, [], ◌∷◌, ◌++◌, ok, length, update, eqb_refl,
  arith,
}
use adrift.Cache.{Cache, cache_insert, cache_find}
use adrift.Cache.Insert.{head_item, cache_insert-Found_absent, store_apart}
use adrift.Cache.Laws.{IsCache, cache_view}
use adrift.Ds.HashMap.{key_size}
use adrift.Ds.List.{Store, ListNode, list_node_ctor_with_info}
use adrift.Ds.List.Push.{IsList}
use adrift.Ds.List.Segment.{Item}
use adrift.Ds.List.Update.{Below}
use adrift.Ds.Trie.Laws.{IsKey}
use adrift.Protocol.Record.{DnsResourceRecord}

-- What the node carries.
abbrev pub record_item : DnsResourceRecord → (rr_type record_time ttl : ℕ) → Item
record_item r rr_type record_time ttl = record {
  content = some r;
  record_time = record_time;
  ttl = ttl;
  rr_type = rr_type;
}

-- In `c'` the name leads to a list of its own with this item alone; the rest is as in `c`.
pub record First (c : Cache) (cache_type : ℕ) (t : List ℕ) (item : Item) (c' : Cache) : Type 0 where
  pub valid : IsCache c' cache_type
  pub found : cache_find cache_type (t ++ 0 ∷ []) c' ≡ ok (some c.store.free_list)
  pub list :
      IsList c'.store c.store.free_list
        ((suc c.store.free_node, head_item) ∷ (c.store.free_node, item) ∷ [])
  pub below :
      Below c'.store.free_node ((suc c.store.free_node, head_item) ∷ (c.store.free_node, item) ∷ [])
  pub next_node : c'.store.free_node ≡ suc (suc c.store.free_node)
  pub next_list : c'.store.free_list ≡ suc c.store.free_list
  pub others : (k : ℕ) → k ≢ cache_type → (c'.trie k ≡ c.trie k) × (c'.hash_map k ≡ c.hash_map k)

module _ (r : DnsResourceRecord) (rr_type record_time ttl : ℕ) where
  node_of_record : ListNode
  node_of_record = record {
    content = some r;
    record_time = record_time;
    ttl = ttl;
    rr_type = rr_type;
    prev = none;
    next = none;
  }

  -- The store with the node at the next free address.
  with_node : Store → Store
  unfolding node_of_record
  with_node s = record s {
    node =
        update
          (update s.node s.free_node
            (some (record node_of_record { rr_type = 0; record_time = 0; ttl = 0 })))
          s.free_node (some node_of_record);
    free_node = suc s.free_node;
  }

  list_node_ctor_with_info-new :
      (s : Store)
      → list_node_ctor_with_info r rr_type record_time ttl s ≡ ok (s.free_node, with_node s)
  unfolding list_node_ctor_with_info with_node node_of_record
  list_node_ctor_with_info-new s = rw (eqb_refl s.free_node) refl

  -- A node made for a record and stored under a name that the cache does not hold for the type.
  pub store_record-First :
      (c : Cache) (cache_type : ℕ) (t : List ℕ)
      → IsCache c cache_type
      → IsKey t
      → length t < key_size
      → cache_view c cache_type t ≡ none
      → (s : Store) × (c' : Cache) × (list_node_ctor_with_info r rr_type record_time ttl c.store
          ≡ ok (c.store.free_node, s))
        × (cache_insert cache_type (t ++ 0 ∷ []) c.store.free_node (record c { store = s }) ≡ ok c')
        × First c cache_type t (record_item r rr_type record_time ttl) c'
  unfolding with_node node_of_record
  store_record-First c cache_type t v key fits absent =
      let s = with_node c.store in
      let (c', f, next) =
        cache_insert-Found_absent (record c { store = s }) cache_type
          (record { root = v.root; map = v.map }) t [] key fits c.store.free_node node_of_record
          (rw (eqb_refl c.store.free_node) refl) refl (store_apart c s cache_type t ∙ absent)
          (omega arith) in
      (
        s,
        c',
        list_node_ctor_with_info-new c.store,
        f.ran,
        record {
          valid = f.valid;
          found = f.found;
          list = f.list;
          below = (omega arith, (omega arith, tt));
          next_node = next.next_node;
          next_list = next.next_list;
          others = f.others;
        },
      )

-- Containers that are the same hold the same.
pub same_containers :
    (c c' : Cache) (k : ℕ)
    → (c'.trie k ≡ c.trie k) × (c'.hash_map k ≡ c.hash_map k)
    → IsCache c k
    → IsCache c' k × ((u : List ℕ) → cache_view c' k u ≡ cache_view c k u)
unfolding cache_view
same_containers c c' k (tries, maps) v =
    (record { root = rw tries (v.root); map = rw maps (v.map) }, λ u. rw (tries, maps) refl)
