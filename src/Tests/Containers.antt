-- ===== src/Tests/Containers.antt =====
-- src/ds/list.h, hash_map.h and trie.h: the theorems at small containers.
use adrift.Base.{
  ℕ, none, some, List, [], ◌∷◌, ◌++◌, ◌≡◌, false, refl, ok, fault, bad_pointer, ◌>>=◌, ◌+◌, arith,
  length, update, if◌then◌else◌,
}
use adrift.Util.Text.{IsText, same}
use adrift.Ds.List.{
  Store, ListNode, update_nodes, is_expired, set_next, set_prev, list_dtor, free_nodes, list_ctor,
  list_push_back, list_erase, list_update, list_size, is_list_empty,
}
use adrift.Ds.List.Segment.{Item, item_of}
use adrift.Ds.List.Push.{IsList, Untouched, list_push_back-IsList}
use adrift.Handle.Race.{stale_node}
use adrift.Handle.State.{walk}
use adrift.Ds.List.Update.{Gone, kept, list_update-IsList}
use adrift.Ds.HashMap.{HashMapEntry, HashMap, hash_map_ctor, hash_map_rehash, hash_map_insert}
use adrift.Ds.HashMap.Rehash.{IsTable, view, hash_map_rehash-view}
use adrift.Ds.HashMap.Methods.{Inserted, hash_map_ctor-IsHashMap, hash_map_insert-absent}
use adrift.Ds.List.Dtor.{Freed}
use adrift.Ds.HashMap.Shrink.{hash_map_shrink, shrink_table, shrink_chain, hash_map_entry_dtor}
use adrift.Ds.Trie.Delete.{trie_delete-view}
use adrift.Ds.Trie.{TrieNode, null, node, is_null, trie_delete, trie_dtor, trie_node_dtor}
use adrift.Ds.Trie.Laws.{IsKey, at_path, trie_view}

-- Three nodes behind one another: the head node, a record that runs out at 60, one at 300.
abbrev pub head_node : ListNode
head_node = record {
  content = none;
  record_time = 0;
  ttl = 0;
  rr_type = 0;
  prev = none;
  next = some 1;
}

abbrev pub old_node : ListNode
old_node = record {
  content = none;
  record_time = 20;
  ttl = 40;
  rr_type = 1;
  prev = some 0;
  next = some 2;
}

abbrev pub new_node : ListNode
new_node = record {
  content = none;
  record_time = 200;
  ttl = 100;
  rr_type = 1;
  prev = some 1;
  next = none;
}

-- A node that stands in no list.
abbrev pub lone_node : ListNode
lone_node = record {
  content = none;
  record_time = 210;
  ttl = 90;
  rr_type = 2;
  prev = none;
  next = none;
}

abbrev pub linked_store : Store
linked_store = record {
  node =
      update
        (update (update (update (λ _. none) 0 (some head_node)) 1 (some old_node)) 2
          (some new_node))
        3 (some lone_node);
  list = update (λ _. none) 0 (some (record { head = some 0; tail = some 2; size = 2 }));
  free_node = 4;
  free_list = 1;
}

abbrev pub linked : List (ℕ × Item)
linked = (0, item_of head_node) ∷ (1, item_of old_node) ∷ (2, item_of new_node) ∷ []

pub linked-IsList : IsList linked_store 0 linked
linked-IsList = record {
  descriptor = record { head = some 0; tail = some 2; size = 2 };
  present = refl;
  linked = (
    refl,
    (
      head_node,
      refl,
      refl,
      refl,
      (refl, (old_node, refl, refl, refl, (refl, (new_node, refl, refl, refl, (refl, refl))))),
    ),
  );
  distinct = ground arith;
  counted = refl;
  bounded = omega arith;
}

list_size_run : list_size 0 linked_store ≡ ok 2
unfolding list_size
list_size_run = refl

is_list_empty_run : is_list_empty 0 linked_store ≡ ok false
unfolding is_list_empty
is_list_empty_run = refl

list_push_back-IsList_example :
    (t : Store) × (list_push_back 0 3 linked_store ≡ ok t)
    × IsList t 0 (linked ++ (3, item_of lone_node) ∷ [])
    × Untouched (linked ++ (3, item_of lone_node) ∷ []) 0 linked_store t
list_push_back-IsList_example =
    list_push_back-IsList linked_store 0 3 lone_node linked linked-IsList (ground arith) refl refl
      (omega arith)

kept_run :
    kept 250 ((1, item_of old_node) ∷ (2, item_of new_node) ∷ []) ≡ (2, item_of new_node) ∷ []
unfolding kept
kept_run = refl

list_update-IsList_example :
    let xs : List (ℕ × Item) = (1, item_of old_node) ∷ (2, item_of new_node) ∷ [] in
    (t : Store) × (list_update 250 0 linked_store ≡ ok (length (kept 250 xs), t))
    × IsList t 0 ((0, item_of head_node) ∷ kept 250 xs)
    × Untouched linked 0 linked_store t
    × Gone 250 t xs
list_update-IsList_example =
    list_update-IsList 250 linked_store 0 (0, item_of head_node)
      ((1, item_of old_node) ∷ (2, item_of new_node) ∷ []) linked-IsList refl (ground arith)

stale_node_example :
    let xs : List (ℕ × Item) = (1, item_of old_node) ∷ (2, item_of new_node) ∷ [] in
    (n : ℕ) × (t : Store) × (list_update 250 0 linked_store ≡ ok (n, t))
    × IsList t 0 ((0, item_of head_node) ∷ kept 250 xs)
    × (update_nodes 3 260 0 (some 1) 1 t ≡ fault bad_pointer)
    × (walk 3 (some 1) t ≡ fault bad_pointer)
stale_node_example =
    stale_node 250 260 2 1 0 linked_store (0, item_of head_node) (1, item_of old_node) []
      ((2, item_of new_node) ∷ []) linked-IsList refl (ground arith) refl

-- The texts "abc.cn." and "a.".
abbrev pub key : List ℕ
key = b'a' ∷ b'b' ∷ b'c' ∷ b'.' ∷ b'c' ∷ b'n' ∷ b'.' ∷ []

abbrev pub other_key : List ℕ
other_key = b'a' ∷ b'.' ∷ []

pub key-IsKey : IsKey key
key-IsKey = ground arith

key-IsText : IsText key
key-IsText = ground arith

-- A map with "abc.cn." in it.
abbrev filled :
    (m' : HashMap) × Inserted hash_map_ctor key (list_ctor linked_store).0 m'
    × (hash_map_insert hash_map_ctor (key ++ 0 ∷ []) 3 linked_store ≡ (
        list_push_back (list_ctor linked_store).0 3 (list_ctor linked_store).1 >>= λ s'.
        ok (m', s')))
filled =
    hash_map_insert-absent hash_map_ctor (hash_map_ctor-IsHashMap.0) key [] 3 linked_store
      key-IsText (omega arith) (hash_map_ctor-IsHashMap.1 key)

hash_map_rehash-view_example :
    (m' : HashMap) × (hash_map_rehash filled.0 32 ≡ ok m')
    × IsTable m'
    × (m'.capacity ≡ 32)
    × (m'.size ≡ filled.0.size)
    × ((t : List ℕ) → view m' t ≡ view filled.0 t)
hash_map_rehash-view_example = hash_map_rehash-view filled.0 32 filled.1.valid.table (omega arith)

-- A trie with "a." in it.
abbrev pub planted : TrieNode
planted =
    node none
      (update (λ _. null) 13 (node none (update (λ _. null) 64 (node (some 0) (λ _. null)))))

planted_view : trie_view planted other_key ≡ some 0
unfolding trie_view at_path
planted_view = refl

trie_delete-view_example :
    (root' : TrieNode) × (s' : Store) × (trie_delete planted (other_key ++ 0 ∷ []) linked_store
      ≡ ok (root', s'))
    × (is_null root' ≡ false)
    × ((u : List ℕ)
        → IsKey u
        → trie_view root' u ≡ (if same other_key u then none else trie_view planted u))
    × Freed s' linked
    × (s'.list 0 ≡ none)
    × Untouched linked 0 linked_store s'
trie_delete-view_example =
    trie_delete-view planted other_key [] linked_store 0 linked refl (ground arith) planted_view
      linked-IsList (ground arith)

-- An entry whose list runs out at 320 or stays, in a chain by itself or before another.
abbrev entry : HashMapEntry
entry = record { hash_ = 0; key = []; value = 0 }

abbrev chained : List HashMapEntry → HashMap
chained es = record { table = (entry ∷ es) ∷ []; size = 1 + length es; capacity = 1 }

shrink_keeps :
    ((m : HashMap) × (s : Store) × (hash_map_shrink 250 (chained []) linked_store ≡ ok (m, s))
      × (m.size ≡ 1))
unfolding hash_map_shrink shrink_table shrink_chain list_update update_nodes is_expired list_erase
    set_next set_prev hash_map_entry_dtor
shrink_keeps = (_, _, refl, refl)

shrink_removes :
    ((m : HashMap) × (s : Store) × (hash_map_shrink 320 (chained []) linked_store ≡ ok (m, s))
      × (m.size ≡ 0)
      × (s.list 0 ≡ none))
unfolding hash_map_shrink shrink_table shrink_chain list_update update_nodes is_expired list_erase
    set_next set_prev hash_map_entry_dtor
shrink_removes = (_, _, refl, refl, refl)

-- The entry behind one that is removed is used after it has been freed.
shrink_faults : hash_map_shrink 320 (chained (entry ∷ [])) linked_store ≡ fault bad_pointer
unfolding hash_map_shrink shrink_table shrink_chain list_update update_nodes is_expired list_erase
    set_next set_prev hash_map_entry_dtor
shrink_faults = refl

trie_freed :
    (s : Store) × (trie_dtor planted linked_store ≡ ok s) × (s.list 0 ≡ none) × (s.node 2 ≡ none)
unfolding trie_dtor trie_node_dtor list_dtor free_nodes
trie_freed = (_, refl, refl, refl)
