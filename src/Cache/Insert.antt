-- ===== src/Cache/Insert.antt =====
-- src/protocol/cache.c: a record that `cache_insert` has stored is found by `cache_find`.
use adrift.Base.{
  ℕ, suc, ◌<◌, ◌≡◌, ◌≢◌, refl, sym, ap, ◌∙◌, none, some, List, [], ◌∷◌, ◌++◌, ok, length, ◌^◌,
  ne→==_false, arith,
}
use adrift.Util.Text.{same_refl}
use adrift.Ds.List.{Store, ListNode, list_ctor}
use adrift.Ds.List.Segment.{Item, item_of, NotIn}
use adrift.Ds.List.Push.{IsList, list_ctor-IsList, list_push_back-IsList}
use adrift.Ds.HashMap.{key_size}
use adrift.Ds.Trie.Laws.{IsKey}
use adrift.Cache.{Cache, cache_insert, cache_find}
use adrift.Cache.Laws.{IsCache, Stored, cache_view, cache_find-view, cache_insert-view}

-- A list's head node when `list_ctor` has made it.
abbrev pub head_item : Item
head_item = record { content = none; record_time = 0; ttl = 0; rr_type = 0 }

-- `cache_insert` has ended in `c'`, where the name leads to list `l` of the nodes `ys`.
pub record Found (c : Cache) (cache_type : ℕ) (t rest : List ℕ) (node l : ℕ) (ys : List (ℕ × Item))
    (c' : Cache) : Type 0 where
  pub ran : cache_insert cache_type (t ++ 0 ∷ rest) node c ≡ ok c'
  pub valid : IsCache c' cache_type
  pub found : cache_find cache_type (t ++ 0 ∷ rest) c' ≡ ok (some l)
  pub list : IsList c'.store l ys
  pub others : (k : ℕ) → k ≢ cache_type → (c'.trie k ≡ c.trie k) × (c'.hash_map k ≡ c.hash_map k)

-- But for a node and a list that are new, and for `node`, the store of `c'` is that of `c`.
pub record Apart (c : Cache) (node : ℕ) (c' : Cache) : Type 0 where
  pub nodes : (a : ℕ) → a ≢ c.store.free_node → a ≢ node → c'.store.node a ≡ c.store.node a
  pub lists : (k : ℕ) → k ≢ c.store.free_list → c'.store.list k ≡ c.store.list k
  pub next_node : c'.store.free_node ≡ suc c.store.free_node
  pub next_list : c'.store.free_list ≡ suc c.store.free_list

pub store_apart :
    (c : Cache) (s : Store) (cache_type : ℕ) (t : List ℕ)
    → cache_view (record c { store = s }) cache_type t ≡ cache_view c cache_type t
unfolding cache_view
store_apart c s cache_type t = refl

module _ (c : Cache) (cache_type : ℕ) (v : IsCache c cache_type) (t rest : List ℕ) (key : IsKey t)
    (fits : length t < key_size) (node : ℕ) (m : ListNode) (there : c.store.node node ≡ some m)
    (ends : m.next ≡ none) where
  -- The store after the insertion is that of `list_push_back`.
  put-Found :
      (l : ℕ) (ys : List (ℕ × Item)) (c' : Cache) (s : Store)
      → cache_insert cache_type (t ++ 0 ∷ rest) node c ≡ ok (record c' { store = s })
      → Stored c cache_type t l c'
      → IsList s l ys
      → Found c cache_type t rest node l ys (record c' { store = s })
  put-Found l ys c' s ran stored list =
      let c'' : Cache = record c' { store = s } in
      let valid : IsCache c'' cache_type = record {
        root = stored.valid.root;
        map = stored.valid.map;
      } in
      let reads : cache_view c' cache_type t ≡ some l =
        stored.reads t key ∙ rw (same_refl t) refl in
      record {
        ran = ran;
        valid = valid;
        found =
            cache_find-view c'' cache_type valid t rest key
            ∙ ap ok (store_apart c' s cache_type t ∙ reads);
        list = list;
        others = stored.others;
      }

  -- In a cache whose containers for a type are well formed, a node without a next one, stored under
  -- a name of at most 45 bytes from 33 to 127 that the cache does not hold, stands alone behind a
  -- new head node in the list that `cache_find` then returns for the name; the containers stay well
  -- formed, those of the other types are as before, and one node and one list have been allocated. Other nodes and lists are as
  -- before. The node's address is not the next one to be allocated.
  pub cache_insert-Found_absent :
      cache_view c cache_type t ≡ none
      → node ≢ c.store.free_node
      → (c' : Cache) × Found c cache_type t rest node c.store.free_list
          ((c.store.free_node, head_item) ∷ (node, item_of m) ∷ [])
          c'
        × Apart c node c'
  unfolding list_ctor
  cache_insert-Found_absent absent old =
      let (c', ran, stored) =
        rw absent at (cache_insert-view c cache_type v t rest key node fits) in
      let (s, pushed, list', frame) =
        list_push_back-IsList (list_ctor c.store).1 c.store.free_list node m
          ((c.store.free_node, head_item) ∷ []) (list_ctor-IsList c.store) ((λ e. old (sym e)), tt)
          (rw (ne→==_false c.store.free_node node (λ e. old (sym e))) there) ends (omega arith) in
      (
        record c' { store = s },
        put-Found c.store.free_list ((c.store.free_node, head_item) ∷ (node, item_of m) ∷ []) c' s
            (ran ∙ rw pushed) stored list',
        record {
          nodes = λ a f g.
              frame.nodes a ((λ e. f (sym e)), ((λ e. g (sym e)), tt))
              ∙ rw (ne→==_false c.store.free_node a (λ e. f (sym e))) refl;
          lists =
              λ k f. frame.lists k f ∙ rw (ne→==_false c.store.free_list k (λ e. f (sym e))) refl;
          next_node = frame.next_node;
          next_list = frame.next_list;
        },
      )

  -- In a cache whose containers for a type are well formed, a node without a next one, stored under
  -- a name of at most 45 bytes from 33 to 127 that leads to a well-formed list in which the node
  -- does not stand, comes to the end of that list, which `cache_find` then returns for the name;
  -- the containers stay well formed, and those of the other types are as before.
  pub cache_insert-Found_present :
      (l : ℕ) (xs : List (ℕ × Item))
      → cache_view c cache_type t ≡ some l
      → IsList c.store l xs
      → NotIn node xs
      → length xs < 2 ^ 64
      → (c' : Cache) × Found c cache_type t rest node l (xs ++ (node, item_of m) ∷ []) c'
  cache_insert-Found_present l xs present list fresh room =
      let (c', ran, stored) =
        rw present at (cache_insert-view c cache_type v t rest key node fits) in
      let (s, pushed, list', frame) =
        list_push_back-IsList c.store l node m xs list fresh there ends room in
      (
        record c' { store = s },
        put-Found l (xs ++ (node, item_of m) ∷ []) c' s (ran ∙ rw pushed) stored list',
      )
