-- ===== src/Ds/Trie.antt =====
-- src/ds/trie.h: a trie over the bytes 33 to 127, walked from a key's last byte to its first. No
-- pointer but its parent's leads to a node, so a trie is a tree; the lists stand in the store.
pub mod Laws
pub mod Interface
pub mod Delete
use adrift.Base.{
  ℕ, zero, suc, ◌+◌, ◌-◌, Bool, true, false, Option, none, some, List, [], ◌∷◌, reverse, Run, ok,
  fault, read_overrun, bad_pointer, ◌>>=◌, ◌==◌, ltb, ◌||◌, not, if◌then◌else◌, update,
}
use adrift.Ds.List.{Store, list_ctor, list_push_back, list_dtor}

-- A pointer to a node: NULL, or the node's `data` and its 95 children.
pub data TrieNode : Type 0 where
  null : TrieNode
  node : (content : Option ℕ) (child : ℕ → TrieNode) → TrieNode

unfoldable pub trie_node_ctor : TrieNode
trie_node_ctor = node none (λ _. null)

-- `trie_ctor`: the root.
unfoldable pub trie_ctor : TrieNode
unfolding trie_node_ctor
trie_ctor = trie_node_ctor

-- The bytes before the NUL, which the first loop runs through.
pub before_nul : List ℕ → Run (List ℕ)
before_nul [] = fault read_overrun
before_nul (c ∷ p) = let rest = (do t ← before_nul p; ok (c ∷ t)) in if c == 0 then ok [] else rest

-- `*end - 33`, an index of the 95 children.
unfoldable pub child_index : ℕ → Run ℕ
child_index c = if ltb c 33 || not (ltb (c - 33) 95) then fault read_overrun else ok (c - 33)

-- `if (node->child[i] == NULL) node->child[i] = trie_node_ctor();`
unfoldable pub present : TrieNode → TrieNode
unfolding trie_node_ctor
present null = trie_node_ctor
present (node content child) = node content child

-- `if (node->data == NULL) node->data = list_ctor();`
abbrev pub list_or_new : Option ℕ → Store → ℕ × Store
list_or_new none s = list_ctor s
list_or_new (some l) s = (l, s)

-- The second loop and what follows it.
pub insert_path : List ℕ → TrieNode → ℕ → Store → Run (TrieNode × Store)
insert_path p null n s = fault bad_pointer
insert_path [] (node content child) n s = do
  let l = (list_or_new content s).0
  s' ← list_push_back l n (list_or_new content s).1
  ok (node (some l) child, s')
insert_path (c ∷ p) (node content child) n s = do
  i ← child_index c
  (t, s') ← insert_path p (present (child i)) n s
  ok (node content (update child i t), s')

unfoldable pub trie_insert : TrieNode → List ℕ → ℕ → Store → Run (TrieNode × Store)
unfolding before_nul child_index present insert_path
trie_insert root key n s = do t ← before_nul key; insert_path (reverse t) root n s

abbrev pub is_null : TrieNode → Bool
is_null null = true
is_null (node content child) = false

pub find_path : List ℕ → TrieNode → Run (Option ℕ)
find_path p null = fault bad_pointer
find_path [] (node content child) = ok content
find_path (c ∷ p) (node content child) = do
  i ← child_index c
  let rest = find_path p (child i)
  if is_null (child i) then ok none else rest

unfoldable pub trie_find : TrieNode → List ℕ → Run (Option ℕ)
unfolding before_nul child_index find_path
trie_find root key = do t ← before_nul key; find_path (reverse t) root

-- The second loop of `trie_delete` and what follows it.
unfoldable pub delete_path : List ℕ → TrieNode → Store → Run (TrieNode × Store)
delete_path p null s = fault bad_pointer
delete_path [] (node content child) s = do s' ← list_dtor content s; ok (node none child, s')
delete_path (c ∷ p) (node content child) s = do
  i ← child_index c
  let rest = (do (t, s') ← delete_path p (child i) s; ok (node content (update child i t), s'))
  if is_null (child i) then ok (node content child, s) else rest

unfoldable pub trie_delete : TrieNode → List ℕ → Store → Run (TrieNode × Store)
unfolding before_nul
trie_delete root key s = do t ← before_nul key; delete_path (reverse t) root s

-- A loop over the numbers below `n` from `i` on.
abbrev each : ℕ → ℕ → (ℕ → Store → Run Store) → Store → Run Store
each zero i f s = ok s
each (suc n) i f s = do s' ← f i s; each n (suc i) f s'

-- The lists of a node are freed before those of its children; the nodes are values.
unfoldable pub trie_node_dtor : TrieNode → Store → Run Store
trie_node_dtor null s = ok s
trie_node_dtor (node content child) s = do
  s' ← list_dtor content s
  each 95 0 (λ i. trie_node_dtor (child i)) s'

unfoldable pub trie_dtor : TrieNode → Store → Run Store
trie_dtor root s = trie_node_dtor root s
