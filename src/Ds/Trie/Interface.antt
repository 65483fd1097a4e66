-- ===== src/Ds/Trie/Interface.antt =====
-- src/ds/trie.h: the trie as a container of the cache.
use adrift.Base.{◌≡◌, false}
use adrift.Ds.TextMap.{TextMap}
use adrift.Ds.Trie.{TrieNode, is_null, trie_find, trie_insert}
use adrift.Ds.Trie.Laws.{trie_view, trie_find-view, trie_insert-view}

instance abbrev pub trie_map : TextMap TrieNode
trie_map = record {
  IsMap = λ root. is_null root ≡ false;
  Fits = λ t. Unit;
  view = trie_view;
  find = trie_find;
  insert = trie_insert;
  find_view = λ root t rest there key. trie_find-view root there t rest key;
  insert_view = λ root t rest node s there key fits.
      let (root', there', run, reads) = trie_insert-view root there t rest key node s in
      (root', run, there', reads);
}
