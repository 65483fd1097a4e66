-- ===== src/Cache/Faults.antt =====
-- src/protocol/cache.c: names on which the cache leaves its arrays.
use mathlib.Core.List.{reverse-append}
use adrift.Base.{
  ℕ, ◌≤◌, ◌<◌, ◌≡◌, ◌≢◌, ◌⊎◌, none, List, [], ◌∷◌, ◌++◌, arith, reverse, fault, read_overrun,
  write_overrun, length, true, false, ltb, lt→ltb, length-append,
}
use adrift.Util.Text.{IsText, stream_length-text}
use adrift.Ds.HashMap.{key_size}
use adrift.Ds.HashMap.Methods.{hash_map_insert_long}
use adrift.Ds.Trie.{trie_find}
use adrift.Ds.Trie.Laws.{IsKey, IsKeyByte, IsKey-IsText, find_path_outside, before_nul-text}
use adrift.Cache.{Cache, valid_key, cache_insert, cache_find}
use adrift.Cache.Laws.{IsCache, cache_view, valid_key-text, check_key-valid}

IsText-append : (t u : List ℕ) → IsText t → IsText u → IsText (t ++ u)
IsText-append [] u h k = k
IsText-append (c ∷ t) u h k = (h.0, IsText-append t u h.1 k)

-- The validity test looks at the first byte alone, each time: a name of 2 to 16 bytes with a good
-- first byte and a last byte that has no child passes it, and in a cache whose containers are well
-- formed the lookup then reads outside the children.
pub cache_find_outside :
    (c : Cache) (cache_type a b : ℕ) (w rest : List ℕ)
    → IsCache c cache_type
    → IsKeyByte a
    → IsText w
    → b ≢ 0
    → (b < 33) ⊎ (128 ≤ b)
    → length w < 15
    → cache_find cache_type ((a ∷ w ++ b ∷ []) ++ 0 ∷ rest) c ≡ fault read_overrun
unfolding cache_find trie_find valid_key
cache_find_outside c cache_type a b w rest v good h k out short =
    let t : List ℕ = a ∷ w ++ b ∷ [] in
    let is_text : IsText t = IsText-append (a ∷ w) (b ∷ []) (omega arith, h) (k, tt) in
    let backwards = reverse-append (a ∷ w) (b ∷ []) in
    rw
      (
        check_key-valid a t rest (ground arith) is_text,
        stream_length-text t rest is_text,
        size,
        before_nul-text t rest is_text,
        backwards,
      )
      (find_path_outside b (reverse (a ∷ w)) (c.trie cache_type) v.root out)
  where
    size : ltb 16 (length (a ∷ w ++ b ∷ [])) ≡ false
    size = ground (arith, length-append (a ∷ w) (b ∷ []))

-- In a cache whose containers are well formed, a new name of 47 bytes or more from 33 to 127 is
-- copied past the end of its key array.
pub cache_insert_overrun :
    (c : Cache) (cache_type : ℕ) (t rest : List ℕ) (added : ℕ)
    → IsCache c cache_type
    → IsKey t
    → key_size < length t
    → cache_view c cache_type t ≡ none
    → cache_insert cache_type (t ++ 0 ∷ rest) added c ≡ fault write_overrun
unfolding cache_insert cache_view
cache_insert_overrun c cache_type t rest added v key long absent =
    let is_text = IsKey-IsText t key in
    let size : ltb 16 (length t) ≡ true = lt→ltb 16 (length t) (omega arith) in
    rw (
      valid_key-text t rest key,
      stream_length-text t rest is_text,
      size,
      hash_map_insert_long (c.hash_map cache_type) v.map t rest added c.store is_text long
          (rw size at absent),
    )
