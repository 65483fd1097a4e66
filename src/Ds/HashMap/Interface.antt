-- ===== src/Ds/HashMap/Interface.antt =====
-- src/ds/hash_map.h: the hash map as a container of the cache.
use adrift.Base.{
  ℕ, ◌<◌, ◌≡◌, refl, sym, ap, ◌∙◌, some, List, ◌∷◌, ◌++◌, ok, ◌>>=◌, length, if◌then◌else◌,
  Bool-cases, Option-cases, inl, inr,
}
use adrift.Ds.HashMap.{HashMap, key_size, hash_map_find, hash_map_insert}
use adrift.Ds.HashMap.Methods.{
  IsHashMap, hash_map_find-view, hash_map_insert-present, hash_map_insert-absent,
}
use adrift.Ds.HashMap.Rehash.{view}
use adrift.Ds.List.{Store, list_push_back}
use adrift.Ds.TextMap.{TextMap}
use adrift.Ds.Trie.{list_or_new}
use adrift.Ds.Trie.Laws.{IsKey, IsKey-IsText}
use adrift.Util.Text.{same, same_iff}

-- A text that the map holds already.
reads_same :
    (m : HashMap) (t : List ℕ) (l : ℕ)
    → view m t ≡ some l
    → (u : List ℕ) → view m u ≡ (if same t u then some l else view m u)
reads_same m t l there u = elim (Bool-cases (same t u)) [
  | inr n ↦ rw n refl
  | inl y ↦ rw y (ap (view m) (sym ((same_iff t u).0 y)) ∙ there)
]

pub hash_map_insert-view :
    (m : HashMap) (t rest : List ℕ) (node : ℕ) (s : Store)
    → IsHashMap m
    → IsKey t
    → length t < key_size
    → let (l, s') = list_or_new (view m t) s in
      (m' : HashMap) × (hash_map_insert m (t ++ 0 ∷ rest) node s
        ≡ (list_push_back l node s' >>= λ s''. ok (m', s'')))
      × IsHashMap m'
      × ((u : List ℕ) → IsKey u → view m' u ≡ (if same t u then some l else view m u))
hash_map_insert-view m t rest node s v key fits =
    let is_text = IsKey-IsText t key in
    elim (Option-cases (view m t)) [
      | inl absent ↦
          let (m', inserted, run) = hash_map_insert-absent m v t rest node s is_text fits absent in
          (m', rw absent run, inserted.valid, λ u k. rw absent (inserted.reads u))
      | inr (l, there) ↦ (
        m,
        rw there (hash_map_insert-present m v.table t rest is_text node s l there),
        v,
        λ u k. rw there (reads_same m t l there u),
      )
    ]

instance abbrev pub hash_map_map : TextMap HashMap
hash_map_map = record {
  IsMap = IsHashMap;
  Fits = λ t. length t < key_size;
  view = view;
  find = hash_map_find;
  insert = hash_map_insert;
  find_view = λ m t rest v key. hash_map_find-view m v.table t rest (IsKey-IsText t key);
  insert_view = hash_map_insert-view;
}
