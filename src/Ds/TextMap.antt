-- ===== src/Ds/TextMap.antt =====
-- src/ds/trie.h and hash_map.h: what the cache asks of a container, a map from texts to lists.
use adrift.Base.{ℕ, ◌≡◌, Option, some, List, ◌∷◌, ◌++◌, Run, ok, ◌>>=◌, if◌then◌else◌}
use adrift.Ds.List.{Store, list_push_back}
use adrift.Ds.Trie.{list_or_new}
use adrift.Ds.Trie.Laws.{IsKey}
use adrift.Util.Text.{same}

-- Keys are texts with a NUL, and what stands behind it is not looked at. `Fits` are the texts that
-- the container has room for.
pub record TextMap (M : Type 0) : Type 1 where
  pub IsMap : M → Type 0
  pub Fits : List ℕ → Type 0
  pub view : M → List ℕ → Option ℕ
  pub find : M → List ℕ → Run (Option ℕ)
  pub insert : M → List ℕ → ℕ → Store → Run (M × Store)
  pub find_view :
      (m : M) (t rest : List ℕ) → IsMap m → IsKey t → find m (t ++ 0 ∷ rest) ≡ ok (view m t)
  pub insert_view :
      (m : M) (t rest : List ℕ) (node : ℕ) (s : Store)
      → IsMap m
      → IsKey t
      → Fits t
      → let (l, s') = list_or_new (view m t) s in
        (m' : M) × (insert m (t ++ 0 ∷ rest) node s
          ≡ (list_push_back l node s' >>= λ s''. ok (m', s'')))
        × IsMap m'
        × ((u : List ℕ) → IsKey u → view m' u ≡ (if same t u then some l else view m u))
