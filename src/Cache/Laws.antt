-- ===== src/Cache/Laws.antt =====
-- src/protocol/cache.c: the cache against a map from a type and a text to a list.

use adrift.Base.{
  ℕ, ◌<◌, ◌≡◌, ◌≢◌, refl, sym, ap, ◌∙◌, inl, inr, Option, none, some, List, [], ◌∷◌, ◌++◌, arith,
  ok, ◌>>=◌, bind_assoc, length, ne→==_false, eqb_refl, true, false, ltb, if◌then◌else◌, Bool-cases,
  update,
}
use adrift.Util.Text.{IsText, same, same_iff, stream_length-text}
use adrift.Ds.List.{Store, list_push_back}
use adrift.Ds.HashMap.{key_size}
use adrift.Ds.HashMap.Interface.{hash_map_map}
use adrift.Ds.TextMap.{TextMap}
use adrift.Ds.Trie.Interface.{trie_map}
use adrift.Ds.HashMap.Methods.{hash_map_ctor-IsHashMap, IsHashMap}
use adrift.Ds.HashMap.Rehash.{view}
use adrift.Ds.Trie.{list_or_new, is_null}
use adrift.Ds.Trie.Laws.{IsKey, trie_view, IsKey-IsText, trie_ctor-view}
use adrift.Cache.{Cache, check_key, valid_key, is_invalid, cache_ctor, cache_insert, cache_find}

-- What the cache holds for a type and a text.
unfoldable pub cache_view : Cache → ℕ → List ℕ → Option ℕ
cache_view c cache_type t =
    if ltb 16 (length t) then view (c.hash_map cache_type) t else trie_view (c.trie cache_type) t

-- The containers of one type are constructed and well formed.
pub record IsCache (c : Cache) (cache_type : ℕ) : Type 0 where
  pub root : is_null (c.trie cache_type) ≡ false
  pub map : IsHashMap (c.hash_map cache_type)

pub check_key-valid :
    (b : ℕ) (t rest : List ℕ)
    → is_invalid b ≡ false
    → IsText t
    → check_key b (t ++ 0 ∷ rest) ≡ ok true
unfolding check_key
check_key-valid b [] rest h k = refl
check_key-valid b (c ∷ t) rest h k = rw (ne→==_false c 0 k.0, h) (check_key-valid b t rest h k.1)

pub valid_key-text : (t rest : List ℕ) → IsKey t → valid_key (t ++ 0 ∷ rest) ≡ ok true
unfolding valid_key
valid_key-text [] rest h = unfold check_key in refl
valid_key-text (c ∷ t) rest h =
    check_key-valid c (c ∷ t) rest (ground arith) (IsKey-IsText (c ∷ t) h)

-- Equal texts lie in the same container.
other_size : (t u : List ℕ) → ltb 16 (length t) ≢ ltb 16 (length u) → same t u ≡ false
other_size t u f = elim (Bool-cases (same t u)) [
  | inr n ↦ n
  | inl y ↦ absurd (f (ap (λ w. ltb 16 (length w)) ((same_iff t u).0 y)))
]

-- The result of an insertion into list `l` of the text `t`, up to the store.
pub record Stored (c : Cache) (cache_type : ℕ) (t : List ℕ) (l : ℕ) (c' : Cache) : Type 0 where
  pub valid : IsCache c' cache_type
  pub reads :
      (u : List ℕ)
      → IsKey u
      → cache_view c' cache_type u ≡ (if same t u then some l else cache_view c cache_type u)
  pub others : (k : ℕ) → k ≢ cache_type → (c'.trie k ≡ c.trie k) × (c'.hash_map k ≡ c.hash_map k)

module _ (c : Cache) (cache_type : ℕ) (v : IsCache c cache_type) (t rest : List ℕ)
    (key : IsKey t) where
  is_text : IsText t
  is_text = IsKey-IsText t key

  -- In a cache whose containers for a type are well formed, and on a name of bytes from 33 to 127,
  -- `cache_find` ends without a fault and returns what the cache holds for the name.
  pub cache_find-view : cache_find cache_type (t ++ 0 ∷ rest) c ≡ ok (cache_view c cache_type t)
  unfolding cache_find cache_view
  cache_find-view = elim (Bool-cases (ltb 16 (length t))) [
    | inl long ↦
        rw (valid_key-text t rest key, stream_length-text t rest is_text, long)
          (hash_map_map.find_view (c.hash_map cache_type) t rest v.map key)
    | inr short ↦
        rw (valid_key-text t rest key, stream_length-text t rest is_text, short)
          (trie_map.find_view (c.trie cache_type) t rest v.root key)
  ]

  Insertion : ℕ → ℕ → Store → Type 0
  Insertion node l s =
      (c' : Cache) × (cache_insert cache_type (t ++ 0 ∷ rest) node c
        ≡ (list_push_back l node s >>= λ s'. ok (record c' { store = s' })))
      × Stored c cache_type t l c'

  -- The text goes into a container `m`, which `put` puts back into the cache.
  insert_into :
      {M : Type 0} ⦃i : TextMap M⦄ (m : M) (put : M → Cache) (node : ℕ)
      → i.IsMap m
      → i.Fits t
      → cache_insert cache_type (t ++ 0 ∷ rest) node c ≡ (
          i.insert m (t ++ 0 ∷ rest) node c.store >>= λ (m', s). ok (record (put m') { store = s }))
      → ((m' : M) (l : ℕ)
          → i.IsMap m'
          → ((u : List ℕ) → IsKey u → i.view m' u ≡ (if same t u then some l else i.view m u))
          → Stored c cache_type t l (put m'))
      → let (l, s) = list_or_new (i.view m t) c.store in Insertion node l s
  unfolding Insertion
  insert_into ⦃i⦄ m put node w fits run stored =
      let (m', inserted, w', reads) = i.insert_view m t rest node c.store w key fits in
      let (l, s) = list_or_new (i.view m t) c.store in
      (
        put m',
        run
            ∙ (ap (λ r. r >>= λ (m'', s'). ok (record (put m'') { store = s' })) inserted
                ∙ bind_assoc (list_push_back l node s) _ _),
        stored m' l w' reads,
      )

  insert_short :
      (node : ℕ)
      → ltb 16 (length t) ≡ false
      → let (l, s) = list_or_new (trie_view (c.trie cache_type) t) c.store in Insertion node l s
  unfolding cache_insert cache_view
  insert_short node short =
      insert_into (c.trie cache_type) (λ root. record c { trie = update c.trie cache_type root })
        node v.root tt
        (rw (valid_key-text t rest key, stream_length-text t rest is_text, short) refl)
        (λ root l there reads. record {
          valid = record { root = rw (eqb_refl cache_type) there; map = v.map };
          reads = λ u k. elim (Bool-cases (ltb 16 (length u))) [
            | inl e ↦ rw (e, other_size t u (λ f. cc (short, e, f))) refl
            | inr e ↦ rw (e, eqb_refl cache_type) (reads u k)
          ];
          others = λ k f. (rw (ne→==_false cache_type k (λ e. f (sym e))), refl);
        })

  insert_long :
      (node : ℕ)
      → ltb 16 (length t) ≡ true
      → length t < key_size
      → let (l, s) = list_or_new (view (c.hash_map cache_type) t) c.store in Insertion node l s
  unfolding cache_insert cache_view
  insert_long node long fits =
      insert_into (c.hash_map cache_type)
        (λ m'. record c { hash_map = update c.hash_map cache_type m' }) node v.map fits
        (rw (valid_key-text t rest key, stream_length-text t rest is_text, long) refl)
        (λ m' l w reads. record {
          valid = record { root = v.root; map = rw (eqb_refl cache_type) w };
          reads = λ u k. elim (Bool-cases (ltb 16 (length u))) [
            | inl e ↦ rw (e, eqb_refl cache_type) (reads u k)
            | inr e ↦ rw (e, other_size t u (λ f. cc (long, e, f))) refl
          ];
          others = λ k f. (refl, rw (ne→==_false cache_type k (λ e. f (sym e))));
        })

  -- In a cache whose containers for a type are well formed, and on a name of at most 45 bytes from
  -- 33 to 127, `cache_insert` pushes the node onto the list that the cache holds for the type and
  -- the name, or onto a new one if it holds none. But for the store the cache is then as before,
  -- except that it holds this list for the name.
  pub cache_insert-view :
      (node : ℕ)
      → length t < key_size
      → let (l, s) = list_or_new (cache_view c cache_type t) c.store in
        (c' : Cache) × (cache_insert cache_type (t ++ 0 ∷ rest) node c
          ≡ (list_push_back l node s >>= λ s'. ok (record c' { store = s' })))
        × Stored c cache_type t l c'
  unfolding cache_view Insertion
  cache_insert-view node fits = elim (Bool-cases (ltb 16 (length t))) [
    | inl long ↦ rw long (insert_long node long fits)
    | inr short ↦ rw short (insert_short node short)
  ]

-- After `cache_ctor` of a type the containers of that type are well formed and hold nothing.
pub cache_ctor-view :
    (c : Cache) (cache_type : ℕ)
    → IsCache (cache_ctor cache_type c) cache_type
      × ((t : List ℕ) → cache_view (cache_ctor cache_type c) cache_type t ≡ none)
unfolding cache_ctor cache_view
cache_ctor-view c cache_type = (
  record {
    root = rw (eqb_refl cache_type) (trie_ctor-view.0);
    map = rw (eqb_refl cache_type) (hash_map_ctor-IsHashMap.0);
  },
  λ t. elim (Bool-cases (ltb 16 (length t))) [
    | inl e ↦ rw (e, eqb_refl cache_type) (hash_map_ctor-IsHashMap.1 t)
    | inr e ↦ rw (e, eqb_refl cache_type) (trie_ctor-view.1 t)
  ],
)

-- The containers of another type are as before.
pub cache_ctor-others :
    (c : Cache) (cache_type k : ℕ)
    → k ≢ cache_type
    → IsCache c k
    → IsCache (cache_ctor cache_type c) k
      × ((t : List ℕ) → cache_view (cache_ctor cache_type c) k t ≡ cache_view c k t)
unfolding cache_ctor cache_view
cache_ctor-others c cache_type k differ v =
    let other = ne→==_false cache_type k (λ e. differ (sym e)) in
    (record { root = rw other v.root; map = rw other v.map }, λ t. rw other refl)
