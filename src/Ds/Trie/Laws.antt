-- ===== src/Ds/Trie/Laws.antt =====
-- src/ds/trie.h: `trie_insert` and `trie_find` against a map from texts.
use mathlib.Core.List.{reverse-reverse, reverse-cons}
use adrift.Base.{
  ℕ, ◌-◌, ◌≤◌, ◌<◌, ◌≡◌, refl, sym, ap, ◌∙◌, inl, inr, Option, none, some, List, [], ◌∷◌, ◌++◌, All,
  arith, reverse, ok, fault, read_overrun, ◌>>=◌, bind_assoc, ◌⊎◌, ◌==◌, ==_iff, ne→==_false, false,
  ◌&&◌, if◌then◌else◌, Bool-cases, update,
}
use adrift.Util.Text.{IsText, same, same_iff}
use adrift.Ds.List.{Store, list_push_back}
use adrift.Ds.Trie.{
  TrieNode, null, node, trie_ctor, before_nul, child_index, present, list_or_new, insert_path,
  trie_insert, is_null, find_path, trie_find,
}

-- The bytes that have a child.
abbrev pub IsKeyByte : ℕ → Type 0
IsKeyByte c = (33 ≤ c) × (c < 128)

abbrev pub IsKey : List ℕ → Type 0
IsKey t = All IsKeyByte t

-- The list at the end of a path.
unfoldable pub at_path : TrieNode → List ℕ → Option ℕ
at_path null p = none
at_path (node content child) [] = content
at_path (node content child) (c ∷ p) = at_path (child (c - 33)) p

-- The trie with a list at the end of a path.
unfoldable pub put_path : TrieNode → List ℕ → ℕ → TrieNode
put_path null [] l = node (some l) (λ _. null)
put_path (node content child) [] l = node (some l) child
put_path null (c ∷ p) l = node none (update (λ _. null) (c - 33) (put_path null p l))
put_path (node content child) (c ∷ p) l =
    node content (update child (c - 33) (put_path (child (c - 33)) p l))

-- What the trie holds for a text.
unfoldable pub trie_view : TrieNode → List ℕ → Option ℕ
trie_view root t = at_path root (reverse t)

pub index_in_range : (c : ℕ) → IsKeyByte c → child_index c ≡ ok (c - 33)
unfolding child_index
index_in_range c h = ground arith

-- A byte that has no child is an index outside the array.
pub index_outside : (c : ℕ) → (c < 33) ⊎ (128 ≤ c) → child_index c ≡ fault read_overrun
unfolding child_index
index_outside c h = ground arith

-- A walk whose first byte has no child reads outside the array of children.
pub find_path_outside :
    (b : ℕ) (p : List ℕ) (t : TrieNode)
    → is_null t ≡ false
    → (b < 33) ⊎ (128 ≤ b)
    → find_path (b ∷ p) t ≡ fault read_overrun
unfolding find_path
find_path_outside b p null there out = cc
find_path_outside b p (node content child) there out = rw (index_outside b out)

pub index_eq : (c d : ℕ) → IsKeyByte c → IsKeyByte d → (c - 33 == d - 33) ≡ (c == d)
index_eq c d h k = ground arith

pub before_nul-text : (t rest : List ℕ) → IsText t → before_nul (t ++ 0 ∷ rest) ≡ ok t
unfolding before_nul
before_nul-text [] rest h = refl
before_nul-text (c ∷ t) rest h = rw (ne→==_false c 0 h.0, before_nul-text t rest h.1)

find_path-at :
    (p : List ℕ) (t : TrieNode) → IsKey p → is_null t ≡ false → find_path p t ≡ ok (at_path t p)
unfolding find_path at_path
find_path-at [] null k h = cc
find_path-at (c ∷ p) null k h = cc
find_path-at [] (node content child) k h = refl
find_path-at (c ∷ p) (node content child) k h =
    rw (index_in_range c k.0) (go (child (c - 33)) (λ e. find_path-at p (child (c - 33)) k.1 e))
  where
    go :
        (u : TrieNode)
        → (is_null u ≡ false → find_path p u ≡ ok (at_path u p))
        → (if is_null u then ok none else find_path p u) ≡ ok (at_path u p)
    go null f = refl
    go (node content child) f = f refl

put_path-not_null : (t : TrieNode) (p : List ℕ) (l : ℕ) → is_null (put_path t p l) ≡ false
unfolding put_path
put_path-not_null null [] l = refl
put_path-not_null (node content child) [] l = refl
put_path-not_null null (c ∷ p) l = refl
put_path-not_null (node content child) (c ∷ p) l = refl

-- Where the node is there already `present` does nothing; a new one has no children.
present-put : (t : TrieNode) (p : List ℕ) (l : ℕ) → put_path (present t) p l ≡ put_path t p l
unfolding put_path present
present-put null [] l = refl
present-put null (c ∷ p) l = refl
present-put (node content child) p l = refl

present-at : (t : TrieNode) (p : List ℕ) → at_path (present t) p ≡ at_path t p
unfolding at_path present
present-at null [] = refl
present-at null (c ∷ p) = refl
present-at (node content child) p = refl

present-not_null : (t : TrieNode) → is_null (present t) ≡ false
unfolding present
present-not_null null = refl
present-not_null (node content child) = refl

insert_path-put :
    (p : List ℕ) (t : TrieNode) (n : ℕ) (s : Store)
    → IsKey p
    → is_null t ≡ false
    → let (l, s') = list_or_new (at_path t p) s in
      insert_path p t n s ≡ (list_push_back l n s' >>= λ s''. ok (put_path t p l, s''))
unfolding insert_path at_path put_path
insert_path-put [] null n s k h = cc
insert_path-put (c ∷ p) null n s k h = cc
insert_path-put [] (node content child) n s k h = refl
insert_path-put (c ∷ p) (node content child) n s k h =
    let u = child (c - 33) in
    rw
      (
        index_in_range c k.0,
        insert_path-put p (present u) n s k.1 (present-not_null u),
        present-at u p,
        present-put u p (list_or_new (at_path u p) s).0,
      )
      (bind_assoc (list_push_back (list_or_new (at_path u p) s).0 n (list_or_new (at_path u p) s).1)
        _ _)

-- Reading after writing.
at_path-put :
    (p q : List ℕ) (t : TrieNode) (l : ℕ)
    → IsKey p
    → IsKey q
    → at_path (put_path t p l) q ≡ (if same p q then some l else at_path t q)
unfolding at_path put_path same
at_path-put [] [] null l k j = refl
at_path-put [] [] (node content child) l k j = refl
at_path-put [] (d ∷ q) null l k j = refl
at_path-put [] (d ∷ q) (node content child) l k j = refl
at_path-put (c ∷ p) [] null l k j = refl
at_path-put (c ∷ p) [] (node content child) l k j = refl
at_path-put (c ∷ p) (d ∷ q) null l k j = elim (Bool-cases (c == d)) [
  | inl e ↦
      ap (λ b. at_path (if b then put_path null p l else null) q) (index_eq c d k.0 j.0 ∙ e)
      ∙ at_path-put p q null l k.1 j.1
      ∙ ap (λ b. if b && same p q then some l else none) (sym e)
  | inr e ↦
      ap (λ b. at_path (if b then put_path null p l else null) q) (index_eq c d k.0 j.0 ∙ e)
      ∙ ap (λ b. if b && same p q then some l else none) (sym e)
]
at_path-put (c ∷ p) (d ∷ q) (node content child) l k j =
    let old = child (c - 33) in
    let other = child (d - 33) in
    elim (Bool-cases (c == d)) [
      | inl e ↦
          ap (λ b. at_path (if b then put_path old p l else other) q) (index_eq c d k.0 j.0 ∙ e)
          ∙ at_path-put p q old l k.1 j.1
          ∙ ap (λ x. if same p q then some l else at_path (child (x - 33)) q) ((==_iff c d).0 e)
          ∙ ap (λ b. if b && same p q then some l else at_path other q) (sym e)
      | inr e ↦
          ap (λ b. at_path (if b then put_path old p l else other) q) (index_eq c d k.0 j.0 ∙ e)
          ∙ ap (λ b. if b && same p q then some l else at_path other q) (sym e)
    ]

IsKey-append : (t u : List ℕ) → IsKey t → IsKey u → IsKey (t ++ u)
IsKey-append [] u h k = k
IsKey-append (c ∷ t) u h k = (h.0, IsKey-append t u h.1 k)

pub IsKey-reverse : (t : List ℕ) → IsKey t → IsKey (reverse t)
IsKey-reverse [] h = tt
IsKey-reverse (c ∷ t) h =
    rw (reverse-cons c t) (IsKey-append (reverse t) (c ∷ []) (IsKey-reverse t h.1) (h.0, tt))

pub same-reverse : (t u : List ℕ) → same (reverse t) (reverse u) ≡ same t u
same-reverse t u = elim (Bool-cases (same t u)) [
  | inl y ↦ rw y ((same_iff (reverse t) (reverse u)).1 (ap reverse ((same_iff t u).0 y)))
  | inr n ↦ elim (Bool-cases (same (reverse t) (reverse u))) [
    | inr m ↦ m ∙ sym n
    | inl y ↦
        let e : t ≡ u =
          sym (reverse-reverse t)
          ∙ ap reverse ((same_iff (reverse t) (reverse u)).0 y)
          ∙ reverse-reverse u in
        cc ((same_iff t u).1 e)
  ]
]

pub IsKey-IsText : (t : List ℕ) → IsKey t → IsText t
IsKey-IsText [] h = tt
IsKey-IsText (c ∷ t) h = (omega arith, IsKey-IsText t h.1)

module _ (root : TrieNode) (there : is_null root ≡ false) (t rest : List ℕ) (key : IsKey t) where
  -- On a trie with a root and a key whose bytes all have a child, `trie_find` ends without a fault
  -- and returns what the trie holds for the key's text.
  pub trie_find-view : trie_find root (t ++ 0 ∷ rest) ≡ ok (trie_view root t)
  unfolding trie_find trie_view
  trie_find-view =
      rw (before_nul-text t rest (IsKey-IsText t key))
        (find_path-at (reverse t) root (IsKey-reverse t key) there)

  -- On a trie with a root and a key whose bytes all have a child, `trie_insert` pushes the node
  -- onto the key's list, which it makes if there is none, and returns a trie that holds this list
  -- for the key's text and is as before for every other such text.
  pub trie_insert-view :
      (n : ℕ) (s : Store)
      → let (l, s') = list_or_new (trie_view root t) s in
        (root' : TrieNode) × (is_null root' ≡ false)
        × (trie_insert root (t ++ 0 ∷ rest) n s
            ≡ (list_push_back l n s' >>= λ s''. ok (root', s'')))
        × ((u : List ℕ)
            → IsKey u
            → trie_view root' u ≡ (if same t u then some l else trie_view root u))
  unfolding trie_insert trie_view
  trie_insert-view n s =
      let p = reverse t in
      let l = (list_or_new (at_path root p) s).0 in
      (
        put_path root p l,
        put_path-not_null root p l,
        rw (before_nul-text t rest (IsKey-IsText t key))
            (insert_path-put p root n s (IsKey-reverse t key) there),
        λ u k.
            at_path-put p (reverse u) root l (IsKey-reverse t key) (IsKey-reverse u k)
            ∙ rw (same-reverse t u),
      )

-- A new trie has a root and holds nothing.
pub trie_ctor-view : (is_null trie_ctor ≡ false) × ((t : List ℕ) → trie_view trie_ctor t ≡ none)
unfolding trie_ctor trie_view
trie_ctor-view = (refl, λ t. empty (reverse t))
  where
    empty : (p : List ℕ) → at_path (node none (λ _. null)) p ≡ none
    empty [] = unfold at_path in refl
    empty (c ∷ p) = unfold at_path in refl
