-- ===== src/Ds/Trie/Delete.antt =====
-- src/ds/trie.h: `trie_delete` against a map from texts.
use adrift.Base.{
  ℕ, ◌-◌, ◌≡◌, refl, sym, ap, ◌∙◌, inl, inr, Option, none, some, List, [], ◌∷◌, ◌++◌, reverse, ok,
  Run, ◌>>=◌, bind_assoc, ◌==◌, ==_iff, true, false, ◌&&◌, if◌then◌else◌, Bool, Bool-cases, update,
}
use adrift.Util.Text.{same}
use adrift.Ds.List.{Store, list_dtor}
use adrift.Ds.List.Dtor.{Freed, list_dtor-Freed}
use adrift.Ds.List.Push.{IsList, Untouched}
use adrift.Ds.List.Segment.{Item}
use adrift.Ds.List.Update.{Below}
use adrift.Ds.Trie.{TrieNode, null, node, is_null, delete_path, trie_delete}
use adrift.Ds.Trie.Laws.{
  IsKey, IsKey-IsText, IsKey-reverse, at_path, trie_view, before_nul-text, index_in_range, index_eq,
  same-reverse,
}

-- The trie with no list at the end of a path.
unfoldable clear_path : TrieNode → List ℕ → TrieNode
clear_path null p = null
clear_path (node content child) [] = node none child
clear_path (node content child) (c ∷ p) =
    if is_null (child (c - 33))
    then node content child
    else node content (update child (c - 33) (clear_path (child (c - 33)) p))

-- One step of the walk, where there may be no child.
step-clear :
    (p : List ℕ) (i : ℕ) (content : Option ℕ) (child : ℕ → TrieNode) (u : TrieNode) (s : Store)
    → (is_null u ≡ false
        → delete_path p u s ≡ (list_dtor (at_path u p) s >>= λ s'. ok (clear_path u p, s')))
    → (if◌then◌else◌ {A = Run (TrieNode × Store)}
        (is_null u)
        (ok (node content child, s))
        (delete_path p u s >>= λ r. ok (node content (update child i r.0), r.1)))
      ≡ (list_dtor (at_path u p) s >>= λ s'. ok (
        if◌then◌else◌ {A = TrieNode}
            (is_null u)
            (node content child)
            (node content (update child i (clear_path u p))),
        s',
      ))
unfolding at_path clear_path list_dtor
step-clear p i content child null s f = refl
step-clear p i content child (node content' child') s f =
    rw (f refl) (bind_assoc (list_dtor (at_path (node content' child') p) s) _ _)

delete_path-clear :
    (p : List ℕ) (t : TrieNode) (s : Store)
    → IsKey p
    → is_null t ≡ false
    → delete_path p t s ≡ (list_dtor (at_path t p) s >>= λ s'. ok (clear_path t p, s'))
unfolding delete_path at_path clear_path
delete_path-clear [] null s k h = cc
delete_path-clear (c ∷ p) null s k h = cc
delete_path-clear [] (node content child) s k h = refl
delete_path-clear (c ∷ p) (node content child) s k h = rw (index_in_range c k.0) (
    step-clear p (c - 33) content child (child (c - 33)) s
      (λ e. delete_path-clear p (child (c - 33)) s k.1 e))

at_path-if :
    (b : Bool) (t u : TrieNode) (q : List ℕ)
    → at_path (if b then t else u) q ≡ (if b then at_path t q else at_path u q)
at_path-if true t u q = refl
at_path-if false t u q = refl

-- Reading below a node, after clearing a path through its child `i`.
step-at :
    (p q : List ℕ) (i d : ℕ) (content : Option ℕ) (child : ℕ → TrieNode) (u : TrieNode)
    → child i ≡ u
    → at_path
        (if is_null u then node content child else node content (update child i (clear_path u p)))
        (d ∷ q)
      ≡ (if i == d - 33 then at_path (clear_path u p) q else at_path (child (d - 33)) q)
unfolding at_path clear_path
step-at p q i d content child null e = elim (Bool-cases (i == d - 33)) [
  | inl here ↦
      let at_d : child (d - 33) ≡ null = ap child (sym ((==_iff i (d - 33)).0 here)) ∙ e in
      rw (here, at_d) refl
  | inr away ↦ rw away refl
]
step-at p q i d content child (node content' child') e =
    at_path-if (i == d - 33) (clear_path (node content' child') p) (child (d - 33)) q

if-none : (b : Bool) (o : Option ℕ) → o ≡ none → o ≡ (if b then none else o)
if-none true o e = e
if-none false o e = refl

at_path-clear :
    (p q : List ℕ) (t : TrieNode)
    → IsKey p
    → IsKey q
    → at_path (clear_path t p) q ≡ (if same p q then none else at_path t q)
unfolding at_path clear_path same
at_path-clear p q null k j = if-none (same p q) none refl
at_path-clear [] [] (node content child) k j = refl
at_path-clear [] (d ∷ q) (node content child) k j = refl
at_path-clear (c ∷ p) [] (node content child) k j = elim (Bool-cases (is_null (child (c - 33)))) [
  | inl e ↦ rw e refl
  | inr e ↦ rw e refl
]
at_path-clear (c ∷ p) (d ∷ q) (node content child) k j =
    let old = child (c - 33) in
    step-at p q (c - 33) d content child old refl ∙ elim (Bool-cases (c == d)) [
      | inl e ↦
          let there : old ≡ child (d - 33) = ap (λ x. child (x - 33)) ((==_iff c d).0 e) in
          ap (λ b. if b then at_path (clear_path old p) q else at_path (child (d - 33)) q)
            (index_eq c d k.0 j.0 ∙ e)
          ∙ at_path-clear p q old k.1 j.1
          ∙ ap (λ o. if same p q then none else at_path o q) there
          ∙ ap (λ b. if b && same p q then none else at_path (child (d - 33)) q) (sym e)
      | inr e ↦
          ap (λ b. if b then at_path (clear_path old p) q else at_path (child (d - 33)) q)
            (index_eq c d k.0 j.0 ∙ e)
          ∙ ap (λ b. if b && same p q then none else at_path (child (d - 33)) q) (sym e)
    ]

clear_path-not_null :
    (t : TrieNode) (p : List ℕ) → is_null t ≡ false → is_null (clear_path t p) ≡ false
unfolding clear_path
clear_path-not_null null p h = cc
clear_path-not_null (node content child) [] h = refl
clear_path-not_null (node content child) (c ∷ p) h = elim (Bool-cases (is_null (child (c - 33)))) [
  | inl e ↦ rw e refl
  | inr e ↦ rw e refl
]

-- On a trie with a root and a key whose bytes all have a child, and that leads to a well-formed list
-- whose nodes have been allocated, `trie_delete` ends. It frees that list and its nodes and nothing
-- else, and returns a trie that holds nothing for the key's text and is as before for every other
-- such text.
pub trie_delete-view :
    (root : TrieNode) (t rest : List ℕ) (s : Store) (l : ℕ) (xs : List (ℕ × Item))
    → is_null root ≡ false
    → IsKey t
    → trie_view root t ≡ some l
    → IsList s l xs
    → Below s.free_node xs
    → (root' : TrieNode) × (s' : Store) × (trie_delete root (t ++ 0 ∷ rest) s ≡ ok (root', s'))
      × (is_null root' ≡ false)
      × ((u : List ℕ) → IsKey u → trie_view root' u ≡ (if same t u then none else trie_view root u))
      × Freed s' xs
      × (s'.list l ≡ none)
      × Untouched xs l s s'
unfolding trie_delete trie_view
trie_delete-view root t rest s l xs there key holds list below =
    let p = reverse t in
    let (s', ran, freed, gone, frame) = list_dtor-Freed s l xs list below in
    (
      clear_path root p,
      s',
      rw
          (
            before_nul-text t rest (IsKey-IsText t key),
            delete_path-clear p root s (IsKey-reverse t key) there,
            holds,
            ran,
          )
          refl,
      clear_path-not_null root p there,
      (λ u k.
          at_path-clear p (reverse u) root (IsKey-reverse t key) (IsKey-reverse u k)
          ∙ rw (same-reverse t u)),
      freed,
      gone,
      frame,
    )
