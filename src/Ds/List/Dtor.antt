-- ===== src/Ds/List/Dtor.antt =====
-- src/ds/list.h: `list_dtor` on a well-formed list.
use adrift.Base.{
  ℕ, zero, suc, ◌≤◌, ◌≡◌, refl, sym, ap, ◌∙◌, Option, none, some, List, [], ◌∷◌, All, arith, update,
  ne→==_false, eqb_refl, length, ok,
}
use adrift.Ds.List.{Store, free_nodes, list_dtor, set_node}
use adrift.Ds.List.Push.{IsList, Untouched}
use adrift.Ds.List.Segment.{Item, Segment, NotIn, Distinct, Segment-frame}
use adrift.Ds.List.Update.{Below, length-le-bound}

-- The nodes `xs` are freed.
abbrev pub Freed : Store → List (ℕ × Item) → Type 0
Freed s xs = All (λ x. s.node x.0 ≡ none) xs

-- Each node is freed once, and nothing else changes.
free_nodes-Freed :
    (xs : List (ℕ × Item)) (fuel : ℕ) (p c q : Option ℕ) (s : Store)
    → length xs ≤ fuel
    → Distinct xs
    → Segment s.node p c xs q none
    → (t : Store) × (free_nodes fuel c s ≡ ok t)
      × Freed t xs
      × ((a : ℕ) → NotIn a xs → t.node a ≡ s.node a)
      × (t.list ≡ s.list)
      × (t.free_node ≡ s.free_node)
      × (t.free_list ≡ s.free_list)
unfolding free_nodes
free_nodes-Freed [] fuel p c q s room once seg =
    (s, rw (seg.0) refl, tt, (λ a f. refl), refl, refl, refl)
free_nodes-Freed (x ∷ xs) zero p c q s room once seg = absurd (omega arith)
free_nodes-Freed (x ∷ xs) (suc fuel) p c q s room once (e, (n, there, back, same, rest)) =
    let s₁ = set_node x.0 none s in
    let (t, ran, freed, nodes, lists, next, next') =
      free_nodes-Freed xs fuel (some x.0) n.next q s₁ (omega arith) once.1
        (Segment-frame s.node x.0 none (some x.0) n.next xs q none once.0 rest) in
    (
      t,
      rw (e, there) ran,
      (nodes x.0 once.0 ∙ rw (eqb_refl x.0) refl, freed),
      (λ a f. nodes a f.1 ∙ rw (ne→==_false x.0 a f.0) refl),
      lists,
      next,
      next',
    )

-- A well-formed list whose nodes have been allocated is freed, with its nodes and nothing else.
pub list_dtor-Freed :
    (s : Store) (l : ℕ) (xs : List (ℕ × Item))
    → IsList s l xs
    → Below s.free_node xs
    → (t : Store) × (list_dtor (some l) s ≡ ok t)
      × Freed t xs
      × (t.list l ≡ none)
      × Untouched xs l s t
unfolding list_dtor
list_dtor-Freed s l xs list below =
    let d = list.descriptor in
    let (t, ran, freed, nodes, lists, next, next') =
      free_nodes-Freed xs s.free_node none d.head d.tail s
        (length-le-bound s.free_node xs list.distinct below) list.distinct list.linked in
    (
      record t { list = update t.list l none },
      rw (list.present, ran) refl,
      freed,
      rw (eqb_refl l) refl,
      record {
        nodes = nodes;
        lists = λ k f. rw (ne→==_false l k (λ e. f (sym e))) (ap (λ g. g k) lists);
        next_node = next;
        next_list = next';
      },
    )
