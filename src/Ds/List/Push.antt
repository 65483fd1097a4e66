-- ===== src/Ds/List/Push.antt =====
-- src/ds/list.h: well-formed lists, their constructor and `list_push_back`.
use adrift.Base.{
  ℕ, ◌+◌, ◌%◌, ◌<◌, ◌^◌, ◌≡◌, ◌≢◌, refl, sym, ap, subst, none, some, List, [], ◌∷◌, ◌++◌, arith,
  update, ne→==_false, eqb_refl, length, length-append, ok,
}
use adrift.Ds.List.{ListNode, DList, Store, list_push_back, list_ctor}
use adrift.Ds.List.Segment.{
  Item, item_of, Segment, NotIn, Distinct, Segment-frame, Segment-append, Segment-last,
  Segment-set_next, Distinct-snoc, Distinct-middle, NotIn-right, NotIn-left,
}

-- List `l` of the store is well linked and holds the nodes `xs`, the head node first.
pub record IsList (s : Store) (l : ℕ) (xs : List (ℕ × Item)) : Type 0 where
  pub descriptor : DList
  pub present : s.list l ≡ some descriptor
  pub linked : Segment s.node none descriptor.head xs descriptor.tail none
  pub distinct : Distinct xs
  pub counted : descriptor.size + 1 ≡ length xs
  pub bounded : descriptor.size < 2 ^ 64

-- Nodes other than `xs` and lists other than `l` are as before.
pub record Untouched (xs : List (ℕ × Item)) (l : ℕ) (s t : Store) : Type 0 where
  pub nodes : (a : ℕ) → NotIn a xs → t.node a ≡ s.node a
  pub lists : (k : ℕ) → k ≢ l → t.list k ≡ s.list k
  pub next_node : t.free_node ≡ s.free_node
  pub next_list : t.free_list ≡ s.free_list

-- A list of nodes that is not empty has a last one.
pub snoc-cases {ℓ} :
    {A : Type ℓ} (xs : List A) → 0 < length xs → (init : List A) × (x : A) × (xs ≡ init ++ x ∷ [])
snoc-cases [] h = absurd (omega arith)
snoc-cases (x ∷ []) h = ([], x, refl)
snoc-cases (x ∷ y ∷ xs) h =
    let (init, z, e) = snoc-cases (y ∷ xs) (omega arith) in (x ∷ init, z, ap (λ l. x ∷ l) e)

module _ (s : Store) (l b : ℕ) (m : ListNode) where
  push_snoc :
      (init : List (ℕ × Item)) (x : ℕ × Item)
      → IsList s l (init ++ x ∷ [])
      → NotIn b (init ++ x ∷ [])
      → s.node b ≡ some m
      → m.next ≡ none
      → length (init ++ x ∷ []) < 2 ^ 64
      → (t : Store) × (list_push_back l b s ≡ ok t)
        × IsList t l ((init ++ x ∷ []) ++ (b, item_of m) ∷ [])
        × Untouched ((init ++ x ∷ []) ++ (b, item_of m) ∷ []) l s t
  unfolding list_push_back
  push_snoc init x list fresh at_b ends room =
      let d = list.descriptor in
      let (at_tail, (n, at_x)) = Segment-last s.node none d.head init x d.tail none list.linked in
      let not_x = (NotIn-right b init (x ∷ []) fresh).0 in
      let node₁ = update s.node x.0 (some (record n { next = some b })) in
      let still_b : node₁ b ≡ some m = rw (ne→==_false x.0 b not_x) at_b in
      let once = Distinct-middle init [] x list.distinct in
      let left =
        Segment-set_next s.node none d.head init x d.tail none (some b) n once.0 at_x list.linked in
      let node₂ = update node₁ b (some (record m { prev = some x.0 })) in
      let left₂ =
        Segment-frame node₁ b (some (record m { prev = some x.0 })) none d.head (init ++ x ∷ [])
          (some x.0) (some b) fresh left in
      let right : Segment node₂ (some x.0) (some b) ((b, item_of m) ∷ []) (some b) none =
        (refl, (record m { prev = some x.0 }, rw (eqb_refl b) refl, refl, refl, (ends, refl))) in
      let size = length-append (init ++ x ∷ []) ((b, item_of m) ∷ []) in
      (
        record s {
          node = node₂;
          list = update s.list l (some (record d { tail = some b; size = (d.size + 1) % 2 ^ 64 }));
        },
        rw (list.present, at_tail, at_x, still_b),
        record {
          descriptor = record d { tail = some b; size = (d.size + 1) % 2 ^ 64 };
          present = rw (eqb_refl l) refl;
          linked =
              Segment-append node₂ none d.head (init ++ x ∷ []) ((b, item_of m) ∷ []) (some x.0)
                (some b) (some b) none left₂ right;
          distinct = Distinct-snoc (init ++ x ∷ []) (b, item_of m) list.distinct fresh;
          counted = omega (arith, list.counted, list.bounded);
          bounded = omega arith;
        },
        record {
          nodes = λ a f.
              let old = NotIn-left a (init ++ x ∷ []) ((b, item_of m) ∷ []) f in
              rw (
                ne→==_false b a (NotIn-right a (init ++ x ∷ []) ((b, item_of m) ∷ []) f).0,
                ne→==_false x.0 a (NotIn-right a init (x ∷ []) old).0,
              );
          lists = λ k f. rw (ne→==_false l k (λ w. f (sym w)));
          next_node = refl;
          next_list = refl;
        },
      )

  -- Pushing a node without a next one onto a well-formed list of fewer than 2 ^ 64 nodes that does
  -- not hold it appends it at the end, and changes no node but the list's and the new one, and no
  -- other list.
  pub list_push_back-IsList :
      (xs : List (ℕ × Item))
      → IsList s l xs
      → NotIn b xs
      → s.node b ≡ some m
      → m.next ≡ none
      → length xs < 2 ^ 64
      → (t : Store) × (list_push_back l b s ≡ ok t)
        × IsList t l (xs ++ (b, item_of m) ∷ [])
        × Untouched (xs ++ (b, item_of m) ∷ []) l s t
  list_push_back-IsList xs list fresh at_b ends room =
      let (init, x, e) = snoc-cases xs (omega (arith, list.counted)) in
      subst
        (λ xs.
          IsList s l xs
          → NotIn b xs
          → length xs < 2 ^ 64
          → (t : Store) × (list_push_back l b s ≡ ok t)
            × IsList t l (xs ++ (b, item_of m) ∷ [])
            × Untouched (xs ++ (b, item_of m) ∷ []) l s t)
        (sym e) (λ list' fresh' room'. push_snoc init x list' fresh' at_b ends room') list fresh
        room

-- `list_ctor` makes a list that holds its head node alone.
pub list_ctor-IsList :
    (s : Store)
    → let (l, t) = list_ctor s in
      IsList t l
        ((s.free_node, record { content = none; record_time = 0; ttl = 0; rr_type = 0 }) ∷ [])
unfolding list_ctor
list_ctor-IsList s = record {
  descriptor = record { head = some s.free_node; tail = some s.free_node; size = 0 };
  present = rw (eqb_refl s.free_list) refl;
  linked = (refl, (_, rw (eqb_refl s.free_node) refl, refl, refl, (refl, refl)));
  distinct = (tt, tt);
  counted = omega arith;
  bounded = omega arith;
}
