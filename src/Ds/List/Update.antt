-- ===== src/Ds/List/Update.antt =====
-- src/ds/list.h: `list_update` drops the expired nodes and counts the others.
use adrift.Base.{
  ℕ, zero, suc, ◌+◌, ◌<◌, ◌≤◌, ◌≡◌, refl, ap, ◌∙◌, none, some, List, [], ◌∷◌, ◌++◌, All, arith,
  ◌==◌, length, ok, append_assoc, Bool, true, false, not, ◌&&◌, ltb, if◌then◌else◌, Bool-cases,
  ==_iff, inl, inr,
}
use adrift.Ds.List.{ListNode, Store, is_expired, update_nodes, list_update}
use adrift.Ds.List.Push.{IsList, Untouched}
use adrift.Ds.List.Erase.{list_erase-IsList}
use adrift.Ds.List.Segment.{
  Item, item_of, NotIn, Distinct, Segment-split, first, Segment-first, NotIn-append, NotIn-left,
  NotIn-right, Distinct-middle,
}

-- An item with a time to live expires ten seconds after its time.
abbrev pub expired : ℕ → Item → Bool
expired now i = not (i.ttl == 0) && ltb (i.record_time + i.ttl + 10) now

-- What `list_update` promises to leave.
unfoldable pub kept : ℕ → List (ℕ × Item) → List (ℕ × Item)
kept now [] = []
kept now (x ∷ xs) = let rest = kept now xs in if expired now x.1 then rest else x ∷ rest

kept-NotIn : (now a : ℕ) (xs : List (ℕ × Item)) → NotIn a xs → NotIn a (kept now xs)
unfolding kept
kept-NotIn now a [] f = tt
kept-NotIn now a (x ∷ xs) f = elim (Bool-cases (expired now x.1)) [
  | inl e ↦ rw e (kept-NotIn now a xs f.1)
  | inr e ↦ rw e (f.0, kept-NotIn now a xs f.1)
]

Untouched-trans :
    (xs ys zs : List (ℕ × Item)) (l : ℕ) (s t u : Store)
    → ((a : ℕ) → NotIn a zs → NotIn a xs × NotIn a ys)
    → Untouched xs l s t
    → Untouched ys l t u
    → Untouched zs l s u
Untouched-trans xs ys zs l s t u f g h = record {
  nodes = λ a k. h.nodes a (f a k).1 ∙ g.nodes a (f a k).0;
  lists = λ k n. h.lists k n ∙ g.lists k n;
  next_node = h.next_node ∙ g.next_node;
  next_list = h.next_list ∙ g.next_list;
}

Untouched-refl : (xs : List (ℕ × Item)) (l : ℕ) (s : Store) → Untouched xs l s s
Untouched-refl xs l s = record {
  nodes = λ a f. refl;
  lists = λ k f. refl;
  next_node = refl;
  next_list = refl;
}

-- The node at which the list goes on, and its successor.
node_at :
    (s : Store) (l : ℕ) (pre : List (ℕ × Item)) (y : ℕ × Item) (ys : List (ℕ × Item))
    → IsList s l (pre ++ y ∷ ys)
    → (n : ListNode) × (s.node y.0 ≡ some n) × (item_of n ≡ y.1) × (n.next ≡ first ys)
node_at s l pre y ys list =
    let d = list.descriptor in
    let (r, e, seg, (at_e, (n, at_y, back, same, rest))) =
      Segment-split s.node none d.head pre (y ∷ ys) d.tail none list.linked in
    (n, at_y, same, Segment-first s.node (some y.0) n.next ys d.tail rest)

-- The nodes of expired items are freed.
abbrev pub Gone : ℕ → Store → List (ℕ × Item) → Type 0
Gone now t xs = All (λ y. expired now y.1 ≡ true → t.node y.0 ≡ none) xs

-- The loop, with the nodes before `pre` done.
abbrev Updated : ℕ → ℕ → ℕ → ℕ → List (ℕ × Item) → List (ℕ × Item) → Store → Type 0
Updated fuel now l k pre todo s =
    (t : Store) × (update_nodes fuel now l (first todo) k s ≡ ok (k + length (kept now todo), t))
    × IsList t l (pre ++ kept now todo)
    × Untouched (pre ++ todo) l s t
    × Gone now t todo

update_nodes-kept :
    (todo : List (ℕ × Item)) (fuel now l k : ℕ) (init : List (ℕ × Item)) (x : ℕ × Item) (s : Store)
    → length todo ≤ fuel
    → IsList s l ((init ++ x ∷ []) ++ todo)
    → Updated fuel now l k (init ++ x ∷ []) todo s
unfolding update_nodes kept
update_nodes-kept [] fuel now l k init x s h list =
    (s, ap (λ n. ok (n, s)) (omega arith), list, Untouched-refl _ l s, tt)
update_nodes-kept (y ∷ ys) zero now l k init x s h list = absurd (omega arith)
update_nodes-kept (y ∷ ys) (suc fuel) now l k init x s h list =
    let pre = init ++ x ∷ [] in
    let (n, at_y, same, after) = node_at s l pre y ys list in
    let test : is_expired now n ≡ expired now y.1 = unfold is_expired in ap (expired now) same in
    elim (Bool-cases (expired now y.1)) [
      | inl e ↦
          let (s', ran, list', gone, frame) = list_erase-IsList s l init x y ys list in
          let (t, ran', list'', frame', freed) =
            update_nodes-kept ys fuel now l k init x s' (omega arith) list' in
          let apart = Distinct-middle pre ys y list.distinct in
          (
            t,
            rw (at_y, test, e, ran, after) ran',
            rw e list'',
            Untouched-trans (pre ++ y ∷ ys) (pre ++ ys) (pre ++ y ∷ ys) l s s' t
                (λ a f. (
                  f,
                  NotIn-append a pre ys (NotIn-left a pre (y ∷ ys) f)
                      (NotIn-right a pre (y ∷ ys) f).1,
                ))
                frame frame',
            ((λ _. frame'.nodes y.0 (NotIn-append y.0 pre ys apart.0 apart.1) ∙ gone), freed),
          )
      | inr e ↦
          let (t, ran, list', frame, freed) =
            update_nodes-kept ys fuel now l (k + 1) pre y s (omega arith)
              (rw (append_assoc pre (y ∷ []) ys) list) in
          (
            t,
            rw (at_y, test, e, after) (ran ∙ ap (λ n. ok (n, t)) (omega arith)),
            rw e (rw (append_assoc pre (y ∷ []) (kept now ys)) at list'),
            rw (append_assoc pre (y ∷ []) ys) at frame,
            ((λ f. cc (e, f)), freed),
          )
    ]

-- Addresses below `n`.
abbrev pub Below : ℕ → List (ℕ × Item) → Type 0
Below n xs = All (λ x. x.0 < n) xs

remove : ℕ → List (ℕ × Item) → List (ℕ × Item)
remove a [] = []
remove a (x ∷ xs) = if x.0 == a then xs else x ∷ remove a xs

-- Distinct numbers below `n` are at most `n` many.
remove-laws :
    (n : ℕ) (xs : List (ℕ × Item))
    → Distinct xs
    → Below (suc n) xs
    → (length xs ≤ suc (length (remove n xs)))
      × Distinct (remove n xs)
      × Below n (remove n xs)
      × ((a : ℕ) → NotIn a xs → NotIn a (remove n xs))
unfolding remove
remove-laws n [] h b = (omega arith, tt, tt, λ a f. tt)
remove-laws n (x ∷ xs) h b = elim (Bool-cases (x.0 == n)) [
  | inl e ↦ rw e (omega arith, h.1, below xs (rw ((==_iff x.0 n).0 e) at h.0) b.1, λ a f. f.1)
  | inr e ↦
      let (l, d, c, f) = remove-laws n xs h.1 b.1 in
      rw e (omega arith, (f x.0 h.0, d), (ground arith, c), λ a g. (g.0, f a g.1))
]
  where
    below : (ys : List (ℕ × Item)) → NotIn n ys → Below (suc n) ys → Below n ys
    below [] f b = tt
    below (y ∷ ys) f b = (omega arith, below ys f.1 b.1)

pub length-le-bound : (n : ℕ) (xs : List (ℕ × Item)) → Distinct xs → Below n xs → length xs ≤ n
length-le-bound zero [] h b = omega arith
length-le-bound zero (x ∷ xs) h b = absurd (omega arith)
length-le-bound (suc n) xs h b =
    let (l, d, c, f) = remove-laws n xs h b in omega (arith, length-le-bound n (remove n xs) d c)

length-kept : (now : ℕ) (xs : List (ℕ × Item)) → length (kept now xs) ≤ length xs
unfolding kept
length-kept now [] = omega arith
length-kept now (x ∷ xs) = ground (arith, length-kept now xs)

-- The head node is kept and counted.
head_step :
    (fuel now : ℕ) (s : Store) (l : ℕ) (x : ℕ × Item) (xs : List (ℕ × Item))
    → IsList s l (x ∷ xs)
    → x.1.ttl ≡ 0
    → length (x ∷ xs) ≤ fuel
    → (t : Store) × (update_nodes fuel now l (some x.0) 0 s ≡ ok (1 + length (kept now xs), t))
      × IsList t l (x ∷ kept now xs)
      × Untouched (x ∷ xs) l s t
      × Gone now t xs
unfolding update_nodes
head_step zero now s l x xs list head h = absurd (omega arith)
head_step (suc fuel) now s l x xs list head h =
    let (n, at_x, same, after) = node_at s l [] x xs list in
    let test : is_expired now n ≡ false =
      unfold is_expired in ap (expired now) same ∙ rw head refl in
    let (t, ran, list', frame, freed) =
      update_nodes-kept xs fuel now l 1 [] x s (omega arith) list in
    (t, rw (at_x, test, after) ran, list', frame, freed)

-- On a well-formed list whose nodes have been allocated and whose head node has no time to live,
-- `list_update` ends; it keeps the nodes that have not expired, in their order, returns their
-- number, frees the expired ones, and changes no node outside the list and no other list.
pub list_update-IsList :
    (now : ℕ) (s : Store) (l : ℕ) (x : ℕ × Item) (xs : List (ℕ × Item))
    → IsList s l (x ∷ xs)
    → x.1.ttl ≡ 0
    → Below s.free_node (x ∷ xs)
    → (t : Store) × (list_update now l s ≡ ok (length (kept now xs), t))
      × IsList t l (x ∷ kept now xs)
      × Untouched (x ∷ xs) l s t
      × Gone now t xs
unfolding list_update
list_update-IsList now s l x xs list head below =
    let (t, ran, list', frame, freed) =
      head_step (s.free_node) now s l x xs list head
        (length-le-bound (s.free_node) (x ∷ xs) list.distinct below) in
    (
      t,
      rw (list.present, list.linked.0, ran)
          (ap (λ n. ok (n, t)) (omega (arith, list.bounded, list.counted, length-kept now xs))),
      list',
      frame,
      freed,
    )
