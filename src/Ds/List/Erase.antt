-- ===== src/Ds/List/Erase.antt =====
-- src/ds/list.h: `list_erase` of a node behind the head node.
use adrift.Base.{
  ℕ, ◌+◌, ◌-◌, ◌%◌, ◌^◌, ◌≡◌, ◌≢◌, refl, sym, ◌∙◌, Option, none, some, List, [], ◌∷◌, ◌++◌, All,
  arith, update, ne→==_false, eqb_refl, length-append, ok, false, if◌then◌else◌,
}
use adrift.Ds.List.{ListNode, DList, Store, list_erase, set_next, set_prev, points_to}
use adrift.Ds.List.Push.{IsList, Untouched}
use adrift.Ds.List.Segment.{
  Item, Nodes, Segment, NotIn, Distinct, Segment-frame, Segment-append, Segment-split, Segment-last,
  Segment-set_next, Segment-set_prev, Distinct-middle, NotIn-append, NotIn-right, NotIn-left,
}

points_to_ne : (a b : ℕ) (p : Option ℕ) → p ≡ some a → a ≢ b → points_to p b ≡ false
points_to_ne a b p e f = rw e (ne→==_false a b f)

-- A segment that does not hold `b` neither begins nor ends at it.
ends_elsewhere :
    (node : Nodes) (p c : Option ℕ) (x : ℕ × Item) (xs : List (ℕ × Item)) (q d : Option ℕ) (b : ℕ)
    → NotIn b (x ∷ xs)
    → Segment node p c (x ∷ xs) q d
    → (points_to c b ≡ false) × (points_to q b ≡ false)
ends_elsewhere node p c x [] q d b f (e, (n, there, back, same, rest)) =
    (points_to_ne x.0 b c e f.0, points_to_ne x.0 b q (sym rest.1) f.0)
ends_elsewhere node p c x (y ∷ xs) q d b f (e, (n, there, back, same, rest)) =
    (points_to_ne x.0 b c e f.0, (ends_elsewhere node (some x.0) n.next y xs q d b f.1 rest).1)

abbrev Apart : List (ℕ × Item) → List (ℕ × Item) → Type 0
Apart pre post = All (λ x. NotIn x.0 post) pre

Distinct-Apart :
    (pre post : List (ℕ × Item)) (x : ℕ × Item) → Distinct (pre ++ x ∷ post) → Apart pre post
Distinct-Apart [] post x h = tt
Distinct-Apart (y ∷ pre) post x h =
    ((NotIn-right y.0 pre (x ∷ post) h.0).1, Distinct-Apart pre post x h.1)

Apart-first :
    (pre : List (ℕ × Item)) (y : ℕ × Item) (ys : List (ℕ × Item))
    → Apart pre (y ∷ ys)
    → NotIn y.0 pre
Apart-first [] y ys f = tt
Apart-first (x ∷ pre) y ys f = ((λ e. f.0.0 (sym e)), Apart-first pre y ys f.1)

-- What `set_prev` does behind the node `n` at `b`, whose predecessor is `t`.
record Closed (s : Store) (n : ListNode) (b t : ℕ) (post : List (ℕ × Item)) (q : Option ℕ)
    : Type 0 where
  after : Store
  ran : set_prev n.next n.prev s ≡ ok after
  linked : Segment after.node (some t) n.next post (if points_to q b then n.prev else q) none
  before :
      (p c : Option ℕ) (pre : List (ℕ × Item)) (r e : Option ℕ)
      → Apart pre post
      → Segment s.node p c pre r e
      → Segment after.node p c pre r e
  elsewhere : (a : ℕ) → NotIn a post → after.node a ≡ s.node a
  lists : after.list ≡ s.list
  next_node : after.free_node ≡ s.free_node
  next_list : after.free_list ≡ s.free_list

close_behind :
    (s : Store) (n : ListNode) (b t : ℕ) (post : List (ℕ × Item)) (q : Option ℕ)
    → n.prev ≡ some t
    → NotIn b post
    → Distinct post
    → Segment s.node (some b) n.next post q none
    → Closed s n b t post q
unfolding set_prev
close_behind s n b t [] q back f h (ends, at_q) = record {
  after = s;
  ran = rw ends;
  linked = rw (← at_q, eqb_refl b) (ends, sym back);
  before = λ p c pre r e g x. x;
  elsewhere = λ a g. refl;
  lists = refl;
  next_node = refl;
  next_list = refl;
}
close_behind s n b t (y ∷ ys) q back f h (e, (m, there, back', same, rest)) =
    let node' = update s.node y.0 (some (record m { prev = n.prev })) in
    let behind : Segment s.node (some b) n.next (y ∷ ys) q none =
      (e, (m, there, back', same, rest)) in
    let other = ends_elsewhere s.node (some b) n.next y ys q none b f behind in
    record {
      after = record s { node = node' };
      ran = rw (e, there);
      linked =
          rw (other.1, ← back)
            (Segment-set_prev s.node (some b) n.next y ys q none n.prev m h.0 there behind);
      before = λ p c pre r e g x.
          Segment-frame s.node y.0 (some (record m { prev = n.prev })) p c pre r e
            (Apart-first pre y ys g) x;
      elsewhere = λ a g. rw (ne→==_false y.0 a g.0);
      lists = refl;
      next_node = refl;
      next_list = refl;
    }

head_elsewhere :
    (node : Nodes) (p c : Option ℕ) (init : List (ℕ × Item)) (x : ℕ × Item) (q d : Option ℕ) (b : ℕ)
    → NotIn b (init ++ x ∷ [])
    → Segment node p c (init ++ x ∷ []) q d
    → points_to c b ≡ false
head_elsewhere node p c [] x q d b f s = points_to_ne x.0 b c s.0 f.0
head_elsewhere node p c (y ∷ init) x q d b f s = points_to_ne y.0 b c s.0 f.0

Apart-last :
    (init : List (ℕ × Item)) (x : ℕ × Item) (post : List (ℕ × Item))
    → Apart (init ++ x ∷ []) post
    → NotIn x.0 post
Apart-last [] x post f = f.0
Apart-last (y ∷ init) x post f = Apart-last init x post f.1

Distinct-left : (xs ys : List (ℕ × Item)) → Distinct (xs ++ ys) → Distinct xs
Distinct-left [] ys h = tt
Distinct-left (x ∷ xs) ys h = (NotIn-left x.0 xs ys h.0, Distinct-left xs ys h.1)

Distinct-right : (xs ys : List (ℕ × Item)) → Distinct (xs ++ ys) → Distinct ys
Distinct-right [] ys h = h
Distinct-right (x ∷ xs) ys h = Distinct-right xs ys h.1

-- Erasing a node behind the head node of a well-formed list frees it and leaves the others, in
-- their order; no node but the list's is written, and no other list.
pub list_erase-IsList :
    (s : Store) (l : ℕ) (init : List (ℕ × Item)) (x b : ℕ × Item) (post : List (ℕ × Item))
    → IsList s l ((init ++ x ∷ []) ++ b ∷ post)
    → (t : Store) × (list_erase l (some b.0) s ≡ ok t)
      × IsList t l ((init ++ x ∷ []) ++ post)
      × (t.node b.0 ≡ none)
      × Untouched ((init ++ x ∷ []) ++ b ∷ post) l s t
unfolding list_erase set_next
list_erase-IsList s l init x b post list =
    let pre = init ++ x ∷ [] in
    let d = list.descriptor in
    let (r, e, seg, (at_e, (n, at_b, back, same, rest))) =
      Segment-split s.node none d.head pre (b ∷ post) d.tail none list.linked in
    let (at_r, (m, at_x)) = Segment-last s.node none d.head init x r e seg in
    let back_x : n.prev ≡ some x.0 = back ∙ at_r in
    let mid = Distinct-middle pre post b list.distinct in
    let apart = Distinct-Apart pre post b list.distinct in
    let once = (Distinct-middle init [] x (Distinct-left pre (b ∷ post) list.distinct)).0 in
    let write = some (record m { next = n.next }) in
    let s₁ : Store = record s { node = update s.node x.0 write } in
    let c =
      close_behind s₁ n b.0 x.0 post d.tail back_x mid.1
        (Distinct-right pre (b ∷ post) list.distinct).1
        (Segment-frame s.node x.0 write (some b.0) n.next post d.tail none
          (Apart-last init x post apart) rest) in
    let ran : set_prev n.next (some x.0) s₁ ≡ ok (c.after) = rw back_x at (c.ran) in
    let tail = (if points_to d.tail b.0 then n.prev else d.tail) in
    let whole =
      Segment-append c.after.node none d.head pre post (some x.0) n.next tail none
        (c.before none d.head pre (some x.0) n.next apart
          (Segment-set_next s.node none d.head init x r e n.next m once at_x seg))
        c.linked in
    let d' : DList = record { head = d.head; tail = tail; size = (d.size + 2 ^ 64 - 1) % 2 ^ 64 } in
    let counted = length-append pre (b ∷ post) in
    let counted' = length-append pre post in
    let some_left = length-append init (x ∷ []) in
    (
      record (c.after) {
        node = update c.after.node b.0 none;
        list = update c.after.list l (some d');
      },
      rw (
        at_b,
        back_x,
        at_x,
        ran,
        c.lists,
        list.present,
        head_elsewhere s.node none d.head init x r e b.0 mid.0 seg,
      ),
      record {
        descriptor = d';
        present = rw (eqb_refl l) refl;
        linked =
            Segment-frame c.after.node b.0 none none d.head (pre ++ post) tail none
              (NotIn-append b.0 pre post mid.0 mid.1) whole;
        distinct = mid.2;
        counted = omega (arith, list.counted, list.bounded, counted, counted', some_left);
        bounded = omega arith;
      },
      rw (eqb_refl b.0) refl,
      record {
        nodes = λ a f.
            let f₁ = NotIn-left a pre (b ∷ post) f in
            let f₂ = NotIn-right a pre (b ∷ post) f in
            rw (ne→==_false b.0 a f₂.0)
              (c.elsewhere a f₂.1 ∙ rw (ne→==_false x.0 a (NotIn-right a init (x ∷ []) f₁).0));
        lists = λ k f. rw (ne→==_false l k (λ w. f (sym w)), c.lists);
        next_node = c.next_node;
        next_list = c.next_list;
      },
    )
