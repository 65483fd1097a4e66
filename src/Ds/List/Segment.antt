-- ===== src/Ds/List/Segment.antt =====
-- src/ds/list.h: what a run of linked nodes stands for, and how it changes with one write.
use adrift.Base.{
  ℕ, ◌≡◌, ◌≢◌, refl, sym, Option, none, some, List, [], ◌∷◌, ◌++◌, All, update, ne→==_false,
  eqb_refl,
}
use adrift.Protocol.Record.{DnsResourceRecord}
use adrift.Ds.List.{ListNode}

-- What a node carries.
pub record Item : Type 0 where
  pub content : Option DnsResourceRecord
  pub record_time : ℕ
  pub ttl : ℕ
  pub rr_type : ℕ

abbrev pub item_of : ListNode → Item
item_of n = record {
  content = n.content;
  record_time = n.record_time;
  ttl = n.ttl;
  rr_type = n.rr_type;
}

abbrev pub Nodes : Type 0
Nodes = ℕ → Option ListNode

-- `Segment node p c xs q d`: following `next` from `c` one meets the nodes `xs`, and then `d`;
-- following `prev` from `q` one meets them in the other order, and then `p`.
abbrev pub Segment : Nodes → Option ℕ → Option ℕ → List (ℕ × Item) → Option ℕ → Option ℕ → Type 0
Segment node p c [] q d = (c ≡ d) × (p ≡ q)
Segment node p c (x ∷ xs) q d =
    (c ≡ some x.0)
    × ((n : ListNode) × (node x.0 ≡ some n)
        × (n.prev ≡ p)
        × (item_of n ≡ x.1)
        × Segment node (some x.0) n.next xs q d)

abbrev pub NotIn : ℕ → List (ℕ × Item) → Type 0
NotIn a xs = All (λ x. x.0 ≢ a) xs

abbrev pub Distinct : List (ℕ × Item) → Type 0
Distinct [] = Unit
Distinct (x ∷ xs) = NotIn x.0 xs × Distinct xs

-- A write elsewhere changes nothing.
pub Segment-frame :
    (node : Nodes) (a : ℕ) (v : Option ListNode) (p c : Option ℕ) (xs : List (ℕ × Item))
    (q d : Option ℕ)
    → NotIn a xs
    → Segment node p c xs q d
    → Segment (update node a v) p c xs q d
Segment-frame node a v p c [] q d f s = s
Segment-frame node a v p c (x ∷ xs) q d f (e, (n, there, back, same, rest)) = (
  e,
  (
    n,
    rw (ne→==_false a x.0 (λ w. f.0 (sym w))) there,
    back,
    same,
    Segment-frame node a v (some x.0) n.next xs q d f.1 rest,
  ),
)

pub Segment-append :
    (node : Nodes) (p c : Option ℕ) (xs ys : List (ℕ × Item)) (r e q d : Option ℕ)
    → Segment node p c xs r e
    → Segment node r e ys q d
    → Segment node p c (xs ++ ys) q d
Segment-append node p c [] ys r e q d (h, k) s = rw (h, k) s
Segment-append node p c (x ∷ xs) ys r e q d (h, (n, there, back, same, rest)) s =
    (h, (n, there, back, same, Segment-append node (some x.0) n.next xs ys r e q d rest s))

pub Segment-split :
    (node : Nodes) (p c : Option ℕ) (xs ys : List (ℕ × Item)) (q d : Option ℕ)
    → Segment node p c (xs ++ ys) q d
    → (r : Option ℕ) × (e : Option ℕ) × Segment node p c xs r e × Segment node r e ys q d
Segment-split node p c [] ys q d s = (p, c, (refl, refl), s)
Segment-split node p c (x ∷ xs) ys q d (h, (n, there, back, same, rest)) =
    let (r, e, s₁, s₂) = Segment-split node (some x.0) n.next xs ys q d rest in
    (r, e, (h, (n, there, back, same, s₁)), s₂)

-- The address at which a list of nodes begins.
abbrev pub first : List (ℕ × Item) → Option ℕ
first [] = none
first (x ∷ xs) = some x.0

pub Segment-first :
    (node : Nodes) (p c : Option ℕ) (xs : List (ℕ × Item)) (q : Option ℕ)
    → Segment node p c xs q none
    → c ≡ first xs
Segment-first node p c [] q s = s.0
Segment-first node p c (x ∷ xs) q s = s.0

pub NotIn-append : (a : ℕ) (xs ys : List (ℕ × Item)) → NotIn a xs → NotIn a ys → NotIn a (xs ++ ys)
NotIn-append a [] ys f g = g
NotIn-append a (x ∷ xs) ys f g = (f.0, NotIn-append a xs ys f.1 g)

pub NotIn-left : (a : ℕ) (xs ys : List (ℕ × Item)) → NotIn a (xs ++ ys) → NotIn a xs
NotIn-left a [] ys f = tt
NotIn-left a (x ∷ xs) ys f = (f.0, NotIn-left a xs ys f.1)

pub NotIn-right : (a : ℕ) (xs ys : List (ℕ × Item)) → NotIn a (xs ++ ys) → NotIn a ys
NotIn-right a [] ys f = f
NotIn-right a (x ∷ xs) ys f = NotIn-right a xs ys f.1

pub Distinct-snoc :
    (xs : List (ℕ × Item)) (x : ℕ × Item) → Distinct xs → NotIn x.0 xs → Distinct (xs ++ x ∷ [])
Distinct-snoc [] x h f = (tt, tt)
Distinct-snoc (y ∷ xs) x h f =
    (NotIn-append y.0 xs (x ∷ []) h.0 ((λ e. f.0 (sym e)), tt), Distinct-snoc xs x h.1 f.1)

-- An element of a list of distinct addresses stands nowhere else in it.
pub Distinct-middle :
    (xs ys : List (ℕ × Item)) (x : ℕ × Item)
    → Distinct (xs ++ x ∷ ys)
    → NotIn x.0 xs × NotIn x.0 ys × Distinct (xs ++ ys)
Distinct-middle [] ys x h = (tt, h.0, h.1)
Distinct-middle (y ∷ xs) ys x h =
    let (f, g, k) = Distinct-middle xs ys x h.1 in
    (
      (((λ e. (NotIn-right y.0 xs (x ∷ ys) h.0).0 (sym e)), f)),
      g,
      (
        NotIn-append y.0 xs ys (NotIn-left y.0 xs (x ∷ ys) h.0) (NotIn-right y.0 xs (x ∷ ys) h.0).1,
        k,
      ),
    )

-- The last node of a segment is there, and the segment ends at it.
pub Segment-last :
    (node : Nodes) (p c : Option ℕ) (xs : List (ℕ × Item)) (x : ℕ × Item) (q d : Option ℕ)
    → Segment node p c (xs ++ x ∷ []) q d
    → (q ≡ some x.0) × ((n : ListNode) × (node x.0 ≡ some n))
Segment-last node p c [] x q d (e, (n, there, back, same, rest)) = (sym rest.1, (n, there))
Segment-last node p c (y ∷ xs) x q d (e, (n, there, back, same, rest)) =
    Segment-last node (some y.0) n.next xs x q d rest

-- A write of `next` at the last node moves the pointer behind the segment.
pub Segment-set_next :
    (node : Nodes) (p c : Option ℕ) (xs : List (ℕ × Item)) (x : ℕ × Item) (q d e : Option ℕ)
    (m : ListNode)
    → NotIn x.0 xs
    → node x.0 ≡ some m
    → Segment node p c (xs ++ x ∷ []) q d
    → Segment (update node x.0 (some (record m { next = e }))) p c (xs ++ x ∷ []) (some x.0) e
Segment-set_next node p c [] x q d e m f at_x (h, (n, there, back, same, rest)) =
    let u : n ≡ m = cc in
    (h, (record m { next = e }, rw (eqb_refl x.0) refl, rw (← u) back, rw (← u) same, (refl, refl)))
Segment-set_next node p c (y ∷ xs) x q d e m f at_x (h, (n, there, back, same, rest)) = (
  h,
  (
    n,
    rw (ne→==_false x.0 y.0 (λ w. f.0 (sym w))) there,
    back,
    same,
    Segment-set_next node (some y.0) n.next xs x q d e m f.1 at_x rest,
  ),
)

-- A write of `prev` at the first node moves the pointer in front of the segment.
pub Segment-set_prev :
    (node : Nodes) (p c : Option ℕ) (x : ℕ × Item) (xs : List (ℕ × Item)) (q d r : Option ℕ)
    (m : ListNode)
    → NotIn x.0 xs
    → node x.0 ≡ some m
    → Segment node p c (x ∷ xs) q d
    → Segment (update node x.0 (some (record m { prev = r }))) r c (x ∷ xs) q d
Segment-set_prev node p c x xs q d r m f at_x (h, (n, there, back, same, rest)) =
    let u : n ≡ m = cc in
    (
      h,
      (
        record m { prev = r },
        rw (eqb_refl x.0) refl,
        refl,
        rw (← u) same,
        Segment-frame node x.0 (some (record m { prev = r })) (some x.0) m.next xs q d f
            (rw (← u) rest),
      ),
    )
