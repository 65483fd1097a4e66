-- ===== src/Handle/Aliases.antt =====
-- src/protocol/handle.c, `handle_read_cache`: the CNAME records in front of the answer to an A question.
use adrift.Base.{
  ℕ, ◌≡◌, ◌≢◌, refl, sym, subst, ◌∙◌, Option, none, some, List, [], ◌∷◌, ok, if◌then◌else◌, ◌==◌,
  ==_iff, ne→==_false, All,
}
use adrift.Cache.{Cache, cache_find, cache_type_cname}
use adrift.Ds.List.{Store}
use adrift.Ds.List.Push.{IsList, Untouched}
use adrift.Ds.List.Segment.{Item, Segment, NotIn}
use adrift.Ds.List.Update.{Below}
use adrift.Handle.Cached.{items, items_of-IsList}
use adrift.Handle.ReadCache.{items_of_found}
use adrift.Protocol.Question.{DnsQuestion}

-- The items of the CNAME list that go in front of the answer to an A question, in a list that shares
-- no node with the list `l` of the nodes `xs`.
pub data Cnames (q : DnsQuestion) (c : Cache) (l : ℕ) (xs : List (ℕ × Item))
    : List Item → Type 0 where
  other_type : q.qtype ≢ 1 → Cnames q c l xs []
  no_alias : q.qtype ≡ 1 → cache_find cache_type_cname q.qname c ≡ ok none → Cnames q c l xs []
  alias :
      (k : ℕ) (ys : List (ℕ × Item))
      → q.qtype ≡ 1
      → cache_find cache_type_cname q.qname c ≡ ok (some k)
      → IsList c.store k ys
      → Below c.store.free_node ys
      → k ≢ l
      → All (λ y. NotIn y.0 xs) ys
      → Cnames q c l xs (items ys)

Segment-elsewhere :
    (s t : Store) (p c : Option ℕ) (ys : List (ℕ × Item)) (q d : Option ℕ) (xs : List (ℕ × Item))
    → ((a : ℕ) → NotIn a xs → t.node a ≡ s.node a)
    → All (λ y. NotIn y.0 xs) ys
    → Segment s.node p c ys q d
    → Segment t.node p c ys q d
Segment-elsewhere s t p c [] q d xs f v seg = seg
Segment-elsewhere s t p c (y ∷ ys) q d xs f v (e, (n, there, back, same, rest)) = (
  e,
  (n, f y.0 v.0 ∙ there, back, same, Segment-elsewhere s t (some y.0) n.next ys q d xs f v.1 rest),
)

IsList-elsewhere :
    (s t : Store) (l k : ℕ) (xs ys : List (ℕ × Item))
    → Untouched xs l s t
    → k ≢ l
    → All (λ y. NotIn y.0 xs) ys
    → IsList s k ys
    → IsList t k ys
IsList-elsewhere s t l k xs ys f differ apart list = record {
  descriptor = list.descriptor;
  present = f.lists k differ ∙ list.present;
  linked =
      Segment-elsewhere s t none list.descriptor.head ys list.descriptor.tail none xs f.nodes apart
        list.linked;
  distinct = list.distinct;
  counted = list.counted;
  bounded = list.bounded;
}

-- The update does not reach the CNAME list.
pub items_of_found-Cnames :
    (q : DnsQuestion) (c : Cache) (l : ℕ) (xs : List (ℕ × Item)) (is : List Item) (t : Store)
    → Cnames q c l xs is
    → Untouched xs l c.store t
    → (found : Option ℕ) × ((if q.qtype == 1
          then cache_find cache_type_cname q.qname (record c { store = t })
          else ok none)
        ≡ ok found)
      × (items_of_found found t ≡ ok is)
unfolding items_of_found cache_find
items_of_found-Cnames q c l xs is t (other_type odd) f =
    (none, rw (ne→==_false q.qtype 1 odd) refl, refl)
items_of_found-Cnames q c l xs is t (no_alias address missing) f =
    (none, rw ((==_iff q.qtype 1).1 address) missing, refl)
items_of_found-Cnames q c l xs is t (alias k ys address hit list below differ apart) f = (
  some k,
  rw ((==_iff q.qtype 1).1 address) hit,
  items_of-IsList t k ys (IsList-elsewhere c.store t l k xs ys f differ apart list)
      (subst (λ n. Below n ys) (sym f.next_node) below),
)
