-- ===== src/Handle/Cached.antt =====
-- src/protocol/handle.c, `handle_read_cache`: answers from the cache, by what its list stands for.
use adrift.Base.{
  ℕ, zero, suc, ◌+◌, ◌^◌, ◌≤◌, ◌<◌, ◌≡◌, ◌≢◌, refl, sym, subst, ltb→lt, ltb_false→le, ne→==_false,
  false, Option, none, some, List, [], ◌∷◌, map, ok, inl, inr, Bool-cases, if◌then◌else◌, ltb,
  arith, length,
}
use adrift.Ds.List.{Store}
use adrift.Ds.List.Push.{IsList, Untouched}
use adrift.Ds.List.Segment.{Item, Segment}
use adrift.Ds.List.Update.{expired, kept, Below, length-le-bound, list_update-IsList}
use adrift.Handle.State.{Server, walk, items_of}
use adrift.Handle.ReadCache.{
  answer_items, answer_from, handle_read_cache, lookup_question, remaining_ttl,
}
use adrift.Protocol.Header.{DnsHeader}
use adrift.Protocol.Question.{DnsQuestion}

abbrev pub items : List (ℕ × Item) → List Item
items xs = map (λ x. x.1) xs

walk-Segment :
    (fuel : ℕ) (s : Store) (p c : Option ℕ) (xs : List (ℕ × Item)) (q : Option ℕ)
    → length xs ≤ fuel
    → Segment s.node p c xs q none
    → walk fuel c s ≡ ok (items xs)
unfolding walk
walk-Segment fuel s p c [] q h seg = rw (seg.0) refl
walk-Segment zero s p c (x ∷ xs) q h seg = absurd (omega arith)
walk-Segment (suc fuel) s p c (x ∷ xs) q h (e, (n, there, back, same, rest)) =
    rw (e, there, walk-Segment fuel s (some x.0) n.next xs q (omega arith) rest, same)

-- A loop along a well-formed list ends, and meets its items in their order.
pub items_of-IsList :
    (s : Store) (l : ℕ) (xs : List (ℕ × Item))
    → IsList s l xs
    → Below s.free_node xs
    → items_of l s ≡ ok (items xs)
unfolding items_of
items_of-IsList s l xs list below = rw list.present (
    walk-Segment s.free_node s none list.descriptor.head xs list.descriptor.tail
      (length-le-bound s.free_node xs list.distinct below) list.linked)

kept-Below : (now n : ℕ) (xs : List (ℕ × Item)) → Below n xs → Below n (kept now xs)
unfolding kept
kept-Below now n [] b = tt
kept-Below now n (x ∷ xs) b = elim (Bool-cases (expired now x.1)) [
  | inl e ↦ rw e (kept-Below now n xs b.1)
  | inr e ↦ rw e (b.0, kept-Below now n xs b.1)
]

-- For a question whose list in the cache is well formed, has a head node without a time to live and
-- has nodes that have been allocated, the handler drops the expired records from the store and goes
-- by the items of the others alone.
pub handle_read_cache-items :
    (now client : ℕ) (header : DnsHeader) (q : DnsQuestion) (st : Server) (l : ℕ) (x : ℕ × Item)
    (xs : List (ℕ × Item))
    → lookup_question q st.cache ≡ ok (some l)
    → IsList st.cache.store l (x ∷ xs)
    → x.1.ttl ≡ 0
    → Below st.cache.store.free_node (x ∷ xs)
    → (s : Store) × IsList s l (x ∷ kept now xs)
      × Untouched (x ∷ xs) l st.cache.store s
      × (handle_read_cache now client header q st
          ≡ answer_items now client header q
              (items (x ∷ kept now xs))
              (record st { cache = record (st.cache) { store = s } }))
unfolding handle_read_cache answer_from
handle_read_cache-items now client header q st l x xs hit list head below =
    let (s, ran, list', frame, _) =
      list_update-IsList now (st.cache.store) l x xs list head below in
    let below' : Below s.free_node (x ∷ kept now xs) =
      subst (λ n. Below n (x ∷ kept now xs)) (sym frame.next_node)
        (below.0, kept-Below now st.cache.store.free_node xs below.1) in
    (s, list', frame, rw (hit, ran, items_of-IsList s l (x ∷ kept now xs) list' below') refl)

not_expired :
    (now : ℕ) (i : Item) → i.ttl ≢ 0 → expired now i ≡ false → now ≤ i.record_time + i.ttl + 10
not_expired now i timed alive =
    ltb_false→le (i.record_time + i.ttl + 10) now (rw (ne→==_false i.ttl 0 timed) at alive)

-- The time to live sent with a record that has one, was cached in the past and has not expired:
-- what is left of it until it runs out; and then, in the ten seconds for which `list_update` still
-- keeps the record, a number that has wrapped round and is 2 ^ 32 less the seconds since.
pub remaining_ttl_wraps :
    (now : ℕ) (i : Item)
    → i.ttl ≢ 0
    → i.ttl < 2 ^ 32
    → i.record_time ≤ now
    → expired now i ≡ false
    → (remaining_ttl now i + now
        ≡ i.record_time + i.ttl + (if ltb (i.record_time + i.ttl) now then 2 ^ 32 else 0))
      × (now ≤ i.record_time + i.ttl + 10)
unfolding remaining_ttl
remaining_ttl_wraps now i timed small past alive =
    let late : now ≤ i.record_time + i.ttl + 10 = not_expired now i timed alive in
    elim (Bool-cases (ltb (i.record_time + i.ttl) now)) [
      | inl e ↦ (rw e (omega (arith, ltb→lt (i.record_time + i.ttl) now e)), late)
      | inr e ↦ (rw e (omega (arith, ltb_false→le (i.record_time + i.ttl) now e)), late)
    ]
