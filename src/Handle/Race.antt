-- ===== src/Handle/Race.antt =====
-- src/protocol/handle.c, `handle_read_cache`: two threads with the same list. `cache_find` gives the
-- list away after it has released the lock, and nothing guards `list_update` and the loops over the
-- list.
use adrift.Base.{ℕ, suc, ◌≡◌, refl, true, none, some, List, [], ◌∷◌, ◌++◌, ok, fault, bad_pointer}
use adrift.Ds.List.{Store, update_nodes, list_update}
use adrift.Ds.List.Push.{IsList}
use adrift.Ds.List.Segment.{Item}
use adrift.Ds.List.Update.{expired, kept, Below, Gone, list_update-IsList}
use adrift.Handle.State.{walk}

Gone-member :
    (now : ℕ) (t : Store) (before : List (ℕ × Item)) (y : ℕ × Item) (after : List (ℕ × Item))
    → Gone now t (before ++ y ∷ after)
    → expired now y.1 ≡ true
    → t.node y.0 ≡ none
Gone-member now t [] y after g e = g.0 e
Gone-member now t (x ∷ before) y after g e = Gone-member now t before y after g.1 e

-- One thread's loop, in `list_update` or over the records of the list, has come to an expired node
-- behind the head node of a well-formed list, when another thread's `list_update` of the list runs
-- to its end: that one ends without a fault and leaves the list well formed, but the next round of
-- the first thread's loop reads a node that has been freed.
pub stale_node :
    (now later fuel size l : ℕ) (s : Store) (x y : ℕ × Item) (before after : List (ℕ × Item))
    → IsList s l (x ∷ (before ++ y ∷ after))
    → x.1.ttl ≡ 0
    → Below s.free_node (x ∷ (before ++ y ∷ after))
    → expired now y.1 ≡ true
    → (n : ℕ) × (t : Store) × (list_update now l s ≡ ok (n, t))
      × IsList t l (x ∷ kept now (before ++ y ∷ after))
      × (update_nodes (suc fuel) later l (some y.0) size t ≡ fault bad_pointer)
      × (walk (suc fuel) (some y.0) t ≡ fault bad_pointer)
unfolding update_nodes walk
stale_node now later fuel size l s x y before after list head below old =
    let (t, ran, list', frame, freed) =
      list_update-IsList now s l x (before ++ y ∷ after) list head below in
    let gone = Gone-member now t before y after freed old in
    (_, t, ran, list', rw gone refl, rw gone refl)
