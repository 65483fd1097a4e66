-- ===== src/Ds/HashMap/Shrink.antt =====
-- src/ds/hash_map.h: the destructors, and `hash_map_shrink`. An entry that is freed takes its
-- successors in the chain with it, so one that is still reached through the freed entry is a bad
-- pointer. Of a list only the descriptor is freed.
use adrift.Base.{
  ℕ, ◌+◌, ◌-◌, ◌%◌, ◌^◌, List, [], ◌∷◌, Run, ok, fault, bad_pointer, ◌>>=◌, ◌==◌, if◌then◌else◌,
  update, none,
}
use adrift.Ds.List.{Store, list_update}
use adrift.Ds.HashMap.{HashMapEntry, HashMap}

-- The chain from an entry on; its last entry goes first.
unfoldable pub hash_map_entry_dtor : List HashMapEntry → Store → Store
hash_map_entry_dtor [] s = s
hash_map_entry_dtor (e ∷ es) s =
    let s' = hash_map_entry_dtor es s in record s' { list = update s'.list e.value none }

unfoldable pub table_dtor : List (List HashMapEntry) → Store → Store
table_dtor [] s = s
table_dtor (c ∷ cs) s = table_dtor cs (hash_map_entry_dtor c s)

-- The table itself is not freed.
unfoldable pub hash_map_dtor : HashMap → Store → Store
hash_map_dtor m s = table_dtor m.table s

-- `entry->next` of the entry that has been freed, which is read in the next round.
abbrev pub behind_freed : List HashMapEntry → Store → Run (List HashMapEntry × ℕ × Store)
behind_freed [] s = ok ([], 1, s)
behind_freed (e ∷ es) s = fault bad_pointer

-- The inner loop, with the number of entries removed.
unfoldable pub shrink_chain : ℕ → List HashMapEntry → Store → Run (List HashMapEntry × ℕ × Store)
unfolding hash_map_entry_dtor
shrink_chain now [] s = ok ([], 0, s)
shrink_chain now (e ∷ es) s = do
  (n, s₁) ← list_update now e.value s
  let kept = (do (es', k, s₂) ← shrink_chain now es s₁; ok (e ∷ es', k, s₂))
  if n == 0 then behind_freed es (hash_map_entry_dtor (e ∷ es) s₁) else kept

unfoldable pub shrink_table :
    ℕ → List (List HashMapEntry) → Store → Run (List (List HashMapEntry) × ℕ × Store)
unfolding shrink_chain
shrink_table now [] s = ok ([], 0, s)
shrink_table now (c ∷ cs) s = do
  (c', k, s₁) ← shrink_chain now c s
  (cs', k', s₂) ← shrink_table now cs s₁
  ok (c' ∷ cs', k + k', s₂)

unfoldable pub hash_map_shrink : ℕ → HashMap → Store → Run (HashMap × Store)
unfolding shrink_table
hash_map_shrink now m s = do
  (table, k, s') ← shrink_table now m.table s
  ok (record m { table = table; size = (m.size + 2 ^ 64 - k) % 2 ^ 64 }, s')
