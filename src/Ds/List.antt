-- ===== src/Ds/List.antt =====
-- src/ds/list.h: doubly linked lists with a head node. Nodes and lists stand in a store, and a
-- pointer is an address of it, so that a node which two lists share is one node here as well.
-- `malloc` is taken never to fail. `time_t` is a natural number of seconds.
pub mod Segment
pub mod Push
pub mod Erase
pub mod Update
pub mod Dtor
use adrift.Base.{
  ℕ, zero, suc, ◌+◌, ◌-◌, ◌%◌, ◌^◌, Bool, true, false, ◌&&◌, not, Option, none, some, Run, ok,
  fault, bad_pointer, out_of_fuel, ◌>>=◌, ◌==◌, ltb, if◌then◌else◌, update,
}
use adrift.Protocol.Record.{DnsResourceRecord}

-- `RrType`; 0 stands in a node that no constructor has typed.
abbrev pub answer : ℕ
answer = 1

abbrev pub authority : ℕ
authority = 2

abbrev pub additional : ℕ
additional = 3

-- `content` is the field `data`.
pub record ListNode : Type 0 where
  pub content : Option DnsResourceRecord
  pub record_time : ℕ
  pub ttl : ℕ
  pub rr_type : ℕ
  pub prev : Option ℕ
  pub next : Option ℕ

pub record DList : Type 0 where
  pub head : Option ℕ
  pub tail : Option ℕ
  pub size : ℕ

-- The store, with the next free address of each kind.
pub record Store : Type 0 where
  pub node : ℕ → Option ListNode
  pub list : ℕ → Option DList
  pub free_node : ℕ
  pub free_list : ℕ

abbrev pub empty_store : Store
empty_store = record { node = λ _. none; list = λ _. none; free_node = 0; free_list = 0 }

abbrev pub set_node : ℕ → Option ListNode → Store → Store
set_node a n s = record s { node = update s.node a n }

abbrev pub set_list : ℕ → DList → Store → Store
set_list l d s = record s { list = update s.list l (some d) }

-- The object behind a pointer; NULL and a freed address have none.
abbrev pub found {ℓ} : {A : Type ℓ} → Option A → Run A
found none = fault bad_pointer
found (some x) = ok x

abbrev pub deref : Store → Option ℕ → Run ListNode
deref s none = fault bad_pointer
deref s (some a) = found (s.node a)

unfoldable pub list_node_ctor : Option DnsResourceRecord → Store → ℕ × Store
list_node_ctor content s = (
  s.free_node,
  record s {
    node = update s.node s.free_node (
        some (record {
          content = content;
          record_time = 0;
          ttl = 0;
          rr_type = 0;
          prev = none;
          next = none;
        }));
    free_node = suc s.free_node;
  },
)

unfoldable pub list_node_ctor_with_info : DnsResourceRecord → ℕ → ℕ → ℕ → Store → Run (ℕ × Store)
unfolding list_node_ctor
list_node_ctor_with_info content rr_type record_time ttl s =
    let (a, s₁) = list_node_ctor (some content) s in
    (do
      n ← found (s₁.node a)
      ok (
        a,
        set_node a (some (record n { rr_type = rr_type; record_time = record_time; ttl = ttl })) s₁,
      ))

unfoldable pub list_ctor : Store → ℕ × Store
unfolding list_node_ctor
list_ctor s =
    let (a, s₁) = list_node_ctor none s in
    (
      s₁.free_list,
      record s₁ {
        list =
            update s₁.list s₁.free_list (some (record { head = some a; tail = some a; size = 0 }));
        free_list = suc s₁.free_list;
      },
    )

-- `*p = n` through a pointer that may be NULL
abbrev pub write_node : Option ℕ → ListNode → Store → Run Store
write_node none n s = fault bad_pointer
write_node (some a) n s = ok (set_node a (some n) s)

-- `node->next` is left as it is.
unfoldable pub list_push_back : ℕ → ℕ → Store → Run Store
list_push_back list node s = do
  l ← found (s.list list)
  t ← deref s l.tail
  s₁ ← write_node l.tail (record t { next = some node }) s
  n ← found (s₁.node node)
  let s₂ = set_node node (some (record n { prev = l.tail })) s₁
  ok (set_list list (record l { tail = some node; size = (l.size + 1) % 2 ^ 64 }) s₂)

-- `if (p != NULL) p->next = v;`, and so for `prev`
unfoldable pub set_next : Option ℕ → Option ℕ → Store → Run Store
set_next none v s = ok s
set_next (some a) v s = do n ← found (s.node a); ok (set_node a (some (record n { next = v })) s)

unfoldable pub set_prev : Option ℕ → Option ℕ → Store → Run Store
set_prev none v s = ok s
set_prev (some a) v s = do n ← found (s.node a); ok (set_node a (some (record n { prev = v })) s)

abbrev pub points_to : Option ℕ → ℕ → Bool
points_to none a = false
points_to (some b) a = b == a

-- The node is freed; its data is a value of the node here, and goes with it.
abbrev pub list_node_dtor : ℕ → Store → Store
list_node_dtor a s = set_node a none s

unfoldable pub list_erase : ℕ → Option ℕ → Store → Run Store
list_erase list none s = ok s
list_erase list (some node) s = do
  n ← found (s.node node)
  s₁ ← set_next n.prev n.next s
  s₂ ← set_prev n.next n.prev s₁
  l ← found (s₂.list list)
  let head = if points_to l.head node then n.next else l.head
  let tail = if points_to l.tail node then n.prev else l.tail
  ok (
      set_list list (record { head = head; tail = tail; size = (l.size + 2 ^ 64 - 1) % 2 ^ 64 })
        (list_node_dtor node s₂))

-- `node->ttl != 0 && now - (node->record_time + node->ttl) > 10`
unfoldable pub is_expired : ℕ → ListNode → Bool
is_expired now n = not (n.ttl == 0) && ltb (n.record_time + n.ttl + 10) now

-- The loop of `list_update`, with the number of nodes kept.
unfoldable pub update_nodes : ℕ → ℕ → ℕ → Option ℕ → ℕ → Store → Run (ℕ × Store)
update_nodes fuel now list none size s = ok (size, s)
update_nodes zero now list (some a) size s = fault out_of_fuel
update_nodes (suc fuel) now list (some a) size s = do
  n ← found (s.node a)
  let dropped = (do s' ← list_erase list (some a) s; update_nodes fuel now list n.next size s')
  let counted = update_nodes fuel now list n.next (size + 1) s
  if is_expired now n then dropped else counted

abbrev null_head : Option ℕ → Run (ℕ × Store) → Store → Run (ℕ × Store)
null_head none r s = ok (0, s)
null_head (some a) r s = r

-- A list has no more nodes than have been allocated, so their number is fuel enough.
unfoldable pub list_update : ℕ → ℕ → Store → Run (ℕ × Store)
unfolding update_nodes
list_update now list s = do
  l ← found (s.list list)
  let run = (do
    (size, s') ← update_nodes s.free_node now list l.head 0 s
    ok ((size + 2 ^ 64 - 1) % 2 ^ 64, s'))
  null_head l.head run s

-- Reading `list_size` is behind `is_list_empty` as well.
unfoldable pub list_size : ℕ → Store → Run ℕ
list_size list s = do l ← found (s.list list); ok l.size

unfoldable pub is_list_empty : ℕ → Store → Run Bool
is_list_empty list s = do l ← found (s.list list); ok (l.size == 0)

-- The loop of `list_dtor`.
unfoldable pub free_nodes : ℕ → Option ℕ → Store → Run Store
free_nodes fuel none s = ok s
free_nodes zero (some a) s = fault out_of_fuel
free_nodes (suc fuel) (some a) s = do
  n ← found (s.node a)
  free_nodes fuel n.next (list_node_dtor a s)

-- Through the pointer to a list, which may be NULL.
unfoldable pub list_dtor : Option ℕ → Store → Run Store
list_dtor none s = ok s
list_dtor (some list) s = do
  l ← found (s.list list)
  s' ← free_nodes s.free_node l.head s
  ok (record s' { list = update s'.list list none })
