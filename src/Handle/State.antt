-- ===== src/Handle/State.antt =====
-- src/protocol/handle.h and handle.c: the state that the handlers share. A socket address is a
-- number; `sent` holds the datagrams passed to `sendto`, the last one first.
use adrift.Base.{
  ℕ, zero, suc, Option, none, some, List, [], ◌∷◌, Run, ok, fault, write_overrun, out_of_fuel,
  ◌>>=◌, length, ltb, if◌then◌else◌, update,
}
use adrift.Cache.{Cache}
use adrift.Ds.List.{Store, found}
use adrift.Ds.List.Segment.{Item, item_of}

abbrev pub buffer_len : ℕ
buffer_len = 2048

abbrev pub map_len : ℕ
map_len = 0x10001

-- An entry of the conversion table; `sem` is the semaphore's count.
pub record Convert : Type 0 where
  pub buf_req_id : ℕ
  pub buf_sock : ℕ
  pub sem : ℕ
  pub valid : ℕ

pub record Packet : Type 0 where
  pub bytes : List ℕ
  pub to : ℕ

pub record Server : Type 0 where
  pub cache : Cache
  pub convert_table : ℕ → Convert
  pub buf1_len : ℕ
  pub dns_addr : ℕ
  pub sent : List Packet

-- `sendto` of what a handler has written into its buffer of 2048 bytes: the buffer has been
-- overrun if more was written.
unfoldable pub send : List ℕ → ℕ → Server → Run Server
send bytes to st =
    if ltb buffer_len (length bytes)
    then fault write_overrun
    else ok (record st { sent = record { bytes = bytes; to = to } ∷ st.sent })

-- `convert_table[i] = e`
unfoldable pub write_convert : ℕ → Convert → Server → Run Server
write_convert i e st =
    if ltb i map_len
    then ok (record st { convert_table = update st.convert_table i e })
    else fault write_overrun

-- The nodes that a loop `for (p = list->head; p != NULL; p = p->next)` meets.
unfoldable pub walk : ℕ → Option ℕ → Store → Run (List Item)
walk fuel none s = ok []
walk zero (some a) s = fault out_of_fuel
walk (suc fuel) (some a) s = do
  n ← found (s.node a)
  rest ← walk fuel n.next s
  ok (item_of n ∷ rest)

unfoldable pub items_of : ℕ → Store → Run (List Item)
unfolding walk
items_of list s = do l ← found (s.list list); walk s.free_node l.head s
