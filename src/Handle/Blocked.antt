-- ===== src/Handle/Blocked.antt =====
-- src/protocol/handle.c, `handle_read_cache` on a list whose one record is the address 0.0.0.0. The
-- list need only be linked forward.
use adrift.Base.{
  ℕ, zero, suc, ◌+◌, ◌≤◌, ◌≡◌, ◌≢◌, refl, ap, ◌∙◌, true, false, none, some, List, [], ◌∷◌, ◌++◌, ok,
  arith, length, ==_iff,
}
use adrift.Cache.First.{record_item}
use adrift.Cache.{Cache}
use adrift.Cache.Insert.{Apart, head_item}
use adrift.Ds.List.{Store, ListNode, DList, answer, update_nodes, list_update, is_expired}
use adrift.Ds.List.Push.{IsList}
use adrift.Ds.List.Segment.{Item, item_of}
use adrift.Ds.List.Update.{expired}
use adrift.Handle.State.{Server, buffer_len, walk, items_of}
use adrift.Handle.Query.{handle_receive_query, replied}
use adrift.Handle.ReadCache.{
  is_blocked, any_blocked, answer_items, answer_from, count_type, error_response, lookup_question,
  handle_read_cache,
}
use adrift.Handle.Relay.{send_fits}
use adrift.Handle.Response.{handle_stream}
use adrift.Handle.Wire.{IsQuestion, parse_question-dumped}
use adrift.Protocol.Header.{DnsHeader, IsHeader, dump_header, get_error_header, name_error}
use adrift.Protocol.Header.RoundTrip.{parse_header-dump_header}
use adrift.Protocol.Name.RoundTrip.{wire, dotted}
use adrift.Protocol.Question.{DnsQuestion, dump_question}
use adrift.Protocol.Record.{DnsResourceRecord, error_authority, dump_error_authority}
use adrift.Protocol.Record.RoundTrip.{fields, dump_record-fields}

-- List `l` leads to its head node, from there to a node with the item, and no further.
pub record Ahead (s : Store) (l head_at node_at : ℕ) (i : Item) : Type 0 where
  pub descriptor : DList
  pub first : ListNode
  pub second : ListNode
  pub present : s.list l ≡ some descriptor
  pub head : descriptor.head ≡ some head_at
  pub at_head : s.node head_at ≡ some first
  pub is_head : item_of first ≡ head_item
  pub then : first.next ≡ some node_at
  pub at_node : s.node node_at ≡ some second
  pub carries : item_of second ≡ i
  pub ends : second.next ≡ none
  pub room : 2 ≤ s.free_node

module _ (now l head_at node_at : ℕ) (s : Store) (i : Item) (a : Ahead s l head_at node_at i)
    (alive : expired now i ≡ false) where
  update_nodes-Ahead :
      (fuel : ℕ) → 2 ≤ fuel → update_nodes fuel now l (some head_at) 0 s ≡ ok (2, s)
  unfolding update_nodes is_expired
  update_nodes-Ahead zero h = absurd (omega arith)
  update_nodes-Ahead (suc zero) h = absurd (omega arith)
  update_nodes-Ahead (suc (suc fuel)) h =
      let idle = ap (expired now) a.is_head in
      let alive' = ap (expired now) a.carries ∙ alive in
      rw (a.at_head, idle, a.then, a.at_node, alive', a.ends) refl

  pub list_update-Ahead : list_update now l s ≡ ok (1, s)
  unfolding list_update
  list_update-Ahead = rw (a.present, a.head, update_nodes-Ahead s.free_node a.room) refl

  walk-Ahead : (fuel : ℕ) → 2 ≤ fuel → walk fuel (some head_at) s ≡ ok (head_item ∷ i ∷ [])
  unfolding walk
  walk-Ahead zero h = absurd (omega arith)
  walk-Ahead (suc zero) h = absurd (omega arith)
  walk-Ahead (suc (suc fuel)) h =
      rw (a.at_head, a.then, a.at_node, a.ends, a.is_head, a.carries) refl

  pub items_of-Ahead : items_of l s ≡ ok (head_item ∷ i ∷ [])
  unfolding items_of
  items_of-Ahead = rw (a.present, a.head) (walk-Ahead s.free_node a.room)

-- A well-formed list of one record.
pub IsList-Ahead :
    (s : Store) (l head_at node_at : ℕ) (i : Item)
    → IsList s l ((head_at, head_item) ∷ (node_at, i) ∷ [])
    → 2 ≤ s.free_node
    → Ahead s l head_at node_at i
IsList-Ahead s l head_at node_at i list room =
    let (head, (n, at_head, _, is_head, (then, (m, at_node, _, carries, (ends, _))))) =
      list.linked in
    record {
      descriptor = list.descriptor;
      first = n;
      second = m;
      present = list.present;
      head = head;
      at_head = at_head;
      is_head = is_head;
      then = then;
      at_node = at_node;
      carries = carries;
      ends = ends;
      room = room;
    }

-- When the node is put into another list as well, this one still leads to it.
pub Ahead-shared :
    {c c' : Cache} {l l' head_at head_at' node_at : ℕ} {i : Item}
    → Apart c node_at c'
    → Ahead c.store l head_at node_at i
    → l ≢ c.store.free_list
    → head_at ≢ c.store.free_node
    → head_at ≢ node_at
    → Ahead c'.store l' head_at' node_at i
    → Ahead c'.store l head_at node_at i
Ahead-shared {l = l} {head_at = head_at} apart old f g h new = record {
  descriptor = old.descriptor;
  first = old.first;
  second = new.second;
  present = apart.lists l f ∙ old.present;
  head = old.head;
  at_head = apart.nodes head_at g h ∙ old.at_head;
  is_head = old.is_head;
  then = old.then;
  at_node = new.at_node;
  carries = new.carries;
  ends = new.ends;
  room = new.room;
}

-- The SOA record that stands in for an answer.
abbrev pub authority_bytes : List ℕ
authority_bytes = wire [] ++ fields error_authority

pub error_authority-dumps : (q : DnsQuestion) → dump_error_authority q ≡ ok authority_bytes
unfolding dump_error_authority
error_authority-dumps q = dump_record-fields [] error_authority tt (unfold dotted in refl) refl

abbrev pub refusal_header : DnsHeader → DnsHeader
refusal_header header = record (get_error_header name_error) { id = header.id }

module _ (now client l head_at node_at : ℕ) (header : DnsHeader) (q : DnsQuestion) (body : List ℕ)
    (r : DnsResourceRecord) (record_time ttl : ℕ) where
  abbrev item : Item
  item = record_item r answer record_time ttl

  read_cache-blocked :
      (st : Server)
      → lookup_question q st.cache ≡ ok (some l)
      → Ahead st.cache.store l head_at node_at item
      → expired now item ≡ false
      → is_blocked r ≡ ok true
      → dump_question q ≡ ok body
      → 12 + length (body ++ authority_bytes) ≤ buffer_len
      → handle_read_cache now client header q st
        ≡ ok (
          true,
          record st {
            sent =
                record {
                  bytes = dump_header (refusal_header header) ++ (body ++ authority_bytes);
                  to = client;
                }
                ∷ st.sent;
          },
        )
  unfolding handle_read_cache answer_from answer_items any_blocked count_type error_response
  read_cache-blocked st hit ahead alive blocked dumped fits =
      rw
        (
          hit,
          list_update-Ahead now l head_at node_at st.cache.store item ahead alive,
          items_of-Ahead now l head_at node_at st.cache.store item ahead alive,
          blocked,
          dumped,
          error_authority-dumps q,
          send_fits (refusal_header header) (body ++ authority_bytes) client st fits,
        )
        refl

  -- The datagram of a well-formed query of one question that leads to such a list.
  pub stream-blocked :
      (rest : List ℕ) (st : Server)
      → IsHeader header
      → header.qr ≡ 0
      → header.qdcount ≡ 1
      → IsQuestion q
      → lookup_question q st.cache ≡ ok (some l)
      → Ahead st.cache.store l head_at node_at item
      → expired now item ≡ false
      → is_blocked r ≡ ok true
      → dump_question q ≡ ok body
      → 12 + length (body ++ authority_bytes) ≤ buffer_len
      → handle_stream now client (dump_header header ++ (body ++ rest)) st
        ≡ ok (
          some replied,
          record st {
            sent =
                record {
                  bytes = dump_header (refusal_header header) ++ (body ++ authority_bytes);
                  to = client;
                }
                ∷ st.sent;
          },
        )
  unfolding handle_stream handle_receive_query
  stream-blocked rest st v query one vq hit ahead alive blocked dumped fits =
      rw
        (
          parse_header-dump_header header (body ++ rest) v,
          (==_iff header.qr 0).1 query,
          (==_iff header.qdcount 1).1 one,
          parse_question-dumped q body rest vq dumped,
          read_cache-blocked st hit ahead alive blocked dumped fits,
        )
        refl
