-- ===== src/Handle/Answer.antt =====
-- src/protocol/handle.c: `handle_stream` on a query for the IPv4 address of a name that the cache
-- knows with one record.
use adrift.Base.{
  ℕ, suc, ◌+◌, ◌≤◌, arith, ◌≡◌, refl, ap, ◌∙◌, true, false, none, some, List, [], ◌∷◌, ◌++◌, ok,
  length, append-nil, ==_iff,
}
use adrift.Cache.{Cache, cache_find, cache_type_ipv4, cache_type_cname}
use adrift.Cache.First.{First, same_containers, record_item}
use adrift.Cache.Insert.{head_item, store_apart}
use adrift.Cache.Laws.{IsCache, cache_view, cache_find-view}
use adrift.Ds.List.{answer}
use adrift.Ds.List.Push.{IsList}
use adrift.Ds.List.Segment.{Item}
use adrift.Ds.List.Update.{expired, kept, Below}
use adrift.Ds.Trie.Laws.{IsKey}
use adrift.Handle.Cached.{handle_read_cache-items}
use adrift.Handle.Query.{handle_receive_query, replied}
use adrift.Handle.ReadCache.{
  answer_items, is_blocked, any_blocked, dump_items, cached_response, count_type, items_of_found,
  lookup_question, remaining_ttl,
}
use adrift.Handle.Relay.{send_fits}
use adrift.Handle.Response.{handle_stream}
use adrift.Handle.State.{Server, buffer_len}
use adrift.Handle.Wire.{IsQuestion, parse_question-dumped}
use adrift.Hosts.{is_zero_address}
use adrift.Protocol.Bytes.{load_bytes}
use adrift.Protocol.Header.{DnsHeader, IsHeader, dump_header, get_default_header}
use adrift.Protocol.Header.RoundTrip.{parse_header-dump_header}
use adrift.Protocol.Question.{DnsQuestion, dump_question}
use adrift.Protocol.Record.{DnsResourceRecord, dump_resource_record}

-- The header of an answer with one record.
abbrev pub answer_header : DnsHeader → DnsHeader
answer_header header = record get_default_header {
  id = header.id;
  qr = 1;
  qdcount = 1;
  ancount = 1;
  nscount = 0;
  arcount = 0;
}

-- The cache knows one record of IPv4 for the name, and no other name for it.
pub record Knows (c : Cache) (name : List ℕ) (r : DnsResourceRecord) (record_time ttl : ℕ)
    : Type 0 where
  pub key : IsKey name
  pub list_of : ℕ
  pub head_at : ℕ
  pub node_at : ℕ
  pub found : cache_find cache_type_ipv4 (name ++ 0 ∷ []) c ≡ ok (some list_of)
  pub list :
      IsList c.store list_of
        ((head_at, head_item) ∷ (node_at, record_item r answer record_time ttl) ∷ [])
  pub below :
      Below c.store.free_node
        ((head_at, head_item) ∷ (node_at, record_item r answer record_time ttl) ∷ [])
  pub cnames : IsCache c cache_type_cname
  pub no_cname : cache_view c cache_type_cname name ≡ none

-- A record at most ten seconds after its time to live is over.
pub not_yet_expired :
    (now : ℕ) (r : DnsResourceRecord) (record_time ttl : ℕ)
    → now ≤ record_time + ttl + 10
    → expired now (record_item r answer record_time ttl) ≡ false
not_yet_expired now r record_time ttl fresh = ground arith

pub First-Knows :
    {c : Cache} {name : List ℕ} {r : DnsResourceRecord} {record_time ttl : ℕ} {c' : Cache}
    → First c cache_type_ipv4 name (record_item r answer record_time ttl) c'
    → IsKey name
    → IsCache c cache_type_cname
    → cache_view c cache_type_cname name ≡ none
    → Knows c' name r record_time ttl
First-Knows {c} {name} {c' = c'} f key v absent =
    let (valid, same) =
      same_containers c c' cache_type_cname (f.others cache_type_cname (omega arith)) v in
    record {
      key = key;
      list_of = c.store.free_list;
      head_at = suc c.store.free_node;
      node_at = c.store.free_node;
      found = f.found;
      list = f.list;
      below = f.below;
      cnames = valid;
      no_cname = same name ∙ absent;
    }

is_blocked-bytes :
    (r : DnsResourceRecord) (p : List ℕ)
    → length p ≡ 4
    → is_blocked (record r { rdlength = 4; rdata = p }) ≡ ok (is_zero_address p)
unfolding is_blocked is_zero_address load_bytes
is_blocked-bytes r [] measured = absurd (omega arith)
is_blocked-bytes r (a ∷ []) measured = absurd (omega arith)
is_blocked-bytes r (a ∷ b ∷ []) measured = absurd (omega arith)
is_blocked-bytes r (a ∷ b ∷ c ∷ []) measured = absurd (omega arith)
is_blocked-bytes r (a ∷ b ∷ c ∷ d ∷ []) measured = refl
is_blocked-bytes r (a ∷ b ∷ c ∷ d ∷ e ∷ p) measured = absurd (omega arith)

-- For four bytes the test is that for the address 0.0.0.0.
pub is_blocked-address :
    (r : DnsResourceRecord)
    → r.rdlength ≡ 4
    → length r.rdata ≡ 4
    → is_blocked r ≡ ok (is_zero_address r.rdata)
is_blocked-address r four measured =
    ap (λ k. is_blocked (record r { rdlength = k })) four ∙ is_blocked-bytes r r.rdata measured

pub lookup_question-address :
    (q : DnsQuestion) (name : List ℕ) (c : Cache)
    → q.qtype ≡ 1
    → q.qname ≡ name ++ 0 ∷ []
    → lookup_question q c ≡ cache_find cache_type_ipv4 (name ++ 0 ∷ []) c
unfolding lookup_question
lookup_question-address q name c address named =
    ap (λ k. lookup_question (record q { qtype = k }) c) address
    ∙ ap (λ n. lookup_question (record q { qtype = 1; qname = n }) c) named

module _ (now client : ℕ) (header : DnsHeader) (q : DnsQuestion) (body name bytes : List ℕ)
    (r : DnsResourceRecord) (record_time ttl : ℕ) where
  abbrev item : Item
  item = record_item r answer record_time ttl

  answer_items-one :
      (st : Server)
      → q.qtype ≡ 1
      → q.qname ≡ name ++ 0 ∷ []
      → dump_question q ≡ ok body
      → is_blocked r ≡ ok false
      → dump_resource_record (record r { ttl = remaining_ttl now item }) ≡ ok bytes
      → 12 + length (body ++ bytes) ≤ buffer_len
      → cache_find cache_type_cname (name ++ 0 ∷ []) st.cache ≡ ok none
      → answer_items now client header q (head_item ∷ item ∷ []) st
        ≡ ok (
          true,
          record st {
            sent =
                record {
                  bytes = dump_header (answer_header header) ++ (body ++ bytes);
                  to = client;
                }
                ∷ st.sent;
          },
        )
  unfolding answer_items cached_response any_blocked dump_items count_type items_of_found
  answer_items-one st address named dumped visible printed fits no_cname =
      rw
        (
          visible,
          dumped,
          (==_iff q.qtype 1).1 address,
          named,
          no_cname,
          printed,
          append-nil bytes,
          send_fits (answer_header header) (body ++ bytes) client st fits,
        )
        refl

  -- The datagram of a well-formed query of one question, for the IPv4 address of a name that the
  -- cache knows with one record that has not expired and is not 0.0.0.0.
  pub stream-answered :
      (rest : List ℕ) (st : Server)
      → IsHeader header
      → header.qr ≡ 0
      → header.qdcount ≡ 1
      → IsQuestion q
      → q.qtype ≡ 1
      → q.qname ≡ name ++ 0 ∷ []
      → dump_question q ≡ ok body
      → Knows st.cache name r record_time ttl
      → expired now item ≡ false
      → is_blocked r ≡ ok false
      → dump_resource_record (record r { ttl = remaining_ttl now item }) ≡ ok bytes
      → 12 + length (body ++ bytes) ≤ buffer_len
      → (st' : Server) × (handle_stream now client (dump_header header ++ (body ++ rest)) st
          ≡ ok (some replied, st'))
        × (st'.sent
            ≡ record { bytes = dump_header (answer_header header) ++ (body ++ bytes); to = client }
              ∷ st.sent)
        × (st'.convert_table ≡ st.convert_table)
        × (st'.buf1_len ≡ st.buf1_len)
  unfolding handle_stream handle_receive_query
  stream-answered rest st v query one vq address named dumped known alive visible printed fits =
      let hit = lookup_question-address q name st.cache address named ∙ known.found in
      let (s, list', frame, ran) =
        handle_read_cache-items now client header q st known.list_of (known.head_at, head_item)
          ((known.node_at, item) ∷ []) hit known.list refl known.below in
      let st₁ : Server = record st { cache = record (st.cache) { store = s } } in
      let no_cname : cache_find cache_type_cname (name ++ 0 ∷ []) st₁.cache ≡ ok none =
        cache_find-view st₁.cache cache_type_cname
          (record { root = known.cnames.root; map = known.cnames.map }) name [] known.key
        ∙ ap ok (store_apart st.cache s cache_type_cname name ∙ known.no_cname) in
      let answers = answer_items-one st₁ address named dumped visible printed fits no_cname in
      let kept_one : kept now ((known.node_at, item) ∷ []) ≡ (known.node_at, item) ∷ [] =
        unfold kept in rw alive refl in
      (
        record st₁ {
          sent =
              record { bytes = dump_header (answer_header header) ++ (body ++ bytes); to = client }
              ∷ st.sent;
        },
        rw
            (
              parse_header-dump_header header (body ++ rest) v,
              (==_iff header.qr 0).1 query,
              (==_iff header.qdcount 1).1 one,
              parse_question-dumped q body rest vq dumped,
              ran,
              kept_one,
              answers,
            )
            refl,
        refl,
        refl,
        refl,
      )
