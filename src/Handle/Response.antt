-- ===== src/Handle/Response.antt =====
-- src/protocol/handle.c, `handle_send_response`, `handle_receive_response` and `handle_stream`.
use adrift.Base.{
  ℕ, zero, suc, ◌-◌, length, take, replicate, Bool, true, false, Option, none, some, List, [], ◌∷◌,
  ◌++◌, Run, ok, ◌>>=◌, ◌==◌, if◌then◌else◌,
}
use adrift.Cache.{Cache, cache_insert}
use adrift.Ds.List.{answer, authority, additional, list_node_ctor_with_info}
use adrift.Handle.Query.{signal, Outcome, handle_receive_query}
use adrift.Handle.ReadCache.{cache_of}
use adrift.Handle.State.{Server, buffer_len, send}
use adrift.Protocol.Header.{DnsHeader, parse_header, dump_header, no_error}
use adrift.Protocol.Question.{DnsQuestion, parse_question, dump_question}
use adrift.Protocol.Record.{DnsResourceRecord, parse_resource_record, dump_resource_record}
use adrift.Util.{min_u32}

-- The three sections of a message.
pub record Sections : Type 0 where
  pub answers : List DnsResourceRecord
  pub authorities : List DnsResourceRecord
  pub additionals : List DnsResourceRecord

-- The loop that parses the records of a section.
unfoldable pub parse_records : ℕ → List ℕ → List ℕ → Run (List DnsResourceRecord × List ℕ)
parse_records zero buf name_buf = ok ([], buf)
parse_records (suc n) buf name_buf = do
  (r, p) ← parse_resource_record buf name_buf
  (rs, p') ← parse_records n p name_buf
  ok (r ∷ rs, p')

unfoldable pub parse_sections : List ℕ → List ℕ → DnsHeader → Run Sections
unfolding parse_records
parse_sections buf name_buf header = do
  (an, p₁) ← parse_records header.ancount buf name_buf
  (ns, p₂) ← parse_records header.nscount p₁ name_buf
  (ar, _) ← parse_records header.arcount p₂ name_buf
  ok (record { answers = an; authorities = ns; additionals = ar })

-- One round of a loop that fills the cache: records of other types are dropped.
unfoldable pub cache_record : ℕ → ℕ → List ℕ → DnsResourceRecord → Cache → Run Cache
cache_record now rr_type qname r c = do
  (node, s) ← list_node_ctor_with_info r rr_type now (min_u32 180 r.ttl) c.store
  let c' : Cache = record c { store = s }
  elim (cache_of r.rtype) [ none ↦ ok c' | some cache_type ↦ cache_insert cache_type qname node c' ]

unfoldable pub cache_records : ℕ → ℕ → List ℕ → List DnsResourceRecord → Cache → Run Cache
cache_records now rr_type qname [] c = ok c
cache_records now rr_type qname (r ∷ rs) c = do
  c' ← cache_record now rr_type qname r c
  cache_records now rr_type qname rs c'

-- `/// 写 cache`: a response without an error is cached.
unfoldable pub cache_sections : ℕ → DnsHeader → List ℕ → Sections → Cache → Run Cache
unfolding cache_records cache_record
cache_sections now header qname ss c =
    let all = (do
      c₁ ← cache_records now answer qname ss.answers c
      c₂ ← cache_records now authority qname ss.authorities c₁
      cache_records now additional qname ss.additionals c₂) in
    if header.rcode == no_error then all else ok c

unfoldable pub dump_records : List DnsResourceRecord → Run (List ℕ)
dump_records [] = ok []
dump_records (r ∷ rs) = do
  bytes ← dump_resource_record r
  more ← dump_records rs
  ok (bytes ++ more)

-- The bytes that are written behind the header of a response. The code writes them into a buffer of
-- 2048 bytes as it goes; whether they have overrun it is found by `send`, once they are all known,
-- so that a record that cannot be printed is reported before an overrun. The lists come from `parse_sections`, and are as long
-- as the header counts.
unfoldable pub response_body : DnsQuestion → Sections → Run (List ℕ)
unfolding dump_records
response_body q ss = do
  question ← dump_question q
  an ← dump_records ss.answers
  ns ← dump_records ss.authorities
  ar ← dump_records ss.additionals
  ok (question ++ (an ++ (ns ++ ar)))

-- The client and its identification come from the conversion table.
unfoldable pub handle_send_response : ℕ → DnsHeader → DnsQuestion → Sections → Server → Run Server
handle_send_response req_id header q ss st = do
  let e = st.convert_table req_id
  body ← response_body q ss
  send (dump_header (record header { id = e.buf_req_id }) ++ body) e.buf_sock st

-- `buf` stands behind the header in the message `name_buf`. The result is `true` for a return
-- value of 1. The cache is filled before the identification is checked.
unfoldable pub handle_receive_response :
    ℕ → List ℕ → List ℕ → DnsHeader → Server → Run (Bool × Server)
handle_receive_response now buf name_buf header st = do
  (q, p) ← parse_question buf
  ss ← parse_sections p name_buf header
  c ← cache_sections now header q.qname ss st.cache
  let st₁ : Server = record st { cache = c }
  let deliver = (do
    st₂ ← handle_send_response header.id header q ss st₁
    st₃ ← signal header.id st₂
    ok (true, st₃))
  if (st₁.convert_table header.id).valid == 0 then ok (false, st₁) else deliver

-- A datagram `buf` from `client`; `none` stands for a response.
unfoldable pub handle_stream : ℕ → ℕ → List ℕ → Server → Run (Option Outcome × Server)
handle_stream now client buf st = do
  (header, p) ← parse_header buf
  let query = (do
    (outcome, st') ← handle_receive_query now client p header st
    ok (some outcome, st'))
  let response = (do (_, st') ← handle_receive_response now p buf header st; ok (none, st'))
  if header.qr == 0 then query else response

-- `recvfrom` into a buffer of zeros: a longer datagram is cut.
unfoldable pub received : List ℕ → List ℕ
received datagram = take buffer_len datagram ++ replicate (buffer_len - length datagram) 0

-- A round of `event_loop`, with the thread that it makes, up to that thread's wait or end.
unfoldable pub receive_datagram : ℕ → ℕ → List ℕ → Server → Run (Option Outcome × Server)
receive_datagram now client datagram st = handle_stream now client (received datagram) st
