-- ===== src/Handle/Repeat.antt =====
-- src/protocol/handle.c: a query, its response, and the same question from another client.
use adrift.Base.{
  ℕ, ◌+◌, ◌≤◌, ◌<◌, ◌^◌, ◌≡◌, refl, sym, ap, subst, ◌∙◌, false, none, some, List, [], ◌∷◌, ◌++◌, ok,
  Run, ==_iff, arith, length,
}
use adrift.Cache.{Cache, cache_insert, cache_type_ipv4, cache_type_cname}
use adrift.Cache.First.{First, record_item, store_record-First}
use adrift.Cache.Laws.{IsCache, cache_view, cache_find-view}
use adrift.Ds.HashMap.{key_size}
use adrift.Ds.List.{answer}
use adrift.Ds.Trie.Laws.{IsKey}
use adrift.Handle.Answer.{
  Knows, First-Knows, not_yet_expired, answer_header, is_blocked-address, lookup_question-address,
  stream-answered,
}
use adrift.Handle.Relay.{Forwarded}
use adrift.Handle.Query.{forwarded, replied}
use adrift.Handle.ReadCache.{cache_of, lookup_question, remaining_ttl}
use adrift.Handle.Response.{
  Sections, response_body, cache_record, cache_records, cache_sections, receive_datagram,
}
use adrift.Handle.State.{Server, buffer_len}
use adrift.Handle.Stream.{received-message, stream-Forwarded, stream-delivered}
use adrift.Handle.Wire.{IsMessage}
use adrift.Hosts.{is_zero_address}
use adrift.Protocol.Header.{DnsHeader, IsHeader, dump_header, no_error}
use adrift.Protocol.Question.{DnsQuestion, dump_question}
use adrift.Protocol.Record.{DnsResourceRecord, dump_resource_record}
use adrift.Util.{min_u32}

-- The sections of a response with one answer.
abbrev pub one_answer : DnsResourceRecord → Sections
one_answer r = record { answers = r ∷ []; authorities = []; additionals = [] }

-- The item that the answer is cached as.
abbrev pub cached_item : ℕ → DnsResourceRecord → adrift.Ds.List.Segment.Item
cached_item now r = record_item r answer now (min_u32 180 r.ttl)

-- What is done with a record of an IPv4 address.
of_address :
    (k : ℕ) (qname : List ℕ) (node : ℕ) (c : Cache)
    → k ≡ 1
    → elim (cache_of k) [ none ↦ ok c | some cache_type ↦ cache_insert cache_type qname node c ]
      ≡ cache_insert cache_type_ipv4 qname node c
of_address k qname node c e =
    ap
      (λ i. elim (cache_of i) as (λ _. Run Cache) [
        | none ↦ ok c
        | some cache_type ↦ cache_insert cache_type qname node c
      ])
      e

-- The answer's record is cached under the name.
pub cache_sections-First :
    (now : ℕ) (reply : DnsHeader) (name : List ℕ) (r : DnsResourceRecord) (c : Cache)
    → reply.rcode ≡ no_error
    → r.rtype ≡ 1
    → IsCache c cache_type_ipv4
    → IsKey name
    → length name < key_size
    → cache_view c cache_type_ipv4 name ≡ none
    → (c' : Cache) × (cache_sections now reply (name ++ 0 ∷ []) (one_answer r) c ≡ ok c')
      × First c cache_type_ipv4 name (cached_item now r) c'
unfolding cache_sections cache_records cache_record
cache_sections-First now reply name r c fine address v key fits absent =
    let (s, c', made, ran, f) =
      store_record-First r answer now (min_u32 180 r.ttl) c cache_type_ipv4 name v key fits
        absent in
    let stored =
      of_address r.rtype (name ++ 0 ∷ []) c.store.free_node (record c { store = s }) address
      ∙ ran in
    (c', rw ((==_iff reply.rcode 0).1 fine, made, stored) refl, f)

-- Three whole datagrams. The caches of IPv4 addresses and of other names are well formed and do not
-- hold a name of at most 45 bytes from 33 to 127, and the counter is below 2 ^ 16. A client's query
-- for the IPv4 address of the name is forwarded under the counter's value; the response under that
-- number, without an error and with one record, an IPv4 address other than 0.0.0.0, is sent to the
-- client. When then another client, or the same one, asks the same question, no later than ten
-- seconds after the record's time to live, cut to 180 seconds, has run out, it is answered at once
-- and nothing is forwarded: the answer has the question, the identification of its query and that
-- record with `remaining_ttl` as its time to live. What stands behind the messages is not looked
-- at. All messages are well formed and fit the buffers.
pub repeated_question :
    (now later last client client' upstream : ℕ) (header header' reply : DnsHeader)
    (q : DnsQuestion) (r : DnsResourceRecord)
    (name query_body rest rest' reply_body rest'' bytes : List ℕ) (st : Server)
    → IsHeader header
    → header.qr ≡ 0
    → header.qdcount ≡ 1
    → IsHeader header'
    → header'.qr ≡ 0
    → header'.qdcount ≡ 1
    → q.qtype ≡ 1
    → q.qname ≡ name ++ 0 ∷ []
    → IsKey name
    → length name < key_size
    → dump_question q ≡ ok query_body
    → 12 + length query_body ≤ buffer_len
    → IsCache st.cache cache_type_ipv4
    → cache_view st.cache cache_type_ipv4 name ≡ none
    → IsCache st.cache cache_type_cname
    → cache_view st.cache cache_type_cname name ≡ none
    → st.buf1_len < 2 ^ 16
    → reply.id ≡ st.buf1_len
    → reply.qr ≡ 1
    → reply.rcode ≡ no_error
    → IsMessage reply q (one_answer r)
    → r.rtype ≡ 1
    → r.rdlength ≡ 4
    → is_zero_address r.rdata ≡ false
    → response_body q (one_answer r) ≡ ok reply_body
    → 12 + length reply_body ≤ buffer_len
    → last ≤ later + min_u32 180 r.ttl + 10
    → dump_resource_record (record r { ttl = remaining_ttl last (cached_item later r) }) ≡ ok bytes
    → 12 + length (query_body ++ bytes) ≤ buffer_len
    → (st₁ st₂ st₃ : Server) × (receive_datagram now client
          (dump_header header ++ (query_body ++ rest))
          st
        ≡ ok (some (forwarded st.buf1_len), st₁))
      × (receive_datagram later upstream (dump_header reply ++ (reply_body ++ rest'')) st₁
          ≡ ok (none, st₂))
      × (receive_datagram last client' (dump_header header' ++ (query_body ++ rest')) st₂
          ≡ ok (some replied, st₃))
      × (st₃.sent
          ≡ record {
            bytes = dump_header (answer_header header') ++ (query_body ++ bytes);
            to = client';
          }
            ∷ record {
              bytes = dump_header (record reply { id = header.id }) ++ reply_body;
              to = client;
            }
            ∷ record {
              bytes = dump_header (record header { id = st.buf1_len }) ++ query_body;
              to = st.dns_addr;
            }
            ∷ st.sent)
unfolding receive_datagram
repeated_question now later last client client' upstream header header' reply q r name query_body
      rest rest' reply_body rest'' bytes st v query one v' query' one' address named key short
      dumped fits ipv4 absent cname no_cname low number response fine message address_record four
      real dumped' fits' alive printed fits'' =
    let (zs, front) = received-message header query_body rest fits in
    let (zs', front') = received-message header' query_body rest' fits in
    let (zs'', front'') = received-message reply reply_body rest'' fits' in
    let missing : lookup_question q st.cache ≡ ok none =
      lookup_question-address q name st.cache address named
      ∙ cache_find-view st.cache cache_type_ipv4 ipv4 name [] key
      ∙ ap ok absent in
    let (st₁, ran, f) =
      stream-Forwarded now client header q query_body zs st v query one message.question dumped fits
        missing low in
    let (c, cached, first) =
      cache_sections-First later reply name r st.cache fine address_record ipv4 key short absent in
    let (st₂, ran', sent, ready, cache) =
      stream-delivered later client upstream header reply q (one_answer r) query_body reply_body
        zs'' c st st₁ (subst (λ n. Forwarded client header query_body st n st₁) (sym number) f)
        (omega arith) response message dumped' fits' (rw named cached) in
    let known = First-Knows first key cname no_cname in
    let (st₃, ran'', sent', _, _) =
      stream-answered last client' header' q query_body name bytes r later (min_u32 180 r.ttl) zs'
        st₂ v' query' one' message.question address named dumped
        (subst (λ k. Knows k name r later (min_u32 180 r.ttl)) (sym cache) known)
        (not_yet_expired last r later (min_u32 180 r.ttl) alive)
        (is_blocked-address r four (message.answers.0.fits.measured ∙ four) ∙ ap ok real) printed
        fits'' in
    (st₁, st₂, st₃, rw front ran, rw front'' ran', rw front' ran'', rw (sent', sent, f.sent) refl)
