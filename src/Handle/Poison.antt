-- ===== src/Handle/Poison.antt =====
-- src/protocol/handle.c: a response that nobody has asked for, and a question for its name.
use adrift.Base.{
  ℕ, ◌+◌, ◌≤◌, ◌<◌, ◌≡◌, refl, ap, ◌∙◌, false, none, some, List, [], ◌∷◌, ◌++◌, ok, ne→==_false,
  arith, length,
}
use adrift.Cache.{Cache, cache_type_ipv4, cache_type_cname}
use adrift.Cache.Laws.{IsCache, cache_view}
use adrift.Ds.HashMap.{key_size}
use adrift.Ds.Trie.Laws.{IsKey}
use adrift.Handle.Answer.{
  First-Knows, not_yet_expired, answer_header, is_blocked-address, stream-answered,
}
use adrift.Handle.Query.{replied}
use adrift.Handle.ReadCache.{remaining_ttl}
use adrift.Handle.Repeat.{one_answer, cached_item, cache_sections-First}
use adrift.Handle.Response.{
  Sections, response_body, cache_sections, handle_receive_response, handle_stream, receive_datagram,
}
use adrift.Handle.State.{Server, buffer_len}
use adrift.Handle.Stream.{received-message}
use adrift.Handle.Wire.{IsMessage, parse-response_body}
use adrift.Hosts.{is_zero_address}
use adrift.Protocol.Header.{DnsHeader, IsHeader, dump_header, no_error}
use adrift.Protocol.Header.RoundTrip.{parse_header-dump_header}
use adrift.Protocol.Question.{DnsQuestion, dump_question}
use adrift.Protocol.Record.{DnsResourceRecord, dump_resource_record}
use adrift.Util.{min_u32}

-- The datagram of a response under a number whose entry is not valid.
stream-unsolicited :
    (now sender : ℕ) (reply : DnsHeader) (q : DnsQuestion) (ss : Sections) (body rest : List ℕ)
    (c : Cache) (st : Server)
    → reply.qr ≡ 1
    → IsMessage reply q ss
    → response_body q ss ≡ ok body
    → (st.convert_table reply.id).valid ≡ 0
    → cache_sections now reply q.qname ss st.cache ≡ ok c
    → handle_stream now sender (dump_header reply ++ (body ++ rest)) st
      ≡ ok (none, record st { cache = c })
unfolding handle_stream handle_receive_response
stream-unsolicited now sender reply q ss body rest c st response v dumped idle cached =
    let (p, at_question, at_sections) =
      parse-response_body reply q ss body (dump_header reply ++ (body ++ rest)) rest v dumped in
    rw
      (
        parse_header-dump_header reply (body ++ rest) v.header,
        ne→==_false reply.qr 0 (omega arith),
        at_question,
        at_sections,
        cached,
        idle,
      )
      refl

-- Two whole datagrams. The caches of IPv4 addresses and of other names are well formed and do not
-- hold a name of at most 45 bytes from 33 to 127. Anybody sends a response under a number that no
-- thread waits for, without an error and with one record, an IPv4 address other than 0.0.0.0:
-- nothing is sent on and the conversion table stays. A client that then asks for the IPv4 address
-- of that name, no later than ten seconds after the record's time to live, cut to 180 seconds, has
-- run out, is answered with that record, and nothing is forwarded. Both messages are well formed
-- and fit the buffers, the response with its names written out.
pub unsolicited_response :
    (now last sender client : ℕ) (header reply : DnsHeader) (q : DnsQuestion)
    (r : DnsResourceRecord) (name query_body rest reply_body rest' bytes : List ℕ) (st : Server)
    → IsHeader header
    → header.qr ≡ 0
    → header.qdcount ≡ 1
    → q.qtype ≡ 1
    → q.qname ≡ name ++ 0 ∷ []
    → IsKey name
    → length name < key_size
    → dump_question q ≡ ok query_body
    → 12 + length query_body ≤ buffer_len
    → IsCache st.cache cache_type_ipv4
    → cache_view st.cache cache_type_ipv4 name ≡ none
    → IsCache st.cache cache_type_cname
    → cache_view st.cache cache_type_cname name ≡ none
    → (st.convert_table reply.id).valid ≡ 0
    → reply.qr ≡ 1
    → reply.rcode ≡ no_error
    → IsMessage reply q (one_answer r)
    → r.rtype ≡ 1
    → r.rdlength ≡ 4
    → is_zero_address r.rdata ≡ false
    → response_body q (one_answer r) ≡ ok reply_body
    → 12 + length reply_body ≤ buffer_len
    → last ≤ now + min_u32 180 r.ttl + 10
    → dump_resource_record (record r { ttl = remaining_ttl last (cached_item now r) }) ≡ ok bytes
    → 12 + length (query_body ++ bytes) ≤ buffer_len
    → (st₁ st₂ : Server) × (receive_datagram now sender
          (dump_header reply ++ (reply_body ++ rest'))
          st
        ≡ ok (none, st₁))
      × (st₁.sent ≡ st.sent)
      × (st₁.convert_table ≡ st.convert_table)
      × (receive_datagram last client (dump_header header ++ (query_body ++ rest)) st₁
          ≡ ok (some replied, st₂))
      × (st₂.sent
          ≡ record {
            bytes = dump_header (answer_header header) ++ (query_body ++ bytes);
            to = client;
          }
            ∷ st.sent)
unfolding receive_datagram
unsolicited_response now last sender client header reply q r name query_body rest reply_body rest'
      bytes st v query one address named key short dumped fits ipv4 absent cname no_cname idle
      response fine message address_record four real dumped' fits' alive printed fits'' =
    let (zs, front) = received-message header query_body rest fits in
    let (zs', front') = received-message reply reply_body rest' fits' in
    let (c, cached, first) =
      cache_sections-First now reply name r st.cache fine address_record ipv4 key short absent in
    let st₁ : Server = record st { cache = c } in
    let ran =
      stream-unsolicited now sender reply q (one_answer r) reply_body zs' c st response message
        dumped' idle (rw named cached) in
    let (st₂, ran', sent, _, _) =
      stream-answered last client header q query_body name bytes r now (min_u32 180 r.ttl) zs st₁ v
        query one message.question address named dumped (First-Knows first key cname no_cname)
        (not_yet_expired last r now (min_u32 180 r.ttl) alive)
        (is_blocked-address r four (message.answers.0.fits.measured ∙ four) ∙ ap ok real) printed
        fits'' in
    (st₁, st₂, rw front' ran, refl, refl, rw front ran', sent)
