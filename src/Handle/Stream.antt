-- ===== src/Handle/Stream.antt =====
-- src/protocol/handle.c: `handle_stream` on the datagrams of a query and of its response.
use adrift.Base.{
  ℕ, ◌+◌, ◌-◌, length-append, append_assoc, take, take-append, replicate, ◌≤◌, ◌<◌, ◌^◌, ◌≡◌, refl,
  sym, ap, subst, ◌∙◌, true, none, some, List, ◌∷◌, ◌++◌, ok, arith, ltb, lt→ltb, length, ==_iff,
  ◌==◌, false, ne→==_false, update, eqb_refl,
}
use adrift.Cache.{Cache}
use adrift.Handle.State.{Server, Convert, Packet, buffer_len, map_len, write_convert}
use adrift.Handle.Query.{handle_receive_query, forwarded, signal}
use adrift.Handle.ReadCache.{lookup_question, handle_read_cache}
use adrift.Handle.Relay.{Forwarded, handle_send_query-Forwarded, send_fits, length-dump_header}
use adrift.Handle.Response.{
  Sections, response_body, cache_sections, handle_send_response, handle_receive_response,
  handle_stream, received, receive_datagram,
}
use adrift.Handle.Wire.{IsQuestion, IsMessage, parse_question-dumped, parse-response_body}
use adrift.Protocol.Header.{DnsHeader, IsHeader, dump_header}
use adrift.Protocol.Header.RoundTrip.{parse_header-dump_header}
use adrift.Protocol.Question.{DnsQuestion, dump_question}

-- The front of a datagram is received whole.
received-front :
    (xs ys : List ℕ) → length xs ≤ buffer_len → (zs : List ℕ) × (received (xs ++ ys) ≡ xs ++ zs)
unfolding received
received-front xs ys h = (
  take (buffer_len - length xs) ys ++ replicate (buffer_len - length (xs ++ ys)) 0,
  rw (take-append buffer_len xs ys h) (append_assoc xs _ _),
)

-- A message that fits the buffer is received whole.
pub received-message :
    (h : DnsHeader) (body rest : List ℕ)
    → 12 + length body ≤ buffer_len
    → (zs : List ℕ) × (received (dump_header h ++ (body ++ rest)) ≡ dump_header h ++ (body ++ zs))
received-message h body rest fits =
    let (zs, e) =
      received-front (dump_header h ++ body) rest
        (omega (arith, length-append (dump_header h) body, length-dump_header h)) in
    (
      zs,
      ap received (sym (append_assoc (dump_header h) body rest))
          ∙ (e ∙ append_assoc (dump_header h) body zs),
    )

-- A query that is not in the cache.
pub stream-Forwarded :
    (now client : ℕ) (header : DnsHeader) (q : DnsQuestion) (body rest : List ℕ) (st : Server)
    → IsHeader header
    → header.qr ≡ 0
    → header.qdcount ≡ 1
    → IsQuestion q
    → dump_question q ≡ ok body
    → 12 + length body ≤ buffer_len
    → lookup_question q st.cache ≡ ok none
    → st.buf1_len < 2 ^ 16
    → (st' : Server) × (handle_stream now client (dump_header header ++ (body ++ rest)) st
        ≡ ok (some (forwarded st.buf1_len), st'))
      × Forwarded client header body st st.buf1_len st'
unfolding handle_stream handle_receive_query handle_read_cache
stream-Forwarded now client header q body rest st v query one vq dumped fits missing low =
    let (st', ran, f) = handle_send_query-Forwarded client header q body st dumped fits low in
    (
      st',
      rw
          (
            parse_header-dump_header header (body ++ rest) v,
            (==_iff header.qr 0).1 query,
            (==_iff header.qdcount 1).1 one,
            parse_question-dumped q body rest vq dumped,
            missing,
            ran,
          )
          refl,
      f,
    )

-- The response to it, which finds the query's entry.
pub stream-delivered :
    (now client upstream : ℕ) (header reply : DnsHeader) (q : DnsQuestion) (ss : Sections)
    (query_body body rest : List ℕ) (c : Cache) (st st₁ : Server)
    → Forwarded client header query_body st reply.id st₁
    → reply.id < 2 ^ 16
    → reply.qr ≡ 1
    → IsMessage reply q ss
    → response_body q ss ≡ ok body
    → 12 + length body ≤ buffer_len
    → cache_sections now reply q.qname ss st.cache ≡ ok c
    → (st₂ : Server) × (handle_stream now upstream (dump_header reply ++ (body ++ rest)) st₁
        ≡ ok (none, st₂))
      × (st₂.sent
          ≡ record { bytes = dump_header (record reply { id = header.id }) ++ body; to = client }
            ∷ st₁.sent)
      × ((st₂.convert_table reply.id).sem ≡ (st.convert_table reply.id).sem + 1)
      × (st₂.cache ≡ c)
unfolding handle_stream handle_receive_response handle_send_response signal write_convert
stream-delivered now client upstream header reply q ss query_body body rest c st st₁ f low response
      v dumped fits cached =
    let n = reply.id in
    let (p, at_question, at_sections) =
      parse-response_body reply q ss body (dump_header reply ++ (body ++ rest)) rest v dumped in
    let packet : Packet = record {
      bytes = dump_header (record reply { id = header.id }) ++ body;
      to = client;
    } in
    let final : Convert = record {
      buf_req_id = header.id;
      buf_sock = client;
      sem = (st.convert_table n).sem + 1;
      valid = 1;
    } in
    let st₂ : Server = record st₁ { cache = c } in
    let is_response : (reply.qr == 0) ≡ false = ne→==_false reply.qr 0 (omega arith) in
    let room : ltb n map_len ≡ true = lt→ltb n map_len (omega arith) in
    (
      record st₁ {
        cache = c;
        convert_table = update st₁.convert_table n final;
        sent = packet ∷ st₁.sent;
      },
      rw
          (
            parse_header-dump_header reply (body ++ rest) v.header,
            is_response,
            at_question,
            at_sections,
            f.cache,
            cached,
            f.entry,
            dumped,
            send_fits (record reply { id = header.id }) body client st₂ fits,
            room,
            f.entry,
          )
          refl,
      refl,
      rw (eqb_refl n) refl,
      refl,
    )

-- Whole datagrams. A well-formed query of one question that the cache does not know, with the counter
-- below 2 ^ 16, is forwarded as its header and question, with the counter's value as identification
-- and without what stands behind the question. The datagram of a response under that number, of
-- records whose names are all written out in labels and not compressed and that can be cached,
-- whatever stands behind them, is then sent to the client byte for byte but for what stands behind
-- and for the identification, which is that of the client's query, and the thread that waits is
-- signalled. Both messages fit the buffers.
pub stream_round_trip :
    (now later client upstream : ℕ) (header reply : DnsHeader) (q q' : DnsQuestion) (ss : Sections)
    (query_body rest reply_body rest' : List ℕ) (c : Cache) (st : Server)
    → IsHeader header
    → header.qr ≡ 0
    → header.qdcount ≡ 1
    → IsQuestion q
    → dump_question q ≡ ok query_body
    → 12 + length query_body ≤ buffer_len
    → lookup_question q st.cache ≡ ok none
    → st.buf1_len < 2 ^ 16
    → reply.id ≡ st.buf1_len
    → reply.qr ≡ 1
    → IsMessage reply q' ss
    → response_body q' ss ≡ ok reply_body
    → 12 + length reply_body ≤ buffer_len
    → cache_sections later reply q'.qname ss st.cache ≡ ok c
    → (st₁ st₂ : Server) × (receive_datagram now client
          (dump_header header ++ (query_body ++ rest))
          st
        ≡ ok (some (forwarded st.buf1_len), st₁))
      × (receive_datagram later upstream (dump_header reply ++ (reply_body ++ rest')) st₁
          ≡ ok (none, st₂))
      × (st₂.sent
          ≡ record {
            bytes = dump_header (record reply { id = header.id }) ++ reply_body;
            to = client;
          }
            ∷ record {
              bytes = dump_header (record header { id = st.buf1_len }) ++ query_body;
              to = st.dns_addr;
            }
            ∷ st.sent)
      × (0 < (st₂.convert_table st.buf1_len).sem)
unfolding receive_datagram
stream_round_trip now later client upstream header reply q q' ss query_body rest reply_body rest' c
      st v query one vq dumped fits missing low number response v' dumped' fits' cached =
    let (zs, front) = received-message header query_body rest fits in
    let (zs', front') = received-message reply reply_body rest' fits' in
    let (st₁, ran, f) =
      stream-Forwarded now client header q query_body zs st v query one vq dumped fits missing
        low in
    let (st₂, ran', sent, ready, _) =
      stream-delivered later client upstream header reply q' ss query_body reply_body zs' c st st₁
        (subst (λ n. Forwarded client header query_body st n st₁) (sym number) f) (omega arith)
        response v' dumped' fits' cached in
    let reply_packet : Packet = record {
      bytes = dump_header (record reply { id = header.id }) ++ reply_body;
      to = client;
    } in
    (
      st₁,
      st₂,
      rw front ran,
      rw front' ran',
      sent ∙ ap (λ l. reply_packet ∷ l) f.sent,
      subst (λ n. 0 < (st₂.convert_table n).sem) number (omega arith),
    )
