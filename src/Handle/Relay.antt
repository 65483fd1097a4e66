-- ===== src/Handle/Relay.antt =====
-- src/protocol/handle.c: what becomes of a query and of its response on the way through the
-- conversion table.
use adrift.Base.{
  ℕ, ◌+◌, ◌%◌, ◌^◌, ◌≤◌, ◌<◌, ◌≡◌, ◌≢◌, refl, sym, ap, true, false, List, [], ◌∷◌, ◌++◌, ok, ◌>>=◌,
  eqb_refl, ne→==_false, ltb, lt→ltb, arith, length, length-append, update, append-nil,
}
use adrift.Handle.State.{Server, Convert, Packet, map_len, buffer_len, send, write_convert}
use adrift.Handle.Query.{
  reserve_entry, forward_query, handle_send_query, handle_receive_query, replied,
}
use adrift.Handle.Response.{Sections, response_body, handle_send_response}
use adrift.Protocol.Header.{DnsHeader, dump_header, parse_header, get_error_header, format_error}
use adrift.Protocol.Header.RoundTrip.{parse_header-dump_header}
use adrift.Protocol.Bytes.{store16}
use adrift.Protocol.Question.{DnsQuestion, dump_question}

pub length-dump_header : (h : DnsHeader) → length (dump_header h) ≡ 12
unfolding dump_header store16
length-dump_header h = refl

-- A message that fits its buffer is sent.
pub send_fits :
    (h : DnsHeader) (body : List ℕ) (to : ℕ) (st : Server)
    → 12 + length body ≤ buffer_len
    → send (dump_header h ++ body) to st
      ≡ ok (record st { sent = record { bytes = dump_header h ++ body; to = to } ∷ st.sent })
unfolding send
send_fits h body to st fits = rw (
    not_above (length (dump_header h ++ body))
      (omega (arith, length-append (dump_header h) body, length-dump_header h)))
  where
    not_above : (n : ℕ) → n ≤ 2048 → ltb 2048 n ≡ false
    not_above n h = ground arith

-- The query as it is forwarded.
pub record Forwarded (client : ℕ) (header : DnsHeader) (body : List ℕ) (st : Server) (id : ℕ)
    (st' : Server) : Type 0 where
  pub sent :
      st'.sent
      ≡ record { bytes = dump_header (record header { id = id }) ++ body; to = st.dns_addr }
        ∷ st.sent
  pub entry : st'.convert_table id ≡ record {
    buf_req_id = header.id;
    buf_sock = client;
    sem = (st.convert_table id).sem;
    valid = 1;
  }
  pub others : (k : ℕ) → k ≢ id → st'.convert_table k ≡ st.convert_table k
  pub counter : st'.buf1_len ≡ id + 1
  pub cache : st'.cache ≡ st.cache

-- While the counter is below 2 ^ 16, a query is forwarded under the counter's value, and the
-- entry of that number, and no other, holds the client and its identification.
pub handle_send_query-Forwarded :
    (client : ℕ) (header : DnsHeader) (q : DnsQuestion) (body : List ℕ) (st : Server)
    → dump_question q ≡ ok body
    → 12 + length body ≤ buffer_len
    → st.buf1_len < 2 ^ 16
    → (st' : Server) × (handle_send_query client header q st ≡ ok (st.buf1_len, st'))
      × Forwarded client header body st st.buf1_len st'
unfolding handle_send_query reserve_entry forward_query write_convert
handle_send_query-Forwarded client header q body st dumped fits low =
    let n = st.buf1_len in
    let e = st.convert_table n in
    let e₁ : Convert = record e { buf_req_id = header.id; buf_sock = client } in
    let table = update st.convert_table n e₁ in
    let st₂ : Server = record st { convert_table = table; buf1_len = n + 1 } in
    let room : ltb n map_len ≡ true = lt→ltb n map_len (omega arith) in
    let small : n % 2 ^ 16 ≡ n = omega arith in
    (
      record st {
        convert_table = update table n (record (table n) { valid = 1 });
        buf1_len = n + 1;
        sent =
            record { bytes = dump_header (record header { id = n }) ++ body; to = st.dns_addr }
            ∷ st.sent;
      },
      rw
          (
            room,
            room,
            small,
            dumped,
            send_fits (record header { id = n }) body st.dns_addr st₂ fits,
            room,
          )
          refl,
      record {
        sent = refl;
        entry = rw (eqb_refl n) refl;
        others = λ k f. rw (ne→==_false n k (λ w. f (sym w)));
        counter = refl;
        cache = refl;
      },
    )

-- A query and the response to it: with the counter below 2 ^ 16, and messages that fit their
-- buffers, the query goes to the upstream server under the counter's value, and a response sent
-- back for that value goes to the client, with the identification of the client's query.
pub relay_round_trip :
    (client : ℕ) (header reply : DnsHeader) (q q' : DnsQuestion) (ss : Sections)
    (query_body reply_body : List ℕ) (st : Server)
    → dump_question q ≡ ok query_body
    → response_body q' ss ≡ ok reply_body
    → 12 + length query_body ≤ buffer_len
    → 12 + length reply_body ≤ buffer_len
    → st.buf1_len < 2 ^ 16
    → (st' : Server) × ((handle_send_query client header q st >>= λ r.
          handle_send_response r.0 reply q' ss r.1)
        ≡ ok st')
      × (st'.sent
          ≡ record {
            bytes = dump_header (record reply { id = header.id }) ++ reply_body;
            to = client;
          }
            ∷ record {
              bytes = dump_header (record header { id = st.buf1_len }) ++ query_body;
              to = st.dns_addr;
            }
            ∷ st.sent)
unfolding handle_send_response
relay_round_trip client header reply q q' ss query_body reply_body st dumped dumped' fits fits'
      low =
    let (st₁, run, f) = handle_send_query-Forwarded client header q query_body st dumped fits low in
    let reply_packet : Packet = record {
      bytes = dump_header (record reply { id = header.id }) ++ reply_body;
      to = client;
    } in
    (
      record st₁ { sent = reply_packet ∷ st₁.sent },
      rw (run, dumped', f.entry)
          (send_fits (record reply { id = header.id }) reply_body client st₁ fits'),
      ap (λ l. reply_packet ∷ l) f.sent,
    )

-- A query that does not have exactly one question is answered at once, and not forwarded; the
-- answer is a format error whose identification is 0 and not the query's.
pub refusal_without_id :
    (now client : ℕ) (buf : List ℕ) (header : DnsHeader) (st : Server)
    → header.qdcount ≢ 1
    → (bytes : List ℕ) × (handle_receive_query now client buf header st
        ≡ ok (replied, record st { sent = record { bytes = bytes; to = client } ∷ st.sent }))
      × (parse_header bytes ≡ ok (get_error_header format_error, []))
      × ((get_error_header format_error).id ≡ 0)
unfolding handle_receive_query
refusal_without_id now client buf header st odd =
    let h = get_error_header format_error in
    let sized = append-nil (dump_header h) in
    (
      dump_header h,
      rw (ne→==_false header.qdcount 1 odd) (
          ap (λ r. r >>= λ st'. ok (replied, st'))
            (rw sized at (send_fits h [] client st (omega arith)))),
      rw sized at (parse_header-dump_header h [] (unfold get_error_header in omega arith)),
      unfold get_error_header in refl,
    )
