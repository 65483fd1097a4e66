-- ===== src/Handle/Messages.antt =====
-- src/protocol/handle.c: the loops over the records of a message end, whatever its bytes are.
use adrift.Base.{
  ℕ, zero, suc, ◌+◌, ◌≤◌, ◌<◌, ◌≡◌, ◌⊎◌, List, [], ◌∷◌, ◌++◌, refl, inl, inr, Ends, >>=-Ends, ok,
  fault, read_overrun, write_overrun, length, length-append, arith, ltb, ltb→lt, ltb_false→le,
  Bool-cases,
}
use adrift.Handle.State.{Server, buffer_len, send}
use adrift.Handle.Relay.{length-dump_header}
use adrift.Handle.Response.{
  Sections, parse_records, parse_sections, dump_records, response_body, handle_send_response,
}
use adrift.Protocol.Header.{DnsHeader, parse_header, dump_header}
use adrift.Protocol.Question.{DnsQuestion, parse_question, dump_question}
use adrift.Protocol.Record.{DnsResourceRecord, parse_resource_record, dump_resource_record}
use adrift.Protocol.Totality.{
  parse_header-Ends, parse_question-Ends, parse_resource_record-Ends, dump_question-Ends,
  dump_resource_record-Ends,
}

parse_records-Ends : (n : ℕ) (buf name_buf : List ℕ) → Ends (parse_records n buf name_buf)
unfolding parse_records
parse_records-Ends zero buf name_buf = inl (([], buf), refl)
parse_records-Ends (suc n) buf name_buf =
    >>=-Ends (parse_resource_record buf name_buf) _ (parse_resource_record-Ends buf name_buf) λ a.
      >>=-Ends (parse_records n a.1 name_buf) _ (parse_records-Ends n a.1 name_buf)
        λ b. inl (_, refl)

dump_records-Ends : (rs : List DnsResourceRecord) → Ends (dump_records rs)
unfolding dump_records
dump_records-Ends [] = inl ([], refl)
dump_records-Ends (r ∷ rs) =
    >>=-Ends (dump_resource_record r) _ (dump_resource_record-Ends r)
      λ a. >>=-Ends (dump_records rs) _ (dump_records-Ends rs) λ b. inl (_, refl)

parse_sections-Ends :
    (buf name_buf : List ℕ) (header : DnsHeader) → Ends (parse_sections buf name_buf header)
unfolding parse_sections
parse_sections-Ends buf name_buf header =
    >>=-Ends (parse_records header.ancount buf name_buf) _
      (parse_records-Ends header.ancount buf name_buf)
      λ a.
        >>=-Ends (parse_records header.nscount a.1 name_buf) _
          (parse_records-Ends header.nscount a.1 name_buf)
          λ b.
            >>=-Ends (parse_records header.arcount b.1 name_buf) _
              (parse_records-Ends header.arcount b.1 name_buf) λ c. inl (_, refl)

response_body-Ends : (q : DnsQuestion) (ss : Sections) → Ends (response_body q ss)
unfolding response_body
response_body-Ends q ss = >>=-Ends (dump_question q) _ (dump_question-Ends q) λ a.
    >>=-Ends (dump_records ss.answers) _ (dump_records-Ends ss.answers) λ b.
      >>=-Ends (dump_records ss.authorities) _ (dump_records-Ends ss.authorities) λ c.
        >>=-Ends (dump_records ss.additionals) _ (dump_records-Ends ss.additionals)
          λ d. inl (_, refl)

-- What comes of sending a response: its packet goes out and has at most 2048 bytes, or it is longer
-- and the buffer has been overrun, or printing it reads past the end of an object.
abbrev pub SendEnds : ℕ → DnsHeader → DnsQuestion → Sections → Server → Type 0
SendEnds req_id header q ss st =
    let e = st.convert_table req_id in
    let head = dump_header (record header { id = e.buf_req_id }) in
    ((body : List ℕ) × (12 + length body ≤ buffer_len)
      × (handle_send_response req_id header q ss st
          ≡ ok (record st { sent = record { bytes = head ++ body; to = e.buf_sock } ∷ st.sent })))
    ⊎ ((body : List ℕ) × (response_body q ss ≡ ok body)
        × (buffer_len < 12 + length body)
        × (handle_send_response req_id header q ss st ≡ fault write_overrun))
    ⊎ (handle_send_response req_id header q ss st ≡ fault read_overrun)

handle_send_response-SendEnds :
    (req_id : ℕ) (header : DnsHeader) (q : DnsQuestion) (ss : Sections) (st : Server)
    → SendEnds req_id header q ss st
unfolding handle_send_response send
handle_send_response-SendEnds req_id header q ss st =
    let e = st.convert_table req_id in
    let head = dump_header (record header { id = e.buf_req_id }) in
    elim (response_body-Ends q ss) [
      | inr bad ↦ inr (inr (rw bad refl))
      | inl (body, ran) ↦
          let size : length (head ++ body) ≡ 12 + length body = omega (
            arith,
            length-append head body,
            length-dump_header (record header { id = e.buf_req_id }),
          ) in
          elim (Bool-cases (ltb buffer_len (12 + length body))) [
            | inl long ↦ inr (
                inl
                  (body, ran, ltb→lt buffer_len (12 + length body) long, rw (ran, size, long) refl))
            | inr fits ↦
                inl
                  (body, ltb_false→le buffer_len (12 + length body) fits, rw (ran, size, fits) refl)
          ]
    ]

-- On any bytes, and with any counts in the header, parsing the header, the question and the three
-- sections of a message ends: each returns a value or reads past the end of an object. Sending a
-- response, whatever its sections, has one of three outcomes: one packet of at most 2048 bytes goes
-- out to the client of its entry, or the printed response is longer than the buffer and overruns
-- it, or printing reads past the end of an object. None of them follows a bad pointer or runs out
-- of the rounds that its fuel allows.
pub messages_end :
    (buf name_buf : List ℕ) (req_id : ℕ) (header : DnsHeader) (q : DnsQuestion) (ss : Sections)
    (st : Server)
    → Ends (parse_header buf)
      × Ends (parse_question buf)
      × Ends (parse_sections buf name_buf header)
      × SendEnds req_id header q ss st
messages_end buf name_buf req_id header q ss st = (
  parse_header-Ends buf,
  parse_question-Ends buf,
  parse_sections-Ends buf name_buf header,
  handle_send_response-SendEnds req_id header q ss st,
)
