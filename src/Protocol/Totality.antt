-- ===== src/Protocol/Totality.antt =====
-- src/protocol/protocol.c: on any bytes the parsers and the printers end. What may go wrong is a
-- read past the end of an object; nothing is written outside a block, and no loop goes on for ever.
use adrift.Base.{ℕ, List, refl, inl, drop, read, ◌==◌, Ends, >>=-Ends, if-Ends, read-Ends}
use adrift.Protocol.Bytes.{
  load8, load16, load32, load_bytes, load8-Ends, load16-Ends, load32-Ends, load_bytes-Ends,
}
use adrift.Protocol.Header.{parse_header}
use adrift.Protocol.Name.{parse_qname, dump_name}
use adrift.Protocol.Name.Ends.{parse_qname-Ends, dump_name-Ends}
use adrift.Protocol.Question.{DnsQuestion, parse_question, dump_question}
use adrift.Protocol.Record.{
  DnsResourceRecord, parse_record_name, parse_resource_record, dump_resource_record,
}

pub parse_header-Ends : (buf : List ℕ) → Ends (parse_header buf)
unfolding parse_header
parse_header-Ends buf = >>=-Ends (load16 buf) _ (load16-Ends buf) λ a.
    >>=-Ends (load8 a.1) _ (load8-Ends a.1) λ b. >>=-Ends (load8 b.1) _ (load8-Ends b.1) λ c.
      >>=-Ends (load16 c.1) _ (load16-Ends c.1) λ d. >>=-Ends (load16 d.1) _ (load16-Ends d.1) λ e.
        >>=-Ends (load16 e.1) _ (load16-Ends e.1)
          λ f. >>=-Ends (load16 f.1) _ (load16-Ends f.1) λ g. inl (_, refl)

pub parse_question-Ends : (buf : List ℕ) → Ends (parse_question buf)
unfolding parse_question
parse_question-Ends buf = >>=-Ends (parse_qname buf) _ (parse_qname-Ends buf) λ a.
    >>=-Ends (load16 a.1) _ (load16-Ends a.1)
      λ b. >>=-Ends (load16 b.1) _ (load16-Ends b.1) λ c. inl (_, refl)

parse_record_name-Ends : (buf name_buf : List ℕ) → Ends (parse_record_name buf name_buf)
unfolding parse_record_name
parse_record_name-Ends buf name_buf = >>=-Ends (read buf) _ (read-Ends buf) λ b.
    if-Ends (b == 0xc0) _ _
      (>>=-Ends (read (drop 1 buf)) _ (read-Ends (drop 1 buf)) λ offset.
        >>=-Ends (parse_qname (drop offset name_buf)) _ (parse_qname-Ends (drop offset name_buf))
          λ r. inl (_, refl))
      (parse_qname-Ends buf)

pub parse_resource_record-Ends : (buf name_buf : List ℕ) → Ends (parse_resource_record buf name_buf)
unfolding parse_resource_record
parse_resource_record-Ends buf name_buf =
    >>=-Ends (parse_record_name buf name_buf) _ (parse_record_name-Ends buf name_buf) λ a.
      >>=-Ends (load16 a.1) _ (load16-Ends a.1) λ b. >>=-Ends (load16 b.1) _ (load16-Ends b.1) λ c.
        >>=-Ends (load32 c.1) _ (load32-Ends c.1) λ d.
          >>=-Ends (load16 d.1) _ (load16-Ends d.1)
            λ e. >>=-Ends (load_bytes e.0 e.1) _ (load_bytes-Ends e.0 e.1) λ f. inl (_, refl)

pub dump_question-Ends : (q : DnsQuestion) → Ends (dump_question q)
unfolding dump_question
dump_question-Ends q = >>=-Ends (dump_name q.qname) _ (dump_name-Ends q.qname) λ n. inl (_, refl)

pub dump_resource_record-Ends : (r : DnsResourceRecord) → Ends (dump_resource_record r)
unfolding dump_resource_record
dump_resource_record-Ends r = >>=-Ends (dump_name r.name) _ (dump_name-Ends r.name) λ n.
    >>=-Ends (load_bytes r.rdlength r.rdata) _ (load_bytes-Ends r.rdlength r.rdata)
      λ d. inl (_, refl)
