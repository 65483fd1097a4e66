-- ===== src/Tests/Waiting.antt =====
-- src/protocol/handle.c: a thread that waits for a response, and the theorems at it.
use adrift.Base.{
  ℕ, ◌≡◌, true, List, [], ◌∷◌, ◌++◌, refl, ok, arith, Ends, if◌then◌else◌, ◌==◌, update,
}
use adrift.Cache.{no_cache}
use adrift.Handle.State.{Server, send, write_convert}
use adrift.Handle.Query.{
  reserve_entry, forward_query, handle_send_query, handle_receive_query, forwarded, signal,
}
use adrift.Handle.Response.{
  response_body, handle_send_response, handle_receive_response, parse_sections, cache_sections,
  parse_records, dump_records,
}
use adrift.Handle.ReadCache.{handle_read_cache, lookup_question}
use adrift.Handle.Messages.{SendEnds, messages_end}
use adrift.Handle.System.{
  Waiting, System, unused, start_timer, timer_handler, Step, forwards, Reach, start, later,
}
use adrift.Handle.System.Delivery.{response_reaches_client, timeout_ends_wait}
use adrift.Protocol.Bytes.{load16, store16}
use adrift.Protocol.Header.{DnsHeader, dump_header, parse_header, get_default_header}
use adrift.Protocol.Name.{parse_qname, dump_name, get_qname_length, put}
use adrift.Protocol.Question.{DnsQuestion, dump_question, parse_question}

-- "a.", asked for its mail exchangers.
abbrev pub question : DnsQuestion
question = record { qname = b'a' ∷ b'.' ∷ 0 ∷ []; qtype = 15; qclass = 1 }

abbrev pub question_bytes : List ℕ
question_bytes = 1 ∷ b'a' ∷ 0 ∷ 0 ∷ 15 ∷ 0 ∷ 1 ∷ []

pub question-dumps : dump_question question ≡ ok question_bytes
unfolding dump_question dump_name store16
question-dumps = refl

abbrev pub header : DnsHeader
header = record get_default_header { id = 77; qr = 0; qdcount = 1 }

abbrev pub first_server : Server
first_server = record {
  cache = no_cache;
  convert_table = λ _. unused;
  buf1_len = 1;
  dns_addr = 53;
  sent = [];
}

abbrev waiting_server : Server
waiting_server = record first_server {
  convert_table = λ k.
      (if 1 == k
        then record { buf_req_id = 77; buf_sock = 9; sem = 0; valid = 1 }
        else if 1 == k
        then record { buf_req_id = 77; buf_sock = 9; sem = 0; valid = 0 }
        else unused);
  buf1_len = 2;
  sent = record { bytes = dump_header (record header { id = 1 }) ++ question_bytes; to = 53 } ∷ [];
}

query_forwarded :
    handle_receive_query 100 9 question_bytes header first_server ≡ ok (forwarded 1, waiting_server)
unfolding handle_receive_query parse_question parse_qname get_qname_length put load16
    handle_read_cache lookup_question handle_send_query reserve_entry forward_query dump_question
    dump_name dump_header store16 send write_convert get_default_header
query_forwarded = refl

-- Client 9 waits for number 1.
abbrev waiting_system : System
waiting_system = record {
  server = waiting_server;
  waiting = record { id = 1; client = 9; req_id = 77; timer = start_timer 1 } ∷ [];
}

waiting_system-Reach : Reach waiting_system
waiting_system-Reach =
    later (start first_server refl (λ k. refl))
      (forwards 100 9 1 question_bytes header waiting_server query_forwarded)

messages_end_example :
    Ends (parse_header question_bytes)
    × Ends (parse_question question_bytes)
    × Ends (parse_sections question_bytes [] (record header { ancount = 3 }))
    × SendEnds 1
        (record header { ancount = 3 })
        question
        (record { answers = []; authorities = []; additionals = [] })
        waiting_server
messages_end_example =
    messages_end question_bytes [] 1 (record header { ancount = 3 }) question
      (record { answers = []; authorities = []; additionals = [] }) waiting_server

-- The response to it, which has no records.
abbrev pub response : DnsHeader
response = record header { id = 1; qr = 1 }

abbrev answered_server : Server
answered_server = record waiting_server {
  convert_table =
      update waiting_server.convert_table 1
        (record { buf_req_id = 77; buf_sock = 9; sem = 1; valid = 1 });
  sent =
      record { bytes = dump_header (record response { id = 77 }) ++ question_bytes; to = 9 }
      ∷ waiting_server.sent;
}

response_delivered :
    handle_receive_response 100 question_bytes [] response waiting_server
    ≡ ok (true, answered_server)
unfolding handle_receive_response handle_send_response parse_sections cache_sections response_body
    signal parse_question parse_qname get_qname_length put load16 dump_question dump_name
    dump_header store16 send write_convert get_default_header parse_records dump_records
response_delivered = refl

response_reaches_client_example :
    (xs ys : List Waiting) × (w : Waiting) × (body : List ℕ) × (waiting_system.waiting
      ≡ xs ++ w ∷ ys)
    × (w.id ≡ 1)
    × (answered_server.sent
        ≡ record { bytes = dump_header (record response { id = w.req_id }) ++ body; to = w.client }
          ∷ waiting_server.sent)
response_reaches_client_example =
    response_reaches_client 100 question_bytes [] response answered_server waiting_system-Reach
      (omega arith) response_delivered

timeout_ends_wait_example :
    (t u : System) × Step waiting_system t
    × (timer_handler (start_timer 1) waiting_server ≡ ok t.server)
    × Step t u
    × (u.waiting ≡ [])
    × ((u.server.convert_table 1).valid ≡ 0)
    × (u.server.sent ≡ waiting_server.sent)
timeout_ends_wait_example =
    timeout_ends_wait [] [] (record { id = 1; client = 9; req_id = 77; timer = start_timer 1 })
      waiting_system-Reach (omega arith) refl
