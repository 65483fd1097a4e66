-- ===== src/Handle/Query.antt =====
-- src/protocol/handle.c, `handle_send_query` and `handle_receive_query`.
use adrift.Base.{ℕ, ◌+◌, ◌-◌, ◌%◌, ◌^◌, not, List, ◌++◌, Run, ok, ◌>>=◌, ◌==◌, ltb, if◌then◌else◌}
use adrift.Handle.ReadCache.{handle_read_cache}
use adrift.Handle.State.{Server, map_len, send, write_convert}
use adrift.Protocol.Header.{DnsHeader, get_error_header, format_error, dump_header}
use adrift.Protocol.Question.{DnsQuestion, parse_question, dump_question}

-- The first part of `handle_send_query`: the entry is written before the counter is checked.
unfoldable pub reserve_entry : ℕ → DnsHeader → Server → Run Server
reserve_entry client header st =
    let old = st.convert_table st.buf1_len in
    write_convert st.buf1_len (record old { buf_req_id = header.id; buf_sock = client }) st

-- The second part, up to the wait: the counter's value goes out as the query's identification,
-- which is the first component of the result.
unfoldable pub forward_query : DnsHeader → DnsQuestion → Server → Run (ℕ × Server)
forward_query header q st = do
  let next = (if ltb st.buf1_len map_len then st.buf1_len else 1)
  let id = next % 2 ^ 16
  let st₂ : Server = record st { buf1_len = next + 1 }
  question ← dump_question q
  st₃ ← send (dump_header (record header { id = id }) ++ question) st₂.dns_addr st₂
  st₄ ← write_convert id (record (st₃.convert_table id) { valid = 1 }) st₃
  ok (id, st₄)

-- `handle_send_query` up to the wait.
unfoldable pub handle_send_query : ℕ → DnsHeader → DnsQuestion → Server → Run (ℕ × Server)
unfolding reserve_entry forward_query
handle_send_query client header q st = do
  st₁ ← reserve_entry client header st
  forward_query header q st₁

-- `timer_handler`, and the end of a response: the waiting thread is signalled.
unfoldable pub signal : ℕ → Server → Run Server
signal id st = let e = st.convert_table id in write_convert id (record e { sem = e.sem + 1 }) st

-- What follows the wait, which takes one from the semaphore.
unfoldable pub finish_query : ℕ → Server → Run Server
finish_query id st =
    let e = st.convert_table id in write_convert id (record e { sem = e.sem - 1; valid = 0 }) st

-- The result says whether a query was forwarded, and under which identification.
pub data Outcome : Type 0 where
  replied : Outcome
  forwarded : (id : ℕ) → Outcome

unfoldable pub handle_receive_query : ℕ → ℕ → List ℕ → DnsHeader → Server → Run (Outcome × Server)
handle_receive_query now client buf header st =
    let refusal = (do
      st' ← send (dump_header (get_error_header format_error)) client st
      ok (replied, st')) in
    let query = (do
      (q, _) ← parse_question buf
      (done, st₁) ← handle_read_cache now client header q st
      let relay = (do (id, st₂) ← handle_send_query client header q st₁; ok (forwarded id, st₂))
      if done then ok (replied, st₁) else relay) in
    if not (header.qdcount == 1) then refusal else query
