-- ===== src/Handle/Overlap.antt =====
-- src/protocol/handle.c: two threads inside `handle_send_query` at once. Each datagram has a thread of
-- its own (`event_loop`), and nothing locks the conversion table or its counter.
use adrift.Base.{ℕ, ◌+◌, List, ◌∷◌, ◌++◌, Run, ok, ◌>>=◌, update}
use adrift.Handle.State.{Server}
use adrift.Handle.Query.{reserve_entry, forward_query}
use adrift.Protocol.Header.{DnsHeader, dump_header}
use adrift.Protocol.Question.{DnsQuestion}

-- A schedule: both threads write their entries before either takes its number.
unfoldable pub overlap :
    ℕ → DnsHeader → DnsQuestion → ℕ → DnsHeader → DnsQuestion → Server → Run (ℕ × ℕ × Server)
overlap first header q second header' q' st = do
  st₁ ← reserve_entry first header st
  st₂ ← reserve_entry second header' st₁
  (id, st₃) ← forward_query header q st₂
  (id', st₄) ← forward_query header' q' st₃
  ok (id, id', st₄)

forwarded_from : (header : DnsHeader) (body : List ℕ) (st : Server) → Server
forwarded_from header body st =
    let n = st.buf1_len in
    record st {
      convert_table = update st.convert_table n (record (st.convert_table n) { valid = 1 });
      buf1_len = n + 1;
      sent =
          record { bytes = dump_header (record header { id = n }) ++ body; to = st.dns_addr }
          ∷ st.sent;
    }
