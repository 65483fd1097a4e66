-- ===== src/Protocol/Header/RoundTrip.antt =====
-- src/protocol/protocol.c: `parse_header` and `dump_header` undo one another.
use adrift.Base.{ℕ, ◌<◌, ◌≡◌, List, ◌∷◌, ◌++◌, ok, arith, All}
use adrift.Protocol.Bytes.{load16, store16}
use adrift.Protocol.Header.{DnsHeader, IsHeader, parse_header, dump_header}

-- A header whose fields fit their widths is read back from the bytes that it is written as, and
-- the reader stands right behind them.
pub parse_header-dump_header :
    (h : DnsHeader) (rest : List ℕ)
    → IsHeader h
    → parse_header (dump_header h ++ rest) ≡ ok (h, rest)
unfolding parse_header dump_header load16 store16
parse_header-dump_header h rest v = ground arith

-- Bytes that parse as a header are written back unchanged: no field and no bit is lost.
pub dump_header-parse_header :
    (buf : List ℕ) (h : DnsHeader) (rest : List ℕ)
    → All (λ b. b < 256) buf
    → parse_header buf ≡ ok (h, rest)
    → dump_header h ++ rest ≡ buf
unfolding parse_header dump_header load16 store16
dump_header-parse_header (a ∷ b ∷ c ∷ d ∷ e ∷ f ∷ g ∷ i ∷ j ∷ k ∷ l ∷ m ∷ p) h rest v e' =
    ground arith
dump_header-parse_header _ h rest v e' = cc
