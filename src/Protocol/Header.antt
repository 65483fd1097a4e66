-- ===== src/Protocol/Header.antt =====
-- src/protocol/protocol.h, `DnsHeader`; src/protocol/protocol.c, its parser, its printer and the
-- two constant headers.
pub mod RoundTrip
use adrift.Base.{
  ℕ, ◌+◌, ◌*◌, ◌/◌, ◌%◌, ◌^◌, ◌<◌, ◌≡◌, refl, List, [], ◌∷◌, ◌++◌, Run, ok, ◌>>=◌, arith, ◌==◌,
  if◌then◌else◌,
}
use adrift.Protocol.Bytes.{load8, load16, store16}

pub record DnsHeader : Type 0 where
  pub id : ℕ
  pub rd : ℕ
  pub tc : ℕ
  pub aa : ℕ
  pub opcode : ℕ
  pub qr : ℕ
  pub rcode : ℕ
  pub cd : ℕ
  pub ad : ℕ
  pub z : ℕ
  pub ra : ℕ
  pub qdcount : ℕ
  pub ancount : ℕ
  pub nscount : ℕ
  pub arcount : ℕ

-- `ReplyCode`
abbrev pub no_error : ℕ
no_error = 0

abbrev pub format_error : ℕ
format_error = 1

abbrev pub name_error : ℕ
name_error = 3

-- The bit fields take the low bits of their byte first.
unfoldable pub parse_header : List ℕ → Run (DnsHeader × List ℕ)
parse_header buf = do
  (id, p₁) ← load16 buf
  (x, p₂) ← load8 p₁
  (y, p₃) ← load8 p₂
  (qd, p₄) ← load16 p₃
  (an, p₅) ← load16 p₄
  (ns, p₆) ← load16 p₅
  (ar, p₇) ← load16 p₆
  ok (
    record {
      id = id;
      rd = x % 2;
      tc = x / 2 % 2;
      aa = x / 4 % 2;
      opcode = x / 8 % 16;
      qr = x / 128 % 2;
      rcode = y % 16;
      cd = y / 16 % 2;
      ad = y / 32 % 2;
      z = y / 64 % 2;
      ra = y / 128 % 2;
      qdcount = qd;
      ancount = an;
      nscount = ns;
      arcount = ar;
    },
    p₇,
  )

abbrev flags_low : DnsHeader → ℕ
flags_low h = h.rd % 2 + 2 * (h.tc % 2) + 4 * (h.aa % 2) + 8 * (h.opcode % 16) + 128 * (h.qr % 2)

abbrev flags_high : DnsHeader → ℕ
flags_high h = h.rcode % 16 + 16 * (h.cd % 2) + 32 * (h.ad % 2) + 64 * (h.z % 2) + 128 * (h.ra % 2)

unfoldable pub dump_header : DnsHeader → List ℕ
dump_header h =
    store16 h.id
    ++ (flags_low h ∷ flags_high h ∷ store16 h.qdcount
        ++ (store16 h.ancount ++ (store16 h.nscount ++ store16 h.arcount)))

-- A literal of `DnsHeader` that names some fields leaves the others 0.
unfoldable pub get_error_header : ℕ → DnsHeader
get_error_header rcode = record {
  id = 0;
  rd = 0;
  tc = 0;
  aa = 1;
  opcode = 0;
  qr = 1;
  rcode = rcode % 16;
  cd = 0;
  ad = 0;
  z = 0;
  ra = 0;
  qdcount = if rcode == name_error then 1 else 0;
  ancount = 0;
  nscount = if rcode == name_error then 1 else 0;
  arcount = 0;
}

unfoldable pub get_default_header : DnsHeader
get_default_header = record {
  id = 0;
  rd = 0;
  tc = 0;
  aa = 0;
  opcode = 0;
  qr = 1;
  rcode = 0;
  cd = 0;
  ad = 0;
  z = 0;
  ra = 0;
  qdcount = 1;
  ancount = 0;
  nscount = 0;
  arcount = 0;
}

-- Every field fits its width.
pub record IsHeader (h : DnsHeader) : Type 0 where
  pub id16 : h.id < 2 ^ 16
  pub rd1 : h.rd < 2
  pub tc1 : h.tc < 2
  pub aa1 : h.aa < 2
  pub opcode4 : h.opcode < 16
  pub qr1 : h.qr < 2
  pub rcode4 : h.rcode < 16
  pub cd1 : h.cd < 2
  pub ad1 : h.ad < 2
  pub z1 : h.z < 2
  pub ra1 : h.ra < 2
  pub qdcount16 : h.qdcount < 2 ^ 16
  pub ancount16 : h.ancount < 2 ^ 16
  pub nscount16 : h.nscount < 2 ^ 16
  pub arcount16 : h.arcount < 2 ^ 16
