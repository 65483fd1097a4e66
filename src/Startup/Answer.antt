-- ===== src/Startup/Answer.antt =====
-- src/main.c and src/protocol/handle.c: from the hosts file to the answer.
use adrift.Base.{
  ap, length-append, ℕ, ◌+◌, ◌≤◌, ◌<◌, ◌≡◌, refl, ◌∙◌, sym, true, false, some, none, List, [], ◌∷◌,
  ◌++◌, ok, arith, length,
}
use adrift.Cache.{Cache, cache_ctor, cache_type_ipv4, cache_type_ipv6, cache_type_cname}
use adrift.Cache.Laws.{IsCache, cache_view, cache_ctor-view, cache_ctor-others}
use adrift.Ds.HashMap.{key_size}
use adrift.Ds.Trie.Laws.{IsKey}
use adrift.Handle.Answer.{First-Knows, answer_header, is_blocked-address, stream-answered}
use adrift.Handle.Query.{replied}
use adrift.Handle.ReadCache.{remaining_ttl}
use adrift.Handle.Response.{receive_datagram}
use adrift.Handle.State.{Server, buffer_len}
use adrift.Handle.Stream.{received-message}
use adrift.Handle.Wire.{IsQuestion}
use adrift.Hosts.{hosts_record, is_zero_address, with_dot, insert_host, read_hosts_file}
use adrift.Hosts.Laws.{hosts_item, insert_host-First, read_hosts_file-host}
use adrift.Log.{Log, continues}
use adrift.Protocol.Header.{DnsHeader, IsHeader, dump_header}
use adrift.Protocol.Name.RoundTrip.{wire}
use adrift.Protocol.Question.{DnsQuestion, dump_question}
use adrift.Protocol.Record.{DnsResourceRecord}
use adrift.Protocol.Record.RoundTrip.{fields, dump_record-fields}
use adrift.Startup.Cli.{Arguments, parse_arguments}
use adrift.Startup.Init.{
  Os, program_init, caches, load_hosts, listen, server_init, serves, start_server, main,
}

-- The three caches when they have been constructed.
pub caches-view :
    (c : Cache)
    → IsCache (caches c) cache_type_ipv4
      × IsCache (caches c) cache_type_cname
      × ((t : List ℕ) → cache_view (caches c) cache_type_ipv4 t ≡ none)
      × ((t : List ℕ) → cache_view (caches c) cache_type_cname t ≡ none)
      × IsCache (caches c) cache_type_ipv6
      × ((t : List ℕ) → cache_view (caches c) cache_type_ipv6 t ≡ none)
caches-view c =
    let (first, empty) = cache_ctor-view c cache_type_ipv4 in
    let c₁ = cache_ctor cache_type_ipv4 c in
    let c₂ = cache_ctor cache_type_ipv6 c₁ in
    let (second, same) = cache_ctor-others c₁ cache_type_ipv6 cache_type_ipv4 (omega arith) first in
    let (third, same') =
      cache_ctor-others c₂ cache_type_cname cache_type_ipv4 (omega arith) second in
    let (sixth, empty6) = cache_ctor-view c₁ cache_type_ipv6 in
    let (last, same6) = cache_ctor-others c₂ cache_type_cname cache_type_ipv6 (omega arith) sixth in
    let (names, no_names) = cache_ctor-view c₂ cache_type_cname in
    (third, names, λ t. same' t ∙ (same t ∙ empty t), no_names, last, λ t. same6 t ∙ empty6 t)

module _ (os : Os) (opts : List (ℕ × List ℕ)) (args : Arguments) (log log' : Log) (st : Server)
    (file line ip domain name addr : List ℕ) where
  -- The server behind `listen`.
  abbrev pub listening : Cache → Server
  listening c = record st {
    cache = c;
    dns_addr = elim args.dns_server [ none ↦ st.dns_addr | some a ↦ os.inet_addr a ];
    convert_table = λ k. record (st.convert_table k) { sem = 0 };
  }

  -- A hosts file of one line with an address and a name.
  pub load_hosts-line :
      (c : Cache)
      → args.hosts_file ≡ some file
      → os.lines_of file ≡ some (line ∷ [])
      → os.tokens line ≡ some (ip, domain)
      → with_dot domain ≡ ok name
      → os.inet_pton ip ≡ some addr
      → insert_host name addr (caches st.cache) ≡ ok c
      → load_hosts os args.hosts_file (caches st.cache) ≡ ok (some c)
  unfolding load_hosts read_hosts_file
  load_hosts-line c hosts lines split dotted address ran =
      let read =
        read_hosts_file-host os.tokens os.inet_pton line [] ip domain name addr (caches st.cache)
          split dotted address in
      rw (hosts, load_hosts, lines, read, ran) refl

  -- `main` comes to its loop when the hosts file has been read.
  pub main-serves :
      (c : Cache)
      → parse_arguments os.strtol opts ≡ some args
      → args.version ≡ false
      → args.help ≡ false
      → program_init os args log ≡ ok (continues log')
      → load_hosts os args.hosts_file (caches st.cache) ≡ ok (some c)
      → os.socket ≡ true
      → os.bind ≡ true
      → main os opts log st ≡ ok (serves log' (listening c))
  unfolding main start_server server_init listen
  main-serves c parsed runs answers set loaded socket bind =
      simp (main, parsed, runs, answers, set, loaded, socket, bind)

-- With options that name a hosts file and do not ask for help or the version, and a log file that
-- can be opened if one is named, where the hosts file has one line, with an IPv4 address other than
-- 0.0.0.0 for a name of at most 45 bytes from 33 to 127: when the socket can be made and bound,
-- `main` comes to its loop, and then a well-formed query of one question for the IPv4 address of
-- that name is answered at once with the question and one record, which has the address of the
-- line, and nothing is forwarded. The messages fit the buffers.
pub host_answered :
    (os : Os) (opts : List (ℕ × List ℕ)) (args : Arguments) (log log' : Log) (st : Server)
    (file line ip domain name addr : List ℕ) (now client : ℕ) (header : DnsHeader) (q : DnsQuestion)
    (body rest : List ℕ)
    → parse_arguments os.strtol opts ≡ some args
    → args.version ≡ false
    → args.help ≡ false
    → program_init os args log ≡ ok (continues log')
    → args.hosts_file ≡ some file
    → os.lines_of file ≡ some (line ∷ [])
    → os.tokens line ≡ some (ip, domain)
    → with_dot domain ≡ ok name
    → os.inet_pton ip ≡ some addr
    → length addr ≡ 4
    → is_zero_address addr ≡ false
    → IsKey name
    → length name < key_size
    → os.socket ≡ true
    → os.bind ≡ true
    → IsHeader header
    → header.qr ≡ 0
    → header.qdcount ≡ 1
    → (vq : IsQuestion q) → q.qtype ≡ 1
    → q.qname ≡ name ++ 0 ∷ []
    → dump_question q ≡ ok body
    → let ttl = remaining_ttl now (hosts_item name addr) in
      let bytes = wire vq.labels ++ fields (record (hosts_record name addr) { ttl = ttl }) in
      12 + length (body ++ bytes) ≤ buffer_len
      → (s s' : Server) × (main os opts log st ≡ ok (serves log' s))
        × (receive_datagram now client (dump_header header ++ (body ++ rest)) s
            ≡ ok (some replied, s'))
        × (s'.sent
            ≡ record { bytes = dump_header (answer_header header) ++ (body ++ bytes); to = client }
              ∷ st.sent)
unfolding receive_datagram
host_answered os opts args log log' st file line ip domain name addr now client header q body rest
      parsed runs answers set hosts lines split dotted address measured real key short socket bind v
      query one vq ipv4 named dumped fits =
    let (v4, names, empty, no_names, _, _) = caches-view st.cache in
    let (c, inserted, first) =
      insert_host-First name addr (caches st.cache) real v4 key short (empty name) in
    let known = First-Knows first key names (no_names name) in
    let s = listening os opts args log log' st file line ip domain name addr c in
    let loaded =
      load_hosts-line os opts args log log' st file line ip domain name addr c hosts lines split
        dotted address inserted in
    let ran =
      main-serves os opts args log log' st file line ip domain name addr c parsed runs answers set
        loaded socket bind in
    let ttl = remaining_ttl now (hosts_item name addr) in
    let sent_record : DnsResourceRecord = record (hosts_record name addr) { ttl = ttl } in
    let bytes = wire vq.labels ++ fields sent_record in
    let (zs, front) =
      received-message header body rest (omega (arith, length-append body bytes, fits)) in
    let (s', ran', sent', _, _) =
      stream-answered now client header q body name bytes (hosts_record name addr) 0 0 zs s v query
        one vq ipv4 named dumped known refl
        (is_blocked-address (hosts_record name addr) refl measured ∙ ap ok real)
        (dump_record-fields vq.labels sent_record vq.text (sym named ∙ vq.named) measured) fits in
    (s, s', ran, rw front ran', sent')
