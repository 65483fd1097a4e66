-- ===== src/Startup/Blocked.antt =====
-- src/main.c and src/protocol/handle.c: from a line of the hosts file with the address 0.0.0.0 to the
-- refusal.
use adrift.Base.{
  length-append, ap, ℕ, ◌+◌, ◌≤◌, ◌<◌, ◌≡◌, ◌⊎◌, refl, ◌∙◌, true, false, some, List, [], ◌∷◌, ◌++◌,
  ok, arith, length, inl, inr,
}
use adrift.Cache.{Cache, cache_find, cache_type_ipv4, cache_type_ipv6, cache_type_cname}
use adrift.Ds.HashMap.{key_size}
use adrift.Ds.Trie.Laws.{IsKey}
use adrift.Handle.Answer.{is_blocked-address}
use adrift.Handle.Blocked.{Ahead, authority_bytes, refusal_header, stream-blocked}
use adrift.Handle.Query.{replied}
use adrift.Handle.ReadCache.{lookup_question}
use adrift.Handle.Response.{receive_datagram}
use adrift.Handle.State.{Server, buffer_len}
use adrift.Handle.Stream.{received-message}
use adrift.Handle.Wire.{IsQuestion}
use adrift.Hosts.{hosts_record, is_zero_address, with_dot}
use adrift.Hosts.Blocked.{Leads, Lacks, insert_host-Leads}
use adrift.Hosts.Laws.{hosts_item}
use adrift.Log.{Log, continues}
use adrift.Protocol.Header.{DnsHeader, IsHeader, dump_header}
use adrift.Protocol.Question.{DnsQuestion, dump_question}
use adrift.Startup.Answer.{caches-view, load_hosts-line, main-serves}
use adrift.Startup.Cli.{Arguments, parse_arguments}
use adrift.Startup.Init.{Os, program_init, caches, serves, main}

-- The types of question that are looked up.
abbrev pub IsLooked : ℕ → Type 0
IsLooked qtype = (qtype ≡ 1) ⊎ ((qtype ≡ 28) ⊎ (qtype ≡ 5))

-- The list that a question leads to.
Hit : Cache → DnsQuestion → List ℕ → List ℕ → Type 0
Hit c q name addr =
    (l head_at node_at : ℕ) × (lookup_question q c ≡ ok (some l))
    × Ahead c.store l head_at node_at (hosts_item name addr)

typed-Hit :
    (c : Cache) (q : DnsQuestion) (qtype cache_type : ℕ) (name addr : List ℕ)
    → q.qtype ≡ qtype
    → q.qname ≡ name ++ 0 ∷ []
    → lookup_question (record q { qtype = qtype; qname = name ++ 0 ∷ [] }) c
      ≡ cache_find cache_type (name ++ 0 ∷ []) c
    → Leads c cache_type name addr
    → Hit c q name addr
unfolding Hit Leads
typed-Hit c q qtype cache_type name addr typed named looked (l, h, n, found, ahead) = (
  l,
  h,
  n,
  ap (λ k. lookup_question (record q { qtype = k }) c) typed
      ∙ (ap (λ t. lookup_question (record q { qtype = qtype; qname = t }) c) named
          ∙ (looked ∙ found)),
  ahead,
)

question-Hit :
    (c : Cache) (q : DnsQuestion) (name addr : List ℕ)
    → IsLooked q.qtype
    → q.qname ≡ name ++ 0 ∷ []
    → Leads c cache_type_ipv4 name addr
    → Leads c cache_type_ipv6 name addr
    → Leads c cache_type_cname name addr
    → Hit c q name addr
unfolding lookup_question
question-Hit c q name addr (inl e) named a b d =
    typed-Hit c q 1 cache_type_ipv4 name addr e named refl a
question-Hit c q name addr (inr (inl e)) named a b d =
    typed-Hit c q 28 cache_type_ipv6 name addr e named refl b
question-Hit c q name addr (inr (inr e)) named a b d =
    typed-Hit c q 5 cache_type_cname name addr e named refl d

-- With options that name a hosts file and do not ask for help or the version, and a log file that
-- can be opened if one is named, where the hosts file has one line, with the address 0.0.0.0 for a
-- name of at most 45 bytes from 33 to 127: when the socket can be made and bound, `main` comes to
-- its loop, and then a well-formed query of one question for an IPv4 or IPv6 address or for another
-- name of that name is answered at once: with the question, the error that the name does not exist
-- and an SOA record, under the identification of the query. Nothing is forwarded, and the server's
-- state is as before. The messages fit the buffers.
pub host_blocked :
    (os : Os) (opts : List (ℕ × List ℕ)) (args : Arguments) (log log' : Log) (st : Server)
    (file line ip domain name addr : List ℕ) (now client : ℕ) (header : DnsHeader) (q : DnsQuestion)
    (body rest : List ℕ)
    → parse_arguments os.strtol opts ≡ some args
    → args.version ≡ false
    → args.help ≡ false
    → program_init os args log ≡ ok (continues log')
    → args.hosts_file ≡ some file
    → os.lines_of file ≡ some (line ∷ [])
    → os.tokens line ≡ some (ip, domain)
    → with_dot domain ≡ ok name
    → os.inet_pton ip ≡ some addr
    → length addr ≡ 4
    → is_zero_address addr ≡ true
    → IsKey name
    → length name < key_size
    → os.socket ≡ true
    → os.bind ≡ true
    → IsHeader header
    → header.qr ≡ 0
    → header.qdcount ≡ 1
    → IsQuestion q
    → IsLooked q.qtype
    → q.qname ≡ name ++ 0 ∷ []
    → dump_question q ≡ ok body
    → 12 + length (body ++ authority_bytes) ≤ buffer_len
    → (s : Server) × (main os opts log st ≡ ok (serves log' s))
      × (s.sent ≡ st.sent)
      × (receive_datagram now client (dump_header header ++ (body ++ rest)) s
          ≡ ok (
            some replied,
            record s {
              sent =
                  record {
                    bytes = dump_header (refusal_header header) ++ (body ++ authority_bytes);
                    to = client;
                  }
                  ∷ s.sent;
            },
          ))
unfolding receive_datagram Lacks Hit
host_blocked os opts args log log' st file line ip domain name addr now client header q body rest
      parsed runs answers set hosts lines split dotted address measured zero key short socket bind v
      query one vq looked named dumped fits =
    let (v4, vc, no4, noc, v6, no6) = caches-view st.cache in
    let (c, inserted, leads4, leads6, leadsc) =
      insert_host-Leads name addr (caches st.cache) zero key short (v4, no4 name) (v6, no6 name)
        (vc, noc name) in
    let (l, h, n, hit, ahead) = question-Hit c q name addr looked named leads4 leads6 leadsc in
    let loaded =
      load_hosts-line os opts args log log' st file line ip domain name addr c hosts lines split
        dotted address inserted in
    let (zs, front) =
      received-message header body rest (omega (arith, length-append body authority_bytes, fits)) in
    let blocked = is_blocked-address (hosts_record name addr) refl measured ∙ ap ok zero in
    (
      _,
      main-serves os opts args log log' st file line ip domain name addr c parsed runs answers set
          loaded socket bind,
      refl,
      rw front (
          stream-blocked now client l h n header q body (hosts_record name addr) 0 0 zs _ v query
            one vq hit ahead refl blocked dumped fits),
    )
