-- ===== src/Tests/Reading.antt =====
-- src/protocol/handle.c, `handle_read_cache`: a name with an expired record, an address and an alias.
use adrift.Base.{
  ℕ, ◌≡◌, ◌+◌, ◌≤◌, length, none, some, List, [], ◌∷◌, ◌++◌, refl, ok, arith, true, update,
}
use adrift.Cache.{no_cache, cache_find, valid_key}
use adrift.Ds.List.{Store, ListNode}
use adrift.Ds.List.Push.{IsList, Untouched}
use adrift.Ds.List.Segment.{Item, item_of}
use adrift.Ds.List.Update.{kept}
use adrift.Ds.Trie.{null, node, trie_find}
use adrift.Handle.Aliases.{alias}
use adrift.Handle.Cached.{items}
use adrift.Handle.Outcomes.{handle_read_cache-outcomes}
use adrift.Handle.Blocked.{authority_bytes}
use adrift.Handle.ReadCache.{handle_read_cache, lookup_question, remaining_ttl}
use adrift.Handle.Records.{counting_header, Printed}
use adrift.Handle.State.{Server, buffer_len}
use adrift.Protocol.Bytes.{store16, store32, load_bytes}
use adrift.Protocol.Header.{dump_header}
use adrift.Hosts.{is_zero_address}
use adrift.Protocol.Name.{dump_name}
use adrift.Protocol.Name.RoundTrip.{wire}
use adrift.Protocol.Question.{DnsQuestion, dump_question}
use adrift.Protocol.Record.{DnsResourceRecord, dump_resource_record}
use adrift.Tests.Containers.{other_key, planted}
use adrift.Tests.Waiting.{header, first_server}
use adrift.Util.{stream_length}

-- "a.", asked for its address.
abbrev question : DnsQuestion
question = record { qname = other_key ++ 0 ∷ []; qtype = 1; qclass = 1 }

abbrev question_bytes : List ℕ
question_bytes = 1 ∷ b'a' ∷ 0 ∷ 0 ∷ 1 ∷ 0 ∷ 1 ∷ []

question-dumps : dump_question question ≡ ok question_bytes
unfolding dump_question dump_name store16
question-dumps = refl

abbrev record_of : ℕ → ℕ → DnsResourceRecord
record_of rtype byte = record {
  name = other_key ++ 0 ∷ [];
  rtype = rtype;
  class = 1;
  ttl = 60;
  rdlength = 4;
  rdata = byte ∷ 0 ∷ 0 ∷ 0 ∷ [];
}

-- The record as it is written 50 seconds after it was cached for 100.
abbrev bytes_of : ℕ → ℕ → List ℕ
bytes_of rtype byte =
    1 ∷ b'a' ∷ 0 ∷ 0 ∷ rtype ∷ 0 ∷ 1 ∷ 0 ∷ 0 ∷ 0 ∷ 50 ∷ 0 ∷ 4 ∷ byte ∷ 0 ∷ 0 ∷ 0 ∷ []

abbrev node_of : ListNode
node_of = record { content = none; record_time = 0; ttl = 0; rr_type = 0; prev = none; next = none }

abbrev head_a : ListNode
head_a = record node_of { next = some 1 }

abbrev old_a : ListNode
old_a = record node_of { record_time = 20; ttl = 40; rr_type = 1; prev = some 0; next = some 2 }

abbrev new_a : ListNode
new_a = record node_of {
  content = some (record_of 1 7);
  record_time = 200;
  ttl = 100;
  rr_type = 1;
  prev = some 1;
}

abbrev head_c : ListNode
head_c = record node_of { next = some 4 }

abbrev new_c : ListNode
new_c = record node_of {
  content = some (record_of 5 1);
  record_time = 200;
  ttl = 100;
  rr_type = 1;
  prev = some 3;
}

abbrev store : Store
store = record {
  node =
      update
        (update (update (update (update (λ _. none) 0 (some head_a)) 1 (some old_a)) 2 (some new_a))
          3 (some head_c))
        4 (some new_c);
  list =
      update (update (λ _. none) 0 (some (record { head = some 0; tail = some 2; size = 2 }))) 1
        (some (record { head = some 3; tail = some 4; size = 1 }));
  free_node = 5;
  free_list = 2;
}

abbrev addresses : List (ℕ × Item)
addresses = (0, item_of head_a) ∷ (1, item_of old_a) ∷ (2, item_of new_a) ∷ []

abbrev names : List (ℕ × Item)
names = (3, item_of head_c) ∷ (4, item_of new_c) ∷ []

addresses-IsList : IsList store 0 addresses
addresses-IsList = record {
  descriptor = record { head = some 0; tail = some 2; size = 2 };
  present = refl;
  linked = (
    refl,
    (
      head_a,
      refl,
      refl,
      refl,
      (refl, (old_a, refl, refl, refl, (refl, (new_a, refl, refl, refl, (refl, refl))))),
    ),
  );
  distinct = ground arith;
  counted = refl;
  bounded = omega arith;
}

names-IsList : IsList store 1 names
names-IsList = record {
  descriptor = record { head = some 3; tail = some 4; size = 1 };
  present = refl;
  linked = (refl, (head_c, refl, refl, refl, (refl, (new_c, refl, refl, refl, (refl, refl)))));
  distinct = ground arith;
  counted = refl;
  bounded = omega arith;
}

-- The cache leads "a." to both lists.
abbrev reading_server : Server
reading_server = record first_server {
  cache = record {
    trie = update (update (λ _. null) 0 planted) 2 (
        node none
          (update (λ _. null) 13 (node none (update (λ _. null) 64 (node (some 1) (λ _. null))))));
    hash_map = no_cache.hash_map;
    store = store;
  };
}

addresses_found : lookup_question question (reading_server.cache) ≡ ok (some 0)
unfolding lookup_question cache_find valid_key trie_find stream_length
addresses_found = refl

names_found : cache_find 2 (question.qname) (reading_server.cache) ≡ ok (some 1)
unfolding cache_find valid_key trie_find stream_length
names_found = refl

names-Printed : Printed 250 (items names) (bytes_of 5 1)
unfolding dump_resource_record dump_name store16 store32 load_bytes remaining_ttl
names-Printed = (bytes_of 5 1, [], refl, refl, refl)

addresses-Printed :
    Printed 250 (items ((0, item_of head_a) ∷ (2, item_of new_a) ∷ [])) (bytes_of 1 7)
unfolding dump_resource_record dump_name store16 store32 load_bytes remaining_ttl
addresses-Printed = (bytes_of 1 7, [], refl, refl, refl)

abbrev left : List (ℕ × Item)
left = (0, item_of head_a) ∷ (2, item_of new_a) ∷ []

refusal-fits : 12 + length (question_bytes ++ authority_bytes) ≤ buffer_len
unfolding wire store16 store32
refusal-fits = omega arith

-- At 250 the record of 20 has expired; the alias goes first.
handle_read_cache-outcomes_example :
    (s : Store) × IsList s 0 left
    × Untouched addresses 0 store s
    × (handle_read_cache 250 9 header question reading_server
        ≡ ok (
          true,
          record reading_server {
            cache = record (reading_server.cache) { store = s };
            sent =
                record {
                  bytes =
                      dump_header (counting_header header (items left))
                      ++ (question_bytes ++ (bytes_of 5 1 ++ bytes_of 1 7));
                  to = 9;
                }
                ∷ [];
          },
        ))
unfolding kept is_zero_address
handle_read_cache-outcomes_example =
    handle_read_cache-outcomes 250 9 header question reading_server 0 (0, item_of head_a)
      ((1, item_of old_a) ∷ (2, item_of new_a) ∷ []) (items names) question_bytes (bytes_of 5 1)
      (bytes_of 1 7) addresses_found addresses-IsList refl (ground arith) (omega arith)
      (tt, (refl, tt))
      (alias 1 names refl names_found names-IsList (ground arith) (omega arith) (ground arith))
      question-dumps names-Printed addresses-Printed refusal-fits (omega arith)
