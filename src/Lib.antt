-- ===== src/Lib.antt =====
-- ADRIFT, a DNS relay server in C. A datagram from port 53 is parsed; a query is answered from the
-- cache, or forwarded to an upstream server under a number of the relay's own; a response is put
-- into the cache and passed on to the client whose query has that number.
--
-- The parts, from the bottom up, and the files that model them:
--
-- - src/util/type.h, src/ds/hash.h (`stream_length`, `stream_copy`, `stream_compare`, `hash`): Util.
-- - src/protocol/protocol.c and protocol.h, the messages: Protocol. `parse_*` takes the bytes from
--   the reader's position on and returns the value and the rest; `dump_*` returns the bytes written.
--   Protocol/Name has domain names, Protocol/Header, Protocol/Question and Protocol/Record the three
--   kinds of structure, Protocol/Bytes the byte order.
-- - src/ds/list.h: Ds/List, over a store of nodes and lists with addresses, so that sharing and
--   freed nodes are visible. src/ds/hash_map.h: Ds/HashMap. src/ds/trie.h: Ds/Trie. Entries of the
--   hash map and nodes of the trie have one pointer to them each and are values; the lists that they
--   lead to stand in the store. Ds/TextMap is what
--   the cache asks of the two, an interface with an instance for each of them.
-- - src/protocol/cache.c: Cache, one trie and one hash map for each type of record. It calls the
--   operations of Ds, and chooses between them by the length of the name. Cache/Threads has the calls
--   of many threads, which go through the lock.
-- - src/rwlock/rwlock.c: RwLock, a step relation of any number of threads.
-- - src/protocol/handle.c: Handle. Handle/State has the globals (`convert_table`, `buf1_len`, the
--   cache, the datagrams sent), Handle/ReadCache `handle_read_cache`, Handle/Query
--   `handle_send_query` and `handle_receive_query`, Handle/Response the rest. Each of these is
--   sequential. Handle/System has the threads of many datagrams as a step relation of serial
--   schedules, and the timers with `timer_handler`: a thread runs up to its wait in
--   `handle_send_query`, and from there when its semaphore allows it, and in between other
--   queries, responses and timers come. Handle/Overlap has two threads that are in
--   `handle_send_query` at once, Handle/Stream the datagrams of a query and of its response,
--   Handle/Answer and Handle/Blocked a query that the cache answers, with a record or with a
--   refusal, Handle/Outcomes whatever the list of the cache holds, Handle/Repeat a query, its
--   response and the same question again, Handle/Poison a response that nobody waits for and a
--   question for its name, and Handle/Race two threads with one list.
-- - src/thread/threadpool.c: ThreadPool. A function for each stretch of code between taking a mutex
--   and giving it back or waiting; ThreadPool/Steps puts them together as a step relation of adders,
--   workers, the manager and a shutdown, with the tasks added and taken so far. The program does not
--   use the pool yet.
-- - src/main.c, `read_hosts_file`: Hosts, with `strtok` and `inet_pton` as parameters. src/cli/parse.c and the
--   rest of src/main.c up to the event loop: Startup, over the options that `getopt` returns, with the
--   files and the network as a parameter. Startup/Exit has `exit_handler`; Startup/Answer and
--   Startup/Blocked go from the options to the answer of a query.
-- - src/util/log.c and src/util/time.h: Log, with the texts of `vsnprintf` and `strftime` as parameters. The
--   other parts leave their messages out, but for `program_init` and `exit_handler`.
--
-- A function of C that can leave an array, follow a bad pointer or fail is a function into `Run`
-- (Base/Runs): `ok` with a value, or `fault` with what went wrong. State is passed on. The time is an
-- argument `now` in seconds. The bytes of an array end where its object ends; an access behind that
-- is a fault.
--
-- Loops over lists of bytes recurse on the list. Loops over linked nodes and over names have fuel:
-- the number of nodes ever allocated for a list (Ds/List, Handle/State) and one more than the bytes
-- of the object for a name (Protocol/Name). A name's loop moves on in each round and the nodes of a
-- well-formed list differ, so the fuel is enough.
--
-- Numbers are natural; 64-bit, 32-bit, 16-bit and 8-bit arithmetic that can wrap is written out,
-- but for the entries and the capacity of a hash map, which memory bounds below 2 ^ 53.
--
-- A handler writes a message into a buffer of 2048 bytes without a bound. The model gathers the bytes
-- and reports the overrun when they are sent.
--
-- Not modelled: the schedules in which two handlers overlap, but for those of Handle/Overlap and
-- Handle/Race, `rwlock_ctor` and `rwlock_dtor` in `cache_ctor` and `cache_dtor`, the test of
-- `record_time` before a node's record is freed (the record is a value of the node), the
-- registration of signal handlers in src/main.c, `print_usage` and `print_version` (output), the
-- creation of threads, a timer that cannot be created, a failing `malloc` or `recvfrom`, the
-- leaks, `trie_shrink`, which nothing calls, and what `threadPoolDestroy` frees.
pub mod Base
pub mod Util
pub mod Protocol
pub mod Ds
pub mod Cache
pub mod RwLock
pub mod Handle
pub mod Hosts
pub mod ThreadPool
pub mod Log
pub mod Startup
pub mod Tests
