-- ===== src/Handle/System.antt =====
-- src/protocol/handle.c: the handlers of several datagrams, in serial schedules. A thread that has
-- forwarded a query waits on its semaphore, while other datagrams are handled and timers fire. A
-- step is what one thread does up to its wait or its end. `event_loop` makes a thread for each
-- datagram and locks nothing, so in the program two threads can also overlap inside one handler:
-- these schedules are not steps here, and `Handle.Overlap` has one of them.
pub mod Frame
pub mod Effects
pub mod Invariant
pub mod Delivery
use adrift.Base.{ℕ, ◌<◌, ◌*◌, ◌^◌, ◌≡◌, Bool, true, List, [], ◌∷◌, ◌++◌, Run, ok}
use adrift.Handle.State.{Server, Convert}
use adrift.Handle.Query.{signal, finish_query, replied, forwarded, handle_receive_query}
use adrift.Handle.Response.{handle_receive_response}
use adrift.Protocol.Header.{DnsHeader}

-- A dispatch source that is a timer, with its `TimerContext`. It fires again and again once it has
-- been resumed, until it is cancelled.
pub record Timer : Type 0 where
  pub buf_id : ℕ
  pub interval : ℕ
  pub resumed : Bool

-- In nanoseconds.
abbrev default_timeout : ℕ
default_timeout = 12 * 10 ^ 9

-- The timer that `handle_send_query` makes for its query, from `dispatch_source_create` to
-- `dispatch_resume`.
unfoldable pub start_timer : ℕ → Timer
start_timer id = record { buf_id = id; interval = default_timeout; resumed = true }

unfoldable pub timer_handler : Timer → Server → Run Server
timer_handler t st = signal t.buf_id st

-- What a waiting thread knows: the number of its query, `client_addr`, `req_id` and its timer.
pub record Waiting : Type 0 where
  pub id : ℕ
  pub client : ℕ
  pub req_id : ℕ
  pub timer : Timer

pub record System : Type 0 where
  pub server : Server
  pub waiting : List Waiting

abbrev pub unused : Convert
unused = record { buf_req_id = 0; buf_sock = 0; sem = 0; valid = 0 }

pub data Step (s : System) : System → Type 0 where
  -- a query is answered from the cache or refused
  answers :
      (now client : ℕ) (buf : List ℕ) (header : DnsHeader) (st : Server)
      → handle_receive_query now client buf header s.server ≡ ok (replied, st)
      → Step s (record s { server = st })
  -- a query is forwarded, and its thread waits
  forwards :
      (now client id : ℕ) (buf : List ℕ) (header : DnsHeader) (st : Server)
      → handle_receive_query now client buf header s.server ≡ ok (forwarded id, st)
      → Step s (record {
        server = st;
        waiting =
            record { id = id; client = client; req_id = header.id; timer = start_timer id }
            ∷ s.waiting;
      })
  -- a response comes in
  receives :
      (now : ℕ) (buf name_buf : List ℕ) (header : DnsHeader) (delivered : Bool) (st : Server)
      → handle_receive_response now buf name_buf header s.server ≡ ok (delivered, st)
      → Step s (record s { server = st })
  -- the timer of a waiting thread fires, if it has been resumed
  times_out :
      (xs ys : List Waiting) (w : Waiting) (st : Server)
      → s.waiting ≡ xs ++ w ∷ ys
      → w.timer.resumed ≡ true
      → timer_handler w.timer s.server ≡ ok st
      → Step s (record s { server = st })
  -- a thread whose semaphore is not 0 goes on, cancels its timer, and ends
  wakes :
      (xs ys : List Waiting) (w : Waiting) (st : Server)
      → s.waiting ≡ xs ++ w ∷ ys
      → 0 < (s.server.convert_table w.id).sem
      → finish_query w.id s.server ≡ ok st
      → Step s (record { server = st; waiting = xs ++ ys })

-- Before the first datagram the counter is 1 and the conversion table is unused.
pub data Reach : System → Type 0 where
  start :
      (st : Server)
      → st.buf1_len ≡ 1
      → ((k : ℕ) → st.convert_table k ≡ unused)
      → Reach (record { server = st; waiting = [] })
  later : {s t : System} → Reach s → Step s t → Reach t
