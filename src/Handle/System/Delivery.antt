-- ===== src/Handle/System/Delivery.antt =====
-- src/protocol/handle.c: who gets a response, and that no thread waits for ever, in every serial
-- order of queries, responses, timeouts and wake-ups in which the counter has not passed 2 ^ 16.
use adrift.Base.{
  ℕ, ◌+◌, ◌-◌, ◌^◌, ◌≤◌, ◌<◌, ◌≡◌, refl, ap, ◌∙◌, subst, List, [], ◌∷◌, ◌++◌, All, ok, arith,
  lt→ltb, eqb_refl, inl, inr, update, true,
}
use adrift.Handle.State.{Server, Convert, map_len, write_convert}
use adrift.Handle.Query.{signal, finish_query}
use adrift.Handle.Response.{handle_receive_response}
use adrift.Handle.System.{
  Timer, Waiting, System, timer_handler, Step, answers, forwards, receives, times_out, wakes, Reach,
  start, later,
}
use adrift.Handle.System.Frame.{replied-Same, forwarded-Booked}
use adrift.Handle.System.Effects.{Signalled, response-effect, signal-effect, finish_query-table}
use adrift.Handle.System.Invariant.{
  Owns, Serves, IsTimed, Inv, quiet-Inv, Signalled-Inv, Booked-Inv, finished-Inv,
}
use adrift.Protocol.Header.{DnsHeader, dump_header}

timer-effect : (t : Timer) (st st' : Server) → timer_handler t st ≡ ok st' → Signalled st st'
unfolding timer_handler
timer-effect t st st' ran = signal-effect t.buf_id st st' ran

-- The counter does not go down, and it goes up with each query that is forwarded.
Step-counter : {s t : System} → Step s t → s.server.buf1_len ≤ t.server.buf1_len
Step-counter {s} (answers now client buf header st ran) =
    omega (arith, (replied-Same now client buf header s.server st ran).counter)
Step-counter {s} (forwards now client id buf header st ran) =
    omega (arith, (forwarded-Booked now client buf header s.server st id ran).counter)
Step-counter {s} (receives now buf name_buf header delivered st ran) =
    omega (arith, (response-effect now buf name_buf header s.server st delivered ran).0.counter)
Step-counter {s} (times_out xs ys w st split resumed ran) =
    omega (arith, (timer-effect w.timer s.server st ran).counter)
Step-counter {s} (wakes xs ys w st split ready ran) =
    omega (arith, ap (λ s. s.buf1_len) (finish_query-table w.id s.server st ran))

Step-Inv : {s t : System} → Step s t → t.server.buf1_len ≤ 2 ^ 16 → Inv s → Inv t
Step-Inv {s} (answers now client buf header st ran) few inv =
    let same = replied-Same now client buf header s.server st ran in
    quiet-Inv s st same.counter (λ k. ap (λ f. (f k).valid) same.table)
      (λ k. ap (λ f. (f k).buf_sock) same.table) (λ k. ap (λ f. (f k).buf_req_id) same.table) inv
Step-Inv {s} (forwards now client id buf header st ran) few inv =
    let b = forwarded-Booked now client buf header s.server st id ran in
    Booked-Inv s client id header st (omega (arith, b.counter)) b inv
Step-Inv {s} (receives now buf name_buf header delivered st ran) few inv =
    Signalled-Inv s st (response-effect now buf name_buf header s.server st delivered ran).0 inv
Step-Inv {s} (times_out xs ys w st split resumed ran) few inv =
    Signalled-Inv s st (timer-effect w.timer s.server st ran) inv
Step-Inv {s} (wakes xs ys w st split ready ran) few inv = finished-Inv s xs w ys st split ran inv

Reach-Inv : {s : System} → Reach s → s.server.buf1_len ≤ 2 ^ 16 → Inv s
Reach-Inv (start st first clear) few = record {
  served = λ k f. absurd (f (ap (λ e. e.valid) (clear k)));
  below = tt;
  timed = tt;
}
Reach-Inv (later r step) few = Step-Inv step few (Reach-Inv r (omega (arith, Step-counter step)))

-- One of the threads that serve an entry.
Serves-split :
    (k : ℕ) (e : Convert) (ws : List Waiting)
    → Serves k e ws
    → (xs ys : List Waiting) × (w : Waiting) × (ws ≡ xs ++ w ∷ ys) × Owns k e w
Serves-split k e [] h = absurd h
Serves-split k e (w ∷ ws) (inl o) = ([], ws, w, refl, o)
Serves-split k e (w ∷ ws) (inr h) =
    let (xs, ys, v, split, o) = Serves-split k e ws h in (w ∷ xs, ys, v, ap (λ l. w ∷ l) split, o)

-- Serial schedules only: each handler runs up to its wait or its end before another one goes on,
-- which the program does not see to. In every state that they reach with a counter of at most
-- 2 ^ 16, a response that is delivered is for a thread that still waits under its number: one
-- packet goes out, to that thread's client, and bears the identification of that client's query.
pub response_reaches_client :
    {s : System} (now : ℕ) (buf name_buf : List ℕ) (header : DnsHeader) (st : Server)
    → Reach s
    → s.server.buf1_len ≤ 2 ^ 16
    → handle_receive_response now buf name_buf header s.server ≡ ok (true, st)
    → (xs ys : List Waiting) × (w : Waiting) × (body : List ℕ) × (s.waiting ≡ xs ++ w ∷ ys)
      × (w.id ≡ header.id)
      × (st.sent
          ≡ record { bytes = dump_header (record header { id = w.req_id }) ++ body; to = w.client }
            ∷ s.server.sent)
response_reaches_client {s} now buf name_buf header st r few ran =
    let inv = Reach-Inv r few in
    let (valid, (body, sent)) = (response-effect now buf name_buf header s.server st true ran).1 in
    let (xs, ys, w, split, (number, client, req_id)) =
      Serves-split header.id (s.server.convert_table header.id) s.waiting
        (inv.served header.id valid) in
    (xs, ys, w, body, split, number, rw (← client, ← req_id) sent)

All-at :
    (P : Waiting → Type 0) (xs : List Waiting) (w : Waiting) (ys : List Waiting)
    → All P (xs ++ w ∷ ys)
    → P w
All-at P [] w ys v = v.0
All-at P (x ∷ xs) w ys v = All-at P xs w ys v.1

signal_runs :
    (id : ℕ) (st : Server)
    → id < map_len
    → (st' : Server) × (signal id st ≡ ok st')
      × (0 < (st'.convert_table id).sem)
      × (st'.sent ≡ st.sent)
unfolding signal write_convert
signal_runs id st low = (
  record st {
    convert_table =
        update st.convert_table id
          (record (st.convert_table id) { sem = (st.convert_table id).sem + 1 });
  },
  rw (lt→ltb id map_len low) refl,
  rw (eqb_refl id) (omega arith),
  refl,
)

finish_query_runs :
    (id : ℕ) (st : Server)
    → id < map_len
    → (st' : Server) × (finish_query id st ≡ ok st')
      × ((st'.convert_table id).valid ≡ 0)
      × (st'.sent ≡ st.sent)
unfolding finish_query write_convert
finish_query_runs id st low = (
  record st {
    convert_table =
        update st.convert_table id
          (record (st.convert_table id) { sem = (st.convert_table id).sem - 1; valid = 0 });
  },
  rw (lt→ltb id map_len low) refl,
  rw (eqb_refl id) refl,
  refl,
)

-- Serial schedules only, as they are described for the delivery of responses. In every state that
-- they reach with a counter of at most 2 ^ 16, no thread needs a response to go on: the timer that
-- it has started runs and is for the thread's own number, so it can fire, and then the thread can
-- wake up and end. Its entry is then not valid, and nothing has been sent.
pub timeout_ends_wait :
    {s : System} (xs ys : List Waiting) (w : Waiting)
    → Reach s
    → s.server.buf1_len ≤ 2 ^ 16
    → s.waiting ≡ xs ++ w ∷ ys
    → (t u : System) × Step s t
      × (timer_handler w.timer s.server ≡ ok t.server)
      × Step t u
      × (u.waiting ≡ xs ++ ys)
      × ((u.server.convert_table w.id).valid ≡ 0)
      × (u.server.sent ≡ s.server.sent)
unfolding timer_handler
timeout_ends_wait {s} xs ys w r few split =
    let inv = Reach-Inv r few in
    let (own, resumed) = All-at _ xs w ys (subst (All IsTimed) split inv.timed) in
    let before : w.id < s.server.buf1_len =
      All-at _ xs w ys (subst (All (λ w. w.id < s.server.buf1_len)) split inv.below) in
    let low : w.id < map_len = omega (arith, before) in
    let (st₁, ran₁, ready, quiet₁) = signal_runs w.id s.server low in
    let (st₂, ran₂, invalid, quiet₂) = finish_query_runs w.id st₁ low in
    let fires = ap (λ k. signal k s.server) own ∙ ran₁ in
    (
      record s { server = st₁ },
      record { server = st₂; waiting = xs ++ ys },
      times_out xs ys w st₁ split resumed fires,
      fires,
      wakes xs ys w st₂ split ready ran₂,
      refl,
      invalid,
      quiet₂ ∙ quiet₁,
    )
