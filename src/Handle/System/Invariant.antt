-- ===== src/Handle/System/Invariant.antt =====
-- src/protocol/handle.c: until the counter wraps, every valid entry of the conversion table belongs
-- to one waiting thread, whatever the order of queries, responses, timeouts and wake-ups.
use adrift.Base.{
  ℕ, ◌^◌, ◌≤◌, ◌<◌, ◌≡◌, ◌≢◌, refl, ap, ◌∙◌, subst, true, List, [], ◌∷◌, ◌++◌, All, ok, arith, ◌==◌,
  ==_iff, eqb_refl, if◌then◌else◌, Bool-cases, inl, inr, ◌⊎◌, update,
}
use adrift.Handle.State.{Server, Convert}
use adrift.Handle.Query.{finish_query}
use adrift.Handle.System.{Waiting, System, start_timer}
use adrift.Handle.System.Frame.{Booked, mark, reserved}
use adrift.Handle.System.Effects.{Signalled, finish_query-table}
use adrift.Protocol.Header.{DnsHeader}

-- Thread `w` waits for the number `k`, and the entry `e` is its own.
abbrev pub Owns : ℕ → Convert → Waiting → Type 0
Owns k e w = (w.id ≡ k) × (e.buf_sock ≡ w.client) × (e.buf_req_id ≡ w.req_id)

-- One of the threads does.
abbrev pub Serves : ℕ → Convert → List Waiting → Type 0
Serves k e [] = ⊥
Serves k e (w ∷ ws) = Owns k e w ⊎ Serves k e ws

-- The timer of a thread has been started, and is for the thread's own number.
abbrev pub IsTimed : Waiting → Type 0
IsTimed w = (w.timer.buf_id ≡ w.id) × (w.timer.resumed ≡ true)

pub record Inv (s : System) : Type 0 where
  pub served :
      (k : ℕ) → (s.server.convert_table k).valid ≢ 0 → Serves k (s.server.convert_table k) s.waiting
  pub below : All (λ w. w.id < s.server.buf1_len) s.waiting
  pub timed : All IsTimed s.waiting

Serves-transport :
    (k : ℕ) (e e' : Convert) (ws : List Waiting)
    → e'.buf_sock ≡ e.buf_sock
    → e'.buf_req_id ≡ e.buf_req_id
    → Serves k e ws
    → Serves k e' ws
Serves-transport k e e' [] f g h = h
Serves-transport k e e' (w ∷ ws) f g (inl (a, b, c)) = inl (a, f ∙ b, g ∙ c)
Serves-transport k e e' (w ∷ ws) f g (inr h) = inr (Serves-transport k e e' ws f g h)

-- A thread that waits for another number can leave.
Serves-remove :
    (k : ℕ) (e : Convert) (xs : List Waiting) (w : Waiting) (ys : List Waiting)
    → w.id ≢ k
    → Serves k e (xs ++ w ∷ ys)
    → Serves k e (xs ++ ys)
Serves-remove k e [] w ys f (inl o) = absurd (f o.0)
Serves-remove k e [] w ys f (inr h) = h
Serves-remove k e (x ∷ xs) w ys f (inl o) = inl o
Serves-remove k e (x ∷ xs) w ys f (inr h) = inr (Serves-remove k e xs w ys f h)

below-weaken :
    (m n : ℕ) (ws : List Waiting) → m ≤ n → All (λ w. w.id < m) ws → All (λ w. w.id < n) ws
below-weaken m n [] h v = tt
below-weaken m n (w ∷ ws) h v = (omega arith, below-weaken m n ws h v.1)

All-remove :
    (P : Waiting → Type 0) (xs : List Waiting) (w : Waiting) (ys : List Waiting)
    → All P (xs ++ w ∷ ys)
    → All P (xs ++ ys)
All-remove P [] w ys v = v.1
All-remove P (x ∷ xs) w ys v = (v.0, All-remove P xs w ys v.1)

-- The table's entries keep their owners, and the counter does not go down.
pub quiet-Inv :
    (s : System) (st : Server)
    → st.buf1_len ≡ s.server.buf1_len
    → ((k : ℕ) → (st.convert_table k).valid ≡ (s.server.convert_table k).valid)
    → ((k : ℕ) → (st.convert_table k).buf_sock ≡ (s.server.convert_table k).buf_sock)
    → ((k : ℕ) → (st.convert_table k).buf_req_id ≡ (s.server.convert_table k).buf_req_id)
    → Inv s
    → Inv (record s { server = st })
quiet-Inv s st counter valid client req_id inv = record {
  served = λ k f.
      Serves-transport k (s.server.convert_table k) (st.convert_table k) s.waiting (client k)
        (req_id k) (inv.served k (λ z. f (valid k ∙ z)));
  below = rw counter inv.below;
  timed = inv.timed;
}

pub Signalled-Inv :
    (s : System) (st : Server) → Signalled s.server st → Inv s → Inv (record s { server = st })
Signalled-Inv s st g inv = quiet-Inv s st g.counter g.valid g.client g.req_id inv

-- The table after a query has been forwarded under the counter's value.
Booked-entry :
    (client id : ℕ) (header : DnsHeader) (st st' : Server)
    → Booked client header st id st'
    → id ≡ st.buf1_len
    → (k : ℕ)
    → st'.convert_table k ≡ (
        if st.buf1_len == k
        then record (reserved client header st) { valid = 1 }
        else st.convert_table k)
Booked-entry client id header st st' b number k =
    let n = st.buf1_len in
    let t = update st.convert_table n (reserved client header st) in
    ap (λ f. f k) b.table
    ∙ ap (λ i. mark t i k) number
    ∙ elim (Bool-cases (n == k)) [ inl e ↦ rw (e, eqb_refl n) refl | inr e ↦ rw e refl ]

-- The next number is taken by a new thread.
pub Booked-Inv :
    (s : System) (client id : ℕ) (header : DnsHeader) (st : Server)
    → s.server.buf1_len < 2 ^ 16
    → Booked client header s.server id st
    → Inv s
    → Inv (record {
      server = st;
      waiting =
          record { id = id; client = client; req_id = header.id; timer = start_timer id }
          ∷ s.waiting;
    })
Booked-Inv s client id header st low b inv =
    let n = s.server.buf1_len in
    let number : id ≡ n = omega (arith, b.number) in
    let entry = Booked-entry client id header s.server st b number in
    record {
      served = λ k f. elim (Bool-cases (n == k)) [
        | inl e ↦
            let here = rw e at (entry k) in
            inl (number ∙ (==_iff n k).0 e, ap (λ c. c.buf_sock) here, ap (λ c. c.buf_req_id) here)
        | inr e ↦
            let old = rw e at (entry k) in
            inr (
              Serves-transport k (s.server.convert_table k) (st.convert_table k) s.waiting
                (ap (λ c. c.buf_sock) old) (ap (λ c. c.buf_req_id) old)
                (inv.served k (λ z. f (ap (λ c. c.valid) old ∙ z))))
      ];
      below = (
        omega (arith, b.counter),
        below-weaken n st.buf1_len s.waiting (omega (arith, b.counter)) inv.below,
      );
      timed = (unfold start_timer in (refl, refl), inv.timed);
    }

-- A thread ends, and its entry is valid no more.
pub finished-Inv :
    (s : System) (xs : List Waiting) (w : Waiting) (ys : List Waiting) (st : Server)
    → s.waiting ≡ xs ++ w ∷ ys
    → finish_query w.id s.server ≡ ok st
    → Inv s
    → Inv (record { server = st; waiting = xs ++ ys })
finished-Inv s xs w ys st split ran inv =
    let e = finish_query-table w.id s.server st ran in
    let entry = λ (k : ℕ). ap (λ f. f.convert_table k) e in
    record {
      served = λ k f. elim (Bool-cases (w.id == k)) [
        | inl y ↦ absurd (f (ap (λ c. c.valid) (rw y at (entry k))))
        | inr n ↦
            let old = rw n at (entry k) in
            Serves-transport k (s.server.convert_table k) (st.convert_table k) (xs ++ ys)
              (ap (λ c. c.buf_sock) old) (ap (λ c. c.buf_req_id) old)
              (Serves-remove k (s.server.convert_table k) xs w ys (λ z. cc (n, (==_iff w.id k).1 z))
                (subst (Serves k (s.server.convert_table k)) split
                  (inv.served k (λ z. f (ap (λ c. c.valid) old ∙ z)))))
      ];
      below =
          rw (ap (λ s. s.buf1_len) e)
            (All-remove _ xs w ys (subst (All (λ w. w.id < s.server.buf1_len)) split inv.below));
      timed = All-remove _ xs w ys (subst (All IsTimed) split inv.timed);
    }
