-- ===== src/Server/Table.antt =====
-- The connections of server/server.go.
use proto_q.Prelude.{
  ℕ, ◌+◌, ◌≡◌, refl, ap, sym, ◌∙◌, arith, Bool, Bool-cases, true, inl, inr, none, some, Option, [],
  ◌∷◌, length, find, erase, put, erase-put, erase-absent, find-put_same, Map, if◌then◌else◌,
}
use proto_q.Errors.{Error, Result, ok, ◌>>=◌}
use proto_q.Stream.{add64}
use proto_q.Queue.{MessageQueue, Store, clear, close_all}
use proto_q.Connection
use proto_q.Connection.{Conn, Done}
use proto_q.Server.{
  ConnContext, Server, accepting, accept_round, new_conn_context, socket, run_hook, cleanup,
  active_conns,
}

put-put :
    (k : ℕ) (x y : ConnContext) (m : Map ConnContext)
    → find k m ≡ none
    → put k x (put k y m) ≡ put k x m
unfolding put
put-put k x y m fresh = ap (λ t. (k, x) ∷ t) (erase-put k y m fresh ∙ sym (erase-absent k m fresh))

length-put :
    (k : ℕ) (x : ConnContext) (m : Map ConnContext)
    → find k m ≡ none
    → length (put k x m) ≡ length m + 1
unfolding put
length-put k x m absent = rw (erase-absent k m absent) (omega arith)

abbrev empty_queue : MessageQueue
empty_queue = record { pending = []; count = 0 }

clear-empty :
    (q : MessageQueue) (s : Store)
    → q.pending ≡ []
    → clear q s ≡ ok (record { pending = []; count = 0 }, s)
unfolding clear close_all
clear-empty q s empty = ap (λ (m : Map ℕ). close_all m s >>= (λ s'. ok (empty_queue, s'))) empty

abbrev closed_conn : Conn → MessageQueue → Store → Conn
closed_conn c q s = record c {
  closed = true;
  cancelled = true;
  raw_closed = true;
  msg_queue = q;
  store = s;
}

abbrev closing_result : Option Error → Conn → Result (MessageQueue × Store) → Result Done
closing_result raw_close c r = do
  cleared ← r
  ok (record { error = raw_close; conn = closed_conn c cleared.0 cleared.1 })

close-empty :
    (raw_close : Option Error) (c : Conn)
    → c.msg_queue.pending ≡ []
    → (done : Done) × (Connection.close raw_close c ≡ ok done) × (done.conn.closed ≡ true)
unfolding Connection.close
close-empty raw_close c empty =
    let closing = closing_result raw_close c (clear c.msg_queue c.store) in
    let nothing : Result Done = ok (record { error = none; conn = c }) in
    elim (Bool-cases c.closed) [
      | inl over ↦ (
        record { error = none; conn = c },
        ap (λ (b : Bool). if b then nothing else closing) over,
        over,
      )
      | inr is_open ↦ (
        record {
          error = raw_close;
          conn = closed_conn c (record { pending = []; count = 0 }) c.store;
        },
        ap (λ (b : Bool). if b then nothing else closing) is_open
            ∙ ap (closing_result raw_close c) (clear-empty c.msg_queue c.store empty),
        refl,
      )
    ]

-- A new socket with a pointer that is not in the table: the server has one connection more, which
-- is the new context as the opening hook leaves it. Where the closing hook leaves no request in the
-- context's queue, `cleanup` closes its connection and takes it out again: the server is as before.
pub cleanup-accept_round :
    (stopped : Bool) (p conn_id : ℕ) (raw_close : Option Error) (s : Server) (ctx : ConnContext)
    → find p s.conns ≡ none
    → new_conn_context (add64 conn_id 1) s ≡ ok ctx
    → (run_hook s.on_close (run_hook s.on_connect ctx)).conn.msg_queue.pending ≡ []
    → (s' : Server) × (closed : ConnContext) × (accept_round stopped (socket p) conn_id s
        ≡ ok (accepting (add64 conn_id 1) s'))
      × (find p s'.conns ≡ some (run_hook s.on_connect ctx))
      × (active_conns s' ≡ active_conns s + 1)
      × (cleanup raw_close p (run_hook s.on_connect ctx) s' ≡ ok (closed, s))
      × (closed.conn.closed ≡ true)
unfolding accept_round active_conns cleanup
cleanup-accept_round stopped p conn_id raw_close s ctx fresh made empty =
    let connected = run_hook s.on_connect ctx in
    let closing = run_hook s.on_close connected in
    let s1 : Server = record s { conns = put p connected (put p ctx s.conns) } in
    let once : put p connected (put p ctx s.conns) ≡ put p connected s.conns =
      put-put p connected ctx s.conns fresh in
    let (done, closes, is_closed) = close-empty raw_close closing.conn empty in
    (
      s1,
      record closing { conn = done.conn },
      ap
          (λ (r : Result ConnContext). r >>= (λ c.
            let s2 : Server = record s { conns = put p c s.conns } in
            ok (
              accepting (add64 conn_id 1)
                (record s2 { conns = put p (run_hook s.on_connect c) s2.conns }))))
          made,
      find-put_same p connected (put p ctx s.conns),
      ap (λ (m : Map ConnContext). length m) once ∙ length-put p connected s.conns fresh,
      ap
            (λ (r : Result Done). r >>= (λ d.
              ok (record closing { conn = d.conn }, record s1 { conns = erase p s1.conns })))
            closes
          ∙ ap
              (λ (m : Map ConnContext).
                ok (record closing { conn = done.conn }, record s { conns = m }))
              (ap (λ (m : Map ConnContext). erase p m) once ∙ erase-put p connected s.conns fresh),
      is_closed,
    )
