-- ===== src/Bridge/Serving.antt =====
-- The life of the bridge of conn/bridge.go: `Serve` with its read loop, `Close`, and `WritePacket`
-- from outside. The calls of `Decode` return one after the other, and rounds of the write loop may
-- come between any two of them, and before the connection is closed.
use proto_q.Prelude.{
  ℕ, ◌≡◌, refl, ap, sym, ◌∙◌, Bool, true, false, Bool-cases, inl, inr, List, [], ◌∷◌, ◌++◌, map,
  zero, suc, Option, none, some, subst, if◌then◌else◌,
}
use proto_q.Errors.{Result, ok, err, panic, ◌>>=◌}
use proto_q.Packet.{PacketData}
use proto_q.Stream.{Decoder, ReadError}
use proto_q.Decoder.{Outcome, packet, io_error}
use proto_q.Dispatch.{Connection}
use proto_q.Queue.{MessageQueue, Store, new_message_queue, clear}
use proto_q.Queue.Wiring.{IsWired}
use proto_q.Queue.Closing.{IsCleared, clear-IsCleared}
use proto_q.Bridge.{
  BridgeError, ConnectionBridge, write_packet, close_connection, close_bridge_conn, handle_frame,
  read_round, write_round, Secured, secured, unsecured, encrypt_body, conn_write, write_secured,
  write_oldest,
}

-- `stopped`, `write_closed` and `done` say whether the channels `stopCh`, `writeCh` and `done` are
-- closed.
pub record Serving : Type 0 where
  pub bridge : ConnectionBridge
  pub stopped : Bool
  pub write_closed : Bool
  pub done : Bool

abbrev pub start_serving : ConnectionBridge → Serving
start_serving b = record {
  bridge = record b { writing = true };
  stopped = false;
  write_closed = false;
  done = false;
}

unfoldable pub close_bridge : Serving → Serving
close_bridge s = if s.stopped then s else record s { stopped = true }

-- `WritePacket`: a send on a closed channel panics, under `select` too.
unfoldable pub push : PacketData → Serving → Result Serving
push frame s =
    if s.write_closed then panic else ok (record s { bridge = write_packet frame s.bridge })

close_bridge-stopped : (s : Serving) → close_bridge s ≡ record s { stopped = true }
unfolding close_bridge
close_bridge-stopped s = elim (Bool-cases s.stopped) [
  | inl t ↦
      ap (λ (b : Bool). if b then s else record s { stopped = true }) t
      ∙ ap (λ (b : Bool). record s { stopped = b }) t
  | inr f ↦ ap (λ (b : Bool). if b then s else record s { stopped = true }) f
]

-- What happens next while the read loop runs: `Decode` returns, or the write loop does a round.
pub data Turn : Type 0 where
  decodes : Outcome → Turn
  drains : Turn

close_connection-cleared :
    (c : Connection) (q : MessageQueue) (s : Store)
    → c.is_closed ≡ false
    → c.queue ≡ some q
    → clear q c.store ≡ ok (new_message_queue, s)
    → close_connection c
      ≡ ok (record c { is_closed = true; queue = some new_message_queue; store = s })
unfolding close_connection
close_connection-cleared c q s is_open has_queue clears =
    rw (close_connection, is_open, has_queue, clears) refl

module _ (text : BridgeError → List ℕ) (accepts : PacketData → Bool) where
  abbrev pub join_reads :
      Bool × ConnectionBridge → Result (Bool × ConnectionBridge) → Result (Bool × ConnectionBridge)
  join_reads r rest = if r.0 then rest else ok r

  -- The rounds of `readLoop`: whether it goes on, and the bridge.
  unfoldable pub read_loop : List Turn → Bool → ConnectionBridge → Result (Bool × ConnectionBridge)
  unfolding read_round write_round
  read_loop [] stopped b = ok (true, b)
  read_loop (drains ∷ turns) stopped b = read_loop turns stopped (write_round accepts b)
  read_loop (decodes outcome ∷ turns) stopped b = do
    r ← read_round text stopped outcome b
    let rest = read_loop turns stopped r.1
    join_reads r rest

  unfoldable pub write_rounds : ℕ → ConnectionBridge → ConnectionBridge
  unfolding write_round
  write_rounds zero b = b
  write_rounds (suc n) b = write_rounds n (write_round accepts b)

  -- What `Serve` does after its read loop, where the write loop does `late` rounds before the
  -- connection is closed. A second close of `writeCh` panics.
  unfoldable pub end_serve : ℕ → Serving → Result Serving
  unfolding write_rounds close_connection
  end_serve late s = if s.write_closed then panic else (do
    b ← close_bridge_conn (write_rounds late s.bridge)
    ok (record s { bridge = b; write_closed = true; done = true }))

  abbrev pub after_reads : ℕ → Serving → Bool × ConnectionBridge → Result (Bool × Serving)
  after_reads late s r =
      if r.0
      then ok (true, record s { bridge = r.1 })
      else (do s' ← end_serve late (record s { bridge = r.1 }); ok (false, s'))

  -- Whether `Serve` still waits for `Decode`, and the bridge.
  unfoldable pub serve : ℕ → List Turn → Serving → Result (Bool × Serving)
  unfolding read_loop end_serve
  serve late turns s = do r ← read_loop turns s.stopped s.bridge; after_reads late s r

  -- The bridge handles the frames one after the other, with rounds of the write loop among them,
  -- which stand as none.
  unfoldable pub handle_all : List (Option PacketData) → ConnectionBridge → Result ConnectionBridge
  handle_all [] b = ok b
  handle_all (none ∷ fs) b = handle_all fs (write_round accepts b)
  handle_all (some f ∷ fs) b = do b' ← handle_frame text f b; handle_all fs b'

  -- What happens then, with the decoder that `Decode` leaves.
  abbrev pub turn : Decoder → Option PacketData → Turn
  turn d none = drains
  turn d (some f) = decodes (packet f d)

  handled-first :
      (r : Result ConnectionBridge) (fs : List (Option PacketData)) (turns : List Turn)
      (b' : ConnectionBridge)
      → ((b1 : ConnectionBridge)
          → handle_all fs b1 ≡ ok b'
          → read_loop turns false b1 ≡ ok (false, b'))
      → (r >>= handle_all fs) ≡ ok b'
      → ((r >>= (λ t. ok (true, t))) >>= (λ r'. join_reads r' (read_loop turns false r'.1)))
        ≡ ok (false, b')
  handled-first (ok b1) fs turns b' next h = next b1 h
  handled-first (err x) fs turns b' next h = absurd (cc h)
  handled-first panic fs turns b' next h = absurd (cc h)

  read_loop-handle_all :
      (fs : List (Option PacketData)) (e : ReadError) (d : Decoder) (rest : List Turn)
      (b b' : ConnectionBridge)
      → handle_all fs b ≡ ok b'
      → read_loop (map (turn d) fs ++ (decodes (io_error e d) ∷ rest)) false b ≡ ok (false, b')
  unfolding read_loop handle_all read_round
  read_loop-handle_all [] e d rest b b' handles =
      ap (λ (r : Result ConnectionBridge). r >>= (λ t. ok (false, t))) handles
  read_loop-handle_all (none ∷ fs) e d rest b b' handles =
      read_loop-handle_all fs e d rest (write_round accepts b) b' handles
  read_loop-handle_all (some f ∷ fs) e d rest b b' handles =
      handled-first (handle_frame text f b) fs (map (turn d) fs ++ (decodes (io_error e d) ∷ rest))
        b' (λ b1 h. read_loop-handle_all fs e d rest b1 b' h) handles

  -- Whatever the write loop writes, the queue of the connection is as it was, and it is as open.
  record IsKept (b b' : ConnectionBridge) : Type 0 where
    pub closed : b'.conn.is_closed ≡ b.conn.is_closed
    pub queue : b'.conn.queue ≡ b.conn.queue
    pub store : b'.conn.store ≡ b.conn.store

  write_secured-IsKept :
      (x : Secured) (b b1 : ConnectionBridge)
      → b1.conn ≡ b.conn
      → IsKept b (write_secured accepts x b1)
  unfolding conn_write
  write_secured-IsKept (unsecured e) b b1 same = record {
    closed = rw same refl;
    queue = rw same refl;
    store = rw same refl;
  }
  write_secured-IsKept (secured f) b b1 same = elim (Bool-cases b1.conn.is_closed) [
    | inl closed ↦ record {
      closed = rw closed (sym closed ∙ ap (λ c. c.is_closed) same);
      queue = rw closed (ap (λ c. c.queue) same);
      store = rw closed (ap (λ c. c.store) same);
    }
    | inr is_open ↦ record {
      closed = rw is_open (sym is_open ∙ ap (λ c. c.is_closed) same);
      queue = rw is_open (ap (λ c. c.queue) same);
      store = rw is_open (ap (λ c. c.store) same);
    }
  ]

  write_oldest-IsKept :
      (ch : List PacketData) (b : ConnectionBridge) → IsKept b (write_oldest accepts ch b)
  write_oldest-IsKept [] b = record { closed = refl; queue = refl; store = refl }
  write_oldest-IsKept (f ∷ rest) b =
      write_secured-IsKept (encrypt_body b.codec f) b (record b { write_ch = rest }) refl

  write_round-IsKept : (b : ConnectionBridge) → IsKept b (write_round accepts b)
  unfolding write_round
  write_round-IsKept b = elim (Bool-cases b.writing) [
    | inl runs ↦
        subst (λ (t : Bool). IsKept b (if t then write_oldest accepts b.write_ch b else b))
          (sym runs) (write_oldest-IsKept b.write_ch b)
    | inr ended ↦
        subst (λ (t : Bool). IsKept b (if t then write_oldest accepts b.write_ch b else b))
          (sym ended) (record { closed = refl; queue = refl; store = refl })
  ]

  write_rounds-IsKept : (n : ℕ) (b : ConnectionBridge) → IsKept b (write_rounds n b)
  unfolding write_rounds
  write_rounds-IsKept zero b = record { closed = refl; queue = refl; store = refl }
  write_rounds-IsKept (suc n) b =
      let first = write_round-IsKept b in
      let later = write_rounds-IsKept n (write_round accepts b) in
      record {
        closed = later.closed ∙ first.closed;
        queue = later.queue ∙ first.queue;
        store = later.store ∙ first.store;
      }

  -- What `Serve` leaves of a bridge that has the queue `q` when the read loop ends.
  pub record IsServedOut (q : MessageQueue) (b : ConnectionBridge) (s : Serving) : Type 0 where
    pub closed : s.bridge.conn.is_closed ≡ true
    pub queue : s.bridge.conn.queue ≡ some new_message_queue
    pub cleared : IsCleared q.pending b.conn.store s.bridge.conn.store
    pub done : s.done ≡ true
    pub write_closed : s.write_closed ≡ true

  end_serve-IsServedOut :
      (late : ℕ) (q : MessageQueue) (s : Serving)
      → s.write_closed ≡ false
      → s.bridge.conn.is_closed ≡ false
      → s.bridge.conn.queue ≡ some q
      → IsWired q.pending s.bridge.conn.store
      → (s' : Serving) × (end_serve late s ≡ ok s') × IsServedOut q s.bridge s'
  unfolding end_serve close_connection
  end_serve-IsServedOut late q s writable is_open has_queue wired =
      let b = write_rounds late s.bridge in
      let kept = write_rounds-IsKept late s.bridge in
      let (store', runs, cleared) = clear-IsCleared q s.bridge.conn.store wired in
      let c : Connection = record b.conn {
        is_closed = true;
        queue = some new_message_queue;
        store = store';
      } in
      let clears : clear q b.conn.store ≡ ok (new_message_queue, store') =
        ap (clear q) kept.store ∙ runs in
      let closes : close_connection b.conn ≡ ok c =
        close_connection-cleared b.conn q store' (kept.closed ∙ is_open) (kept.queue ∙ has_queue)
          clears in
      (
        record s { bridge = record b { conn = c }; write_closed = true; done = true },
        rw (end_serve, writable, closes) refl,
        record { closed = refl; queue = refl; cleared = cleared; done = refl; write_closed = refl },
      )

  serve-again :
      (late : ℕ) (e : ReadError) (d : Decoder) (turns : List Turn) (s : Serving)
      → s.write_closed ≡ true
      → serve late (decodes (io_error e d) ∷ turns) s ≡ panic
  unfolding serve read_loop read_round end_serve
  serve-again late e d turns s closed = elim (Bool-cases s.stopped) [
    | inl stopped ↦ rw (serve, stopped, closed) refl
    | inr runs ↦ rw (serve, runs, closed) refl
  ]

  -- A bridge that was not stopped decodes some frames, which it handles without a panic, with rounds
  -- of the write loop among them, and then `Decode` returns an error; the connection is still open,
  -- and every request that waits in its queue has an open channel of its own. `Serve` asks `Decode`
  -- for nothing more, whatever rounds the write loop still does, and ends: the connection is closed,
  -- its queue is empty, the channels of the waiting requests are closed, and so is `done`. From
  -- then on `WritePacket` panics, and so does another `Serve`.
  pub serve-ends :
      (late late' : ℕ) (fs : List (Option PacketData)) (e : ReadError) (d : Decoder)
      (rest again : List Turn) (b b' : ConnectionBridge) (q : MessageQueue)
      → handle_all fs (record b { writing = true }) ≡ ok b'
      → b'.conn.is_closed ≡ false
      → b'.conn.queue ≡ some q
      → IsWired q.pending b'.conn.store
      → (s : Serving) × (serve late
            (map (turn d) fs ++ (decodes (io_error e d) ∷ rest))
            (start_serving b)
          ≡ ok (false, s))
        × IsServedOut q b' s
        × ((frame : PacketData) → push frame s ≡ panic)
        × (serve late' (decodes (io_error e d) ∷ again) s ≡ panic)
  unfolding serve end_serve push read_loop read_round
  serve-ends late late' fs e d rest again b b' q handles is_open has_queue wired =
      let loops = read_loop-handle_all fs e d rest (record b { writing = true }) b' handles in
      let (s, ends, out) =
        end_serve-IsServedOut late q (record (start_serving b) { bridge = b' }) refl is_open
          has_queue wired in
      (
        s,
        ap (λ r. r >>= after_reads late (start_serving b)) loops
            ∙ ap (λ r. r >>= (λ s'. ok (false, s'))) ends,
        out,
        λ frame. rw (push, out.write_closed) refl,
        serve-again late' e d again s out.write_closed,
      )
