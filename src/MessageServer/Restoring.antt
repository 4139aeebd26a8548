-- ===== src/MessageServer/Restoring.antt =====
-- `ServeConn` of server/message_server.go with the bridge of the connection.
use proto_q.Prelude.{
  ℕ, ◌≡◌, refl, true, false, Bool, Option, none, some, List, [], ◌∷◌, ◌++◌, map, find,
}
use proto_q.Errors.{ok}
use proto_q.Packet.{PacketData}
use proto_q.Stream.{Decoder, ReadError}
use proto_q.Decoder.{io_error}
use proto_q.Queue.{MessageQueue}
use proto_q.Queue.Wiring.{IsWired}
use proto_q.Bridge.{BridgeError, ConnectionBridge}
use proto_q.Bridge.Serving.{Serving, decodes, turn, handle_all, serve-ends, IsServedOut}
use proto_q.MessageServer.{MessageServer, format_client_id, serve_conn}
use proto_q.MessageServer.Names.{detach-attach}

module _ (client_of : List ℕ → ℕ) (text : BridgeError → List ℕ) (accepts : PacketData → Bool) where
  -- `ServeConn` of a connection whose bridge and whose client's name are in no table. `Decode`
  -- returns some frames, which the bridge handles without a panic, with rounds of the write loop
  -- among them, and then an error; the connection is still open, and every request that waits in
  -- its queue has an open channel of its own. `ServeConn` returns, whatever rounds the write loop
  -- still does: the tables of the server are as before, the connection is closed, its queue is
  -- empty, and the channels of the waiting requests are closed, and so is `done`.
  pub serve_conn-restores :
      (late : ℕ) (fs : List (Option PacketData)) (e : ReadError) (d : Decoder) (bridge conn id : ℕ)
      (name : List ℕ) (b b' : ConnectionBridge) (q : MessageQueue) (s : MessageServer)
      → format_client_id id ≡ ok name
      → find bridge s.bridges ≡ none
      → find (client_of name) s.beans.connections ≡ none
      → handle_all text accepts fs (record b { writing = true }) ≡ ok b'
      → b'.conn.is_closed ≡ false
      → b'.conn.queue ≡ some q
      → IsWired q.pending b'.conn.store
      → (r : Serving) × (serve_conn client_of text accepts late
            (map (turn text accepts d) fs ++ (decodes (io_error e d) ∷ []))
            bridge
            conn
            id
            b
            s
          ≡ ok (false, (s, r)))
        × IsServedOut text accepts q b' r
  unfolding serve_conn
  serve_conn-restores late fs e d bridge conn id name b b' q s named fresh new_name handles is_open
        has_queue wired =
      let (s1, attaches, _, _, detaches) =
        detach-attach client_of bridge conn id name s named fresh new_name in
      let (r, serves, out, _, _) =
        serve-ends text accepts late 0 fs e d [] [] b b' q handles is_open has_queue wired in
      (r, rw (attaches, serves, detaches) refl, out)
