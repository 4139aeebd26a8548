-- ===== src/Lib.antt =====
-- ProtoQ: a framed request and response protocol over streams, in Go.
--
-- A packet (`packet.go`) is a byte of flags (`flags.go`), an opcode, a sequence number and a body.
-- `conn/encoder.go` writes it as a frame: the magic byte, flags, an optional length, opcode,
-- number, body, an optional checksum (`conn/crc.go`), and zeros up to a multiple of four.
-- `conn/decoder.go` reads frames back from a stream that delivers them in pieces. The sender keeps
-- its unanswered requests in a sequence manager (`conn/seq.go`) or in an acknowledgement queue
-- (`message_queue.go`). The bridge of a connection (`conn/bridge.go`) decrypts a decoded frame,
-- hands it to the dispatcher (`basic/register`), which runs the filters (`basic/filter`) and then a
-- handler, and sends the response; responses that come in complete an entry of the queue. A
-- connection (`conn/connection.go`) owns the socket, a decoder, the queue and its properties; its
-- bytes may travel in WebSocket frames (`conn/ws.go`). `client/client.go` and `server/server.go`
-- are the plain client and server on connections; `server/message_server.go` serves bridges over
-- the registers of `basic/register`, with the built-in negotiation and heartbeat of
-- `basic/message`.
--
-- Files:
--   Prelude            Boolean tests, lists and maps over the native numbers
--   Errors             `errors.go`, and results that are a value, an error or a panic
--   Flags              `flags.go`; its children read the flags as a layout of six fields
--   Packet             `packet.go`: constructors, sizes, integer fields (`NewRequestPacket` is
--                      `new_request_packet`, `PutUintN` is `put_uint_n`, and so on)
--   Crc                `conn/crc.go`: table, `CRC16IBM`, `ComputeCRC`, `VerifyCRC`
--   Encoder            `Encode` of `conn/encoder.go`, store by store on a buffer
--   Stream             the state of `Decoder`, and `ensureBytes` over a list of reads
--   Decoder            `Decode` of `conn/decoder.go`: `step` is one round of its loop
--   Queue              `message_queue.go`, with the channels that wait
--   Seq                `conn/seq.go`: each function is a locked section or a channel operation, so
--                      an interleaving is a sequence of calls
--   Dispatch           `basic/register` and `basic/filter/negotiate.go`
--   Bridge             `handleFrame`, the write loop and the codecs of `conn/bridge.go`;
--                      `Bridge.Serving` is `Serve`, `Close` and `WritePacket`, `Bridge.Outbox` and
--                      `Bridge.Ordering` the rounds of both loops in any order
--   Connection         `conn/connection.go`: writing, closing, properties, and `Send`
--   Client             `client/client.go`: a request before and after its wait, the read loop
--   Server             `server/server.go`: the table of connections and the rounds of `serve`
--   Exchange           a request of `Client` to `Server` and back, over encoder and decoder
--   WebSocket          `conn/ws.go`: frames, masks, `Read`, `Write` and `Close`
--   Register           `basic/register/bean.go`, and the event dispatcher
--   MessageServer      `server/message_server.go`: its tables, the names of clients, `ServeConn`
--   Opcodes            `basic/constant/message_id.go`
--   Heartbeat          `StartHeartbeat` of `basic/message/client.go`
--   Negotiation        `basic/message`: the negotiation of client and server
--   Examples           the theorems at concrete inputs
--
-- A byte is a number below 256; uint16 and uint32 values are numbers whose wrap-around is written
-- out. Sizes are `int` in the source and stay far below 2 ^ 63 here. The loop of `ensureBytes` is a
-- recursion on the reads that are left. `Decode` and `retryLoop` are recursions on fuel: a frame
-- takes eight rounds and one for each byte of noise before it, and a request that nobody answers
-- takes four; on any stream `6 n + 6` rounds are enough for `n` bytes. `Read` of a WebSocket takes
-- two bytes in each round at least. What the operations of a sequence manager or of a connection
-- may lead to, in any order, is a relation between states (`Seq.Reachable`, `Connection.Reachable`,
-- `Client.Reachable`): a call is one step there, `Resolve` too, but between the section that follows a
-- timer of `retryLoop` and what it does then, others may come in (`Seq.Retry` shows what may come
-- between the two parts of `Resolve`). A send on a full channel is an error of its own, `blocks`.
-- `crc32.ChecksumIEEE`, the reader, timers, the retransmission callback, codecs, filters, handlers and
-- what a `Write` to a socket returns are parameters.
--
-- Not modelled: sockets, listeners, the TCP and QUIC transports, which are calls of Go's network
-- library, the starting and stopping of goroutines, JSON, error texts and addresses, logging, and
-- clocks; and the program of `examples/echo`, which is a use of the library.
pub mod Prelude
pub mod Errors
pub mod Flags
pub mod Packet
pub mod Crc
pub mod Encoder
pub mod Stream
pub mod Decoder
pub mod Queue
pub mod Seq
pub mod Dispatch
pub mod Bridge
pub mod Connection
pub mod Client
pub mod Server
pub mod Exchange
pub mod WebSocket
pub mod Register
pub mod MessageServer
pub mod Opcodes
pub mod Heartbeat
pub mod Negotiation
mod Examples
