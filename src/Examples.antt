-- ===== src/Examples.antt =====
-- Concrete inputs for the theorems, and tests of the definitions.
mod Frames
mod Garbling
mod Fields
mod Pending
mod Messages
mod Exchanges
mod Streams
mod Sockets
mod Wires
mod Servers
mod Agreements
mod Closings
