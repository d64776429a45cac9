-- ===== src/Lib.antt =====
-- A verification library for MagicTUN, an overlay network: nodes keep TLS connections to one another,
-- learn of each other by gossip and of networks by path-vector routing, and carry the TCP and UDP
-- traffic of local SOCKS5 clients to the node that a target's network belongs to.
--
-- The program's parts, and the files that model them:
-- * wire/ (header.go, route.go, gossip.go, forward_tcp.go, forward_udp.go, sign.go), the messages: Wire,
--   with Wire/Codec for the reads and writes they share, Wire/Address for the addresses of the forward
--   headers, and Wire/Route, Wire/Gossip, Wire/Tcp, Wire/Udp and Wire/Sign. EncodeRouteMessage is
--   `encode_route_message`, DecodeRouteMessage is `decode_route_message`, and so on. A decoder returns a
--   value, an error, or the panic of a read past the end of its slice.
-- * identity/identity.go, identifiers and their text: Identity, Identity/Hex. identity/keyfile.go, the
--   node's key: Identity/KeyFile, where LoadOrCreate is `load_or_create`. identity/pinstore.go, the
--   certificates trusted on first use: Identity/PinStore, where Check is `check`.
-- * route/path.go and route/table.go, the routing table: Route/Path, Route/Table. AddRoute, RemoveRoute,
--   RemoveAllFromOrigin, GC and Lookup are `add_route`, `remove_route`, `remove_all_from_origin`, `gc`
--   and `lookup`.
-- * route/propagation.go, the exchange of routes: Route/Propagation. HandleRouteUpdate is
--   `handle_route_update`; it calls the decoder of Wire/Route and the table, and answers with effects,
--   the messages to other nodes. Route/Propagation/Chain follows one advertisement over several nodes.
-- * gossip/peer.go and gossip/gossip.go, the peers and their exchange: Gossip/Peer, Gossip/Engine.
--   HandleMessage is `handle_message`.
-- * forward/session.go and forward/udp_relay.go, the relay of datagrams: Forward/Session,
--   Forward/UdpRelay; Forward/Session/Refinement has the table as a function of numbers. HandleIncoming is
--   `handle_incoming`. forward/tcp_relay.go, the relay of
--   connections: Forward/TcpRelay, with the SetDialPeer function of node/node.go as `dial_peer`, and
--   HandleIncomingRelay as `handle_incoming_relay`.
-- * transport/frame.go and transport/conn.go, frames and the streams of a connection: Transport/Frame,
--   Transport/Conn. One turn of readLoop is `handle_frame`, Stream.Read is `read_stream`. The theorems are
--   in Transport/Conn/Opening and Vacancy for OpenStream, Accepting for a stream that the other end opens,
--   Reading for one stream, and Streams for all. Where a select may take either of two cases, an argument
--   says which it takes (`Picks`).
-- * socks5/handshake.go, socks5/server.go and socks5/udp.go, the clients: Socks5/Handshake,
--   Socks5/Server, Socks5/Udp. handleHandshake is `handle_handshake`; handleConnection is
--   `handle_connection`, which calls it and `lookup` of the table; handleUDPDatagram is
--   `handle_udp_datagram`, which calls `lookup` as well; handleUDPAssociate is `handle_udp_associate` of
--   Socks5/Association, whose loop calls it.
-- * node/node.go, the node, whose state has that of all the others: Node. dispatchControlMsg is
--   `dispatch_control_msg` of Node/Dispatch, which checks the signature and calls `handle_route_update`,
--   `handle_message` of the gossip engine or the decoders of Wire/Udp. Node/Peers has the connections to
--   peers, from the dial (connectToPeer, handleIncomingConn, bootstrapPeer, reconnectPeer) to the loss
--   (of handleControlMessages, `connection_lost`); Node/Datagrams the UDP socket (udpReadLoop) and the
--   tickers of garbage collection; Node/RateLimiter and Node/Backoff the limiter and the waits between
--   attempts. Node/Lifecycle has New as `new_node`, and `step` for each event that changes this state:
--   messages, datagrams, connections and their loss, and the tickers and timers of the node, of its gossip
--   engine and of its route propagator. Node/Invariant is what all events keep; Node/Peers/Dialing is what
--   connectToPeer and reconnectPeer do to the addresses that they mark.
-- * config/config.go, the configuration: Config. Validate is `validate`.
-- * obs/health.go, the counters and the two answers about them: Obs.
-- Net models what these use of Go's package net: addresses, masks, containment; Net/Texts is an interface
-- for the texts of addresses. Base has the shared helpers, with Go's int in Base/Int. Each Examples
-- module applies the theorems at concrete inputs.
--
-- Conventions. Bytes, numbers and times are natural numbers; a counter of w bits wraps by `% 2 ^ w`. A map
-- is an association list, whose order stands for the order in which a `range` visits it. What a method
-- changes, its model returns; calls of callbacks and writes to connections are returned as effects, in
-- their order. `now` is the clock's answer. Identifiers stand for their hexadecimal texts as keys, and
-- a network's number and mask for its text. An event of the node is one step; a goroutine that waits in
-- between, as for a dial, is two steps, between which any others may come.
--
-- Bounds and fuel. `find_id` has the 1000 attempts of OpenStream, which Transport/Conn/Vacancy compares
-- with the number of streams; `shift_ones` has 8 turns, as many as a byte has bits. All other loops are
-- structural recursion. The limiter's refill is exact where the code uses float64: see Node/RateLimiter.
--
-- Interfaces, with what the code relies on. Ed25519 (Wire/Sign) has the laws that its documentation
-- states: a signature has 64 bytes, and verifies under the signer's key. SHA-256 (Hashes of
-- Identity/KeyFile) gives 32 bytes. Texts (Net/Texts) writes and reads the text of an address and a port.
-- math/rand gives numbers below its argument (IsRand of Node/Backoff). The resolution of names (Host of
-- Node/Peers), the parsers of durations and networks (Config), reading and writing of files and whether a
-- dial succeeds are functions and values taken without any condition.
--
-- Not modelled: locks and the interleaving within a step; sockets, TLS, certificates and listeners
-- (transport/tls.go, listener.go, udp.go); the copying of bytes once a connection is relayed (io.Copy, in
-- forward/tcp_relay.go, socks5/server.go and node/node.go); Start and Stop of the node and its accept
-- loop; the JSON of the configuration and of the pins; the HTTP server of obs/health.go; cmd/magictun. They are calls of libraries, goroutines and sockets.
pub mod Base
pub mod Net
pub mod Identity
pub mod Wire
pub mod Route
pub mod Gossip
pub mod Forward
pub mod Transport
pub mod Socks5
pub mod Node
pub mod Config
pub mod Obs
