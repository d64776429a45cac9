-- ===== src/Forward.antt =====
-- forward/: the sessions of relayed datagrams (Session, of session.go), their relay (UdpRelay, of
-- udp_relay.go) and the relay of connections (TcpRelay, of tcp_relay.go).
pub mod Session
pub mod UdpRelay
pub mod TcpRelay
mod Examples
