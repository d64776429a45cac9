-- ===== src/Socks5.antt =====
-- socks5/: the handshake of a client (Handshake, of handshake.go), its connections (Server, of server.go),
-- its UDP associations (Association) and their datagrams (Udp, of udp.go).
pub mod Handshake
pub mod Udp
pub mod Server
pub mod Association
mod Examples
