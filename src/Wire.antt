-- ===== src/Wire.antt =====
-- wire/: the binary format of the messages that nodes exchange. This file has the message types of
-- header.go; Codec has the byte-level reads and writes, and a module each file of messages.
pub mod Codec
pub mod Address
pub mod Udp
pub mod Tcp
pub mod Sign
pub mod Route
pub mod Gossip
mod Examples
use magic_tun.Base.{ℕ}

abbrev pub msg_route_update : ℕ
msg_route_update = 0x01

abbrev pub msg_route_withdraw : ℕ
msg_route_withdraw = 0x02

abbrev pub msg_gossip_push : ℕ
msg_gossip_push = 0x03

abbrev pub msg_gossip_pull : ℕ
msg_gossip_pull = 0x04

abbrev pub msg_gossip_ack : ℕ
msg_gossip_ack = 0x05

abbrev pub msg_ping : ℕ
msg_ping = 0x06

abbrev pub msg_pong : ℕ
msg_pong = 0x07

abbrev pub msg_tcp_forward : ℕ
msg_tcp_forward = 0x08

abbrev pub msg_tcp_close : ℕ
msg_tcp_close = 0x09

abbrev pub msg_udp_forward : ℕ
msg_udp_forward = 0x0A

abbrev pub msg_udp_session_create : ℕ
msg_udp_session_create = 0x0B

abbrev pub msg_udp_session_close : ℕ
msg_udp_session_close = 0x0C
