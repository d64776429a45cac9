-- ===== src/Gossip.antt =====
-- gossip/: the peers that a node knows (Peer, of peer.go), and the exchange of them (Engine, of
-- gossip.go).
pub mod Peer
pub mod Engine
mod Examples
