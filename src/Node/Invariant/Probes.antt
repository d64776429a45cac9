-- ===== src/Node/Invariant/Probes.antt =====
-- The probes of gossip/gossip.go.
use magic_tun.Base.{
  ℕ, inl, inr, ◌%◌, eqb, length, get, get_elem?, Bool-cases, Option-cases, bytes_eq, nat_eq,
}
use magic_tun.Identity.{NodeId}
use magic_tun.Wire.Gossip.{encode_ping}
use magic_tun.Gossip.Peer.{Peer, PeerManager, get_peer, get_alive, mark_suspect, fast_rand}
use magic_tun.Gossip.Peer.Invariant as Peers
use magic_tun.Gossip.Peer.Invariant.{IsManager}
use magic_tun.Gossip.Engine.{Engine, sign_msg, probe, probe_random_peer, probe_expired, is_silent}

mark_suspect-IsManager :
    (id : NodeId) (pm : PeerManager) → IsManager pm → IsManager (mark_suspect id pm)
unfolding Peers.step
mark_suspect-IsManager id pm h = Peers.step-IsManager pm (Peers.Op.suspects id) h

probe-IsManager :
    (target : Peer) (e : Engine) → IsManager e.peers → IsManager (probe target e).1.0.peers
probe-IsManager target e h = elim (Option-cases (get target.id e.conns)) [
  | inl q ↦ rw (q, probe) h
  | inr (conn, q) ↦
      rw (q, probe)
        (elim (Bool-cases (conn.writes (sign_msg e encode_ping))) [
          | inl w ↦ rw w h
          | inr w ↦ rw w (mark_suspect-IsManager target.id e.peers h)
        ])
]

pub probe_random_peer-IsManager :
    (s : ℕ) (e : Engine) → IsManager e.peers → IsManager (probe_random_peer s e).0.1.0.peers
unfolding probe_random_peer
probe_random_peer-IsManager s e h =
    let alive = get_alive e.peers in
    elim (Bool-cases (eqb (length alive) 0)) [
      | inl none_left ↦ rw none_left h
      | inr some_left ↦
          rw some_left (elim (Option-cases (get_elem? alive (fast_rand s % length alive))) [
            | inl q ↦ rw q h
            | inr (target, q) ↦ rw q (probe-IsManager target e h)
          ])
    ]

pub probe_expired-IsManager :
    (now : ℕ) (id : NodeId) (e : Engine)
    → IsManager e.peers
    → IsManager (probe_expired now id e).peers
unfolding probe_expired
probe_expired-IsManager now id e h = elim (Option-cases (get_peer id e.peers)) [
  | inl q ↦ rw (q, probe_expired) h
  | inr (p, q) ↦
      rw (q, probe_expired)
        (elim (Bool-cases (is_silent now e.config.peer_timeout p)) [
          | inl w ↦ rw w (mark_suspect-IsManager id e.peers h)
          | inr w ↦ rw w h
        ])
]
