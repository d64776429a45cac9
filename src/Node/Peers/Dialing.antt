-- ===== src/Node/Peers/Dialing.antt =====
-- The set of addresses that are being dialed, which the goroutines of connectToPeer and reconnectPeer
-- share, of node/node.go; a lock makes tryMarkDialing and unmarkDialing atomic.
pub mod Marks
pub mod Exclusive
use magic_tun.Base.{
  ℕ, ◌≡◌, refl, inl, inr, true, false, none, some, Option, List, [], ◌∷◌, arith, if◌then◌else◌,
  Bool-cases, Option-cases, bytes_beq, bytes_beq_iff, bytes_eq, nat_eq, get, put, delete, get-put,
  get-delete, subst,
}
use magic_tun.Identity.{NodeId}
use magic_tun.Wire.Sign.{Ed25519}
use magic_tun.Gossip.Peer.{get_peer}
use magic_tun.Node.{Link, Node, Effect}
use magic_tun.Node.Peers.{
  Host, is_dialing, try_mark_dialing, unmark_dialing, register_peer_udp_addr, put_peer_conn,
  join_peer, begin_connect, connect_new, finish_connect, begin_reconnect, end_reconnect,
  finish_reconnect,
}

abbrev pub Addr : Type 0
Addr = List ℕ

-- The node, and the goroutines of connectToPeer and reconnectPeer that have marked an address and are
-- not yet behind the unmarking of it: each by a number, with its address.
pub record Dials : Type 0 where
  pub node : Node
  pub dialers : List (ℕ × Addr)

abbrev pub marks : Dials → List Addr
marks s = s.node.reconnecting

module _ (c : Ed25519) (priv : c.PrivateKey) (host : Host) where
  pub data Step (s : Dials) : Dials → Type 0 where
    -- connectToPeer: it dials, or not; the dial has an outcome.
    connects :
        (i : ℕ) (id : NodeId) (a : Addr) {n : Node}
        → get i s.dialers ≡ none
        → begin_connect c priv host id a s.node ≡ (true, n)
        → Step s (record { node = n; dialers = put i a s.dialers })
    refrains :
        (id : NodeId) (a : Addr) {n : Node}
        → begin_connect c priv host id a s.node ≡ (false, n)
        → Step s (record s { node = n })
    dialed :
        (i now : ℕ) (id : NodeId) (a : Addr) (link : Option Link)
        → get i s.dialers ≡ some a
        → Step s (record {
          node = (finish_connect c priv host now id a link s.node).0;
          dialers = delete i s.dialers;
        })
    -- reconnectPeer: it goes on to its loop, or not; a dial succeeds, and the connection is kept or the
    -- goroutine returns; it returns for another reason.
    reconnects :
        (i : ℕ) (id : NodeId) (a : Addr) {n : Node}
        → get i s.dialers ≡ none
        → begin_reconnect c priv host id s.node ≡ (some a, n)
        → Step s (record { node = n; dialers = put i a s.dialers })
    desists :
        (id : NodeId) {n : Node}
        → begin_reconnect c priv host id s.node ≡ (none, n)
        → Step s (record s { node = n })
    keeps :
        (i now : ℕ) (id : NodeId) (a dialed : Addr) (link : Link) {n : Node} {out : List Effect}
        → get i s.dialers ≡ some a
        → finish_reconnect c priv host now id a dialed link s.node ≡ (true, (n, out))
        → Step s (record s { node = n })
    returns :
        (i now : ℕ) (id : NodeId) (a dialed : Addr) (link : Link) {n : Node} {out : List Effect}
        → get i s.dialers ≡ some a
        → finish_reconnect c priv host now id a dialed link s.node ≡ (false, (n, out))
        → Step s (record { node = n; dialers = delete i s.dialers })
    gives_up :
        (i : ℕ) (a : Addr)
        → get i s.dialers ≡ some a
        → Step s
            (record { node = end_reconnect c priv host a s.node; dialers = delete i s.dialers })
    -- What does not touch the set.
    elsewhere : {n : Node} → n.reconnecting ≡ s.node.reconnecting → Step s (record s { node = n })

  pub data Reach : Dials → Type 0 where
    start : (n : Node) → n.reconnecting ≡ [] → Reach (record { node = n; dialers = [] })
    later : {s t : Dials} → Reach s → Step s t → Reach t

pub record IsExclusive (s : Dials) : Type 0 where
  pub alone : (i j : ℕ) (a : Addr) → get i s.dialers ≡ some a → get j s.dialers ≡ some a → i ≡ j
  pub marked : (i : ℕ) (a : Addr) → get i s.dialers ≡ some a → is_dialing a (marks s) ≡ true
  pub freed : (a : Addr) → is_dialing a (marks s) ≡ true → (i : ℕ) × (get i s.dialers ≡ some a)
