-- ===== src/Node/Peers/Dialing/Exclusive.antt =====
-- connectToPeer and reconnectPeer of node/node.go on the set of addresses that are being dialed.
use magic_tun.Base.{
  ℕ, ◌≡◌, refl, inl, inr, true, false, none, some, Option, List, arith, Option-cases, bytes_eq,
  nat_eq, get,
}
use magic_tun.Identity.{NodeId}
use magic_tun.Wire.Sign.{Ed25519}
use magic_tun.Gossip.Peer.{get_peer}
use magic_tun.Node.{Link, Node, Effect}
use magic_tun.Node.Peers.{
  Host, is_dialing, try_mark_dialing, unmark_dialing, register_peer_udp_addr, put_peer_conn,
  join_peer, begin_connect, connect_new, finish_connect, begin_reconnect, finish_reconnect,
}
use magic_tun.Node.Peers.Dialing.{
  Addr, Dials, Step, connects, refrains, dialed, reconnects, desists, keeps, returns, gives_up,
  elsewhere, Reach, start, later, IsExclusive,
}
use magic_tun.Node.Peers.Dialing.Marks.{begins-IsExclusive, ends-IsExclusive, same-IsExclusive}

-- What each part of the two functions does to the set
module _ (c : Ed25519) (priv : c.PrivateKey) (host : Host) where
  reconnecting-register :
      (id : NodeId) (addr : List ℕ) (n : Node)
      → (register_peer_udp_addr host id addr n).reconnecting ≡ n.reconnecting
  unfolding register_peer_udp_addr
  reconnecting-register id addr n = ground arith

  reconnecting-join_peer :
      (now : ℕ) (id : NodeId) (addr : Addr) (link : Link) (n : Node)
      → (join_peer c priv host now id addr link n).0.reconnecting ≡ n.reconnecting
  unfolding join_peer
  reconnecting-join_peer now id addr link n =
      reconnecting-register id addr (put_peer_conn id link n)

  begin_connect-dials :
      (id : NodeId) (a : Addr) (n n' : Node)
      → begin_connect c priv host id a n ≡ (true, n')
      → try_mark_dialing a n.reconnecting ≡ (true, n'.reconnecting)
  unfolding begin_connect
  begin_connect-dials id a n n' e = elim (Option-cases (get id n.peer_conns)) [
    | inl q ↦ ground (arith, rw (q, begin_connect) at e)
    | inr (link, q) ↦ cc (rw (q, begin_connect) at e)
  ]

  begin_connect-refrains :
      (id : NodeId) (a : Addr) (n n' : Node)
      → begin_connect c priv host id a n ≡ (false, n')
      → n'.reconnecting ≡ n.reconnecting
  unfolding begin_connect try_mark_dialing
  begin_connect-refrains id a n n' e = elim (Option-cases (get id n.peer_conns)) [
    | inl q ↦ ground (arith, rw (q, begin_connect) at e)
    | inr (link, q) ↦ ground (arith, rw (q, begin_connect) at e)
  ]

  finish_connect-unmarks :
      (now : ℕ) (id : NodeId) (a : Addr) (link : Option Link) (n : Node)
      → (finish_connect c priv host now id a link n).0.reconnecting
        ≡ unmark_dialing a n.reconnecting
  unfolding finish_connect
  finish_connect-unmarks now id a none n = refl
  finish_connect-unmarks now id a (some link) n = elim (Option-cases (get id n.peer_conns)) [
    | inl q ↦ rw (q, connect_new) (reconnecting-join_peer now id a link _)
    | inr (other, q) ↦ rw (q, connect_new) refl
  ]

  begin_reconnect-dials :
      (id : NodeId) (a : Addr) (n n' : Node)
      → begin_reconnect c priv host id n ≡ (some a, n')
      → try_mark_dialing a n.reconnecting ≡ (true, n'.reconnecting)
  unfolding begin_reconnect
  begin_reconnect-dials id a n n' e = elim (Option-cases (get_peer id n.engine.peers)) [
    | inl q ↦ cc (rw q at e)
    | inr (p, q) ↦ ground (arith, rw q at e)
  ]

  begin_reconnect-desists :
      (id : NodeId) (n n' : Node)
      → begin_reconnect c priv host id n ≡ (none, n')
      → n'.reconnecting ≡ n.reconnecting
  unfolding begin_reconnect
  begin_reconnect-desists id n n' e = elim (Option-cases (get_peer id n.engine.peers)) [
    | inl q ↦ ground (arith, rw q at e)
    | inr (p, q) ↦ ground (arith, rw q at e)
  ]

  finish_reconnect-keeps :
      (now : ℕ) (id : NodeId) (a addr : Addr) (link : Link) (n n' : Node) (out : List Effect)
      → finish_reconnect c priv host now id a addr link n ≡ (true, (n', out))
      → n'.reconnecting ≡ n.reconnecting
  unfolding finish_reconnect
  finish_reconnect-keeps now id a addr link n n' out e =
      let joined = reconnecting-join_peer now id addr link n in ground (arith, e, joined)

  finish_reconnect-returns :
      (now : ℕ) (id : NodeId) (a addr : Addr) (link : Link) (n n' : Node) (out : List Effect)
      → finish_reconnect c priv host now id a addr link n ≡ (false, (n', out))
      → n'.reconnecting ≡ unmark_dialing a n.reconnecting
  unfolding finish_reconnect
  finish_reconnect-returns now id a addr link n n' out e = ground (arith, e)

  Step-IsExclusive : {s t : Dials} → Step c priv host s t → IsExclusive s → IsExclusive t
  Step-IsExclusive {s = s} (connects i id a {n = n} idle e) v =
      begins-IsExclusive s i a n idle (begin_connect-dials id a s.node n e) v
  Step-IsExclusive {s = s} (refrains id a {n = n} e) v =
      same-IsExclusive s n (begin_connect-refrains id a s.node n e) v
  Step-IsExclusive {s = s} (dialed i now id a link held) v =
      ends-IsExclusive s i a _ held (finish_connect-unmarks now id a link s.node) v
  Step-IsExclusive {s = s} (reconnects i id a {n = n} idle e) v =
      begins-IsExclusive s i a n idle (begin_reconnect-dials id a s.node n e) v
  Step-IsExclusive {s = s} (desists id {n = n} e) v =
      same-IsExclusive s n (begin_reconnect-desists id s.node n e) v
  Step-IsExclusive {s = s} (keeps i now id a addr link {n = n} {out = out} held e) v =
      same-IsExclusive s n (finish_reconnect-keeps now id a addr link s.node n out e) v
  Step-IsExclusive {s = s} (returns i now id a addr link {n = n} {out = out} held e) v =
      ends-IsExclusive s i a n held (finish_reconnect-returns now id a addr link s.node n out e) v
  Step-IsExclusive {s = s} (gives_up i a held) v = ends-IsExclusive s i a _ held refl v
  Step-IsExclusive {s = s} (elsewhere {n = n} same) v = same-IsExclusive s n same v

  -- However connectToPeer and reconnectPeer interleave, with each other and with all that does not touch
  -- the set: no two goroutines have marked the same address, every address that one has marked and not
  -- yet unmarked is in the set, and no other address is. A goroutine of reconnectPeer keeps its mark while
  -- its connection stands.
  pub Reach-IsExclusive : {s : Dials} → Reach c priv host s → IsExclusive s
  unfolding is_dialing get
  Reach-IsExclusive (start n empty) = record {
    alone = λ i j a p q. cc;
    marked = λ i a p. cc;
    freed = λ a h. cc (rw empty at h);
  }
  Reach-IsExclusive (later r st) = Step-IsExclusive st (Reach-IsExclusive r)
