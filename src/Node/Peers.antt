-- ===== src/Node/Peers.antt =====
-- The connections to peers, of node/node.go: how they begin, and what the loss of one does. A dial is
-- between two steps, of which the second has its outcome. `host` stands for package net.
pub mod Dialing
pub mod Loss
use magic_tun.Base.{
  ℕ, Bool, true, false, not, ◌&&◌, Option, none, some, List, [], ◌∷◌, ◌++◌, map, ok, err, panic,
  ◌>>=◌, if◌then◌else◌, eqb, length, keep, bytes_eq, bytes_beq, nat_eq, get, put, delete,
}
use magic_tun.Identity.{NodeId, zero_id, is_zero}
use magic_tun.Wire.{msg_gossip_push}
use magic_tun.Wire.Codec.{Read}
use magic_tun.Wire.Sign.{Ed25519}
use magic_tun.Wire.Gossip.{PeerEntry, peer_alive, encode_gossip_push, decode_gossip_push}
use magic_tun.Route.Propagation.{advertise_direct_networks, withdraw_all_from_peer}
use magic_tun.Gossip.Peer.{Peer, get_peer, get_all, mark_dead}
use magic_tun.Gossip.Engine.{entry_of, add_direct_connection, remove_direct_connection}
use magic_tun.Forward.Session.{UdpAddr}
use magic_tun.Node.{
  Link, Node, Effect, control, reconnects, get_peer_conn, perform_gossip, perform_routing,
}
use magic_tun.Node.Dispatch.{with_routes, dispatch_control_msg}

-- net.SplitHostPort, net.JoinHostPort and net.ResolveUDPAddr
pub record Host : Type 0 where
  pub split_host_port : List ℕ → Option (List ℕ × List ℕ)
  pub join_host_port : List ℕ → List ℕ → List ℕ
  pub resolve_udp_addr : List ℕ → Option UdpAddr

-- tryMarkDialing
unfoldable pub is_dialing : List ℕ → List (List ℕ) → Bool
is_dialing addr [] = false
is_dialing addr (a ∷ dials) = if bytes_beq a addr then true else is_dialing addr dials

unfoldable pub try_mark_dialing : List ℕ → List (List ℕ) → Bool × List (List ℕ)
try_mark_dialing addr dials = if is_dialing addr dials then (false, dials) else (true, addr ∷ dials)

unfoldable pub unmark_dialing : List ℕ → List (List ℕ) → List (List ℕ)
unmark_dialing addr [] = []
unmark_dialing addr (a ∷ dials) =
    let rest = unmark_dialing addr dials in if bytes_beq a addr then rest else a ∷ rest

-- Conn.Close and Conn.IsClosed
abbrev pub close : Link → Node → Node
close link n = record n { closed = link.handle ∷ n.closed }

unfoldable pub has_handle : ℕ → List ℕ → Bool
has_handle h [] = false
has_handle h (k ∷ ks) = if eqb k h then true else has_handle h ks

abbrev pub is_closed : Link → Node → Bool
is_closed link n = has_handle link.handle n.closed

-- buildSelfGossipPush; the engine has the node's identifier, key and address from New.
abbrev pub build_self_gossip_push : Node → List ℕ
build_self_gossip_push n =
    let self : PeerEntry = record {
      id = n.engine.self_id;
      pub_key = n.engine.pub_key;
      state = peer_alive;
      version = 1;
      addr = n.engine.self_addr;
    } in
    encode_gossip_push (self ∷ map entry_of (get_all n.engine.peers))

-- The sender of a first message: the first entry of a gossip push
abbrev first_id : List PeerEntry → NodeId
first_id [] = zero_id
first_id (entry ∷ entries) = entry.id

abbrev pushed_id : List ℕ → NodeId
pushed_id bytes = elim (decode_gossip_push bytes) [
  | ok entries ↦ first_id entries
  | err e ↦ zero_id
  | panic ↦ zero_id
]

unfoldable pub identify : List ℕ → NodeId
identify [] = zero_id
identify (t ∷ bytes) = if eqb t msg_gossip_push then pushed_id (t ∷ bytes) else zero_id

-- A Write to the control stream whose error is ignored
abbrev pub greet : NodeId → Link → List ℕ → List Effect
greet id link msg = if link.conn.writes msg then control id msg ∷ [] else []

-- Whether a connection to the peer stands that is not closed
unfoldable pub is_connected : NodeId → Node → Bool
is_connected id n = elim (get_peer_conn id n) [ none ↦ false | some link ↦ not (is_closed link n) ]

module _ (host : Host) where
  -- udpPort, "9443" where the address has no port
  abbrev pub udp_port : Node → List ℕ
  udp_port n = elim (host.split_host_port n.engine.self_addr) [
    | none ↦ b'9' ∷ b'4' ∷ b'4' ∷ b'3' ∷ []
    | some (h, port) ↦ port
  ]

  abbrev put_udp_addr : NodeId → Node → Option UdpAddr → Node
  put_udp_addr id n none = n
  put_udp_addr id n (some addr) = record n { peer_udp_addrs = put id addr n.peer_udp_addrs }

  abbrev resolve_at : NodeId → Node → Option (List ℕ × List ℕ) → Node
  resolve_at id n none = n
  resolve_at id n (some (h, port)) =
      put_udp_addr id n (host.resolve_udp_addr (host.join_host_port h (udp_port n)))

  unfoldable pub register_peer_udp_addr : NodeId → List ℕ → Node → Node
  register_peer_udp_addr id addr n = resolve_at id n (host.split_host_port addr)

-- AddDirectConnection of the node's engine
abbrev pub add_to_engine : ℕ → NodeId → Link → Node → Node × List Effect
add_to_engine now id link n =
    let (engine, out) = add_direct_connection now id link.conn n.engine in
    (record n { engine = engine }, perform_gossip out)

abbrev pub put_peer_conn : NodeId → Link → Node → Node
put_peer_conn id link n = record n { peer_conns = put id link n.peer_conns }

module _ (c : Ed25519) (priv : c.PrivateKey) (host : Host) where
  -- The part of connectToPeer and of reconnectPeer from the entry of the connection to the first read
  unfoldable pub join_peer : ℕ → NodeId → List ℕ → Link → Node → Node × List Effect
  join_peer now id addr link n =
      let n1 = register_peer_udp_addr host id addr (put_peer_conn id link n) in
      let (n2, out) = add_to_engine now id link n1 in
      let (n3, out') = with_routes c priv n2 (advertise_direct_networks now n2.routes) in
      (n3, greet id link (build_self_gossip_push n1) ++ (out ++ out'))

  -- connectToPeer up to the dial, and whether it dials
  unfoldable pub begin_connect : NodeId → List ℕ → Node → Bool × Node
  begin_connect id addr n = elim (get_peer_conn id n) [
    | some link ↦ (false, n)
    | none ↦
        let (dials, marked) = try_mark_dialing addr n.reconnecting in
        (dials, record n { reconnecting = marked })
  ]

  abbrev pub connect_new : ℕ → NodeId → List ℕ → Link → Node → Node × List Effect
  connect_new now id addr link n = elim (get_peer_conn id n) [
    | some existing ↦ (close link n, [])
    | none ↦ join_peer now id addr link n
  ]

  -- connectToPeer from the outcome of the dial to the first read
  unfoldable pub finish_connect : ℕ → NodeId → List ℕ → Option Link → Node → Node × List Effect
  finish_connect now id addr dialed n =
      let n' : Node = record n { reconnecting = unmark_dialing addr n.reconnecting } in
      elim dialed [ none ↦ (n', reconnects id ∷ []) | some link ↦ connect_new now id addr link n' ]

  -- handleIncomingConn behind the identification, with the dispatch of the first message
  abbrev pub accept_peer : ℕ → NodeId → Link → List ℕ → Node → Read (Node × List Effect)
  accept_peer now id link bytes n =
      let n1 = register_peer_udp_addr host id link.conn.remote_addr (put_peer_conn id link n) in
      let (n2, out) = add_to_engine now id link n1 in
      dispatch_control_msg c priv now id bytes n2 >>= λ done. ok (done.0, out ++ done.1)

  -- handleIncomingConn, with what the first read gives, `none` for an error
  unfoldable pub handle_incoming_conn :
      ℕ → Link → Option (List ℕ) → Node → Read (Node × List Effect)
  handle_incoming_conn now link none n = ok (close link n, [])
  handle_incoming_conn now link (some bytes) n =
      let id = identify bytes in
      if is_zero id then ok (close link n, []) else accept_peer now id link bytes n

  -- handleControlMessages when a read fails
  unfoldable pub connection_lost : Bool → NodeId → Link → Node → Node × List Effect
  connection_lost auto_reconnect id link n =
      let n1 : Node = record n { peer_conns = delete id n.peer_conns } in
      let n2 = close link n1 in
      let engine = remove_direct_connection id n2.engine in
      let n3 : Node = record n2 { engine = record engine { peers = mark_dead id engine.peers } } in
      let (n4, out) = with_routes c priv n3 (withdraw_all_from_peer id n3.routes) in
      (n4, out ++ (if auto_reconnect then reconnects id ∷ [] else []))

  -- reconnectPeer up to its loop: the address that it dials
  abbrev begin_at : Option Peer → Node → Option (List ℕ) × Node
  begin_at none n = (none, n)
  begin_at (some p) n =
      let (dials, marked) = try_mark_dialing p.addr n.reconnecting in
      if eqb (length p.addr) 0
      then (none, n)
      else if dials
      then (some p.addr, record n { reconnecting = marked })
      else (none, n)

  unfoldable pub begin_reconnect : NodeId → Node → Option (List ℕ) × Node
  begin_reconnect id n = begin_at (get_peer id n.engine.peers) n

  -- A return of reconnectPeer behind its mark: the deferred unmarkDialing of the address that it marked
  abbrev pub end_reconnect : List ℕ → Node → Node
  end_reconnect marked n = record n { reconnecting = unmark_dialing marked n.reconnecting }

  -- The loop of reconnectPeer from a successful dial to the first read, or to the return; whether the
  -- connection is kept. `marked` is the address that it marked, `addr` the one that it dialed.
  unfoldable pub finish_reconnect :
      ℕ → NodeId → List ℕ → List ℕ → Link → Node → Bool × (Node × List Effect)
  finish_reconnect now id marked addr link n =
      if is_connected id n
      then (false, (end_reconnect marked (close link n), []))
      else (true, join_peer now id addr link n)

  -- bootstrapPeer from the remote's first message; none where it tries again
  abbrev pub bootstrap_with : ℕ → NodeId → List ℕ → Link → Node → Node × List Effect
  bootstrap_with now id addr link n =
      let (n1, out) = add_to_engine now id link (put_peer_conn id link n) in
      (register_peer_udp_addr host id addr n1, out)

  unfoldable pub finish_bootstrap : ℕ → List ℕ → Link → List ℕ → Node → Bool × (Node × List Effect)
  finish_bootstrap now addr link bytes n =
      let id = identify bytes in
      if is_zero id
      then (false, (close link n, []))
      else if is_connected id n
      then (true, (close link n, []))
      else (true, bootstrap_with now id addr link n)
