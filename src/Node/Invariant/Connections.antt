-- ===== src/Node/Invariant/Connections.antt =====
-- What the beginning and the loss of a connection leave of a well-formed node: connectToPeer,
-- handleIncomingConn, reconnectPeer, bootstrapPeer and handleControlMessages of node/node.go.
use magic_tun.Base.{
  ℕ, ◌≡◌, refl, inl, inr, Bool, none, some, Option, List, [], arith, eqb, length, Bool-cases,
  Option-cases, Result-cases, All, All-append, bytes_eq, get,
}
use magic_tun.Identity.{NodeId, is_zero}
use magic_tun.Wire.Sign.{Ed25519}
use magic_tun.Route.Propagation.{advertise_direct_networks}
use magic_tun.Gossip.Peer.{get_peer}
use magic_tun.Gossip.Peer.Invariant.{add_or_update-IsManager}
use magic_tun.Gossip.Engine.{direct_peer, add_direct_connection}
use magic_tun.Node.{Link, Node}
use magic_tun.Node.Dispatch.{dispatch_control_msg}
use magic_tun.Node.Peers.{
  Host, add_to_engine, put_peer_conn, register_peer_udp_addr, greet, join_peer, accept_peer, close,
  connect_new, begin_connect, finish_connect, handle_incoming_conn, connection_lost,
  begin_reconnect, end_reconnect, finish_reconnect, finish_bootstrap, identify, is_connected,
  try_mark_dialing, unmark_dialing, build_self_gossip_push,
}
use magic_tun.Node.Invariant.{
  IsNode, IsNoDelivery, IsKept, perform_gossip-IsNoDelivery, perform_routing-IsNoDelivery,
  advertise-IsTable, withdraw-IsTable, mark_dead-IsManager,
}
use magic_tun.Node.Invariant.Messages.{IfOk, dispatch_control_msg-IfOk}

-- The fields on which the invariant depends stay.
same-IsNode :
    (n m : Node)
    → m.engine ≡ n.engine
    → m.routes ≡ n.routes
    → m.relay ≡ n.relay
    → IsNode n
    → IsNode m
same-IsNode n m e r s h = record {
  peers = rw e h.peers;
  routes = rw r h.routes;
  sessions = rw s h.sessions;
}

register_peer_udp_addr-IsNode :
    (host : Host) (id : NodeId) (addr : List ℕ) (n : Node)
    → IsNode n
    → IsNode (register_peer_udp_addr host id addr n)
unfolding register_peer_udp_addr
register_peer_udp_addr-IsNode host id addr n h =
    same-IsNode n (register_peer_udp_addr host id addr n) (ground arith) (ground arith)
      (ground arith) h

add_to_engine-IsKept :
    (now : ℕ) (id : NodeId) (link : Link) (n : Node)
    → IsNode n
    → IsKept (add_to_engine now id link n)
unfolding add_direct_connection
add_to_engine-IsKept now id link n h = (
  record {
    peers = add_or_update-IsManager now (direct_peer id link.conn) n.engine.peers h.peers;
    routes = h.routes;
    sessions = h.sessions;
  },
  perform_gossip-IsNoDelivery _,
)

greet-IsNoDelivery :
    (id : NodeId) (link : Link) (msg : List ℕ) → All IsNoDelivery (greet id link msg)
greet-IsNoDelivery id link msg = elim (Bool-cases (link.conn.writes msg)) [
  | inl e ↦ rw e (tt, tt)
  | inr e ↦ rw e tt
]

put_peer_conn-IsNode :
    (id : NodeId) (link : Link) (n : Node) → IsNode n → IsNode (put_peer_conn id link n)
put_peer_conn-IsNode id link n h = same-IsNode n (put_peer_conn id link n) refl refl refl h

pub close-IsKept : (link : Link) (n : Node) → IsNode n → IsKept (close link n, [])
close-IsKept link n h = (same-IsNode n (close link n) refl refl refl h, tt)

marked-IsNode :
    (n : Node) (marks : List (List ℕ)) → IsNode n → IsNode (record n { reconnecting = marks })
marked-IsNode n marks h = same-IsNode n (record n { reconnecting = marks }) refl refl refl h

module _ (c : Ed25519) (priv : c.PrivateKey) (host : Host) where
  join_peer-IsKept :
      (now : ℕ) (id : NodeId) (addr : List ℕ) (link : Link) (n : Node)
      → IsNode n
      → IsKept (join_peer c priv host now id addr link n)
  unfolding join_peer
  join_peer-IsKept now id addr link n h =
      let n1 = register_peer_udp_addr host id addr (put_peer_conn id link n) in
      let h1 =
        register_peer_udp_addr-IsNode host id addr (put_peer_conn id link n)
          (put_peer_conn-IsNode id link n h) in
      let (h2, quiet) = add_to_engine-IsKept now id link n1 h1 in
      let n2 = (add_to_engine now id link n1).0 in
      let out = (advertise_direct_networks now n2.routes).1 in
      (
        record {
          peers = h2.peers;
          routes = advertise-IsTable now n2.routes.direct_networks n2.routes h2.routes;
          sessions = h2.sessions;
        },
        All-append IsNoDelivery _ _ (greet-IsNoDelivery id link (build_self_gossip_push n1))
            (All-append IsNoDelivery _ _ quiet (perform_routing-IsNoDelivery c priv n2 out)),
      )

  pub begin_connect-IsNode :
      (id : NodeId) (addr : List ℕ) (n : Node)
      → IsNode n
      → IsNode (begin_connect c priv host id addr n).1
  unfolding begin_connect
  begin_connect-IsNode id addr n h = elim (Option-cases (get id n.peer_conns)) [
    | inl e ↦ rw (e, begin_connect) (marked-IsNode n _ h)
    | inr (link, e) ↦ rw (e, begin_connect) h
  ]

  pub finish_connect-IsKept :
      (now : ℕ) (id : NodeId) (addr : List ℕ) (dialed : Option Link) (n : Node)
      → IsNode n
      → IsKept (finish_connect c priv host now id addr dialed n)
  unfolding finish_connect
  finish_connect-IsKept now id addr none n h = (marked-IsNode n _ h, (tt, tt))
  finish_connect-IsKept now id addr (some link) n h =
      let n' : Node = record n { reconnecting = unmark_dialing addr n.reconnecting } in
      let h' = marked-IsNode n (unmark_dialing addr n.reconnecting) h in
      elim (Option-cases (get id n.peer_conns)) [
        | inl e ↦ rw (e, connect_new) (join_peer-IsKept now id addr link n' h')
        | inr (other, e) ↦ rw (e, connect_new) (close-IsKept link n' h')
      ]

  pub handle_incoming_conn-IfOk :
      (now : ℕ) (link : Link) (first : Option (List ℕ)) (n : Node)
      → IsNode n
      → IfOk (handle_incoming_conn c priv host now link first n)
  unfolding handle_incoming_conn
  handle_incoming_conn-IfOk now link none n h = close-IsKept link n h
  handle_incoming_conn-IfOk now link (some bytes) n h =
      let id = identify bytes in
      let n1 = register_peer_udp_addr host id link.conn.remote_addr (put_peer_conn id link n) in
      let h1 =
        register_peer_udp_addr-IsNode host id link.conn.remote_addr (put_peer_conn id link n)
          (put_peer_conn-IsNode id link n h) in
      let (h2, quiet) = add_to_engine-IsKept now id link n1 h1 in
      let n2 = (add_to_engine now id link n1).0 in
      let got = dispatch_control_msg-IfOk c priv now id bytes n2 h2 in
      elim (Bool-cases (is_zero id)) [
        | inl e ↦ rw e (close-IsKept link n h)
        | inr e ↦ rw e (elim (Result-cases (dispatch_control_msg c priv now id bytes n2)) [
          | inl (done, q) ↦
              let (kept, calm) = rw q at got in
              rw (q, accept_peer) (kept, All-append IsNoDelivery _ _ quiet calm)
          | inr (inl (x, q)) ↦ rw (q, accept_peer) tt
          | inr (inr q) ↦ rw (q, accept_peer) tt
        ])
      ]

  pub connection_lost-IsKept :
      (auto : Bool) (id : NodeId) (link : Link) (n : Node)
      → IsNode n
      → IsKept (connection_lost c priv host auto id link n)
  unfolding connection_lost
  connection_lost-IsKept auto id link n h = (
    record {
      peers = mark_dead-IsManager id n.engine.peers h.peers;
      routes = withdraw-IsTable id n.routes h.routes;
      sessions = h.sessions;
    },
    All-append IsNoDelivery _ _ (perform_routing-IsNoDelivery c priv _ _)
        (elim (Bool-cases auto) [ inl e ↦ rw e (tt, tt) | inr e ↦ rw e tt ]),
  )

  pub begin_reconnect-IsNode :
      (id : NodeId) (n : Node) → IsNode n → IsNode (begin_reconnect c priv host id n).1
  unfolding begin_reconnect
  begin_reconnect-IsNode id n h = elim (Option-cases (get_peer id n.engine.peers)) [
    | inl e ↦ rw e h
    | inr (p, e) ↦ rw e (elim (Bool-cases (eqb (length p.addr) 0)) [
      | inl q ↦ rw q h
      | inr q ↦ rw q (elim (Bool-cases (try_mark_dialing p.addr n.reconnecting).0) [
        | inl d ↦ rw d (marked-IsNode n _ h)
        | inr d ↦ rw d h
      ])
    ])
  ]

  pub end_reconnect-IsNode :
      (marked : List ℕ) (n : Node) → IsNode n → IsNode (end_reconnect c priv host marked n)
  end_reconnect-IsNode marked n h = marked-IsNode n (unmark_dialing marked n.reconnecting) h

  pub finish_reconnect-IsKept :
      (now : ℕ) (id : NodeId) (marked addr : List ℕ) (link : Link) (n : Node)
      → IsNode n
      → IsKept (finish_reconnect c priv host now id marked addr link n).1
  unfolding finish_reconnect
  finish_reconnect-IsKept now id marked addr link n h = elim (Bool-cases (is_connected id n)) [
    | inl e ↦ rw e (end_reconnect-IsNode marked (close link n) (close-IsKept link n h).0, tt)
    | inr e ↦ rw e (join_peer-IsKept now id addr link n h)
  ]

  pub finish_bootstrap-IsKept :
      (now : ℕ) (addr : List ℕ) (link : Link) (bytes : List ℕ) (n : Node)
      → IsNode n
      → IsKept (finish_bootstrap c priv host now addr link bytes n).1
  unfolding finish_bootstrap
  finish_bootstrap-IsKept now addr link bytes n h =
      let id = identify bytes in
      let n1 = put_peer_conn id link n in
      let (h1, quiet) = add_to_engine-IsKept now id link n1 (put_peer_conn-IsNode id link n h) in
      elim (Bool-cases (is_zero id)) [
        | inl e ↦ rw e (close-IsKept link n h)
        | inr e ↦ rw e (elim (Bool-cases (is_connected id n)) [
          | inl q ↦ rw q (close-IsKept link n h)
          | inr q ↦ rw q (
            register_peer_udp_addr-IsNode host id addr (add_to_engine now id link n1).0 h1,
            quiet,
          )
        ])
      ]
