-- ===== src/Node/Invariant/Events.antt =====
-- All events of a node of node/node.go, in any order.
use magic_tun.Base.{
  ℕ, ◌≡◌, refl, inl, inr, none, some, Option, List, [], ◌∷◌, arith, ok, ◌>>=◌, ◌*◌, Bool-cases,
  Option-cases, Result-cases, All, All-append, All-put, bytes_eq, nat_eq, put,
}
use magic_tun.Net.Prefix.{IpNet}
use magic_tun.Identity.{NodeId}
use magic_tun.Wire.Sign.{Ed25519}
use magic_tun.Gossip.Peer.Invariant.{IsManager}
use magic_tun.Gossip.Engine.{Config, Engine}
use magic_tun.Route.Table.{RoutingTable}
use magic_tun.Route.Table.Invariant.{IsTable}
use magic_tun.Route.Table.History as History
use magic_tun.Forward.Session as Session
use magic_tun.Forward.Session.{UdpAddr, create}
use magic_tun.Forward.Session.Views as Views
use magic_tun.Forward.UdpRelay.{create_session}
use magic_tun.Forward.UdpRelay.Clients.{IsClientless, forward_to_peer-IsUndeliverable}
use magic_tun.Node.{Node, Effect}
use magic_tun.Node.Peers.{Host}
use magic_tun.Node.Datagrams.{
  find_by_addr, find_by_host, receive_by_host, receive_datagram, forward_datagram, collect_sessions,
  collect_routes,
}
use magic_tun.Node.Lifecycle.{
  Event, message, datagram, forwards, connecting, connected, accepted, lost, reconnecting,
  reconnected, bootstrapped, session_tick, route_tick, hung_up, gives_up, first_advertisement,
  advertise_tick, push_tick, probe_tick, probe_timeout, step, run, node_with, new_node,
  parse_networks,
}
use magic_tun.Node.Invariant.{
  advertise-IsTable, perform_gossip-IsNoDelivery, perform_routing-IsNoDelivery, IsNode,
  IsNoDelivery, IsKept, relay_incoming-IsKept, perform_relay-IsNoDelivery,
}
use magic_tun.Node.Invariant.Probes.{probe_random_peer-IsManager, probe_expired-IsManager}
use magic_tun.Node.Invariant.Messages.{IfOk, dispatch_control_msg-IfOk}
use magic_tun.Node.Invariant.Connections.{
  begin_connect-IsNode, finish_connect-IsKept, handle_incoming_conn-IfOk, connection_lost-IsKept,
  close-IsKept, end_reconnect-IsNode, begin_reconnect-IsNode, finish_reconnect-IsKept,
  finish_bootstrap-IsKept,
}

forward_datagram-IsKept :
    (now : ℕ) (next_hop : NodeId) (target : UdpAddr) (payload : List ℕ) (n : Node)
    → IsNode n
    → IsKept (forward_datagram now next_hop target payload n)
unfolding forward_datagram create Views.step
forward_datagram-IsKept now next_hop target payload n h =
    let st = n.relay.sessions in
    let (s, relay) = create_session now none (some target) next_hop n.relay in
    (
      record {
        peers = h.peers;
        routes = h.routes;
        sessions = record {
          valid =
              Views.step-IsSessionTable st (Views.Op.creates now none (some target) next_hop)
                h.sessions.valid;
          clientless = All-put IsClientless st.next_id s st.sessions refl h.sessions.clientless;
        };
      },
      perform_relay-IsNoDelivery n _ (forward_to_peer-IsUndeliverable relay next_hop s payload),
    )

drop_expired-All :
    (now ttl : ℕ) (m : List (ℕ × Session.UdpSession))
    → All IsClientless m
    → All IsClientless (Session.drop_expired now ttl m)
unfolding Session.drop_expired
drop_expired-All now ttl [] h = tt
drop_expired-All now ttl ((id, s) ∷ m) (h, hs) = elim (Bool-cases (Session.is_expired now ttl s)) [
  | inl e ↦ rw e (drop_expired-All now ttl m hs)
  | inr e ↦ rw e (h, drop_expired-All now ttl m hs)
]

collect_sessions-IsNode : (now : ℕ) (n : Node) → IsNode n → IsNode (collect_sessions now n)
unfolding collect_sessions Session.gc Views.step
collect_sessions-IsNode now n h =
    let st = n.relay.sessions in
    record {
      peers = h.peers;
      routes = h.routes;
      sessions = record {
        valid = Views.step-IsSessionTable st (Views.Op.collects now) h.sessions.valid;
        clientless = drop_expired-All now st.ttl st.sessions h.sessions.clientless;
      };
    }

collect_routes-IsNode :
    (now interval : ℕ) (n : Node) → IsNode n → IsNode (collect_routes now interval n).0
unfolding collect_routes History.step
collect_routes-IsNode now interval n h = record {
  peers = h.peers;
  routes = History.step-IsTable n.routes (History.Op.collects now (interval * 3)) h.routes;
  sessions = h.sessions;
}

receive_datagram-IsKept :
    (host : Host) (ip_string : List ℕ → List ℕ) (now : ℕ) (remote : UdpAddr) (bytes : List ℕ)
    (n : Node)
    → IsNode n
    → IsKept (receive_datagram host ip_string now remote bytes n)
unfolding receive_datagram
receive_datagram-IsKept host ip_string now remote bytes n h =
    elim (Option-cases (find_by_addr remote n.peer_udp_addrs)) [
      | inl e ↦
          rw (e, receive_datagram)
            (elim (Option-cases (find_by_host host (ip_string remote.ip) n.peer_conns)) [
              | inl q ↦ rw (q, receive_by_host) (h, tt)
              | inr (id, q) ↦
                  rw (q, receive_by_host)
                    (relay_incoming-IsKept now id bytes
                      (record n { peer_udp_addrs = put id remote n.peer_udp_addrs })
                      (record { peers = h.peers; routes = h.routes; sessions = h.sessions }))
            ])
      | inr (id, e) ↦ rw (e, receive_datagram) (relay_incoming-IsKept now id bytes n h)
    ]

with_table-IsNode :
    (n : Node) (routes : RoutingTable)
    → IsNode n
    → IsTable routes
    → IsNode (record n { routes = routes })
with_table-IsNode n routes h good = record { peers = h.peers; routes = good; sessions = h.sessions }

with_engine-IsNode :
    (n : Node) (engine : Engine)
    → IsNode n
    → IsManager engine.peers
    → IsNode (record n { engine = engine })
with_engine-IsNode n engine h good = record {
  peers = good;
  routes = h.routes;
  sessions = h.sessions;
}

module _ (c : Ed25519) (priv : c.PrivateKey) (host : Host) (ip_string : List ℕ → List ℕ) where
  -- Every event of a well-formed node, unless it panics, leaves a well-formed node, and delivers nothing
  -- to a SOCKS client. Well formed is a node if each of its peers and UDP sessions stands under its own
  -- key, once, and no peer under the node's own; if its routing table is well formed; and if none of its
  -- UDP sessions has a client's address.
  pub step-IsNode : (ev : Event) (n : Node) → IsNode n → IfOk (step c priv host ip_string ev n)
  unfolding step
  step-IsNode (message now from bytes) n h = dispatch_control_msg-IfOk c priv now from bytes n h
  step-IsNode (datagram now remote bytes) n h =
      receive_datagram-IsKept host ip_string now remote bytes n h
  step-IsNode (forwards now next_hop target payload) n h =
      forward_datagram-IsKept now next_hop target payload n h
  step-IsNode (connecting id addr) n h = (begin_connect-IsNode c priv host id addr n h, tt)
  step-IsNode (connected now id addr dialed) n h =
      finish_connect-IsKept c priv host now id addr dialed n h
  step-IsNode (accepted now link first) n h =
      handle_incoming_conn-IfOk c priv host now link first n h
  step-IsNode (lost auto id link) n h = connection_lost-IsKept c priv host auto id link n h
  step-IsNode (reconnecting id) n h = (begin_reconnect-IsNode c priv host id n h, tt)
  step-IsNode (hung_up link) n h = close-IsKept link n h
  step-IsNode (reconnected now id marked addr link) n h =
      finish_reconnect-IsKept c priv host now id marked addr link n h
  step-IsNode (gives_up marked) n h = (end_reconnect-IsNode c priv host marked n h, tt)
  step-IsNode (bootstrapped now addr link bytes) n h =
      finish_bootstrap-IsKept c priv host now addr link bytes n h
  step-IsNode (session_tick now) n h = (collect_sessions-IsNode now n h, tt)
  step-IsNode (route_tick now interval) n h = (collect_routes-IsNode now interval n h, tt)
  step-IsNode (first_advertisement now) n h = (
    with_table-IsNode n _ h (advertise-IsTable now n.routes.direct_networks n.routes h.routes),
    perform_routing-IsNoDelivery c priv n _,
  )
  step-IsNode (advertise_tick now) n h = (
    with_table-IsNode n _ h (advertise-IsTable now n.routes.direct_networks n.routes h.routes),
    perform_routing-IsNoDelivery c priv n _,
  )
  step-IsNode (push_tick s) n h = (h, perform_gossip-IsNoDelivery _)
  step-IsNode (probe_tick s) n h = (
    with_engine-IsNode n _ h (probe_random_peer-IsManager s n.engine h.peers),
    perform_gossip-IsNoDelivery _,
  )
  step-IsNode (probe_timeout now id) n h =
      (with_engine-IsNode n _ h (probe_expired-IsManager now id n.engine h.peers), tt)

  run-IsNode : (evs : List Event) (n : Node) → IsNode n → IfOk (run c priv host ip_string evs n)
  unfolding run
  run-IsNode [] n h = (h, tt)
  run-IsNode (ev ∷ evs) n h =
      let first = step-IsNode ev n h in
      elim (Result-cases (step c priv host ip_string ev n)) [
        | inl (done, e) ↦
            let (good, calm) = rw e at first in
            let rest = run-IsNode evs done.0 good in
            rw (e, ◌>>=◌)
              (elim (Result-cases (run c priv host ip_string evs done.0)) [
                | inl (last, q) ↦
                    let (good', calm') = rw q at rest in
                    rw (q, ◌>>=◌) (good', All-append IsNoDelivery _ _ calm calm')
                | inr (inl (x, q)) ↦ rw (q, ◌>>=◌) tt
                | inr (inr q) ↦ rw (q, ◌>>=◌) tt
              ])
        | inr (inl (x, e)) ↦ rw (e, ◌>>=◌) tt
        | inr (inr e) ↦ rw (e, ◌>>=◌) tt
      ]

  node_with-IsNode :
      (id : NodeId) (addr key : List ℕ) (config : Config) (ttl : ℕ) (nets : List IpNet)
      → IsNode (node_with c priv id addr key config ttl nets)
  node_with-IsNode id addr key config ttl nets = record {
    peers = record { known = tt; keys = tt };
    routes = record { buckets = tt; keys = tt };
    sessions = record { valid = record { own = tt; keys = tt }; clientless = tt };
  }

  new_node-IsNode :
      (parse_cidr : List ℕ → Option IpNet) (id : NodeId) (addr key : List ℕ) (config : Config)
      (ttl : ℕ) (networks : List (List ℕ)) (n : Node)
      → new_node c priv parse_cidr id addr key config ttl networks ≡ some n
      → IsNode n
  unfolding new_node
  new_node-IsNode parse_cidr id addr key config ttl networks n h =
      elim (Option-cases (parse_networks parse_cidr networks)) [
        | inl e ↦ cc (rw (e, new_node) at h)
        | inr (nets, e) ↦
            let same : node_with c priv id addr key config ttl nets ≡ n =
              ground (arith, rw (e, new_node) at h) in
            rw (← same) (node_with-IsNode id addr key config ttl nets)
      ]

  -- Whatever events (of the type `Event`) happen to a node after New, in whatever order, and whoever its
  -- peers are: up to a panic, it stays well formed, and never delivers a UDP datagram to one of its SOCKS
  -- clients. The sessions for the clients' datagrams are made without the clients' addresses, and those
  -- that peers' datagrams make have none; and what has none is not delivered.
  pub run-new_node :
      (parse_cidr : List ℕ → Option IpNet) (id : NodeId) (addr key : List ℕ) (config : Config)
      (ttl : ℕ) (networks : List (List ℕ)) (n : Node) (evs : List Event) (done : Node × List Effect)
      → new_node c priv parse_cidr id addr key config ttl networks ≡ some n
      → run c priv host ip_string evs n ≡ ok done
      → IsNode done.0 × All IsNoDelivery done.1
  run-new_node parse_cidr id addr key config ttl networks n evs done new e =
      let good = new_node-IsNode parse_cidr id addr key config ttl networks n new in
      rw e at (run-IsNode evs n good)
