-- ===== src/Node/Lifecycle.antt =====
-- A node from New and Start of node/node.go on, as a state that its events change. Each event is the
-- part of a goroutine between two waits. What changes nothing of this state is no event: the relay of
-- streams, SOCKS connections, the log, and bootstrapPeer before the remote's first message. Stop is none
-- either.
use magic_tun.Base.{ℕ, Bool, true, Option, none, some, List, [], ◌∷◌, ◌++◌, ok, ◌>>=◌}
use magic_tun.Net.Prefix.{IpNet}
use magic_tun.Identity.{NodeId}
use magic_tun.Wire.Codec.{Read}
use magic_tun.Wire.Sign.{Ed25519, sign_message}
use magic_tun.Route.Table.{new_routing_table, set_direct_networks}
use magic_tun.Gossip.Engine.{Config, new_engine, push_to_random, probe_random_peer, probe_expired}
use magic_tun.Route.Propagation.{advertise_direct_networks, advertise_turn}
use magic_tun.Forward.Session.{UdpAddr, new_session_table}
use magic_tun.Node.{Link, Node, Effect, perform_gossip}
use magic_tun.Node.Dispatch.{with_routes, dispatch_control_msg}
use magic_tun.Node.Peers.{
  Host, begin_connect, finish_connect, handle_incoming_conn, connection_lost, begin_reconnect,
  close, end_reconnect, finish_reconnect, finish_bootstrap,
}
use magic_tun.Node.Datagrams.{receive_datagram, forward_datagram, collect_sessions, collect_routes}

-- The loop over DirectNetworks in New; `parse_cidr` is net.ParseCIDR.
unfoldable pub parse_networks : (List ℕ → Option IpNet) → List (List ℕ) → Option (List IpNet)
parse_networks parse_cidr [] = some []
parse_networks parse_cidr (text ∷ texts) = elim (parse_cidr text) [
  | none ↦ none
  | some nw ↦ elim (parse_networks parse_cidr texts) [ none ↦ none | some nets ↦ some (nw ∷ nets) ]
]

-- Something that happens to a node.
pub data Event : Type 0 where
  -- A control message of a peer is read.
  message : ℕ → NodeId → List ℕ → Event
  -- A UDP datagram is read.
  datagram : ℕ → UdpAddr → List ℕ → Event
  -- A SOCKS client's datagram goes to a next hop.
  forwards : ℕ → NodeId → UdpAddr → List ℕ → Event
  -- connectToPeer begins; its dial has an outcome.
  connecting : NodeId → List ℕ → Event
  connected : ℕ → NodeId → List ℕ → Option Link → Event
  -- The first read of an accepted connection has an outcome.
  accepted : ℕ → Link → Option (List ℕ) → Event
  -- The read from a peer fails.
  lost : Bool → NodeId → Link → Event
  -- The read loop of a connection ends.
  hung_up : Link → Event
  -- reconnectPeer begins; a dial of it succeeds; it returns without a new connection. With the address
  -- that it marked, where it has done so
  reconnecting : NodeId → Event
  reconnected : ℕ → NodeId → List ℕ → List ℕ → Link → Event
  gives_up : List ℕ → Event
  -- bootstrapPeer has read the remote's first message.
  bootstrapped : ℕ → List ℕ → Link → List ℕ → Event
  -- The tickers of garbage collection, with the advertisement interval
  session_tick : ℕ → Event
  route_tick : ℕ → ℕ → Event
  -- The first advertisement of advertiseLoop, and its ticker
  first_advertisement advertise_tick : ℕ → Event
  -- The tickers of the gossip engine, with the state of fastRand, and the timer of a probe
  push_tick probe_tick : ℕ → Event
  probe_timeout : ℕ → NodeId → Event

-- One turn of each loop of the gossip engine, and the end of a probe
abbrev pub push_turn : ℕ → Node → Node × List Effect
push_turn s n = (n, perform_gossip (push_to_random s n.engine).0)

abbrev pub probe_turn : ℕ → Node → Node × List Effect
probe_turn s n =
    let ((waits, (engine, out)), s') = probe_random_peer s n.engine in
    (record n { engine = engine }, perform_gossip out)

abbrev pub end_probe : ℕ → NodeId → Node → Node
end_probe now id n = record n { engine = probe_expired now id n.engine }

module _ (c : Ed25519) (priv : c.PrivateKey) (host : Host) (ip_string : List ℕ → List ℕ) where
  unfoldable pub step : Event → Node → Read (Node × List Effect)
  step (message now from bytes) n = dispatch_control_msg c priv now from bytes n
  step (datagram now remote bytes) n = ok (receive_datagram host ip_string now remote bytes n)
  step (forwards now next_hop target payload) n =
      ok (forward_datagram now next_hop target payload n)
  step (connecting id addr) n = ok ((begin_connect c priv host id addr n).1, [])
  step (connected now id addr dialed) n = ok (finish_connect c priv host now id addr dialed n)
  step (accepted now link first) n = handle_incoming_conn c priv host now link first n
  step (lost auto id link) n = ok (connection_lost c priv host auto id link n)
  step (reconnecting id) n = ok ((begin_reconnect c priv host id n).1, [])
  step (hung_up link) n = ok (close link n, [])
  step (reconnected now id marked addr link) n =
      ok (finish_reconnect c priv host now id marked addr link n).1
  step (gives_up marked) n = ok (end_reconnect c priv host marked n, [])
  step (bootstrapped now addr link bytes) n =
      ok (finish_bootstrap c priv host now addr link bytes n).1
  step (session_tick now) n = ok (collect_sessions now n, [])
  step (route_tick now interval) n = ok ((collect_routes now interval n).0, [])
  step (first_advertisement now) n =
      ok (with_routes c priv n (advertise_direct_networks now n.routes))
  step (advertise_tick now) n = ok (with_routes c priv n (advertise_turn now n.routes))
  step (push_tick s) n = ok (push_turn s n)
  step (probe_tick s) n = ok (probe_turn s n)
  step (probe_timeout now id) n = ok (end_probe now id n, [])

  -- A history; a panic ends it, and the effects come in their order.
  unfoldable pub run : List Event → Node → Read (Node × List Effect)
  run [] n = ok (n, [])
  run (ev ∷ evs) n = do done ← step ev n; rest ← run evs done.0; ok (rest.0, done.1 ++ rest.1)

-- New, with the loaded identity, and the UDP socket that Start opens. The signing function is that of
-- wireCallbacks.
module _ (c : Ed25519) (priv : c.PrivateKey) where
  abbrev pub node_with : NodeId → List ℕ → List ℕ → Config → ℕ → List IpNet → Node
  node_with id listen_addr pub_key config session_ttl nets = record {
    engine = record (new_engine id listen_addr pub_key config) {
      sign_func = some (λ msg. sign_message c msg priv);
    };
    routes = set_direct_networks (new_routing_table id) nets;
    relay = record {
      sessions = new_session_table session_ttl;
      has_send = true;
      has_deliver = true;
    };
    peer_conns = [];
    peer_udp_addrs = [];
    reconnecting = [];
    closed = [];
    udp_listens = true;
  }

  unfoldable pub new_node :
      (List ℕ → Option IpNet) → NodeId → List ℕ → List ℕ → Config → ℕ → List (List ℕ) → Option Node
  new_node parse_cidr id listen_addr pub_key config session_ttl networks =
      elim (parse_networks parse_cidr networks) [
        | none ↦ none
        | some nets ↦ some (node_with id listen_addr pub_key config session_ttl nets)
      ]
