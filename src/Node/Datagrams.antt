-- ===== src/Node/Datagrams.antt =====
-- The node's UDP socket and its SOCKS clients' datagrams: udpReadLoop and the callbacks of the SOCKS
-- server, in wireCallbacks, of node/node.go; also the two loops of garbage collection.
use magic_tun.Base.{
  ℕ, ◌*◌, ◌&&◌, Option, none, some, List, [], ◌∷◌, if◌then◌else◌, eqb, length, bytes_eq, bytes_beq,
  put,
}
use magic_tun.Net.Ip.{equal_ip}
use magic_tun.Identity.{NodeId}
use magic_tun.Route.Table as Table
use magic_tun.Forward.Session as Session
use magic_tun.Forward.Session.{UdpAddr}
use magic_tun.Forward.UdpRelay.{create_session, forward_to_peer}
use magic_tun.Node.{Link, Node, Effect, perform_relay, relay_incoming}
use magic_tun.Gossip.Peer.{get_alive}
use magic_tun.Obs.{Stats, update}
use magic_tun.Node.Peers.{Host}

-- The first loop of udpReadLoop
unfoldable pub find_by_addr : UdpAddr → List (NodeId × UdpAddr) → Option NodeId
find_by_addr remote [] = none
find_by_addr remote ((id, addr) ∷ m) =
    if equal_ip addr.ip remote.ip && eqb addr.port remote.port
    then some id
    else find_by_addr remote m

abbrev host_of : Option (List ℕ × List ℕ) → List ℕ
host_of none = []
host_of (some (h, port)) = h

-- The second loop: a connection whose other end has the datagram's IP address
unfoldable pub find_by_host : Host → List ℕ → List (NodeId × Link) → Option NodeId
find_by_host host ip_text [] = none
find_by_host host ip_text ((id, link) ∷ m) =
    if bytes_beq (host_of (host.split_host_port link.conn.remote_addr)) ip_text
    then some id
    else find_by_host host ip_text m

-- A datagram that comes from no known address of a peer
abbrev pub receive_by_host :
    Host → (List ℕ → List ℕ) → ℕ → UdpAddr → List ℕ → Node → Node × List Effect
receive_by_host host ip_string now remote bytes n =
    elim (find_by_host host (ip_string remote.ip) n.peer_conns) [
      | none ↦ (n, [])
      | some id ↦
          relay_incoming now id bytes (record n { peer_udp_addrs = put id remote n.peer_udp_addrs })
    ]

-- One turn of udpReadLoop; `ip_string` is net.IP.String.
unfoldable pub receive_datagram :
    Host → (List ℕ → List ℕ) → ℕ → UdpAddr → List ℕ → Node → Node × List Effect
receive_datagram host ip_string now remote bytes n = elim (find_by_addr remote n.peer_udp_addrs) [
  | some id ↦ relay_incoming now id bytes n
  | none ↦ receive_by_host host ip_string now remote bytes n
]

-- The function of SetUDPForward: a new session for each datagram, without the client's address
unfoldable pub forward_datagram : ℕ → NodeId → UdpAddr → List ℕ → Node → Node × List Effect
forward_datagram now next_hop target payload n =
    let (s, relay) = create_session now none (some target) next_hop n.relay in
    (record n { relay = relay }, perform_relay n (forward_to_peer relay next_hop s payload))

-- One turn of sessionGCLoop
unfoldable pub collect_sessions : ℕ → Node → Node
collect_sessions now n = record n {
  relay = record n.relay { sessions = Session.gc now n.relay.sessions };
}

-- One turn of routeGCLoop, with the number that it logs
unfoldable pub collect_routes : ℕ → ℕ → Node → Node × ℕ
collect_routes now interval n =
    let (removed, routes) = Table.gc now (interval * 3) n.routes in
    (record n { routes = routes }, removed)

-- One turn of statsUpdateLoop
abbrev pub update_stats : Node → Stats → Stats
update_stats n s = update (length (get_alive n.engine.peers)) (Table.size n.routes) s
