-- ===== src/Node.antt =====
-- node/node.go: the node, which joins the components. `new_node` is the state that New leaves; the
-- functions of the callbacks that wireCallbacks sets are `perform_*`, from a component's
-- effects to the node's. The private key is what Sign signs with.
pub mod Dispatch
pub mod Peers
pub mod RateLimiter
pub mod Backoff
pub mod Datagrams
pub mod Lifecycle
pub mod Invariant
mod Examples
use magic_tun.Base.{
  ℕ, Bool, true, false, Option, none, some, List, [], ◌∷◌, ◌++◌, map, if◌then◌else◌, bytes_eq, get,
}
use magic_tun.Net.Prefix.{IpNet}
use magic_tun.Identity.{NodeId}
use magic_tun.Wire.Sign.{Ed25519, sign_message}
use magic_tun.Route.Table.{RoutingTable}
use magic_tun.Route.Propagation
use magic_tun.Gossip.Peer.{get_alive}
use magic_tun.Gossip.Engine.{Conn, Engine, broadcast}
use magic_tun.Gossip.Engine
use magic_tun.Forward.Session.{UdpAddr}
use magic_tun.Forward.UdpRelay.{UdpRelay, handle_incoming}
use magic_tun.Forward.UdpRelay

-- A *transport.Conn: the pointer, by a number, and what the node uses of the connection.
pub record Link : Type 0 where
  pub handle : ℕ
  pub conn : Conn

-- `closed` are the connections on which Close was called, or whose read loop has ended. `udp_listens` is
-- whether udpLn is set.
pub record Node : Type 0 where
  pub engine : Engine
  pub routes : RoutingTable
  pub relay : UdpRelay
  pub peer_conns : List (NodeId × Link)
  pub peer_udp_addrs : List (NodeId × UdpAddr)
  pub reconnecting : List (List ℕ)
  pub closed : List ℕ
  pub udp_listens : Bool

-- What a node does to the outside: a write to the control stream of a peer, the start of connectToPeer
-- and of reconnectPeer, a UDP datagram, and a datagram for a SOCKS client.
pub data Effect : Type 0 where
  control : NodeId → List ℕ → Effect
  connects : NodeId → List ℕ → Effect
  reconnects : NodeId → Effect
  datagram : UdpAddr → List ℕ → Effect
  delivers : ℕ → List ℕ → Effect

-- getPeerConn
abbrev pub get_peer_conn : NodeId → Node → Option Link
get_peer_conn id n = get id n.peer_conns

-- The gossip engine's writes, and its callback for new peers
abbrev pub perform_gossip : List Engine.Effect → List Effect
perform_gossip [] = []
perform_gossip (Engine.Effect.written id msg ∷ es) = control id msg ∷ perform_gossip es
perform_gossip (Engine.Effect.discovered p ∷ es) = connects p.id p.addr ∷ perform_gossip es

abbrev write_to_peer : Bool → List ℕ → Option UdpAddr → List Effect
write_to_peer listens payload none = []
write_to_peer listens payload (some addr) = if listens then datagram addr payload ∷ [] else []

-- The function of SetDeliverFunc: nothing is delivered for a session without a client's address.
abbrev deliver_to : Option UdpAddr → ℕ → List ℕ → List Effect
deliver_to none id payload = []
deliver_to (some client) id payload = delivers id payload ∷ []

-- The functions of SetSendFunc and SetDeliverFunc
unfoldable pub perform_relay : Node → List UdpRelay.Effect → List Effect
perform_relay n [] = []
perform_relay n (UdpRelay.Effect.sent id payload ∷ es) =
    write_to_peer n.udp_listens payload (get id n.peer_udp_addrs) ++ perform_relay n es
perform_relay n (UdpRelay.Effect.delivered s payload ∷ es) =
    deliver_to s.client_addr s.id payload ++ perform_relay n es

-- HandleIncoming of the node's UDP relay
unfoldable pub relay_incoming : ℕ → NodeId → List ℕ → Node → Node × List Effect
relay_incoming now from bytes n =
    let (relay, out) = handle_incoming now from bytes n.relay in
    (record n { relay = relay }, perform_relay n out)

-- The function of SetPeersFunc
abbrev pub peers_func : Node → Option (List NodeId)
peers_func n = some (map (λ p. p.id) (get_alive n.engine.peers))

module _ (c : Ed25519) (priv : c.PrivateKey) where
  -- sendControlMsg
  unfoldable pub send_control_msg : NodeId → List ℕ → Node → List Effect
  send_control_msg id msg n = elim (get_peer_conn id n) [
    | none ↦ []
    | some link ↦
        let signed = sign_message c msg priv in
        if link.conn.writes signed then control id signed ∷ [] else []
  ]

  -- The functions of SetSender and SetBroadcaster
  unfoldable pub perform_routing : Node → List Propagation.Effect → List Effect
  perform_routing n [] = []
  perform_routing n (Propagation.Effect.sent id msg ∷ es) =
      send_control_msg id msg n ++ perform_routing n es
  perform_routing n (Propagation.Effect.cast msg ∷ es) =
      perform_gossip (broadcast n.engine msg) ++ perform_routing n es
