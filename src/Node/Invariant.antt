-- ===== src/Node/Invariant.antt =====
-- What the events of a node keep, in node/node.go: the shared parts. Messages treats the control
-- messages, Connections the connections, and Events all together.
pub mod Messages
pub mod Connections
pub mod Probes
pub mod Events
use magic_tun.Base.{
  ℕ, ◌≡◌, refl, inl, inr, Bool, true, false, none, some, List, [], ◌∷◌, ◌++◌, Option, ok, err,
  panic, Result, ◌>>=◌, if◌then◌else◌, eqb, length, Bool-cases, Option-cases, Result-cases, All,
  All-append, bytes_eq, bytes_beq, get, put, All-put,
}
use magic_tun.Net.Prefix.{IpNet}
use magic_tun.Identity.{NodeId, is_zero}
use magic_tun.Wire.{msg_route_update, msg_udp_forward}
use magic_tun.Wire.Codec.{Read}
use magic_tun.Wire.Sign.{Ed25519, sign_message}
use magic_tun.Route.Table.{RoutingTable}
use magic_tun.Route.Table as Table
use magic_tun.Route.Table.Invariant.{IsTable, add_route-IsTable}
use magic_tun.Route.Table.History as History
use magic_tun.Route.Propagation.{
  own_route, advertise, advertise_direct_networks, withdraw_all_from_peer, handle_route_update,
}
use magic_tun.Route.Propagation
use magic_tun.Route.Propagation.Receive.{handle_route_update-IsHandled}
use magic_tun.Gossip.Peer.{PeerManager, add_or_update, mark_dead}
use magic_tun.Gossip.Peer.Invariant as Peers
use magic_tun.Gossip.Peer.Invariant.{IsManager, add_or_update-IsManager, step-IsManager, dies}
use magic_tun.Gossip.Engine.{Engine, handle_message, add_direct_connection}
use magic_tun.Gossip.Engine as Engine
use magic_tun.Gossip.Engine.Knowledge.{handle_message-IsManager}
use magic_tun.Forward.Session.{UdpAddr}
use magic_tun.Forward.UdpRelay
use magic_tun.Forward.UdpRelay.Clients.{IsIncoming, IsUndeliverable, handle_incoming-IsIncoming}
use magic_tun.Node.{
  Link, Node, Effect, control, connects, reconnects, datagram, delivers, perform_gossip,
  perform_relay, perform_routing, send_control_msg, write_to_peer, deliver_to, relay_incoming,
}

-- The peers, the routes and the sessions are well formed, and no session has a client's address.
pub record IsNode (n : Node) : Type 0 where
  pub peers : IsManager n.engine.peers
  pub routes : IsTable n.routes
  pub sessions : IsIncoming n.relay.sessions

-- An effect that is no delivery to a SOCKS client
abbrev pub IsNoDelivery : Effect → Type 0
IsNoDelivery (control id msg) = Unit
IsNoDelivery (connects id addr) = Unit
IsNoDelivery (reconnects id) = Unit
IsNoDelivery (datagram addr payload) = Unit
IsNoDelivery (delivers id payload) = ⊥

abbrev pub IsKept : Node × List Effect → Type 0
IsKept (n, out) = IsNode n × All IsNoDelivery out

pub perform_gossip-IsNoDelivery : (es : List Engine.Effect) → All IsNoDelivery (perform_gossip es)
perform_gossip-IsNoDelivery [] = tt
perform_gossip-IsNoDelivery (Engine.Effect.written id msg ∷ es) =
    (tt, perform_gossip-IsNoDelivery es)
perform_gossip-IsNoDelivery (Engine.Effect.discovered p ∷ es) = (tt, perform_gossip-IsNoDelivery es)

write_to_peer-IsNoDelivery :
    (listens : Bool) (payload : List ℕ) (addr : Option UdpAddr)
    → All IsNoDelivery (write_to_peer listens payload addr)
write_to_peer-IsNoDelivery listens payload none = tt
write_to_peer-IsNoDelivery true payload (some addr) = (tt, tt)
write_to_peer-IsNoDelivery false payload (some addr) = tt

pub perform_relay-IsNoDelivery :
    (n : Node) (es : List UdpRelay.Effect)
    → All IsUndeliverable es
    → All IsNoDelivery (perform_relay n es)
unfolding perform_relay
perform_relay-IsNoDelivery n [] h = tt
perform_relay-IsNoDelivery n (UdpRelay.Effect.sent id payload ∷ es) (h, hs) =
    All-append IsNoDelivery _ _
      (write_to_peer-IsNoDelivery n.udp_listens payload (get id n.peer_udp_addrs))
      (perform_relay-IsNoDelivery n es hs)
perform_relay-IsNoDelivery n (UdpRelay.Effect.delivered s payload ∷ es) (h, hs) =
    rw h (perform_relay-IsNoDelivery n es hs)

pub relay_incoming-IsKept :
    (now : ℕ) (from : NodeId) (bytes : List ℕ) (n : Node)
    → IsNode n
    → IsKept (relay_incoming now from bytes n)
unfolding relay_incoming
relay_incoming-IsKept now from bytes n h =
    let (good, silent) = handle_incoming-IsIncoming now from bytes n.relay h.sessions in
    (
      record { peers = h.peers; routes = h.routes; sessions = good },
      perform_relay-IsNoDelivery n _ silent,
    )

pub advertise-IsTable :
    (now : ℕ) (nets : List IpNet) (rt : RoutingTable)
    → IsTable rt
    → IsTable (advertise now nets rt).0
unfolding advertise
advertise-IsTable now [] rt h = h
advertise-IsTable now (nw ∷ nets) rt h =
    advertise-IsTable now nets _ (add_route-IsTable now (own_route rt.self_id nw) rt h)

pub withdraw-IsTable :
    (peer : NodeId) (rt : RoutingTable) → IsTable rt → IsTable (withdraw_all_from_peer peer rt).0
unfolding withdraw_all_from_peer History.step
withdraw-IsTable peer rt h = History.step-IsTable rt (History.Op.drops peer) h

pub mark_dead-IsManager :
    (id : NodeId) (pm : PeerManager) → IsManager pm → IsManager (mark_dead id pm)
unfolding Peers.step
mark_dead-IsManager id pm h = step-IsManager pm (dies id) h

module _ (c : Ed25519) (priv : c.PrivateKey) where
  send_control_msg-IsNoDelivery :
      (id : NodeId) (msg : List ℕ) (n : Node) → All IsNoDelivery (send_control_msg c priv id msg n)
  unfolding send_control_msg
  send_control_msg-IsNoDelivery id msg n = elim (Option-cases (get id n.peer_conns)) [
    | inl e ↦ rw (e, send_control_msg) tt
    | inr (link, e) ↦
        rw (e, send_control_msg)
          (elim (Bool-cases (link.conn.writes (sign_message c msg priv))) [
            | inl w ↦ rw w (tt, tt)
            | inr w ↦ rw w tt
          ])
  ]

  pub perform_routing-IsNoDelivery :
      (n : Node) (es : List Propagation.Effect) → All IsNoDelivery (perform_routing c priv n es)
  unfolding perform_routing
  perform_routing-IsNoDelivery n [] = tt
  perform_routing-IsNoDelivery n (Propagation.Effect.sent id msg ∷ es) =
      All-append IsNoDelivery _ _ (send_control_msg-IsNoDelivery id msg n)
        (perform_routing-IsNoDelivery n es)
  perform_routing-IsNoDelivery n (Propagation.Effect.cast msg ∷ es) =
      All-append IsNoDelivery _ _ (perform_gossip-IsNoDelivery _)
        (perform_routing-IsNoDelivery n es)
