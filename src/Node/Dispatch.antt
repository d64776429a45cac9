-- ===== src/Node/Dispatch.antt =====
-- What a node does with a message of a peer's control stream: dispatchControlMsg of node/node.go.
pub mod Signed
use magic_tun.Base.{
  ℕ, Bool, true, false, Option, none, some, List, [], ◌∷◌, ok, err, panic, ◌>>=◌, if◌then◌else◌,
  eqb,
}
use magic_tun.Identity.{NodeId}
use magic_tun.Wire.{msg_route_update, msg_udp_forward}
use magic_tun.Wire.Codec.{Read}
use magic_tun.Wire.Sign.{Ed25519, verify_message}
use magic_tun.Route.Propagation.{handle_route_update}
use magic_tun.Route.Table.{RoutingTable}
use magic_tun.Route.Propagation
use magic_tun.Gossip.Peer.{get_peer}
use magic_tun.Gossip.Engine.{handle_message}
use magic_tun.Node.{Node, Effect, perform_gossip, relay_incoming, perform_routing, peers_func}

module _ (c : Ed25519) where
  -- `if len(peer.PubKey) > 0 { wire.VerifyMessage(data, peer.PubKey) }`
  abbrev pub check_signature : List ℕ → List ℕ → Read (List ℕ)
  check_signature bytes [] = ok bytes
  check_signature bytes (k ∷ key) = verify_message c bytes (k ∷ key)

  -- The content of a message, as far as the sender's key is known.
  unfoldable pub authentic : NodeId → List ℕ → Node → Read (List ℕ)
  authentic from bytes n = elim (get_peer from n.engine.peers) [
    | none ↦ ok bytes
    | some p ↦ check_signature bytes p.pub_key
  ]

module _ (c : Ed25519) (priv : c.PrivateKey) where
  abbrev pub with_routes : Node → RoutingTable × List Propagation.Effect → Node × List Effect
  with_routes n (routes, out) = (record n { routes = routes }, perform_routing c priv n out)

  -- The case of a route update
  abbrev pub update_routes : ℕ → NodeId → List ℕ → Node → Read (Node × List Effect)
  update_routes now from bytes n =
      handle_route_update now from bytes (peers_func n) n.routes >>= λ done. ok (with_routes n done)

  -- The switch on the type of a message that the gossip engine leaves. An empty one has no type.
  abbrev pub dispatch_rest : ℕ → NodeId → List ℕ → Node → Read (Node × List Effect)
  dispatch_rest now from [] n = panic
  dispatch_rest now from (t ∷ bytes) n =
      if eqb t msg_route_update
      then update_routes now from (t ∷ bytes) n
      else if eqb t msg_udp_forward
      then ok (relay_incoming now from (t ∷ bytes) n)
      else ok (n, [])

  -- dispatchControlMsg behind the verification
  unfoldable pub dispatch_verified : ℕ → NodeId → List ℕ → Node → Read (Node × List Effect)
  dispatch_verified now from bytes n =
      let (handled, (engine, out)) = handle_message now from bytes n.engine in
      let n' : Node = record n { engine = engine } in
      if handled then ok (n', perform_gossip out) else dispatch_rest now from bytes n'

  -- dispatchControlMsg
  unfoldable pub dispatch_control_msg : ℕ → NodeId → List ℕ → Node → Read (Node × List Effect)
  dispatch_control_msg now from [] n = ok (n, [])
  dispatch_control_msg now from (t ∷ bytes) n = elim (authentic c from (t ∷ bytes) n) [
    | ok content ↦ dispatch_verified now from content n
    | err e ↦ ok (n, [])
    | panic ↦ panic
  ]
