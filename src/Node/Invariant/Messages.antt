-- ===== src/Node/Invariant/Messages.antt =====
-- What a control message leaves of a well-formed node: dispatchControlMsg of node/node.go.
use magic_tun.Base.{ℕ, inl, inr, List, [], ◌∷◌, ok, err, panic, eqb, Bool-cases, Result-cases}
use magic_tun.Identity.{NodeId}
use magic_tun.Wire.{msg_route_update, msg_udp_forward}
use magic_tun.Wire.Codec.{Read}
use magic_tun.Wire.Sign.{Ed25519}
use magic_tun.Route.Propagation.{handle_route_update}
use magic_tun.Route.Propagation.Receive.{handle_route_update-IsHandled}
use magic_tun.Gossip.Engine.{handle_message}
use magic_tun.Gossip.Engine.Knowledge.{handle_message-IsManager}
use magic_tun.Node.{Node, Effect, peers_func}
use magic_tun.Node.Dispatch.{
  update_routes, dispatch_rest, dispatch_verified, authentic, dispatch_control_msg,
}
use magic_tun.Node.Invariant.{
  IsNode, IsKept, perform_gossip-IsNoDelivery, perform_routing-IsNoDelivery, relay_incoming-IsKept,
}

-- What an operation returns, if it returns, is kept.
abbrev pub IfOk : Read (Node × List Effect) → Type 0
IfOk (ok done) = IsKept done
IfOk (err e) = Unit
IfOk panic = Unit

module _ (c : Ed25519) (priv : c.PrivateKey) where
  update_routes-IfOk :
      (now : ℕ) (from : NodeId) (bytes : List ℕ) (n : Node)
      → IsNode n
      → IfOk (update_routes c priv now from bytes n)
  update_routes-IfOk now from bytes n h =
      elim (Result-cases (handle_route_update now from bytes (peers_func n) n.routes)) [
        | inl (done, e) ↦
            rw (e, update_routes)
              (
                record {
                  peers = h.peers;
                  routes =
                      (handle_route_update-IsHandled now from bytes (peers_func n) n.routes done
                        h.routes e).0;
                  sessions = h.sessions;
                },
                perform_routing-IsNoDelivery c priv n done.1,
              )
        | inr (inl (x, e)) ↦ rw (e, update_routes) tt
        | inr (inr e) ↦ rw (e, update_routes) tt
      ]

  dispatch_rest-IfOk :
      (now : ℕ) (from : NodeId) (bytes : List ℕ) (n : Node)
      → IsNode n
      → IfOk (dispatch_rest c priv now from bytes n)
  dispatch_rest-IfOk now from [] n h = tt
  dispatch_rest-IfOk now from (t ∷ bytes) n h = elim (Bool-cases (eqb t msg_route_update)) [
    | inl e ↦ rw e (update_routes-IfOk now from (t ∷ bytes) n h)
    | inr e ↦ rw e (elim (Bool-cases (eqb t msg_udp_forward)) [
      | inl u ↦ rw u (relay_incoming-IsKept now from (t ∷ bytes) n h)
      | inr u ↦ rw u (h, tt)
    ])
  ]

  dispatch_verified-IfOk :
      (now : ℕ) (from : NodeId) (bytes : List ℕ) (n : Node)
      → IsNode n
      → IfOk (dispatch_verified c priv now from bytes n)
  unfolding dispatch_verified
  dispatch_verified-IfOk now from bytes n h =
      let (handled, (engine, out)) = handle_message now from bytes n.engine in
      let good : IsNode (record n { engine = engine }) = record {
        peers = (handle_message-IsManager now from bytes n.engine h.peers).0;
        routes = h.routes;
        sessions = h.sessions;
      } in
      elim (Bool-cases (handle_message now from bytes n.engine).0) [
        | inl e ↦ rw e (good, perform_gossip-IsNoDelivery out)
        | inr e ↦ rw e (dispatch_rest-IfOk now from bytes (record n { engine = engine }) good)
      ]

  pub dispatch_control_msg-IfOk :
      (now : ℕ) (from : NodeId) (bytes : List ℕ) (n : Node)
      → IsNode n
      → IfOk (dispatch_control_msg c priv now from bytes n)
  unfolding dispatch_control_msg
  dispatch_control_msg-IfOk now from [] n h = (h, tt)
  dispatch_control_msg-IfOk now from (t ∷ bytes) n h =
      elim (Result-cases (authentic c from (t ∷ bytes) n)) [
        | inl (content, e) ↦
            rw (e, dispatch_control_msg) (dispatch_verified-IfOk now from content n h)
        | inr (inl (x, e)) ↦ rw (e, dispatch_control_msg) (h, tt)
        | inr (inr e) ↦ rw (e, dispatch_control_msg) tt
      ]
