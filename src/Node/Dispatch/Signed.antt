-- ===== src/Node/Dispatch/Signed.antt =====
-- The signatures of control messages: dispatchControlMsg of node/node.go with VerifyMessage of
-- wire/sign.go.
use magic_tun.Base.{
  ℕ, ◌-◌, ◌≤◌, ◌<◌, ◌≡◌, refl, sym, ap, ◌∙◌, ◌⊎◌, inl, inr, true, some, List, [], ◌∷◌, ◌++◌, arith,
  ok, err, panic, length, take, drop, length-append, length-drop, take-append-drop, Result-cases,
}
use magic_tun.Identity.{NodeId}
use magic_tun.Wire.Codec.{Error}
use magic_tun.Wire.Sign.{Ed25519, sign_message, verify_message, verify_message-sign_message}
use magic_tun.Gossip.Peer.{Peer, get_peer}
use magic_tun.Gossip.Engine.{handle_message}
use magic_tun.Wire.{msg_route_update}
use magic_tun.Wire.Route.{route_flag_update, encode_route_message}
use magic_tun.Wire.Route.RoundTrip.{IsRouteMessage}
use magic_tun.Route.Table.{Route}
use magic_tun.Route.Propagation.{message_of, encode_route_with_self}
use magic_tun.Route.Propagation.Receive.{taken_over, handle_route_update-encode_route_with_self}
use magic_tun.Node.{Node, peers_func}
use magic_tun.Node.Dispatch.{
  check_signature, authentic, dispatch_verified, dispatch_control_msg, update_routes, with_routes,
}

module _ (c : Ed25519) where
  -- The bytes are a message with a signature of it under the key.
  abbrev pub IsSignedBy : List ℕ → List ℕ → List ℕ → Type 0
  IsSignedBy key bytes msg =
      (sig : List ℕ) × (bytes ≡ msg ++ sig) × (length sig ≡ 64) × (c.verify key msg sig ≡ true)

  verify_message_inv :
      (bytes key msg : List ℕ) → verify_message c bytes key ≡ ok msg → IsSignedBy key bytes msg
  unfolding verify_message
  verify_message_inv bytes key msg h =
      let cut = length bytes - 64 in
      let long : 64 ≤ length bytes = ground (arith, h) in
      let good : c.verify key (take cut bytes) (drop cut bytes) ≡ true = ground (arith, h) in
      let same : take cut bytes ≡ msg = ground (arith, h) in
      rw (← same) (
        drop cut bytes,
        sym (take-append-drop cut bytes),
        omega (arith, length-drop cut bytes),
        good,
      )

  verify_message-ne-panic : (bytes key : List ℕ) → verify_message c bytes key ≡ panic → ⊥
  unfolding verify_message
  verify_message-ne-panic bytes key h = ground (arith, h)

  check_signature_known :
      (bytes key : List ℕ)
      → length key ≡ 32
      → check_signature c bytes key ≡ verify_message c bytes key
  check_signature_known bytes [] h = absurd (omega arith)
  check_signature_known bytes (k ∷ key) h = refl

  authentic_known :
      (from : NodeId) (bytes : List ℕ) (n : Node) (p : Peer)
      → get_peer from n.engine.peers ≡ some p
      → length p.pub_key ≡ 32
      → authentic c from bytes n ≡ verify_message c bytes p.pub_key
  unfolding authentic
  authentic_known from bytes n p known long =
      rw (known, authentic) (check_signature_known bytes p.pub_key long)

module _ (c : Ed25519) (priv : c.PrivateKey) where
  dispatch_ok :
      (now : ℕ) (from : NodeId) (bytes msg : List ℕ) (n : Node)
      → 0 < length bytes
      → authentic c from bytes n ≡ ok msg
      → dispatch_control_msg c priv now from bytes n ≡ dispatch_verified c priv now from msg n
  unfolding dispatch_control_msg
  dispatch_ok now from [] msg n some_bytes h = absurd (omega arith)
  dispatch_ok now from (t ∷ bytes) msg n some_bytes h = rw (h, dispatch_control_msg) refl

  dispatch_err :
      (now : ℕ) (from : NodeId) (bytes : List ℕ) (x : Error) (n : Node)
      → authentic c from bytes n ≡ err x
      → dispatch_control_msg c priv now from bytes n ≡ ok (n, [])
  unfolding dispatch_control_msg
  dispatch_err now from [] x n h = refl
  dispatch_err now from (t ∷ bytes) x n h = rw (h, dispatch_control_msg) refl

  -- A message that a peer has signed with the private key of the public key that is known of it is
  -- handled as what it says, without the signature.
  pub dispatch_control_msg-sign_message :
      (now : ℕ) (from : NodeId) (msg : List ℕ) (key : c.PrivateKey) (n : Node) (p : Peer)
      → get_peer from n.engine.peers ≡ some p
      → p.pub_key ≡ c.public key
      → length p.pub_key ≡ 32
      → dispatch_control_msg c priv now from (sign_message c msg key) n
        ≡ dispatch_verified c priv now from msg n
  unfolding sign_message
  dispatch_control_msg-sign_message now from msg key n p known own long =
      let signed = sign_message c msg key in
      let reads : verify_message c signed p.pub_key ≡ ok msg =
        rw own (verify_message-sign_message c msg key) in
      dispatch_ok now from signed msg n
        (omega (arith, length-append msg (c.sign key msg), c.length-sign key msg))
        (authentic_known c from signed n p known long ∙ reads)

  -- Whatever bytes dispatchControlMsg is given as a message of a peer whose key is known: either it drops
  -- them without any effect, or they end in 64 bytes that are a valid signature of the rest under that
  -- key, and then it handles the rest.
  pub dispatch_control_msg-IsSignedBy :
      (now : ℕ) (from : NodeId) (bytes : List ℕ) (n : Node) (p : Peer)
      → get_peer from n.engine.peers ≡ some p
      → length p.pub_key ≡ 32
      → (dispatch_control_msg c priv now from bytes n ≡ ok (n, []))
        ⊎ ((msg : List ℕ) × IsSignedBy c p.pub_key bytes msg
            × (dispatch_control_msg c priv now from bytes n
                ≡ dispatch_verified c priv now from msg n))
  dispatch_control_msg-IsSignedBy now from bytes n p known long =
      elim (Result-cases (verify_message c bytes p.pub_key)) [
        | inl (msg, e) ↦
            let (sig, split, size, good) = verify_message_inv c bytes p.pub_key msg e in
            inr (
              msg,
              (sig, split, size, good),
              dispatch_ok now from bytes msg n
                  (omega (arith, ap length split, length-append msg sig))
                  (authentic_known c from bytes n p known long ∙ e),
            )
        | inr (inl (x, e)) ↦
            inl (dispatch_err now from bytes x n (authentic_known c from bytes n p known long ∙ e))
        | inr (inr e) ↦ absurd (verify_message-ne-panic c bytes p.pub_key e)
      ]

  dispatch_empty :
      (now : ℕ) (from : NodeId) (n : Node) → dispatch_verified c priv now from [] n ≡ panic
  unfolding dispatch_verified handle_message
  dispatch_empty now from n = refl

  -- Any peer whose key is known can make the node panic: by the signature of the empty message, 64 bytes
  -- that verify and leave no byte of content to read a type from.
  pub dispatch_control_msg-panic :
      (now : ℕ) (from : NodeId) (key : c.PrivateKey) (n : Node) (p : Peer)
      → get_peer from n.engine.peers ≡ some p
      → p.pub_key ≡ c.public key
      → length p.pub_key ≡ 32
      → dispatch_control_msg c priv now from (c.sign key []) n ≡ panic
  unfolding sign_message
  dispatch_control_msg-panic now from key n p known own long =
      dispatch_control_msg-sign_message now from [] key n p known own long
      ∙ dispatch_empty now from n

  dispatch_route_update :
      (now : ℕ) (from : NodeId) (bytes : List ℕ) (n : Node)
      → dispatch_verified c priv now from (msg_route_update ∷ bytes) n
        ≡ update_routes c priv now from (msg_route_update ∷ bytes) n
  unfolding dispatch_verified handle_message
  dispatch_route_update now from bytes n = refl

  -- A node that receives its neighbour's signed advertisement of a route does with its routing table and
  -- its other neighbours what the routing protocol says (`taken_over`): it ignores a path with a loop or
  -- of 32 hops or more, and otherwise adds the route by way of that neighbour and, if that changed the
  -- table, sends it on, signed, to its live peers but that neighbour. The conditions are that the
  -- advertisement fits the format, and that the neighbour's key is known.
  pub dispatch_control_msg-encode_route_with_self :
      (now : ℕ) (via : NodeId) (r : Route) (key : c.PrivateKey) (n : Node) (p : Peer)
      → IsRouteMessage (message_of route_flag_update r (via ∷ r.as_path))
      → get_peer via n.engine.peers ≡ some p
      → p.pub_key ≡ c.public key
      → length p.pub_key ≡ 32
      → dispatch_control_msg c priv now via (sign_message c (encode_route_with_self via r) key) n
        ≡ ok (with_routes c priv n (taken_over now via r (peers_func n) n.routes))
  unfolding encode_route_message
  dispatch_control_msg-encode_route_with_self now via r key n p fits known own long =
      let bytes = encode_route_with_self via r in
      let got = handle_route_update-encode_route_with_self now via r (peers_func n) n.routes fits in
      dispatch_control_msg-sign_message now via bytes key n p known own long
      ∙ dispatch_route_update now via _ n
      ∙ rw (got, update_routes) refl
