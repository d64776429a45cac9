-- ===== src/Node/Peers/Loss.antt =====
-- What the loss of a connection does, and what a connection that is made again does not undo:
-- handleControlMessages and reconnectPeer of node/node.go.
use magic_tun.Base.{
  ℕ, ◌+◌, ◌^◌, ◌<◌, ◌≡◌, refl, ◌∙◌, inl, inr, Bool, true, false, not, none, some, List, [], ◌∷◌,
  map, arith, if◌then◌else◌, length, All, Bool-cases, bytes_eq, bytes_beq_iff, bytes_beq_refl, ◌==◌,
  ◌++◌, eqb, ap, get, put, get-delete, keep,
}
use mathlib.Core.Option
use magic_tun.Identity.{NodeId, equal}
use magic_tun.Wire.Sign.{Ed25519}
use magic_tun.Wire.Gossip.{PeerEntry}
use magic_tun.Wire.Gossip.RoundTrip.{IsPeerEntry, decode_gossip_push-encode_gossip_push}
use magic_tun.Route.Table.{Route, get_all_routes}
use magic_tun.Route.Propagation.{encode_withdrawal}
use magic_tun.Route.Propagation
use magic_tun.Route.Propagation.Withdraw.{involves, withdraw_all_from_peer_lem}
use magic_tun.Gossip.Peer.{values, Peer, PeerManager, add_or_update, get_peer}
use magic_tun.Gossip.Peer.Views.{died, get_peer-add_or_update, get_peer_marks}
use magic_tun.Gossip.Peer.Invariant.{IsKnown, IsManager}
use magic_tun.Gossip.Engine.{
  Engine, entry_of, direct_peer, peer_of, handle_entry, handle_push, push_entries, broadcast,
  build_gossip_push, handle_message, add_direct_connection,
}
use magic_tun.Gossip.Engine.Knowledge.{handle_message_push}
use magic_tun.Node.{Link, Node, Effect, reconnects, get_peer_conn, perform_gossip, perform_routing}
use magic_tun.Node.Peers.{has_handle, Host, register_peer_udp_addr, join_peer, connection_lost}

-- The withdrawals of routes, each signed and written to every connection of the engine.
abbrev pub announced : Engine → List Route → List Effect
announced e [] = []
announced e (r ∷ rs) = perform_gossip (broadcast e (encode_withdrawal r)) ++ announced e rs

-- What the node has of a peer: its connection, its record, and the routes.
module _ (c : Ed25519) (priv : c.PrivateKey) (host : Host) where
  perform_routing-cast :
      (n : Node) (rs : List Route)
      → perform_routing c priv n (map (λ r. Propagation.Effect.cast (encode_withdrawal r)) rs)
        ≡ announced n.engine rs
  unfolding perform_routing
  perform_routing-cast n [] = refl
  perform_routing-cast n (r ∷ rs) =
      ap (λ (es : List Effect). perform_gossip (broadcast n.engine (encode_withdrawal r)) ++ es)
        (perform_routing-cast n rs)

  -- When the read from a peer fails, neither the node nor its gossip engine has a connection to that
  -- peer any more, whichever one it had, and the one that failed is closed; the node knows the peer as
  -- dead, under the next version, and of its routes it keeps exactly those that neither go through the
  -- peer nor come from it. Its other connections and peers stay. For each of the routes that go, in
  -- their order, one withdrawal is written to the connections that are left, and then, if the connection
  -- is one that is to be made again, that begins; nothing else is sent.
  pub connection_lost_lem :
      (auto : Bool) (id j : NodeId) (link : Link) (h : ℕ) (n : Node)
      → (get_peer_conn j (connection_lost c priv host auto id link n).0
          ≡ (if id == j then none else get_peer_conn j n))
        × (get j (connection_lost c priv host auto id link n).0.engine.conns
            ≡ (if id == j then none else get j n.engine.conns))
        × (has_handle h (connection_lost c priv host auto id link n).0.closed
            ≡ (if eqb link.handle h then true else has_handle h n.closed))
        × (get_peer j (connection_lost c priv host auto id link n).0.engine.peers ≡ (
            if id == j
            then Option.map died (get_peer id n.engine.peers)
            else get_peer j n.engine.peers))
        × (get_all_routes (connection_lost c priv host auto id link n).0.routes
            ≡ keep (λ r. not (involves id r)) (get_all_routes n.routes))
        × ((connection_lost c priv host auto id link n).1
            ≡ announced
                (connection_lost c priv host auto id link n).0.engine
                (keep (involves id) (get_all_routes n.routes))
              ++ (if auto then reconnects id ∷ [] else []))
  unfolding connection_lost has_handle
  connection_lost_lem auto id j link h n =
      let (kept, sent) = withdraw_all_from_peer_lem id n.routes in
      (
        get-delete id j n.peer_conns,
        get-delete id j n.engine.conns,
        refl,
        (get_peer_marks 0 id j n.engine.peers).1,
        kept,
        rw sent (
            ap (λ (es : List Effect). es ++ (if auto then reconnects id ∷ [] else []))
              (perform_routing-cast _ (keep (involves id) (get_all_routes n.routes)))),
      )

  known-connection_lost :
      (auto : Bool) (id : NodeId) (link : Link) (n : Node)
      → get_peer id (connection_lost c priv host auto id link n).0.engine.peers
        ≡ Option.map died (get_peer id n.engine.peers)
  known-connection_lost auto id link n =
      let (own, conns, closed, known, rest, sent) = connection_lost_lem auto id id link 0 n in
      known ∙ rw (bytes_beq_refl id) refl

  engine-register_peer_udp_addr :
      (id : NodeId) (addr : List ℕ) (n : Node)
      → (register_peer_udp_addr host id addr n).engine ≡ n.engine
  unfolding register_peer_udp_addr
  engine-register_peer_udp_addr id addr n = ground arith

  -- A connection that is made adds the peer as AddDirectConnection does.
  peers-join_peer :
      (now : ℕ) (id : NodeId) (addr : List ℕ) (link : Link) (n : Node)
      → (join_peer c priv host now id addr link n).0.engine.peers
        ≡ (add_or_update now (direct_peer id link.conn) n.engine.peers).1
  unfolding join_peer add_direct_connection
  peers-join_peer now id addr link n =
      rw
        (engine-register_peer_udp_addr id addr (record n { peer_conns = put id link n.peer_conns }))
        refl

-- An entry of a push that tells nothing new of the peer `j`, known as `q`.
abbrev IsStale : NodeId → Peer → PeerEntry → Type 0
IsStale j q entry = equal entry.id j ≡ true → entry.version < q.version

get_peer-add_or_update_stale :
    (now : ℕ) (p q : Peer) (j : NodeId) (pm : PeerManager)
    → get_peer j pm ≡ some q
    → (equal p.id j ≡ true → p.version < q.version)
    → get_peer j (add_or_update now p pm).1 ≡ some q
get_peer-add_or_update_stale now p q j pm e stale = elim (Bool-cases (equal p.id j)) [
  | inl own ↦
      let same : p.id ≡ j = (bytes_beq_iff p.id j).0 own in
      let low = stale own in
      let known : get_peer p.id pm ≡ some q = rw same e in
      ground (arith, get_peer-add_or_update now p pm j, known)
  | inr other ↦ ground (arith, get_peer-add_or_update now p pm j)
]

handle_push_stale :
    (now : ℕ) (self j : NodeId) (entries : List PeerEntry) (q : Peer) (pm : PeerManager)
    → get_peer j pm ≡ some q
    → All (IsStale j q) entries
    → get_peer j (handle_push now self entries pm).0 ≡ some q
unfolding handle_push handle_entry
handle_push_stale now self j [] q pm e stale = e
handle_push_stale now self j (entry ∷ entries) q pm e (stale, rest) =
    handle_push_stale now self j entries q (handle_entry now self entry pm).0
      (elim (Bool-cases (equal entry.id self)) [
        | inl own ↦ rw (own, handle_entry) e
        | inr other ↦
            rw (other, handle_entry)
              (get_peer-add_or_update_stale now (peer_of entry) q j pm e stale)
      ])
      rest

IsStale-entries :
    (j : NodeId) (q : Peer) (m : List (NodeId × Peer))
    → All (IsKnown j) m
    → All (IsStale j q) (map entry_of (values m))
IsStale-entries j q [] h = tt
IsStale-entries j q ((k, p) ∷ m) ((own, other), h) =
    (λ e. cc (rw own at e), IsStale-entries j q m h)

died_newer : (p : Peer) → p.version + 1 < 2 ^ 64 → (died p).version ≡ p.version + 1
died_newer p h = omega arith

module _ (c : Ed25519) (priv : c.PrivateKey) (host : Host) where
  -- The node after it has lost a peer and has connected to it again.
  abbrev pub reconnected : ℕ → NodeId → List ℕ → Link → Link → Node → Node
  reconnected now id addr link link' n =
      (join_peer c priv host now id addr link' (connection_lost c priv host false id link n).0).0

  get_peer-reconnected :
      (now : ℕ) (id : NodeId) (addr : List ℕ) (link link' : Link) (n : Node) (p : Peer)
      → get_peer id n.engine.peers ≡ some p
      → p.version + 1 < 2 ^ 64
      → get_peer id (reconnected now id addr link link' n).engine.peers ≡ some (died p)
  get_peer-reconnected now id addr link link' n p known small =
      let lost : Node = (connection_lost c priv host false id link n).0 in
      let dead : get_peer id lost.engine.peers ≡ some (died p) =
        known-connection_lost c priv host false id link n ∙ rw known refl in
      rw (peers-join_peer c priv host now id addr link' lost) (
        get_peer-add_or_update_stale now (direct_peer id link'.conn) (died p) id lost.engine.peers
          dead (λ _. omega (arith, died_newer p small)))

  -- A node that has lost a peer and connects to it again goes on to know it as dead, and the peer's own
  -- greeting, its push of itself as alive, does not change that: the record has the version after the
  -- last one, and a node announces itself under version 1. The peer is `a`, with well-formed peers and a
  -- push that fits the format; the last version is at least 1 and does not wrap.
  pub get_peer-handle_message-reconnected :
      (now later : ℕ) (a : Engine) (addr : List ℕ) (link link' : Link) (n : Node) (p : Peer)
      → get_peer a.self_id n.engine.peers ≡ some p
      → 0 < p.version
      → p.version + 1 < 2 ^ 64
      → IsManager a.peers
      → a.peers.self_id ≡ a.self_id
      → length (push_entries a) < 2 ^ 16
      → All IsPeerEntry (push_entries a)
      → get_peer a.self_id
          (handle_message later a.self_id
            (build_gossip_push a)
            (reconnected now a.self_id addr link link' n).engine).1.0.peers
        ≡ some (died p)
  unfolding build_gossip_push
  get_peer-handle_message-reconnected now later a addr link link' n p known old small good self fits
        entries =
      let b = (reconnected now a.self_id addr link link' n).engine in
      let read = decode_gossip_push-encode_gossip_push (push_entries a) fits entries in
      let dead = get_peer-reconnected now a.self_id addr link link' n p known small in
      let others : All (IsKnown a.self_id) a.peers.peers = rw (← self) good.known in
      rw (handle_message_push later a.self_id (push_entries a) b read) (
        handle_push_stale later b.self_id a.self_id (push_entries a) (died p) b.peers dead (
          λ _. omega (arith, died_newer p small),
          IsStale-entries a.self_id (died p) a.peers.peers others,
        ))
