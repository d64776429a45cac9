-- ===== src/Route/Propagation/Chain.antt =====
-- The way of an advertisement along a chain of neighbours: HandleRouteUpdate of route/propagation.go,
-- node after node.
use magic_tun.Base.{
  ℕ, ◌+◌, ◌%◌, ◌^◌, ◌<◌, ◌≡◌, refl, ap, ◌∙◌, inl, inr, true, false, none, some, List, [], ◌∷◌,
  arith, ok, leb, length, In, Bool-cases, bytes_beq_iff, bytes_beq_refl, pair_eq, ==_refl,
}
use magic_tun.Net.Ip.{to16-to4, to16_self, to4-v4_prefix, length-to4}
use magic_tun.Net.Prefix.{IpNet, cidr_key}
use magic_tun.Identity.{NodeId, equal}
use magic_tun.Wire.Route.{route_flag_update}
use magic_tun.Wire.Route.RoundTrip.{IsHop, HasLength, widen, IsRouteMessage}
use magic_tun.Route.Path
use magic_tun.Route.Table.{Route, RoutingTable, add_route}
use magic_tun.Route.Table.Refinement.{route_of, route_of-add_route}
use magic_tun.Route.Propagation.{
  Effect, sent, message_of, encode_route_with_self, send_except, handle_route_update,
}
use magic_tun.Route.Propagation.Receive.{taken_over, handle_route_update-encode_route_with_self}

-- A node of the chain: its clock, its table, and its live peers.
pub record Station : Type 0 where
  pub clock : ℕ
  pub table : RoutingTable
  pub peers : List NodeId

-- The route that a node learns from its neighbour's advertisement of `r`.
abbrev pub learned : NodeId → Route → Route
learned via r = record {
  destination = widen r.destination;
  next_hop = via;
  as_path = via ∷ r.as_path;
  cost = (r.cost + 1) % 2 ^ 32;
  origin = r.origin;
  local_pref = r.local_pref;
  timestamp = 0;
}

widen-HasLength : (ones : ℕ) (p : IpNet) → HasLength ones p → HasLength ones (widen p)
widen-HasLength ones p (inl (a, e, m, small)) =
    rw (to16-to4 p.ip a e) (inl (a, to4-v4_prefix a (length-to4 p.ip a e), m, small))
widen-HasLength ones p (inr (e, size, m, small)) =
    rw (to16_self p.ip size) (inr (e, size, m, small))

-- An advertisement that fits the format still fits it one hop further.
next-IsRouteMessage :
    (via self : NodeId) (r : Route)
    → IsRouteMessage (message_of route_flag_update r (via ∷ r.as_path))
    → IsHop self
    → length r.as_path + 1 < 32
    → IsRouteMessage (message_of route_flag_update (learned via r) (self ∷ via ∷ r.as_path))
unfolding Path.to_wire
next-IsRouteMessage via self r h hop short = record {
  ones = h.ones;
  prefix_length = widen-HasLength h.ones r.destination h.prefix_length;
  cost_u32 = omega arith;
  pref_u32 = h.pref_u32;
  origin_id = h.origin_id;
  hop_ids = (hop, h.hop_ids);
  short_path = rw (Path.to_wire_self r.as_path) (omega arith);
}

In-send_except :
    (msg : List ℕ) (except id : NodeId) (ids : List NodeId)
    → In id ids
    → equal id except ≡ false
    → In (sent id msg) (send_except msg except ids)
unfolding send_except
In-send_except msg except id [] i h = absurd i
In-send_except msg except id (x ∷ ids) (inl e) h =
    let other : equal x except ≡ false = rw (← e) h in
    rw other (inl (ap (λ (y : NodeId). sent y msg) e))
In-send_except msg except id (x ∷ ids) (inr i) h = elim (Bool-cases (equal x except)) [
  | inl e ↦ rw e (In-send_except msg except id ids i h)
  | inr e ↦ rw e (inr (In-send_except msg except id ids i h))
]

-- The node is not on the path, and knows no route of this network, origin and next hop.
abbrev pub IsNew : NodeId → Route → Station → Type 0
IsNew via r s =
    IsHop s.table.self_id
    × (Path.contains (via ∷ r.as_path) s.table.self_id ≡ false)
    × (route_of s.table (cidr_key (widen r.destination)) r.origin via ≡ none)

-- The node's own advertisement of what it learns.
abbrev pub passed_on : NodeId → Route → Station → List ℕ
passed_on via r s = encode_route_with_self s.table.self_id (learned via r)

-- What one node of the chain makes of the advertisement: it has the route, and its effects.
module _ (via : NodeId) (r : Route) (s : Station) where
  pub record IsCarried (done : RoutingTable × List Effect) : Type 0 where
    pub handled :
        handle_route_update s.clock via (encode_route_with_self via r) (some s.peers) s.table
        ≡ ok done
    pub learns :
        route_of done.0 (cidr_key (widen r.destination)) r.origin via
        ≡ some (record (learned via r) { timestamp = s.clock })
    pub sends :
        (id : NodeId)
        → In id s.peers
        → equal id via ≡ false
        → In (sent id (passed_on via r s)) done.1

  carried :
      IsRouteMessage (message_of route_flag_update r (via ∷ r.as_path))
      → length r.as_path + 1 < 32
      → IsNew via r s
      → (done : RoutingTable × List Effect) × IsCarried done
  carried fits short (hop, free, unknown) =
      let l = learned via r in
      let (view, news) =
        route_of-add_route s.clock l s.table (cidr_key (widen r.destination)) r.origin via in
      let added : (add_route s.clock l s.table).0 ≡ true = ground (arith, free, unknown, news) in
      let close : leb 32 (length (via ∷ r.as_path)) ≡ false = ground arith in
      let got =
        handle_route_update-encode_route_with_self s.clock via r (some s.peers) s.table fits in
      let same : taken_over s.clock via r (some s.peers) s.table
          ≡ ((add_route s.clock l s.table).1, send_except (passed_on via r s) via s.peers) =
        rw (free, taken_over) (rw close (rw added refl)) in
      (
        ((add_route s.clock l s.table).1, send_except (passed_on via r s) via s.peers),
        record {
          handled = got ∙ ap ok same;
          learns = ground (
            arith,
            free,
            unknown,
            view,
            ==_refl (cidr_key (widen r.destination)),
            bytes_beq_refl r.origin,
            bytes_beq_refl via,
          );
          sends = λ id i other. In-send_except (passed_on via r s) via id s.peers i other;
        },
      )

-- The next node of the chain is a live peer of this one.
abbrev pub IsNeighbour : Station → List Station → Type 0
IsNeighbour s [] = Unit
IsNeighbour s (next ∷ rest) = In next.table.self_id s.peers

-- The nodes of a chain, each new to the advertisement that the one before it passes on to it.
abbrev pub IsChain : NodeId → Route → List Station → Type 0
IsChain via r [] = Unit
IsChain via r (s ∷ rest) =
    IsNew via r s × IsNeighbour s rest × IsChain s.table.self_id (learned via r) rest

-- The message is among those for the next node.
abbrev pub IsHanded : List ℕ → List Effect → List Station → Type 0
IsHanded msg out [] = Unit
IsHanded msg out (next ∷ rest) = In (sent next.table.self_id msg) out

-- Every node handles the message of the one before it, has the route then, and hands its own message to
-- the next.
abbrev pub Travels : NodeId → Route → List Station → Type 0
Travels via r [] = Unit
Travels via r (s ∷ rest) =
    ((done : RoutingTable × List Effect) × IsCarried via r s done
      × IsHanded (passed_on via r s) done.1 rest)
    × Travels s.table.self_id (learned via r) rest

not_back :
    (self via id : NodeId) (path : List NodeId)
    → Path.contains (self ∷ via ∷ path) id ≡ false
    → equal id via ≡ false
unfolding Path.contains
not_back self via id path h = ground (arith, bytes_beq_iff id via, bytes_beq_iff via id)

handed :
    (via : NodeId) (r : Route) (s : Station) (rest : List Station)
    (done : RoutingTable × List Effect)
    → IsCarried via r s done
    → IsNeighbour s rest
    → IsChain s.table.self_id (learned via r) rest
    → IsHanded (passed_on via r s) done.1 rest
handed via r s [] done c i h = tt
handed via r s (next ∷ rest) done c i ((hop, free, unknown), near, h) =
    c.sends next.table.self_id i (not_back s.table.self_id via next.table.self_id r.as_path free)

-- An advertisement travels along any chain of neighbours that are not yet on its path, as long as it
-- has fewer than 32 hops: every node of the chain takes the route over, with the path back to the
-- origin, one hop longer and one costlier than at the node before, and sends the next node exactly the
-- message on which that one does the same. The conditions are that the advertisement fits the format,
-- that each node is a live peer of the one before, and that none has a route of that network, origin and
-- next hop already.
pub advertisement-Travels :
    (via : NodeId) (r : Route) (chain : List Station)
    → IsRouteMessage (message_of route_flag_update r (via ∷ r.as_path))
    → length r.as_path + length chain < 32
    → IsChain via r chain
    → Travels via r chain
advertisement-Travels via r [] fits short h = tt
advertisement-Travels via r (s ∷ rest) fits short (new, near, h) =
    let low : length r.as_path + 1 < 32 = omega arith in
    let (done, c) = carried via r s fits low new in
    (
      (done, c, handed via r s rest done c near h),
      advertisement-Travels s.table.self_id (learned via r) rest
          (next-IsRouteMessage via s.table.self_id r fits new.0 low) (omega arith) h,
    )
