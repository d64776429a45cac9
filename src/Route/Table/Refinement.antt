-- ===== src/Route/Table/Refinement.antt =====
-- The table as a map from a network, an origin and a next hop to one route.
use magic_tun.Base.{
  ℕ, ◌≡◌, refl, inl, inr, Bool, true, not, ◌&&◌, ◌||◌, Option, none, some, List, [], ◌∷◌, ◌++◌,
  arith, eqb, if◌then◌else◌, keep, Bool-cases, Option-cases, bytes_beq_iff, pair_eq, pair_beq_iff,
  ◌==◌, get, get-put, get-delete,
}
use magic_tun.Net.Prefix.{IpNet, Key, cidr_key}
use magic_tun.Identity.{NodeId, equal}
use magic_tun.Route.Path
use magic_tun.Route.Table.{
  Route, RoutingTable, same_source, replace, add_to, add_route, store, remove_route,
}

-- The first route from `origin` over `next_hop`.
unfoldable pub find_source : NodeId → NodeId → List Route → Option Route
find_source origin next_hop [] = none
find_source origin next_hop (r ∷ rs) =
    if equal r.origin origin && equal r.next_hop next_hop
    then some r
    else find_source origin next_hop rs

abbrev in_bucket : NodeId → NodeId → Option (List Route) → Option Route
in_bucket origin next_hop none = none
in_bucket origin next_hop (some rs) = find_source origin next_hop rs

-- The abstract map
unfoldable pub route_of : RoutingTable → Key → NodeId → NodeId → Option Route
route_of rt key origin next_hop = in_bucket origin next_hop (get key rt.routes)

-- The cost or the preference differs.
abbrev pub differs : Route → Route → Bool
differs er r = not (eqb er.cost r.cost) || not (eqb er.local_pref r.local_pref)

-- What a new advertisement `r`, seen at `now`, makes of the route that is there: its path is taken
-- over only along with another cost or preference.
abbrev pub merged : ℕ → Route → Option Route → Route
merged now r none = record r { timestamp = now }
merged now r (some er) =
    if differs er r then record r { timestamp = now } else record er { timestamp = now }

abbrev pub is_news : Route → Option Route → Bool
is_news r none = true
is_news r (some er) = differs er r

module _ (now : ℕ) (r : Route) where
  stamped : Route
  stamped = record r { timestamp = now }

  after_replace : List Route → Option (Bool × List Route) → Bool × List Route
  after_replace rs none = (true, rs ++ stamped ∷ [])
  after_replace rs (some changed) = changed

  -- The loop of AddRoute, in the words of the map.
  replace_lem :
      (rs : List Route) (o n : NodeId)
      → (find_source o n (after_replace rs (replace now stamped rs)).1 ≡ (
          if equal r.origin o && equal r.next_hop n
          then some (merged now r (find_source r.origin r.next_hop rs))
          else find_source o n rs))
        × ((after_replace rs (replace now stamped rs)).0
            ≡ is_news r (find_source r.origin r.next_hop rs))
  unfolding replace find_source after_replace stamped
  replace_lem [] o n = (refl, refl)
  replace_lem (er ∷ rs) o n = elim (Bool-cases (same_source er r)) [
    | inl same ↦
        ground (arith, bytes_beq_iff er.origin r.origin, bytes_beq_iff er.next_hop r.next_hop)
    | inr other ↦ elim (Option-cases (replace now stamped rs)) [
      | inl q ↦ ground (
        arith,
        q,
        replace_lem rs o n,
        bytes_beq_iff er.origin o,
        bytes_beq_iff er.next_hop n,
        bytes_beq_iff r.origin o,
        bytes_beq_iff r.next_hop n,
        bytes_beq_iff er.origin r.origin,
        bytes_beq_iff er.next_hop r.next_hop,
      )
      | inr ((b, rest), q) ↦ ground (
        arith,
        q,
        replace_lem rs o n,
        bytes_beq_iff er.origin o,
        bytes_beq_iff er.next_hop n,
        bytes_beq_iff r.origin o,
        bytes_beq_iff r.next_hop n,
        bytes_beq_iff er.origin r.origin,
        bytes_beq_iff er.next_hop r.next_hop,
      )
    ]
  ]

  add_to-some :
      (xs : List Route) → add_to now stamped (some xs) ≡ after_replace xs (replace now stamped xs)
  unfolding add_to after_replace
  add_to-some xs = elim (Option-cases (replace now stamped xs)) [
    | inl q ↦ rw (q, add_to)
    | inr (p, q) ↦ rw (q, add_to)
  ]

  add_to-none :
      (o n : NodeId)
      → (find_source o n (add_to now stamped none).1
          ≡ (if equal r.origin o && equal r.next_hop n then some stamped else none))
        × ((add_to now stamped none).0 ≡ true)
  unfolding add_to find_source stamped
  add_to-none o n = (refl, refl)

  add_to_lem :
      (bucket : Option (List Route)) (o n : NodeId)
      → (find_source o n (add_to now stamped bucket).1 ≡ (
          if equal r.origin o && equal r.next_hop n
          then some (merged now r (in_bucket r.origin r.next_hop bucket))
          else in_bucket o n bucket))
        × ((add_to now stamped bucket).0 ≡ is_news r (in_bucket r.origin r.next_hop bucket))
  unfolding stamped
  add_to_lem none o n = add_to-none o n
  add_to_lem (some rs) o n = rw (add_to-some rs) (replace_lem rs o n)

-- AddRoute as an update of the map: a route whose path holds this node changes nothing and is no news;
-- any other is merged with the route of its network, origin and next hop, leaves all others alone, and
-- is news if there was none or if the cost or the preference differs.
pub route_of-add_route :
    (now : ℕ) (r : Route) (rt : RoutingTable) (k : Key) (o n : NodeId)
    → (route_of (add_route now r rt).1 k o n ≡ (
        if not (Path.contains r.as_path rt.self_id)
          && (cidr_key r.destination == k && (equal r.origin o && equal r.next_hop n))
        then some (merged now r (route_of rt (cidr_key r.destination) r.origin r.next_hop))
        else route_of rt k o n))
      × ((add_route now r rt).0
          ≡ not (Path.contains r.as_path rt.self_id)
            && is_news r (route_of rt (cidr_key r.destination) r.origin r.next_hop))
unfolding route_of add_route stamped
route_of-add_route now r rt k o n = elim (Bool-cases (Path.contains r.as_path rt.self_id)) [
  | inl loops ↦ rw (loops, add_route) (refl, refl)
  | inr free ↦
      rw (free, add_route)
        (ground (
          arith,
          get-put (cidr_key r.destination) k
              (add_to now (record r { timestamp = now }) (get (cidr_key r.destination) rt.routes)).1
              rt.routes,
          add_to_lem now r (get (cidr_key r.destination) rt.routes) o n,
          pair_beq_iff (cidr_key r.destination) k,
        ))
]

find_source-keep :
    (origin o n : NodeId) (rs : List Route)
    → find_source o n (keep (λ r. not (equal r.origin origin)) rs)
      ≡ (if equal origin o then none else find_source o n rs)
unfolding find_source
find_source-keep origin o n [] = ground arith
find_source-keep origin o n (r ∷ rs) = ground (
  arith,
  find_source-keep origin o n rs,
  bytes_beq_iff r.origin origin,
  bytes_beq_iff r.origin o,
  bytes_beq_iff origin o,
)

in_bucket-store :
    (key k : Key) (rs : List Route) (m : List (Key × List Route)) (o n : NodeId)
    → in_bucket o n (get k (store key rs m))
      ≡ (if key == k then find_source o n rs else in_bucket o n (get k m))
unfolding store
in_bucket-store key k [] m o n = rw get-delete (unfold find_source in ground arith)
in_bucket-store key k (r ∷ rs) m o n = rw get-put (ground arith)

-- RemoveRoute as an update of the map: the routes of the network from that origin are gone, over
-- whatever next hop, and no other is.
pub route_of-remove_route :
    (dest : IpNet) (origin : NodeId) (rt : RoutingTable) (k : Key) (o n : NodeId)
    → route_of (remove_route dest origin rt) k o n
      ≡ (if cidr_key dest == k && equal origin o then none else route_of rt k o n)
unfolding route_of remove_route
route_of-remove_route dest origin rt k o n = elim (Option-cases (get (cidr_key dest) rt.routes)) [
  | inl e ↦ rw (e, remove_route) (ground (arith, e, pair_beq_iff (cidr_key dest) k))
  | inr (rs, e) ↦
      rw (e, remove_route)
        (ground (
          arith,
          e,
          in_bucket-store (cidr_key dest) k (keep (λ r. not (equal r.origin origin)) rs) rt.routes o
              n,
          find_source-keep origin o n rs,
          pair_beq_iff (cidr_key dest) k,
        ))
]
