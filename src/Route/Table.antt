-- ===== src/Route/Table.antt =====
-- route/table.go. The map from the text of a network to its routes is an association list, in the
-- order in which a `range` visits it; its keys are what that text determines. Routes are values: no
-- caller changes one that is in the table. Times are nanoseconds, and `now` is what time.Now returns.
pub mod Invariant
pub mod Refinement
pub mod History
pub mod View
pub mod Search
pub mod Lookup
use magic_tun.Base.{
  ℕ, zero, suc, ◌+◌, ◌≤◌, Bool, true, false, not, ◌&&◌, ◌||◌, Option, none, some, List, [], ◌∷◌,
  ◌++◌, if◌then◌else◌, eqb, ltb, length, keep, pair_eq, get, put, delete,
}
use mathlib.Core.Option
use magic_tun.Net.Mask.{mask_size}
use magic_tun.Net.Prefix.{IpNet, Key, cidr_key, contains}
use magic_tun.Identity.{NodeId, equal, zero_id}
use magic_tun.Route.Path.{AsPath}
use magic_tun.Route.Path

pub record Route : Type 0 where
  pub destination : IpNet
  pub next_hop : NodeId
  pub as_path : AsPath
  pub cost : ℕ
  pub origin : NodeId
  pub local_pref : ℕ
  pub timestamp : ℕ

pub record RoutingTable : Type 0 where
  pub routes : List (Key × List Route)
  pub self_id : NodeId
  pub direct_networks : List IpNet

-- NewRoutingTable
abbrev pub new_routing_table : NodeId → RoutingTable
new_routing_table self_id = record { routes = []; self_id = self_id; direct_networks = [] }

abbrev pub set_direct_networks : RoutingTable → List IpNet → RoutingTable
set_direct_networks rt nets = record rt { direct_networks = nets }

-- The test of the loop in AddRoute
abbrev pub same_source : Route → Route → Bool
same_source er r = equal er.origin r.origin && equal er.next_hop r.next_hop

-- That loop: `none` where no route of the slice has the source of `r`
unfoldable pub replace : ℕ → Route → List Route → Option (Bool × List Route)
replace now r [] = none
replace now r (er ∷ rest) =
    if same_source er r
    then some (
        if not (eqb er.cost r.cost) || not (eqb er.local_pref r.local_pref)
        then (true, r ∷ rest)
        else (false, record er { timestamp = now } ∷ rest))
    else Option.map (λ p. (p.0, er ∷ p.1)) (replace now r rest)

-- What AddRoute makes of the routes under the key of `r`
unfoldable pub add_to : ℕ → Route → Option (List Route) → Bool × List Route
unfolding replace
add_to now r none = (true, r ∷ [])
add_to now r (some existing) = elim (replace now r existing) [
  | none ↦ (true, existing ++ r ∷ [])
  | some changed ↦ changed
]

-- AddRoute, at a table that holds the route's text as its key
unfoldable pub add_route : ℕ → Route → RoutingTable → Bool × RoutingTable
unfolding add_to
add_route now r rt =
    let key = cidr_key r.destination in
    if Path.contains r.as_path rt.self_id
    then (false, rt)
    else (let (added, bucket) = add_to now (record r { timestamp = now }) (get key rt.routes) in
        (added, record rt { routes = put key bucket rt.routes }))

-- `if len(filtered) == 0 { delete } else { rt.routes[key] = filtered }`
unfoldable pub store : Key → List Route → List (Key × List Route) → List (Key × List Route)
store key [] m = delete key m
store key (r ∷ rs) m = put key (r ∷ rs) m

unfoldable pub remove_route : IpNet → NodeId → RoutingTable → RoutingTable
unfolding store
remove_route dest origin rt =
    let key = cidr_key dest in
    elim (get key rt.routes) [
      | none ↦ rt
      | some existing ↦ record rt {
        routes = store key (keep (λ r. not (equal r.origin origin)) existing) rt.routes;
      }
    ]

-- The loops of RemoveAllFromOrigin and GC: a key that keeps no route is deleted.
unfoldable pub filter_all : (Route → Bool) → List (Key × List Route) → List (Key × List Route)
filter_all p [] = []
filter_all p ((key, rs) ∷ m) =
    let rest = filter_all p m in
    elim (keep p rs) [ [] ↦ rest | r ∷ filtered ↦ (key, r ∷ filtered) ∷ rest ]

unfoldable pub remove_all_from_origin : NodeId → RoutingTable → RoutingTable
unfolding filter_all
remove_all_from_origin origin rt = record rt {
  routes = filter_all (λ r. not (equal r.origin origin) && not (equal r.next_hop origin)) rt.routes;
}

-- `now.Sub(r.Timestamp) < ttl`
abbrev pub is_fresh : ℕ → ℕ → Route → Bool
is_fresh now ttl r = ltb now (r.timestamp + ttl)

unfoldable pub count_stale : ℕ → ℕ → List Route → ℕ
count_stale now ttl [] = 0
count_stale now ttl (r ∷ rs) =
    let rest = count_stale now ttl rs in if is_fresh now ttl r then rest else suc rest

unfoldable pub count_all_stale : ℕ → ℕ → List (Key × List Route) → ℕ
unfolding count_stale
count_all_stale now ttl [] = 0
count_all_stale now ttl ((key, rs) ∷ m) = count_stale now ttl rs + count_all_stale now ttl m

-- GC, with the number that it returns
unfoldable pub gc : ℕ → ℕ → RoutingTable → ℕ × RoutingTable
unfolding filter_all count_all_stale
gc now ttl rt = (
  count_all_stale now ttl rt.routes,
  record rt { routes = filter_all (is_fresh now ttl) rt.routes },
)

unfoldable pub flatten : List (Key × List Route) → List Route
flatten [] = []
flatten ((key, rs) ∷ m) = rs ++ flatten m

-- GetAllRoutes
abbrev pub get_all_routes : RoutingTable → List Route
get_all_routes rt = flatten rt.routes

unfoldable pub count_routes : List (Key × List Route) → ℕ
count_routes [] = 0
count_routes ((key, rs) ∷ m) = length rs + count_routes m

-- Size
abbrev pub size : RoutingTable → ℕ
size rt = count_routes rt.routes

unfoldable pub best_path : Route → Route → Route
best_path a b =
    if ltb b.local_pref a.local_pref
    then a
    else if ltb a.local_pref b.local_pref
    then b
    else if ltb (Path.len a.as_path) (Path.len b.as_path)
    then a
    else if ltb (Path.len b.as_path) (Path.len a.as_path)
    then b
    else if ltb a.cost b.cost
    then a
    else if ltb b.cost a.cost
    then b
    else if ltb a.timestamp b.timestamp
    then a
    else b

-- bestMatch and bestMaskLen
abbrev pub Match : Type 0
Match = Option Route × ℕ

unfoldable pub consider : List ℕ → Match → Route → Match
consider ip (best, best_len) r =
    let ones = mask_size r.destination.mask in
    if contains r.destination ip
    then (if ltb best_len ones
        then (some r, ones)
        else if eqb ones best_len
        then (Option.map (λ b. best_path b r) best, best_len)
        else (best, best_len))
    else (best, best_len)

unfoldable pub scan_bucket : List ℕ → Match → List Route → Match
scan_bucket ip best [] = best
scan_bucket ip best (r ∷ rs) = scan_bucket ip (consider ip best r) rs

unfoldable pub scan : List ℕ → Match → List (Key × List Route) → Match
scan ip best [] = best
scan ip best ((key, rs) ∷ m) = scan ip (scan_bucket ip best rs) m

unfoldable pub find_direct : List ℕ → List IpNet → Option IpNet
find_direct ip [] = none
find_direct ip (nw ∷ nws) = if contains nw ip then some nw else find_direct ip nws

-- The answer for a network of this node; its next hop is the zero identifier.
abbrev pub direct_route : IpNet → Route
direct_route nw = record {
  destination = nw;
  next_hop = zero_id;
  as_path = [];
  cost = 0;
  origin = zero_id;
  local_pref = 0;
  timestamp = 0;
}

unfoldable pub lookup : RoutingTable → List ℕ → Option Route
lookup rt ip = elim (find_direct ip rt.direct_networks) [
  | some nw ↦ some (direct_route nw)
  | none ↦ (scan ip (none, 0) rt.routes).0
]
