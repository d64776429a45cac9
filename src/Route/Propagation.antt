-- ===== src/Route/Propagation.antt =====
-- route/propagation.go: what a node does with the updates of its neighbours, and what it advertises.
-- The calls of the propagator's callbacks are effects, in their order; `peers` is what getPeersFunc
-- returns, `none` where it or sendFunc is not set.
pub mod Receive
pub mod Withdraw
pub mod Chain
use magic_tun.Base.{
  ℕ, ◌+◌, ◌%◌, ◌^◌, Bool, true, false, not, ◌||◌, Option, none, some, List, [], ◌∷◌, ◌++◌, Result,
  ok, err, panic, if◌then◌else◌, eqb, leb, bit_and,
}
use magic_tun.Net.Prefix.{IpNet}
use magic_tun.Identity.{NodeId, equal}
use magic_tun.Wire.Codec.{Error, Read}
use magic_tun.Wire.Route.{
  RouteMessage, route_flag_update, route_flag_withdraw, encode_route_message, decode_route_message,
}
use magic_tun.Route.Path
use magic_tun.Route.Table.{
  Route, RoutingTable, add_route, remove_route, remove_all_from_origin, get_all_routes,
}

-- A call of sendFunc and one of broadcastFunc, which is taken as set.
pub data Effect : Type 0 where
  sent : NodeId → List ℕ → Effect
  cast : List ℕ → Effect

abbrev pub message_of : ℕ → Route → List NodeId → RouteMessage
message_of flags r path = record {
  flags = flags;
  prefix = r.destination;
  cost = r.cost;
  origin = r.origin;
  local_pref = r.local_pref;
  as_path = Path.to_wire path;
}

-- encodeRouteWithSelf
abbrev pub encode_route_with_self : NodeId → Route → List ℕ
encode_route_with_self self r =
    encode_route_message (message_of route_flag_update r (Path.clone_with_hop r.as_path self))

abbrev pub encode_withdrawal : Route → List ℕ
encode_withdrawal r = encode_route_message (message_of route_flag_withdraw r r.as_path)

-- The loop of propagateExcept
unfoldable pub send_except : List ℕ → NodeId → List NodeId → List Effect
send_except msg except [] = []
send_except msg except (id ∷ ids) =
    let rest = send_except msg except ids in if equal id except then rest else sent id msg ∷ rest

abbrev pub propagate_except : List ℕ → NodeId → Option (List NodeId) → List Effect
propagate_except msg except none = []
propagate_except msg except (some ids) = send_except msg except ids

-- The route that HandleRouteUpdate makes of a message; the cost is a uint32.
abbrev pub received : NodeId → RouteMessage → Route
received from m = record {
  destination = m.prefix;
  next_hop = from;
  as_path = Path.from_wire m.as_path;
  cost = (m.cost + 1) % 2 ^ 32;
  origin = m.origin;
  local_pref = m.local_pref;
  timestamp = 0;
}

-- The part behind the test of the withdrawal flag
unfoldable pub accept :
    ℕ → NodeId → RouteMessage → Option (List NodeId) → RoutingTable → RoutingTable × List Effect
accept now from m peers rt =
    let r = received from m in
    let (added, rt') = add_route now r rt in
    if Path.contains r.as_path rt.self_id
    then (rt, [])
    else if leb 32 (Path.len r.as_path)
    then (rt, [])
    else if added
    then (rt', propagate_except (encode_route_with_self rt.self_id r) from peers)
    else (rt', [])

unfoldable pub handle_message :
    ℕ
    → NodeId
    → List ℕ
    → RouteMessage
    → Option (List NodeId)
    → RoutingTable
    → RoutingTable × List Effect
handle_message now from bytes m peers rt =
    if not (eqb (bit_and m.flags route_flag_withdraw) 0)
    then (remove_route m.prefix m.origin rt, propagate_except bytes from peers)
    else accept now from m peers rt

-- HandleRouteUpdate. Its panic is that of DecodeRouteMessage.
unfoldable pub handle_route_update :
    ℕ → NodeId → List ℕ → Option (List NodeId) → RoutingTable → Read (RoutingTable × List Effect)
handle_route_update now from bytes peers rt = elim (decode_route_message bytes) [
  | ok m ↦ ok (handle_message now from bytes m peers rt)
  | err e ↦ ok (rt, [])
  | panic ↦ panic
]

-- The route of AdvertiseDirectNetworks to a network of this node
abbrev pub own_route : NodeId → IpNet → Route
own_route self nw = record {
  destination = nw;
  next_hop = self;
  as_path = [];
  cost = 1;
  origin = self;
  local_pref = 100;
  timestamp = 0;
}

unfoldable pub advertise : ℕ → List IpNet → RoutingTable → RoutingTable × List Effect
advertise now [] rt = (rt, [])
advertise now (nw ∷ nets) rt =
    let r = own_route rt.self_id nw in
    let (done, out) = advertise now nets (add_route now r rt).1 in
    (done, cast (encode_route_with_self rt.self_id r) ∷ out)

-- AdvertiseDirectNetworks
abbrev pub advertise_direct_networks : ℕ → RoutingTable → RoutingTable × List Effect
advertise_direct_networks now rt = advertise now rt.direct_networks rt

unfoldable pub cast_routes : NodeId → List Route → List Effect
cast_routes self [] = []
cast_routes self (r ∷ rs) = cast (encode_route_with_self self r) ∷ cast_routes self rs

-- One turn of advertiseLoop
abbrev pub advertise_turn : ℕ → RoutingTable → RoutingTable × List Effect
advertise_turn now rt =
    let (rt', out) = advertise_direct_networks now rt in
    (rt', out ++ cast_routes rt'.self_id (get_all_routes rt'))

unfoldable pub withdrawals : NodeId → List Route → List Effect
withdrawals peer [] = []
withdrawals peer (r ∷ rs) =
    let rest = withdrawals peer rs in
    if equal r.next_hop peer || equal r.origin peer then cast (encode_withdrawal r) ∷ rest else rest

unfoldable pub withdraw_all_from_peer : NodeId → RoutingTable → RoutingTable × List Effect
withdraw_all_from_peer peer rt =
    (remove_all_from_origin peer rt, withdrawals peer (get_all_routes rt))
