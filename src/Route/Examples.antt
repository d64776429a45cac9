-- ===== src/Route/Examples.antt =====
-- A small network: node 9 with neighbours 1 and 2, and routes to 10.0.0.0/8 and 10.1.0.0/16.
use magic_tun.Base.{
  ℕ, ◌≤◌, ◌<◌, ◌≡◌, refl, ◌↔◌, inl, true, false, not, ◌&&◌, none, some, List, [], ◌∷◌, arith, ok,
  replicate, All, In, length, bytes_beq, pair_beq, get, put, pair_eq, ◌==◌, if◌then◌else◌,
}
use magic_tun.Net.Ip.{to4}
use magic_tun.Net.Mask.{mask_bytes, cidr_mask, shift_ones, all_zero, simple_mask_length, mask_size}
use magic_tun.Net.Prefix.{IpNet, network_number_and_mask, masked_eq, shorten, contains, cidr_key}
use magic_tun.Identity.{NodeId, equal}
use magic_tun.Wire.Route.{route_flag_update, route_flag_withdraw}
use magic_tun.Wire.Route.RoundTrip.{IsRouteMessage, widen}
use magic_tun.Route.Path
use magic_tun.Route.Table.{
  Route, RoutingTable, new_routing_table, add_to, add_route, flatten, get_all_routes, consider,
  scan_bucket, scan, find_direct, lookup, remove_route,
}
use magic_tun.Route.Table.Search.{Dominates}
use magic_tun.Route.Table.Lookup.{lookup_best, lookup-none}
use magic_tun.Route.Table.Refinement.{
  merged, is_news, route_of, route_of-add_route, route_of-remove_route,
}
use magic_tun.Route.Table.Invariant.{IsTable}
use magic_tun.Route.Table.History.{adds, step, run, run_loop_free}
use magic_tun.Route.Propagation.{
  message_of, encode_withdrawal, encode_route_with_self, propagate_except, handle_route_update,
}
use magic_tun.Route.Propagation.Receive.{
  taken_over, handle_route_update-encode_route_with_self, IsHandled, handle_route_update-IsHandled,
}
use magic_tun.Route.Propagation.Chain.{Station, IsChain, Travels, advertisement-Travels}
use magic_tun.Route.Propagation.Withdraw.{handle_route_update-encode_withdrawal}

abbrev node : ℕ → NodeId
node n = replicate 16 n

abbrev wide_net : IpNet
wide_net = record { ip = 10 ∷ 0 ∷ 0 ∷ 0 ∷ []; mask = 255 ∷ 0 ∷ 0 ∷ 0 ∷ [] }

abbrev narrow_net : IpNet
narrow_net = record { ip = 10 ∷ 1 ∷ 0 ∷ 0 ∷ []; mask = 255 ∷ 255 ∷ 0 ∷ 0 ∷ [] }

abbrev route_to : IpNet → ℕ → Route
route_to dest via = record {
  destination = dest;
  next_hop = node via;
  as_path = node via ∷ [];
  cost = 2;
  origin = node via;
  local_pref = 100;
  timestamp = 5;
}

abbrev wide : Route
wide = route_to wide_net 1

abbrev narrow : Route
narrow = route_to narrow_net 2

abbrev table : RoutingTable
table = record {
  routes = (cidr_key wide_net, wide ∷ []) ∷ (cidr_key narrow_net, narrow ∷ []) ∷ [];
  self_id = node 9;
  direct_networks = [];
}

abbrev home : RoutingTable
home = record { routes = []; self_id = node 9; direct_networks = narrow_net ∷ [] }

abbrev target : List ℕ
target = 10 ∷ 1 ∷ 2 ∷ 3 ∷ []

narrow_found : lookup table target ≡ some narrow
unfolding lookup find_direct scan scan_bucket consider contains network_number_and_mask masked_eq
    shorten mask_size simple_mask_length shift_ones all_zero to4 bytes_beq
narrow_found = refl

lookup_best_example :
    In narrow (get_all_routes table)
    × (contains narrow_net target ≡ true)
    × (0 < mask_size narrow_net.mask)
    × All (Dominates target (some narrow, mask_size narrow_net.mask)) (get_all_routes table)
lookup_best_example = lookup_best table target narrow tt narrow_found

home_contains : contains narrow_net target ≡ true
unfolding contains network_number_and_mask masked_eq shorten to4 bytes_beq
home_contains = refl

lookup-none_example : (lookup table target ≡ none) ↔ (
    All (λ nw. contains nw target ≡ false) table.direct_networks
    × All (Dominates target (none, 0)) (get_all_routes table))
lookup-none_example = lookup-none table target

-- A second route to the wide network, by the other neighbour.
abbrev other : Route
other = route_to wide_net 2

route_of-add_route_example :
    (route_of (add_route 7 other table).1 (cidr_key wide_net) (node 2) (node 2) ≡ (
      if not (Path.contains other.as_path (node 9))
        && (cidr_key wide_net == cidr_key wide_net
            && (equal (node 2) (node 2) && equal (node 2) (node 2)))
      then some (merged 7 other (route_of table (cidr_key wide_net) (node 2) (node 2)))
      else route_of table (cidr_key wide_net) (node 2) (node 2)))
    × ((add_route 7 other table).0
        ≡ not (Path.contains other.as_path (node 9))
          && is_news other (route_of table (cidr_key wide_net) (node 2) (node 2)))
route_of-add_route_example = route_of-add_route 7 other table (cidr_key wide_net) (node 2) (node 2)

route_of-remove_route_example :
    route_of (remove_route wide_net (node 1) table) (cidr_key wide_net) (node 1) (node 1) ≡ (
      if cidr_key wide_net == cidr_key wide_net && equal (node 1) (node 1)
      then none
      else route_of table (cidr_key wide_net) (node 1) (node 1))
route_of-remove_route_example =
    route_of-remove_route wide_net (node 1) table (cidr_key wide_net) (node 1) (node 1)

table_valid : IsTable table
unfolding network_number_and_mask to4 Path.contains bytes_beq pair_beq get
table_valid = record {
  buckets =
      (((λ z. cc), ((refl, refl), tt), (tt, tt)), (((λ z. cc), ((refl, refl), tt), (tt, tt)), tt));
  keys = (refl, (refl, tt));
}

wide_learned :
    In
      (record wide { timestamp = 7 })
      (get_all_routes (run (new_routing_table (node 9)) (adds 7 wide ∷ [])))
unfolding run step add_route add_to flatten Path.contains bytes_beq get put
wide_learned = inl refl

run_loop_free_example : Path.contains (node 1 ∷ []) (node 9) ≡ false
run_loop_free_example =
    run_loop_free (node 9) (adds 7 wide ∷ []) (record wide { timestamp = 7 }) wide_learned

message_valid :
    (flags : ℕ) (path : List NodeId)
    → length path ≤ 2
    → All (λ hop. length hop ≡ 16) path
    → IsRouteMessage (message_of flags wide path)
unfolding to4 cidr_mask mask_bytes
message_valid flags path short hops = rw (Path.to_wire_self path) (record {
  ones = 8;
  prefix_length = inl ((10 ∷ 0 ∷ 0 ∷ 0 ∷ []), refl, refl, omega arith);
  cost_u32 = omega arith;
  pref_u32 = omega arith;
  origin_id = refl;
  hop_ids = hops;
  short_path = omega arith;
})

update_valid : IsRouteMessage (message_of route_flag_update wide (node 2 ∷ wide.as_path))
update_valid =
    message_valid route_flag_update (node 2 ∷ wide.as_path) (omega arith) (refl, (refl, tt))

handle_route_update-encode_route_with_self_example :
    handle_route_update 7
      (node 2)
      (encode_route_with_self (node 2) wide)
      (some (node 1 ∷ node 2 ∷ []))
      table
    ≡ ok (taken_over 7 (node 2) wide (some (node 1 ∷ node 2 ∷ [])) table)
handle_route_update-encode_route_with_self_example =
    handle_route_update-encode_route_with_self 7 (node 2) wide (some (node 1 ∷ node 2 ∷ [])) table
      update_valid

handle_route_update-IsHandled_example :
    IsHandled (node 9) (node 2) (taken_over 7 (node 2) wide (some (node 1 ∷ node 2 ∷ [])) table)
handle_route_update-IsHandled_example =
    handle_route_update-IsHandled 7 (node 2) (encode_route_with_self (node 2) wide)
      (some (node 1 ∷ node 2 ∷ [])) table
      (taken_over 7 (node 2) wide (some (node 1 ∷ node 2 ∷ [])) table) table_valid
      (handle_route_update-encode_route_with_self 7 (node 2) wide (some (node 1 ∷ node 2 ∷ []))
        table update_valid)

withdrawal_valid : IsRouteMessage (message_of route_flag_withdraw wide wide.as_path)
withdrawal_valid = message_valid route_flag_withdraw wide.as_path (omega arith) (refl, tt)

handle_route_update-encode_withdrawal_example :
    handle_route_update 7 (node 2) (encode_withdrawal wide) (some (node 1 ∷ [])) table
    ≡ ok (
      remove_route (widen wide_net) (node 1) table,
      propagate_except (encode_withdrawal wide) (node 2) (some (node 1 ∷ [])),
    )
handle_route_update-encode_withdrawal_example =
    handle_route_update-encode_withdrawal 7 (node 2) wide (some (node 1 ∷ [])) table
      withdrawal_valid

-- Three nodes in a row, 2 beside 3 beside 4, with empty tables
abbrev station : ℕ → NodeId → Station
station n next = record {
  clock = 7;
  table = record { routes = []; self_id = node n; direct_networks = [] };
  peers = next ∷ [];
}

IsChain-valid : IsChain (node 2) wide (station 3 (node 4) ∷ station 4 (node 5) ∷ [])
unfolding route_of get Path.contains bytes_beq
IsChain-valid = ((refl, refl, refl), inl refl, ((refl, refl, refl), tt, tt))

advertisement-Travels_example : Travels (node 2) wide (station 3 (node 4) ∷ station 4 (node 5) ∷ [])
advertisement-Travels_example =
    advertisement-Travels (node 2) wide (station 3 (node 4) ∷ station 4 (node 5) ∷ []) update_valid
      (omega arith) IsChain-valid
