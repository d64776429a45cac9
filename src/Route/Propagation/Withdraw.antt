-- ===== src/Route/Propagation/Withdraw.antt =====
-- The withdrawals of route/propagation.go: what a node sends when a peer goes down, and what its neighbours do with it.
use magic_tun.Base.{
  ℕ, ◌≡◌, refl, ap, ◌∙◌, inl, inr, Bool, not, ◌||◌, ◌&&◌, Option, List, [], ◌∷◌, map, arith, ok,
  keep, Bool-cases,
}
use magic_tun.Identity.{NodeId, equal}
use magic_tun.Wire.Route.{RouteMessage, route_flag_withdraw}
use magic_tun.Wire.Route.RoundTrip.{
  IsRouteMessage, widen, decode_route_message-encode_route_message,
}
use magic_tun.Route.Table.{Route, RoutingTable, remove_route, get_all_routes}
use magic_tun.Route.Table.View.{get_all_routes-remove_all_from_origin}
use magic_tun.Route.Propagation.{
  cast, message_of, encode_withdrawal, propagate_except, handle_message, handle_route_update,
  withdrawals, withdraw_all_from_peer,
}
use magic_tun.Route.Propagation.Receive.{handle_route_update_ok}

-- The route goes through the peer or comes from it.
abbrev pub involves : NodeId → Route → Bool
involves peer r = equal r.next_hop peer || equal r.origin peer

withdrawals_lem :
    (peer : NodeId) (rs : List Route)
    → withdrawals peer rs ≡ map (λ r. cast (encode_withdrawal r)) (keep (involves peer) rs)
unfolding withdrawals
withdrawals_lem peer [] = refl
withdrawals_lem peer (r ∷ rs) = elim (Bool-cases (involves peer r)) [
  | inl e ↦ rw e (ap (◌∷◌ (cast (encode_withdrawal r))) (withdrawals_lem peer rs))
  | inr e ↦ rw e (withdrawals_lem peer rs)
]

keep-not-involves :
    (peer : NodeId) (rs : List Route)
    → keep (λ r. not (equal r.origin peer) && not (equal r.next_hop peer)) rs
      ≡ keep (λ r. not (involves peer r)) rs
keep-not-involves peer [] = refl
keep-not-involves peer (r ∷ rs) = ground (arith, keep-not-involves peer rs)

-- When a peer goes down, the routes that neither go through it nor come from it stay, in their order,
-- and for each of the others, which go, one withdrawal is broadcast.
pub withdraw_all_from_peer_lem :
    (peer : NodeId) (rt : RoutingTable)
    → (get_all_routes (withdraw_all_from_peer peer rt).0
        ≡ keep (λ r. not (involves peer r)) (get_all_routes rt))
      × ((withdraw_all_from_peer peer rt).1
          ≡ map (λ r. cast (encode_withdrawal r)) (keep (involves peer) (get_all_routes rt)))
unfolding withdraw_all_from_peer
withdraw_all_from_peer_lem peer rt = (
  get_all_routes-remove_all_from_origin peer rt ∙ keep-not-involves peer (get_all_routes rt),
  withdrawals_lem peer (get_all_routes rt),
)

withdraws :
    (now : ℕ) (from : NodeId) (bytes : List ℕ) (m : RouteMessage) (peers : Option (List NodeId))
    (rt : RoutingTable)
    → m.flags ≡ 1
    → handle_message now from bytes m peers rt
      ≡ (remove_route m.prefix m.origin rt, propagate_except bytes from peers)
unfolding handle_message
withdraws now from bytes m peers rt e = rw (e, handle_message) refl

-- A node that receives the withdrawal of a route removes every route to that network with that origin,
-- whichever neighbour it leads through, and sends the withdrawal on, as it came, to all peers but the one
-- that it came from, even if it had no such route. The condition is that the withdrawal fits the format.
pub handle_route_update-encode_withdrawal :
    (now : ℕ) (from : NodeId) (r : Route) (peers : Option (List NodeId)) (rt : RoutingTable)
    → IsRouteMessage (message_of route_flag_withdraw r r.as_path)
    → handle_route_update now from (encode_withdrawal r) peers rt
      ≡ ok (
        remove_route (widen r.destination) r.origin rt,
        propagate_except (encode_withdrawal r) from peers,
      )
handle_route_update-encode_withdrawal now from r peers rt h =
    handle_route_update_ok now from (encode_withdrawal r) _ peers rt
      (decode_route_message-encode_route_message _ h)
    ∙ ap ok (withdraws now from (encode_withdrawal r) _ peers rt refl)
