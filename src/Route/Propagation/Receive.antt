-- ===== src/Route/Propagation/Receive.antt =====
-- What becomes of an advertisement at the node that receives it: HandleRouteUpdate of
-- route/propagation.go.
use magic_tun.Base.{
  ℕ, ◌+◌, ◌%◌, ◌^◌, ◌≡◌, refl, sym, ap, ◌∙◌, inl, inr, false, not, ◌||◌, Option, none, some, List,
  [], ◌∷◌, ok, if◌then◌else◌, eqb, leb, length, All, bit_and, Bool-cases, Result-cases,
  ok_injective,
}
use magic_tun.Net.Prefix.{IpNet}
use magic_tun.Identity.{NodeId, equal}
use magic_tun.Wire.Route.{RouteMessage, route_flag_update, decode_route_message}
use magic_tun.Wire.Route.RoundTrip.{
  IsRouteMessage, widen, decode_route_message-encode_route_message,
}
use magic_tun.Route.Path
use magic_tun.Route.Table.{Route, RoutingTable, add_route, remove_route}
use magic_tun.Route.Table.Invariant.{IsTable, add_route-IsTable}
use magic_tun.Route.Table.History.{adds, removes, step, self_id-step, remove_route-IsTable}
use magic_tun.Route.Propagation.{
  Effect, sent, cast, message_of, encode_route_with_self, send_except, propagate_except, received,
  accept, handle_message, handle_route_update,
}

-- What `to` does with the advertisement of the route `r` by its neighbour `via`.
abbrev pub taken_over :
    ℕ → NodeId → Route → Option (List NodeId) → RoutingTable → RoutingTable × List Effect
taken_over now via r peers rt =
    let learned : Route = record {
      destination = widen r.destination;
      next_hop = via;
      as_path = via ∷ r.as_path;
      cost = (r.cost + 1) % 2 ^ 32;
      origin = r.origin;
      local_pref = r.local_pref;
      timestamp = 0;
    } in
    let (added, rt') = add_route now learned rt in
    if Path.contains (via ∷ r.as_path) rt.self_id || leb 32 (length (via ∷ r.as_path))
    then (rt, [])
    else if added
    then (rt', propagate_except (encode_route_with_self rt.self_id learned) via peers)
    else (rt', [])

pub handle_route_update_ok :
    (now : ℕ) (from : NodeId) (bytes : List ℕ) (m : RouteMessage) (peers : Option (List NodeId))
    (rt : RoutingTable)
    → decode_route_message bytes ≡ ok m
    → handle_route_update now from bytes peers rt ≡ ok (handle_message now from bytes m peers rt)
unfolding handle_route_update
handle_route_update_ok now from bytes m peers rt e = rw (e, handle_route_update) refl

-- The message that the decoder gives of such an advertisement.
abbrev advertised : NodeId → Route → RouteMessage
advertised via r =
    let m = message_of route_flag_update r (via ∷ r.as_path) in record m { prefix = widen m.prefix }

path_self : (via : NodeId) (r : Route) → Path.from_wire (advertised via r).as_path ≡ via ∷ r.as_path
path_self via r =
    Path.from_wire_self (Path.to_wire (via ∷ r.as_path)) ∙ Path.to_wire_self (via ∷ r.as_path)

handle_message_lem :
    (now : ℕ) (via : NodeId) (bytes : List ℕ) (r : Route) (peers : Option (List NodeId))
    (rt : RoutingTable)
    → handle_message now via bytes (advertised via r) peers rt ≡ taken_over now via r peers rt
unfolding handle_message accept
handle_message_lem now via bytes r peers rt =
    rw (path_self via r) (elim (Bool-cases (Path.contains (via ∷ r.as_path) rt.self_id)) [
      | inl loops ↦ rw loops refl
      | inr free ↦ rw free (elim (Bool-cases (leb 32 (length (via ∷ r.as_path)))) [
        | inl long ↦ rw long refl
        | inr short ↦ rw short refl
      ])
    ])

-- A node that receives its neighbour's advertisement of a route ignores it if the path, with the
-- neighbour in front, goes through the node itself or has 32 hops or more. Otherwise it adds the route
-- with that path, the neighbour as next hop and a cost higher by one, and, if the table changed, sends
-- it on, with itself in front, to all peers but that neighbour. The condition is that the advertisement
-- fits the format.
pub handle_route_update-encode_route_with_self :
    (now : ℕ) (via : NodeId) (r : Route) (peers : Option (List NodeId)) (rt : RoutingTable)
    → IsRouteMessage (message_of route_flag_update r (via ∷ r.as_path))
    → handle_route_update now via (encode_route_with_self via r) peers rt
      ≡ ok (taken_over now via r peers rt)
handle_route_update-encode_route_with_self now via r peers rt h =
    let bytes = encode_route_with_self via r in
    let read = decode_route_message-encode_route_message _ h in
    handle_route_update_ok now via bytes _ peers rt read
    ∙ ap ok (handle_message_lem now via bytes r peers rt)

-- No effect goes to a peer.
abbrev pub Spares : NodeId → Effect → Type 0
Spares peer (sent id msg) = equal id peer ≡ false
Spares peer (cast msg) = ⊥

send_except-Spares :
    (msg : List ℕ) (except : NodeId) (ids : List NodeId)
    → All (Spares except) (send_except msg except ids)
unfolding send_except
send_except-Spares msg except [] = tt
send_except-Spares msg except (id ∷ ids) = elim (Bool-cases (equal id except)) [
  | inl e ↦ rw e (send_except-Spares msg except ids)
  | inr e ↦ rw e (e, send_except-Spares msg except ids)
]

propagate_except-Spares :
    (msg : List ℕ) (except : NodeId) (peers : Option (List NodeId))
    → All (Spares except) (propagate_except msg except peers)
propagate_except-Spares msg except none = tt
propagate_except-Spares msg except (some ids) = send_except-Spares msg except ids

-- What a handled update leaves behind: a well-formed table of the same node, and no message to the
-- neighbour that sent the update.
abbrev pub IsHandled : NodeId → NodeId → RoutingTable × List Effect → Type 0
IsHandled self from (rt, out) = IsTable rt × (rt.self_id ≡ self) × All (Spares from) out

self_id-add_route :
    (now : ℕ) (r : Route) (rt : RoutingTable) → (add_route now r rt).1.self_id ≡ rt.self_id
unfolding step
self_id-add_route now r rt = self_id-step rt (adds now r)

self_id-remove_route :
    (dest : IpNet) (origin : NodeId) (rt : RoutingTable)
    → (remove_route dest origin rt).self_id ≡ rt.self_id
unfolding step
self_id-remove_route dest origin rt = self_id-step rt (removes dest origin)

accept-IsHandled :
    (now : ℕ) (from : NodeId) (m : RouteMessage) (peers : Option (List NodeId)) (rt : RoutingTable)
    → IsTable rt
    → IsHandled rt.self_id from (accept now from m peers rt)
unfolding accept
accept-IsHandled now from m peers rt h =
    let r = received from m in
    let good = add_route-IsTable now r rt h in
    elim (Bool-cases (Path.contains r.as_path rt.self_id)) [
      | inl loops ↦ rw (loops, accept) (h, refl, tt)
      | inr free ↦
          rw (free, accept)
            (elim (Bool-cases (leb 32 (Path.len r.as_path))) [
              | inl long ↦ rw long (h, refl, tt)
              | inr short ↦ rw short (elim (Bool-cases (add_route now r rt).0) [
                | inl changed ↦ rw changed (
                  good,
                  self_id-add_route now r rt,
                  propagate_except-Spares (encode_route_with_self rt.self_id r) from peers,
                )
                | inr same ↦ rw same (good, self_id-add_route now r rt, tt)
              ])
            ])
    ]

handle_message-IsHandled :
    (now : ℕ) (from : NodeId) (bytes : List ℕ) (m : RouteMessage) (peers : Option (List NodeId))
    (rt : RoutingTable)
    → IsTable rt
    → IsHandled rt.self_id from (handle_message now from bytes m peers rt)
unfolding handle_message
handle_message-IsHandled now from bytes m peers rt h =
    elim (Bool-cases (not (eqb (bit_and m.flags 1) 0))) [
      | inl withdraws ↦
          rw (withdraws, handle_message)
            (
              remove_route-IsTable m.prefix m.origin rt h,
              self_id-remove_route m.prefix m.origin rt,
              propagate_except-Spares bytes from peers,
            )
      | inr updates ↦ rw (updates, handle_message) (accept-IsHandled now from m peers rt h)
    ]

-- Whatever an update says, from whichever neighbour: if it is handled without a panic, the table stays
-- well formed and the node's own, and no message goes back to that neighbour.
pub handle_route_update-IsHandled :
    (now : ℕ) (from : NodeId) (bytes : List ℕ) (peers : Option (List NodeId)) (rt : RoutingTable)
    (done : RoutingTable × List Effect)
    → IsTable rt
    → handle_route_update now from bytes peers rt ≡ ok done
    → IsHandled rt.self_id from done
unfolding handle_route_update
handle_route_update-IsHandled now from bytes peers rt done h e =
    elim (Result-cases (decode_route_message bytes)) [
      | inl (m, q) ↦
          let same : handle_message now from bytes m peers rt ≡ done =
            ok_injective (sym (handle_route_update_ok now from bytes m peers rt q) ∙ e) in
          rw (← same) (handle_message-IsHandled now from bytes m peers rt h)
      | inr (inl (x, q)) ↦
          let same : (rt, []) ≡ done = ok_injective (rw (q, handle_route_update) at e) in
          rw (← same) (h, refl, tt)
      | inr (inr q) ↦ cc (rw (q, handle_route_update) at e)
    ]
