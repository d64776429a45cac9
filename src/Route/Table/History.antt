-- ===== src/Route/Table/History.antt =====
-- The removals of route/table.go, and sequences of operations on a table.
use magic_tun.Base.{
  ℕ, ◌≡◌, refl, ◌∙◌, inl, inr, Bool, false, not, none, List, [], ◌∷◌, arith, keep, All, In, In-All,
  All-append, All-keep, Bool-cases, Option-cases, pair_eq, ◌==◌, get, HasDistinctKeys,
  put-HasDistinctKeys, delete-HasDistinctKeys, All-get, All-put, All-delete,
}
use magic_tun.Net.Prefix.{IpNet, Key, cidr_key}
use magic_tun.Identity.{NodeId, equal}
use magic_tun.Route.Path
use magic_tun.Route.Table.{
  Route, RoutingTable, same_source, add_route, store, remove_route, filter_all,
  remove_all_from_origin, gc, new_routing_table, set_direct_networks, flatten, get_all_routes,
}
use magic_tun.Route.Table.Invariant.{
  IsEntry, HasDistinctSources, IsBucket, IsTable, add_route-IsTable,
}

keep-HasDistinctSources :
    (p : Route → Bool) (rs : List Route) → HasDistinctSources rs → HasDistinctSources (keep p rs)
keep-HasDistinctSources p [] h = tt
keep-HasDistinctSources p (r ∷ rs) (h, hs) = elim (Bool-cases (p r)) [
  | inl e ↦ rw e (All-keep (λ x. same_source x r ≡ false) p rs h, keep-HasDistinctSources p rs hs)
  | inr e ↦ rw e (keep-HasDistinctSources p rs hs)
]

module _ (self : NodeId) where
  store-buckets :
      (key : Key) (rs : List Route) (m : List (Key × List Route))
      → All (IsEntry self key) rs
      → HasDistinctSources rs
      → All (IsBucket self) m
      → All (IsBucket self) (store key rs m)
  unfolding store
  store-buckets key [] m e d h = All-delete (IsBucket self) key m h
  store-buckets key (r ∷ rs) m e d h = All-put (IsBucket self) key (r ∷ rs) m ((λ z. cc), e, d) h

  store-keys :
      (key : Key) (rs : List Route) (m : List (Key × List Route))
      → HasDistinctKeys m
      → HasDistinctKeys (store key rs m)
  unfolding store
  store-keys key [] m h = delete-HasDistinctKeys key m h
  store-keys key (r ∷ rs) m h = put-HasDistinctKeys key (r ∷ rs) m h

  -- One turn of the filter loops
  turn :
      (key : Key) (kept : List Route) (rest : List (Key × List Route))
      → All (IsEntry self key) kept
      → HasDistinctSources kept
      → All (IsBucket self) rest
      → All (IsBucket self) (elim kept [ [] ↦ rest | r ∷ rs ↦ (key, r ∷ rs) ∷ rest ])
  turn key [] rest e d h = h
  turn key (r ∷ rs) rest e d h = (((λ z. cc), e, d), h)

  filter_all-buckets :
      (p : Route → Bool) (m : List (Key × List Route))
      → All (IsBucket self) m
      → All (IsBucket self) (filter_all p m)
  unfolding filter_all
  filter_all-buckets p [] h = tt
  filter_all-buckets p ((key, rs) ∷ m) ((n, e, d), hs) =
      turn key (keep p rs) (filter_all p m) (All-keep (IsEntry self key) p rs e)
        (keep-HasDistinctSources p rs d) (filter_all-buckets p m hs)

get_turn :
    (k key : Key) (kept : List Route) (rest : List (Key × List Route))
    → (key == k) ≡ false
    → get k (elim kept [ [] ↦ rest | r ∷ rs ↦ (key, r ∷ rs) ∷ rest ]) ≡ get k rest
unfolding get
get_turn k key [] rest e = refl
get_turn k key (r ∷ rs) rest e = rw e refl

get-filter_all-none :
    (p : Route → Bool) (k : Key) (m : List (Key × List Route))
    → get k m ≡ none
    → get k (filter_all p m) ≡ none
unfolding filter_all
get-filter_all-none p k [] h = h
get-filter_all-none p k ((key, rs) ∷ m) h =
    let other : (key == k) ≡ false = unfold get in ground (arith, h) in
    let more : get k m ≡ none = unfold get in ground (arith, h) in
    rw (get_turn k key (keep p rs) (filter_all p m) other) (get-filter_all-none p k m more)

keys_turn :
    (key : Key) (kept : List Route) (rest : List (Key × List Route))
    → get key rest ≡ none
    → HasDistinctKeys rest
    → HasDistinctKeys (elim kept [ [] ↦ rest | r ∷ rs ↦ (key, r ∷ rs) ∷ rest ])
keys_turn key [] rest n h = h
keys_turn key (r ∷ rs) rest n h = (n, h)

filter_all-keys :
    (p : Route → Bool) (m : List (Key × List Route))
    → HasDistinctKeys m
    → HasDistinctKeys (filter_all p m)
unfolding filter_all
filter_all-keys p [] h = tt
filter_all-keys p ((key, rs) ∷ m) (n, h) =
    keys_turn key (keep p rs) (filter_all p m) (get-filter_all-none p key m n)
      (filter_all-keys p m h)

pub remove_route-IsTable :
    (dest : IpNet) (origin : NodeId) (rt : RoutingTable)
    → IsTable rt
    → IsTable (remove_route dest origin rt)
unfolding remove_route
remove_route-IsTable dest origin rt h = elim (Option-cases (get key rt.routes)) [
  | inl e ↦ rw (e, remove_route) h
  | inr (rs, e) ↦
      let (n, entries, distinct) = All-get (IsBucket rt.self_id) key rs rt.routes h.buckets e in
      rw (e, remove_route)
        (record {
          buckets =
              store-buckets rt.self_id key (keep p rs) rt.routes
                (All-keep (IsEntry rt.self_id key) p rs entries)
                (keep-HasDistinctSources p rs distinct) h.buckets;
          keys = store-keys rt.self_id key (keep p rs) rt.routes h.keys;
        })
]
  where
    key : Key
    key = cidr_key dest

    p : Route → Bool
    p r = not (equal r.origin origin)

filter_all-IsTable :
    (p : Route → Bool) (rt : RoutingTable)
    → IsTable rt
    → IsTable (record rt { routes = filter_all p rt.routes })
filter_all-IsTable p rt h = record {
  buckets = filter_all-buckets rt.self_id p rt.routes h.buckets;
  keys = filter_all-keys p rt.routes h.keys;
}

-- The calls that change a table.
pub data Op : Type 0 where
  adds : ℕ → Route → Op
  removes : IpNet → NodeId → Op
  drops : NodeId → Op
  collects : ℕ → ℕ → Op
  sets : List IpNet → Op

unfoldable pub step : RoutingTable → Op → RoutingTable
step rt (adds now r) = (add_route now r rt).1
step rt (removes dest origin) = remove_route dest origin rt
step rt (drops origin) = remove_all_from_origin origin rt
step rt (collects now ttl) = (gc now ttl rt).1
step rt (sets nets) = set_direct_networks rt nets

unfoldable pub run : RoutingTable → List Op → RoutingTable
run rt [] = rt
run rt (op ∷ ops) = run (step rt op) ops

-- Every operation keeps a table well formed: no empty entry and no key twice, each route under its own
-- key with a path free of this node, and one route at most for an origin and a next hop.
pub step-IsTable : (rt : RoutingTable) (op : Op) → IsTable rt → IsTable (step rt op)
unfolding step remove_all_from_origin gc
step-IsTable rt (adds now r) h = add_route-IsTable now r rt h
step-IsTable rt (removes dest origin) h = remove_route-IsTable dest origin rt h
step-IsTable rt (drops origin) h = filter_all-IsTable _ rt h
step-IsTable rt (collects now ttl) h = filter_all-IsTable _ rt h
step-IsTable rt (sets nets) h = record { buckets = h.buckets; keys = h.keys }

run-IsTable : (rt : RoutingTable) (ops : List Op) → IsTable rt → IsTable (run rt ops)
unfolding run
run-IsTable rt [] h = h
run-IsTable rt (op ∷ ops) h = run-IsTable (step rt op) ops (step-IsTable rt op h)

pub self_id-step : (rt : RoutingTable) (op : Op) → (step rt op).self_id ≡ rt.self_id
unfolding step add_route remove_route remove_all_from_origin gc
self_id-step rt (adds now r) = ground arith
self_id-step rt (removes dest origin) = ground arith
self_id-step rt (drops origin) = refl
self_id-step rt (collects now ttl) = refl
self_id-step rt (sets nets) = refl

self_id-run : (rt : RoutingTable) (ops : List Op) → (run rt ops).self_id ≡ rt.self_id
unfolding run
self_id-run rt [] = refl
self_id-run rt (op ∷ ops) = self_id-run (step rt op) ops ∙ self_id-step rt op

loop_free :
    (self : NodeId) (m : List (Key × List Route))
    → All (IsBucket self) m
    → All (λ r. Path.contains r.as_path self ≡ false) (flatten m)
unfolding flatten
loop_free self [] h = tt
loop_free self ((key, rs) ∷ m) ((n, e, d), hs) =
    All-append (λ r. Path.contains r.as_path self ≡ false) rs (flatten m) (entries rs e)
      (loop_free self m hs)
  where
    entries :
        (xs : List Route)
        → All (IsEntry self key) xs
        → All (λ r. Path.contains r.as_path self ≡ false) xs
    entries [] a = tt
    entries (x ∷ xs) (a, more) = (a.1, entries xs more)

-- Whatever was called on a new table, no route in it goes through the node itself.
pub run_loop_free :
    (self : NodeId) (ops : List Op) (r : Route)
    → In r (get_all_routes (run (new_routing_table self) ops))
    → Path.contains r.as_path self ≡ false
run_loop_free self ops r i =
    let rt : RoutingTable = run (new_routing_table self) ops in
    let valid : IsTable rt =
      run-IsTable (new_routing_table self) ops (record { buckets = tt; keys = tt }) in
    rw (self_id-run (new_routing_table self) ops) at (
      In-All (λ x. Path.contains x.as_path rt.self_id ≡ false) r (get_all_routes rt)
        (loop_free rt.self_id rt.routes valid.buckets) i)
