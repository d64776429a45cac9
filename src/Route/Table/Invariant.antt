-- ===== src/Route/Table/Invariant.antt =====
-- What every operation of the routing table keeps.
use magic_tun.Base.{
  ℕ, ◌≡◌, ◌≢◌, refl, ◌↔◌, inl, inr, Bool, true, false, not, ◌||◌, Option, none, some, List, [], ◌∷◌,
  ◌++◌, arith, eqb, All, All-append, Bool-cases, Option-cases, bytes_beq_iff, pair_eq, get,
  HasDistinctKeys, put-HasDistinctKeys, All-get, All-put,
}
use magic_tun.Net.Prefix.{Key, cidr_key}
use magic_tun.Identity.{NodeId, equal}
use magic_tun.Route.Path
use magic_tun.Route.Table.{Route, RoutingTable, same_source, replace, add_to, add_route}

-- A route under the key of its own destination, whose path does not go through this node.
abbrev pub IsEntry : NodeId → Key → Route → Type 0
IsEntry self key r = (cidr_key r.destination ≡ key) × (Path.contains r.as_path self ≡ false)

-- One route at most for each pair of origin and next hop.
abbrev pub HasDistinctSources : List Route → Type 0
HasDistinctSources [] = Unit
HasDistinctSources (r ∷ rs) = All (λ x. same_source x r ≡ false) rs × HasDistinctSources rs

abbrev pub IsBucket : NodeId → Key × List Route → Type 0
IsBucket self (key, rs) = (rs ≢ []) × All (IsEntry self key) rs × HasDistinctSources rs

pub record IsTable (rt : RoutingTable) : Type 0 where
  pub buckets : All (IsBucket rt.self_id) rt.routes
  pub keys : HasDistinctKeys rt.routes

pub same_source_iff :
    (a b : Route) → (same_source a b ≡ true) ↔ ((a.origin ≡ b.origin) × (a.next_hop ≡ b.next_hop))
same_source_iff a b =
    ground (arith, bytes_beq_iff a.origin b.origin, bytes_beq_iff a.next_hop b.next_hop)

-- A property that the replacement of a route keeps holds of the whole slice after it.
module _ (P : Route → Type 0) (now : ℕ) (r : Route)
    (taken : (er : Route) → P er → same_source er r ≡ true → P r)
    (touched : (er : Route) → P er → P (record er { timestamp = now })) where
  replace-All :
      (rs rs' : List Route) (b : Bool) → All P rs → replace now r rs ≡ some (b, rs') → All P rs'
  unfolding replace
  replace-All [] rs' b h e = cc
  replace-All (er ∷ rs) rs' b (h, hs) e = elim (Bool-cases (same_source er r)) [
    | inl same ↦
        elim (Bool-cases (not (eqb er.cost r.cost) || not (eqb er.local_pref r.local_pref))) [
          | inl changed ↦
              let q : r ∷ rs ≡ rs' = ground (arith, same, changed, e) in
              rw (← q) (taken er h same, hs)
          | inr equal ↦
              let q : record er { timestamp = now } ∷ rs ≡ rs' = ground (arith, same, equal, e) in
              rw (← q) (touched er h, hs)
        ]
    | inr other ↦ elim (Option-cases (replace now r rs)) [
      | inl q ↦ cc (rw (other, q) at e)
      | inr ((b', rest), q) ↦
          let same : er ∷ rest ≡ rs' = ground (arith, other, q, e) in
          rw (← same) (h, replace-All rs rest b' hs q)
    ]
  ]

module _ (now : ℕ) (r : Route) where
  replace_source :
      (y : Route) (rs rs' : List Route) (b : Bool)
      → All (λ x. same_source x y ≡ false) rs
      → replace now r rs ≡ some (b, rs')
      → All (λ x. same_source x y ≡ false) rs'
  replace_source y =
      replace-All (λ x. same_source x y ≡ false) now r
        (λ er h same.
          ground (arith, same_source_iff er y, same_source_iff er r, same_source_iff r y))
        (λ er h. h)

  replace-HasDistinctSources :
      (rs rs' : List Route) (b : Bool)
      → HasDistinctSources rs
      → replace now r rs ≡ some (b, rs')
      → HasDistinctSources rs' × (rs' ≢ [])
  unfolding replace
  replace-HasDistinctSources [] rs' b h e = cc
  replace-HasDistinctSources (er ∷ rs) rs' b (h, hs) e = elim (Bool-cases (same_source er r)) [
    | inl same ↦
        elim (Bool-cases (not (eqb er.cost r.cost) || not (eqb er.local_pref r.local_pref))) [
          | inl changed ↦
              let q : r ∷ rs ≡ rs' = ground (arith, same, changed, e) in
              rw (← q) ((move er same rs h, hs), λ z. cc)
          | inr equal ↦
              let q : record er { timestamp = now } ∷ rs ≡ rs' = ground (arith, same, equal, e) in
              rw (← q) ((h, hs), λ z. cc)
        ]
    | inr other ↦ elim (Option-cases (replace now r rs)) [
      | inl q ↦ cc (rw (other, q) at e)
      | inr ((b', rest), q) ↦
          let same : er ∷ rest ≡ rs' = ground (arith, other, q, e) in
          rw (← same) (
            (replace_source er rs rest b' h q, (replace-HasDistinctSources rs rest b' hs q).0),
            λ z. cc,
          )
    ]
  ]
    where
      move :
          (er : Route)
          → same_source er r ≡ true
          → (xs : List Route) → All (λ x. same_source x er ≡ false) xs
          → All (λ x. same_source x r ≡ false) xs
      move er same [] a = tt
      move er same (x ∷ xs) (a, more) = (
        ground (arith, same_source_iff x er, same_source_iff er r, same_source_iff x r),
        move er same xs more,
      )

  replace-none : (rs : List Route) → replace now r rs ≡ none → All (λ x. same_source x r ≡ false) rs
  unfolding replace
  replace-none [] e = tt
  replace-none (er ∷ rs) e = elim (Bool-cases (same_source er r)) [
    | inl same ↦ cc (rw same at e)
    | inr other ↦ elim (Option-cases (replace now r rs)) [
      | inl q ↦ (other, replace-none rs q)
      | inr ((b', rest), q) ↦ cc (rw (other, q) at e)
    ]
  ]

  distinct_snoc :
      (rs : List Route)
      → HasDistinctSources rs
      → All (λ x. same_source x r ≡ false) rs
      → HasDistinctSources (rs ++ r ∷ [])
  distinct_snoc [] h a = (tt, tt)
  distinct_snoc (x ∷ rs) (h, hs) (a, more) = (
    All-append (λ y. same_source y x ≡ false) rs (r ∷ []) h
        (ground (arith, same_source_iff x r, same_source_iff r x), tt),
    distinct_snoc rs hs more,
  )

  add_to-IsBucket :
      (self : NodeId) (key : Key) (o : Option (List Route))
      → IsEntry self key r
      → ((rs : List Route) → o ≡ some rs → IsBucket self (key, rs))
      → IsBucket self (key, (add_to now r o).1)
  unfolding add_to
  add_to-IsBucket self key none entry old = (λ z. cc, (entry, tt), (tt, tt))
  add_to-IsBucket self key (some rs) entry old =
      let (ne, entries, distinct) = old rs refl in
      elim (Option-cases (replace now r rs)) [
        | inl q ↦
            rw (q, add_to)
              (
                snoc_ne rs,
                All-append (IsEntry self key) rs (r ∷ []) entries (entry, tt),
                distinct_snoc rs distinct (replace-none rs q),
              )
        | inr ((b, rs'), q) ↦
            rw (q, add_to)
              (let (d, n) = replace-HasDistinctSources rs rs' b distinct q in
                (
                  n,
                  replace-All (IsEntry self key) now r (λ er _ _. entry) (λ er h. h) rs rs' b
                      entries q,
                  d,
                ))
      ]
    where
      snoc_ne : (xs : List Route) → xs ++ r ∷ [] ≢ []
      snoc_ne [] z = cc
      snoc_ne (x ∷ xs) z = cc

pub add_route-IsTable :
    (now : ℕ) (r : Route) (rt : RoutingTable) → IsTable rt → IsTable (add_route now r rt).1
unfolding add_route
add_route-IsTable now r rt h = elim (Bool-cases (Path.contains r.as_path rt.self_id)) [
  | inl loops ↦ rw loops h
  | inr free ↦ rw free (record {
    buckets =
        All-put (IsBucket rt.self_id) key _ rt.routes
          (add_to-IsBucket now (record r { timestamp = now }) rt.self_id key (get key rt.routes)
            (refl, free) (λ rs e. All-get (IsBucket rt.self_id) key rs rt.routes h.buckets e))
          h.buckets;
    keys = put-HasDistinctKeys key _ rt.routes h.keys;
  })
]
  where
    key : Key
    key = cidr_key r.destination
