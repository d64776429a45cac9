-- ===== src/Route/Table/Lookup.antt =====
-- What Lookup of route/table.go answers.
use magic_tun.Base.{
  ℕ, ◌<◌, ◌≡◌, refl, ap, sym, subst, ◌∙◌, ◌⊎◌, inl, inr, ◌↔◌, true, false, Option, none, some, List,
  [], ◌∷◌, ◌++◌, arith, All, In, In-All, Bool-cases,
}
use magic_tun.Net.Mask.{mask_size}
use magic_tun.Net.Prefix.{IpNet, Key, contains}
use magic_tun.Route.Table.{
  Route, RoutingTable, Match, consider, scan_bucket, scan, flatten, find_direct, lookup,
  get_all_routes, direct_route,
}
use magic_tun.Route.Table.Search.{
  IsMatch, Dominates, consider-IsMatch, consider_new, consider_old, consider_origin,
}

-- The loop over a list of routes, from any state of the search.
module _ (ip : List ℕ) where
  scan_bucket-IsMatch :
      (st : Match) (rs : List Route) → IsMatch ip st → IsMatch ip (scan_bucket ip st rs)
  unfolding scan_bucket
  scan_bucket-IsMatch st [] h = h
  scan_bucket-IsMatch st (r ∷ rs) h =
      scan_bucket-IsMatch (consider ip st r) rs (consider-IsMatch ip st r h)

  scan_bucket_old :
      (st : Match) (rs : List Route) (x : Route)
      → IsMatch ip st
      → Dominates ip st x
      → Dominates ip (scan_bucket ip st rs) x
  unfolding scan_bucket
  scan_bucket_old st [] x h d = d
  scan_bucket_old st (r ∷ rs) x h d =
      scan_bucket_old (consider ip st r) rs x (consider-IsMatch ip st r h)
        (consider_old ip st r x h d)

  scan_bucket-Dominates :
      (st : Match) (rs : List Route) → IsMatch ip st → All (Dominates ip (scan_bucket ip st rs)) rs
  unfolding scan_bucket
  scan_bucket-Dominates st [] h = tt
  scan_bucket-Dominates st (r ∷ rs) h =
      let h' : IsMatch ip (consider ip st r) = consider-IsMatch ip st r h in
      (
        scan_bucket_old (consider ip st r) rs r h' (consider_new ip st r h),
        scan_bucket-Dominates (consider ip st r) rs h',
      )

  scan_bucket_origin :
      (best : Option Route) (l : ℕ) (rs : List Route) (x : Route)
      → (scan_bucket ip (best, l) rs).0 ≡ some x
      → In x rs ⊎ (best ≡ some x)
  unfolding scan_bucket
  scan_bucket_origin best l [] x e = inr e
  scan_bucket_origin best l (r ∷ rs) x e =
      elim (scan_bucket_origin (consider ip (best, l) r).0 (consider ip (best, l) r).1 rs x e) [
        | inl i ↦ inl (inr i)
        | inr q ↦ elim (consider_origin ip best l r x q) [
          | inl same ↦ inl (inl same)
          | inr old ↦ inr old
        ]
      ]

  scan_bucket-append :
      (st : Match) (xs ys : List Route)
      → scan_bucket ip st (xs ++ ys) ≡ scan_bucket ip (scan_bucket ip st xs) ys
  unfolding scan_bucket
  scan_bucket-append st [] ys = refl
  scan_bucket-append st (x ∷ xs) ys = scan_bucket-append (consider ip st x) xs ys

  scan-flatten :
      (st : Match) (m : List (Key × List Route)) → scan ip st m ≡ scan_bucket ip st (flatten m)
  unfolding scan flatten
  scan-flatten st [] = unfold scan_bucket in refl
  scan-flatten st ((key, rs) ∷ m) =
      scan-flatten (scan_bucket ip st rs) m ∙ sym (scan_bucket-append st rs (flatten m))

  -- Routes that do not match, or have a mask of length 0, leave the empty match as it is.
  scan_bucket-none :
      (rs : List Route) → All (Dominates ip (none, 0)) rs → scan_bucket ip (none, 0) rs ≡ (none, 0)
  unfolding scan_bucket
  scan_bucket-none [] h = refl
  scan_bucket-none (r ∷ rs) (h, hs) =
      let same : consider ip (none, 0) r ≡ (none, 0) = unfold consider in ground (arith, h) in
      rw same (scan_bucket-none rs hs)

  IsMatch-some :
      (best : Option Route) (l : ℕ) (x : Route)
      → best ≡ some x
      → IsMatch ip (best, l)
      → (contains x.destination ip ≡ true)
        × (0 < mask_size x.destination.mask)
        × (l ≡ mask_size x.destination.mask)
  IsMatch-some none l x e h = cc
  IsMatch-some (some b) l x e h =
      let q : b ≡ x = ground (arith, e) in
      subst
        (λ (y : Route).
          (contains y.destination ip ≡ true)
          × (0 < mask_size y.destination.mask)
          × (l ≡ mask_size y.destination.mask))
        q (h.0, omega arith, sym h.1)

find_direct_lem :
    (ip : List ℕ) (nws : List IpNet)
    → ((find_direct ip nws ≡ none) × All (λ nw. contains nw ip ≡ false) nws)
      ⊎ ((nw : IpNet) × (find_direct ip nws ≡ some nw) × In nw nws × (contains nw ip ≡ true))
unfolding find_direct
find_direct_lem ip [] = inl (refl, tt)
find_direct_lem ip (nw ∷ nws) = elim (Bool-cases (contains nw ip)) [
  | inl c ↦ inr (nw, rw c, inl refl, c)
  | inr c ↦ elim (find_direct_lem ip nws) [
    | inl (e, all) ↦ inl (rw (c, e) refl, (c, all))
    | inr (n, e, i, cn) ↦ inr (n, rw (c, e) refl, inr i, cn)
  ]
]

lookup_scan :
    (rt : RoutingTable) (ip : List ℕ)
    → find_direct ip rt.direct_networks ≡ none
    → lookup rt ip ≡ (scan_bucket ip (none, 0) (get_all_routes rt)).0
unfolding lookup
lookup_scan rt ip e = rw (e, lookup) (rw (scan-flatten ip (none, 0) rt.routes) refl)

lookup_found :
    (rt : RoutingTable) (ip : List ℕ) (nw : IpNet)
    → find_direct ip rt.direct_networks ≡ some nw
    → lookup rt ip ≡ some (direct_route nw)
unfolding lookup
lookup_found rt ip nw e = rw (e, lookup) refl

no_direct :
    (ip : List ℕ) (nws : List IpNet)
    → All (λ nw. contains nw ip ≡ false) nws
    → find_direct ip nws ≡ none
no_direct ip nws all = elim (find_direct_lem ip nws) [
  | inl (e, _) ↦ e
  | inr (n, _, i, c) ↦ cc (c, In-All (λ m. contains m ip ≡ false) n nws all i)
]

-- An address in a network of this node gets a route with the zero next hop, whatever routes were
-- learned.
pub lookup_direct :
    (rt : RoutingTable) (ip : List ℕ) (nw : IpNet)
    → In nw rt.direct_networks
    → contains nw ip ≡ true
    → (found : IpNet) × (lookup rt ip ≡ some (direct_route found))
      × In found rt.direct_networks
      × (contains found ip ≡ true)
lookup_direct rt ip nw i c = elim (find_direct_lem ip rt.direct_networks) [
  | inl (e, all) ↦ cc (c, In-All (λ n. contains n ip ≡ false) nw rt.direct_networks all i)
  | inr (n, e, j, d) ↦ (n, lookup_found rt ip n e, j, d)
]

-- Where no network of this node has the address, a route that Lookup returns is in the table, its
-- network has the address, and each other route of the table with the address in its network has a
-- shorter mask, or a mask of the same length and no better path. The order in which the map is visited
-- decides nothing but ties.
pub lookup_best :
    (rt : RoutingTable) (ip : List ℕ) (r : Route)
    → All (λ nw. contains nw ip ≡ false) rt.direct_networks
    → lookup rt ip ≡ some r
    → In r (get_all_routes rt)
      × (contains r.destination ip ≡ true)
      × (0 < mask_size r.destination.mask)
      × All (Dominates ip (some r, mask_size r.destination.mask)) (get_all_routes rt)
lookup_best rt ip r none_direct found = (
  elim (scan_bucket_origin ip none 0 rs r e) [ inl i ↦ i | inr q ↦ absurd (cc q) ],
  facts.0,
  facts.1,
  rw (← same) (scan_bucket-Dominates ip (none, 0) rs refl),
)
  where
    rs : List Route
    rs = get_all_routes rt

    e : (scan_bucket ip (none, 0) rs).0 ≡ some r
    e = sym (lookup_scan rt ip (no_direct ip rt.direct_networks none_direct)) ∙ found

    facts :
        (contains r.destination ip ≡ true)
        × (0 < mask_size r.destination.mask)
        × ((scan_bucket ip (none, 0) rs).1 ≡ mask_size r.destination.mask)
    facts = IsMatch-some ip _ _ r e (scan_bucket-IsMatch ip (none, 0) rs refl)

    same : scan_bucket ip (none, 0) rs ≡ (some r, mask_size r.destination.mask)
    same = λ i. (e i, facts.2 i)

-- Lookup finds nothing exactly where no network of this node has the address and each route of the
-- table misses it or has a mask of length 0: a learned default route is never used.
pub lookup-none :
    (rt : RoutingTable) (ip : List ℕ)
    → (lookup rt ip ≡ none) ↔ (
        All (λ nw. contains nw ip ≡ false) rt.direct_networks
        × All (Dominates ip (none, 0)) (get_all_routes rt))
lookup-none rt ip = (there, back)
  where
    rs : List Route
    rs = get_all_routes rt

    there :
        lookup rt ip ≡ none
        → All (λ nw. contains nw ip ≡ false) rt.direct_networks × All (Dominates ip (none, 0)) rs
    there h = elim (find_direct_lem ip rt.direct_networks) [
      | inr (n, e, i, c) ↦ cc (h, lookup_found rt ip n e)
      | inl (e, all) ↦
          let q : (scan_bucket ip (none, 0) rs).0 ≡ none = sym (lookup_scan rt ip e) ∙ h in
          let pair : scan_bucket ip (none, 0) rs ≡ (none, (scan_bucket ip (none, 0) rs).1) =
            λ i. (q i, (scan_bucket ip (none, 0) rs).1) in
          (
            all,
            subst (λ st. All (Dominates ip st) rs) pair
                (scan_bucket-Dominates ip (none, 0) rs refl),
          )
    ]

    back :
        All (λ nw. contains nw ip ≡ false) rt.direct_networks × All (Dominates ip (none, 0)) rs
        → lookup rt ip ≡ none
    back (all, zeros) =
        lookup_scan rt ip (no_direct ip rt.direct_networks all)
        ∙ ap (λ (st : Match). st.0) (scan_bucket-none ip rs zeros)
