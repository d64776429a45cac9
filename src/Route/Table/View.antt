-- ===== src/Route/Table/View.antt =====
-- The table seen as the list of its routes: what the filters and the counts do to it.
use magic_tun.Base.{
  ℕ, ◌+◌, ◌≡◌, refl, ap, sym, ◌∙◌, Bool, not, ◌&&◌, List, [], ◌∷◌, ◌++◌, arith, length, keep,
  length-append, inl, inr, Bool-cases,
}
use magic_tun.Net.Prefix.{Key}
use magic_tun.Identity.{NodeId, equal}
use magic_tun.Route.Table.{
  Route, RoutingTable, filter_all, flatten, remove_all_from_origin, is_fresh, count_stale,
  count_all_stale, gc, count_routes, size, get_all_routes,
}

keep-append {ℓ} :
    {A : Type ℓ} (p : A → Bool) (xs ys : List A) → keep p (xs ++ ys) ≡ keep p xs ++ keep p ys
keep-append p [] ys = refl
keep-append p (x ∷ xs) ys = elim (Bool-cases (p x)) [
  | inl e ↦ rw e (ap (◌∷◌ x) (keep-append p xs ys))
  | inr e ↦ rw e (keep-append p xs ys)
]

-- One turn of the filter loop: deleting an empty slice or storing the others leaves the same routes.
flatten_turn :
    (key : Key) (kept : List Route) (rest : List (Key × List Route))
    → flatten (elim kept [ [] ↦ rest | r ∷ rs ↦ (key, r ∷ rs) ∷ rest ]) ≡ kept ++ flatten rest
unfolding flatten
flatten_turn key [] rest = refl
flatten_turn key (r ∷ rs) rest = refl

pub flatten-filter_all :
    (p : Route → Bool) (m : List (Key × List Route)) → flatten (filter_all p m) ≡ keep p (flatten m)
unfolding filter_all flatten
flatten-filter_all p [] = refl
flatten-filter_all p ((key, rs) ∷ m) =
    flatten_turn key (keep p rs) (filter_all p m)
    ∙ ap (◌++◌ (keep p rs)) (flatten-filter_all p m)
    ∙ sym (keep-append p rs (flatten m))

pub count_routes-flatten : (m : List (Key × List Route)) → count_routes m ≡ length (flatten m)
unfolding count_routes flatten
count_routes-flatten [] = refl
count_routes-flatten ((key, rs) ∷ m) =
    omega (arith, length-append rs (flatten m), count_routes-flatten m)

count_stale_lem :
    (now ttl : ℕ) (rs : List Route)
    → count_stale now ttl rs + length (keep (is_fresh now ttl) rs) ≡ length rs
unfolding count_stale
count_stale_lem now ttl [] = omega arith
count_stale_lem now ttl (r ∷ rs) = ground (arith, count_stale_lem now ttl rs)

count_all_stale_lem :
    (now ttl : ℕ) (m : List (Key × List Route))
    → count_all_stale now ttl m + length (keep (is_fresh now ttl) (flatten m)) ≡ length (flatten m)
unfolding count_all_stale flatten
count_all_stale_lem now ttl [] = omega arith
count_all_stale_lem now ttl ((key, rs) ∷ m) = rw (keep-append (is_fresh now ttl) rs (flatten m)) (
    omega (
      arith,
      length-append rs (flatten m),
      length-append (keep (is_fresh now ttl) rs) (keep (is_fresh now ttl) (flatten m)),
      count_stale_lem now ttl rs,
      count_all_stale_lem now ttl m,
    ))

-- GC keeps exactly the routes that are younger than the TTL, in their order, and returns the number of
-- the others: that number and the new size make up the old size.
pub gc_lem :
    (now ttl : ℕ) (rt : RoutingTable)
    → (get_all_routes (gc now ttl rt).1 ≡ keep (is_fresh now ttl) (get_all_routes rt))
      × ((gc now ttl rt).0 + size (gc now ttl rt).1 ≡ size rt)
unfolding gc
gc_lem now ttl rt = (
  flatten-filter_all (is_fresh now ttl) rt.routes,
  omega (
    arith,
    count_routes-flatten rt.routes,
    count_routes-flatten (filter_all (is_fresh now ttl) rt.routes),
    ap (length {A = Route}) (flatten-filter_all (is_fresh now ttl) rt.routes),
    count_all_stale_lem now ttl rt.routes,
  ),
)

-- RemoveAllFromOrigin keeps exactly the routes that the peer neither originated nor carries, in their
-- order.
pub get_all_routes-remove_all_from_origin :
    (origin : NodeId) (rt : RoutingTable)
    → get_all_routes (remove_all_from_origin origin rt)
      ≡ keep (λ r. not (equal r.origin origin) && not (equal r.next_hop origin)) (get_all_routes rt)
unfolding remove_all_from_origin
get_all_routes-remove_all_from_origin origin rt = flatten-filter_all _ rt.routes
