-- ===== src/Route/Table/Search.antt =====
-- One turn of the search of Lookup: the order of bestPath, and what a turn keeps.
use magic_tun.Base.{
  ℕ, ◌≤◌, ◌<◌, ◌≡◌, refl, ◌⊎◌, inl, inr, true, false, Option, none, some, List, arith,
}
use mathlib.Core.Option
use magic_tun.Net.Mask.{mask_size}
use magic_tun.Net.Prefix.{contains}
use magic_tun.Route.Path.{len}
use magic_tun.Route.Table.{Route, Match, best_path, consider}

-- `r` is at least as good as `x`: the order of the comment above bestPath.
abbrev pub IsAsGood : Route → Route → Type 0
IsAsGood r x =
    (x.local_pref < r.local_pref)
    ⊎ ((x.local_pref ≡ r.local_pref)
        × ((len r.as_path < len x.as_path)
            ⊎ ((len r.as_path ≡ len x.as_path)
                × ((r.cost < x.cost) ⊎ ((r.cost ≡ x.cost) × (r.timestamp ≤ x.timestamp))))))

IsAsGood-refl : (r : Route) → IsAsGood r r
IsAsGood-refl r = omega arith

IsAsGood-trans : (a b c : Route) → IsAsGood a b → IsAsGood b c → IsAsGood a c
IsAsGood-trans a b c p q = omega arith

-- bestPath returns one of its arguments, and that one is at least as good as the other.
pub best_path_lem :
    (a b : Route) → ((best_path a b ≡ a) × IsAsGood a b) ⊎ ((best_path a b ≡ b) × IsAsGood b a)
unfolding best_path
best_path_lem a b = ground arith

-- The state of the search: no match and length 0, or a match with the length of its mask, above 0.
abbrev pub IsMatch : List ℕ → Match → Type 0
IsMatch ip (none, l) = l ≡ 0
IsMatch ip (some r, l) =
    (contains r.destination ip ≡ true) × (mask_size r.destination.mask ≡ l) × (0 < l)

-- `x` does not match, or has a shorter mask than the best match, or is no better than it.
abbrev pub Dominates : List ℕ → Match → Route → Type 0
Dominates ip (none, l) x = (contains x.destination ip ≡ false) ⊎ (mask_size x.destination.mask ≡ 0)
Dominates ip (some r, l) x =
    (contains x.destination ip ≡ false)
    ⊎ ((mask_size x.destination.mask < l) ⊎ ((mask_size x.destination.mask ≡ l) × IsAsGood r x))

-- One turn of the loops: the four ways through its tests.
module _ (ip : List ℕ) (best : Option Route) (l : ℕ) (r : Route) where
  consider_cases :
      ((contains r.destination ip ≡ false) × (consider ip (best, l) r ≡ (best, l)))
      ⊎ (((contains r.destination ip ≡ true)
            × (l < mask_size r.destination.mask)
            × (consider ip (best, l) r ≡ (some r, mask_size r.destination.mask)))
          ⊎ (((contains r.destination ip ≡ true)
                × (mask_size r.destination.mask ≡ l)
                × (consider ip (best, l) r ≡ (Option.map (λ b. best_path b r) best, l)))
              ⊎ ((mask_size r.destination.mask < l) × (consider ip (best, l) r ≡ (best, l)))))
  unfolding consider
  consider_cases = ground arith

pub consider-IsMatch :
    (ip : List ℕ) (st : Match) (r : Route) → IsMatch ip st → IsMatch ip (consider ip st r)
consider-IsMatch ip (none, l) r h = elim (consider_cases ip none l r) [
  | inl (_, e) ↦ rw e h
  | inr (inl (c, lt, e)) ↦ rw e (c, refl, omega arith)
  | inr (inr (inl (c, eq, e))) ↦ rw e h
  | inr (inr (inr (lt, e))) ↦ rw e h
]
consider-IsMatch ip (some b, l) r h = elim (consider_cases ip (some b) l r) [
  | inl (_, e) ↦ rw e h
  | inr (inl (c, lt, e)) ↦ rw e (c, refl, omega arith)
  | inr (inr (inl (c, eq, e))) ↦
      rw e (elim (best_path_lem b r) [ inl (q, _) ↦ rw q h | inr (q, _) ↦ rw q (c, eq, h.2) ])
  | inr (inr (inr (lt, e))) ↦ rw e h
]

pub consider_new :
    (ip : List ℕ) (st : Match) (r : Route) → IsMatch ip st → Dominates ip (consider ip st r) r
consider_new ip (none, l) r h = elim (consider_cases ip none l r) [
  | inl (c, e) ↦ rw e (inl c)
  | inr (inl (c, lt, e)) ↦ rw e (inr (inr (refl, IsAsGood-refl r)))
  | inr (inr (inl (c, eq, e))) ↦ rw e (inr (omega arith))
  | inr (inr (inr (lt, e))) ↦ rw e (inr (omega arith))
]
consider_new ip (some b, l) r h = elim (consider_cases ip (some b) l r) [
  | inl (c, e) ↦ rw e (inl c)
  | inr (inl (c, lt, e)) ↦ rw e (inr (inr (refl, IsAsGood-refl r)))
  | inr (inr (inl (c, eq, e))) ↦ rw e (elim (best_path_lem b r) [
    | inl (q, g) ↦ rw q (inr (inr (eq, g)))
    | inr (q, g) ↦ rw q (inr (inr (eq, IsAsGood-refl r)))
  ])
  | inr (inr (inr (lt, e))) ↦ rw e (inr (inl lt))
]

pub consider_old :
    (ip : List ℕ) (st : Match) (r x : Route)
    → IsMatch ip st
    → Dominates ip st x
    → Dominates ip (consider ip st r) x
consider_old ip (none, l) r x h d = elim (consider_cases ip none l r) [
  | inl (_, e) ↦ rw e d
  | inr (inl (c, lt, e)) ↦ rw e (elim d [ inl n ↦ inl n | inr z ↦ inr (inl (omega arith)) ])
  | inr (inr (inl (c, eq, e))) ↦ rw e d
  | inr (inr (inr (lt, e))) ↦ rw e d
]
consider_old ip (some b, l) r x h d = elim (consider_cases ip (some b) l r) [
  | inl (_, e) ↦ rw e d
  | inr (inl (c, lt, e)) ↦ rw e (elim d [
    | inl n ↦ inl n
    | inr (inl less) ↦ inr (inl (omega arith))
    | inr (inr (same, g)) ↦ inr (inl (omega arith))
  ])
  | inr (inr (inl (c, eq, e))) ↦ rw e (elim (best_path_lem b r) [
    | inl (q, g) ↦ rw q d
    | inr (q, g) ↦ rw q (elim d [
      | inl n ↦ inl n
      | inr (inl less) ↦ inr (inl less)
      | inr (inr (same, g')) ↦ inr (inr (same, IsAsGood-trans r b x g g'))
    ])
  ])
  | inr (inr (inr (lt, e))) ↦ rw e d
]

pub consider_origin :
    (ip : List ℕ) (best : Option Route) (l : ℕ) (r x : Route)
    → (consider ip (best, l) r).0 ≡ some x
    → (x ≡ r) ⊎ (best ≡ some x)
consider_origin ip none l r x h = elim (consider_cases ip none l r) [
  | inl (_, e) ↦ cc (h, e)
  | inr (inl (c, lt, e)) ↦ inl (cc (h, e))
  | inr (inr (inl (c, eq, e))) ↦ cc (h, e)
  | inr (inr (inr (lt, e))) ↦ cc (h, e)
]
consider_origin ip (some b) l r x h = elim (consider_cases ip (some b) l r) [
  | inl (_, e) ↦ inr (cc (h, e))
  | inr (inl (c, lt, e)) ↦ inl (cc (h, e))
  | inr (inr (inl (c, eq, e))) ↦ elim (best_path_lem b r) [
    | inl (q, _) ↦ inr (cc (h, e, q))
    | inr (q, _) ↦ inl (cc (h, e, q))
  ]
  | inr (inr (inr (lt, e))) ↦ inr (cc (h, e))
]
