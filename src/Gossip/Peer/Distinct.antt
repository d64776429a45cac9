-- ===== src/Gossip/Peer/Distinct.antt =====
-- How often an identifier stands in a list of peers: in what GetRandom of gossip/peer.go shuffles, and
-- in the values of the map.
use magic_tun.Base.{
  ℕ, zero, suc, ◌+◌, ◌%◌, ◌≤◌, if◌then◌else◌, none, bytes_eq, bytes_beq_iff, get, HasDistinctKeys,
  ◌≡◌, refl, ◌∙◌, inl, inr, Bool, some, List, [], ◌∷◌, arith, take, keep, get_elem?, set, All,
  Option-cases,
}
use magic_tun.Identity.{NodeId, equal}
use magic_tun.Gossip.Peer.{Peer, values, fast_rand, swap, shuffle}
use magic_tun.Gossip.Peer.Invariant.{IsKnown}

-- How many of the peers have the identifier `j`
abbrev pub times : NodeId → List Peer → ℕ
times j [] = 0
times j (p ∷ ps) = let rest = times j ps in if equal p.id j then suc rest else rest

times-set :
    (j : NodeId) (xs : List Peer) (i : ℕ) (a b : Peer)
    → get_elem? xs i ≡ some a
    → times j (set xs i b) + times j (a ∷ []) ≡ times j xs + times j (b ∷ [])
times-set j [] i a b e = cc
times-set j (x ∷ xs) zero a b e = let same : x ≡ a = ground arith in rw (← same) (ground arith)
times-set j (x ∷ xs) (suc i) a b e = let ih = times-set j xs i a b e in ground (arith, ih)

get_elem?-set_same :
    (xs : List Peer) (i k : ℕ) (b : Peer)
    → get_elem? xs k ≡ some b
    → get_elem? (set xs i b) k ≡ some b
get_elem?-set_same [] i k b e = cc
get_elem?-set_same (x ∷ xs) zero zero b e = refl
get_elem?-set_same (x ∷ xs) zero (suc k) b e = e
get_elem?-set_same (x ∷ xs) (suc i) zero b e = e
get_elem?-set_same (x ∷ xs) (suc i) (suc k) b e = get_elem?-set_same xs i k b e

pub times-swap : (j : NodeId) (xs : List Peer) (i k : ℕ) → times j (swap xs i k) ≡ times j xs
unfolding swap
times-swap j xs i k = elim (Option-cases (get_elem? xs i)) [
  | inl e ↦ rw e refl
  | inr (a, e) ↦ rw e (elim (Option-cases (get_elem? xs k)) [
    | inl f ↦ rw f refl
    | inr (b, f) ↦ rw f (
        omega (
          arith,
          times-set j xs i a b e,
          times-set j (set xs i b) k b a (get_elem?-set_same xs i k b f),
        ))
  ])
]

pub times-shuffle :
    (j : NodeId) (i s : ℕ) (xs : List Peer) → times j (shuffle i s xs).0 ≡ times j xs
unfolding shuffle
times-shuffle j zero s xs = refl
times-shuffle j (suc i) s xs =
    times-shuffle j i (fast_rand s) (swap xs (suc i) (fast_rand s % (i + 2)))
    ∙ times-swap j xs (suc i) (fast_rand s % (i + 2))

pub times-take : (j : NodeId) (n : ℕ) (xs : List Peer) → times j (take n xs) ≤ times j xs
times-take j zero xs = omega arith
times-take j (suc n) [] = omega arith
times-take j (suc n) (x ∷ xs) = ground (arith, times-take j n xs)

pub times-keep : (j : NodeId) (p : Peer → Bool) (xs : List Peer) → times j (keep p xs) ≤ times j xs
times-keep j p [] = omega arith
times-keep j p (x ∷ xs) = ground (arith, times-keep j p xs)

-- A well-formed manager holds no identifier twice, and each peer under its own.
module _ (self : NodeId) where
  times_absent :
      (j : NodeId) (m : List (NodeId × Peer))
      → All (IsKnown self) m
      → get j m ≡ none
      → times j (values m) ≡ 0
  unfolding get
  times_absent j [] h e = omega arith
  times_absent j ((k, p) ∷ m) ((own, other), h) e = ground (arith, own, times_absent j m h)

  pub times_once :
      (j : NodeId) (m : List (NodeId × Peer))
      → All (IsKnown self) m
      → HasDistinctKeys m
      → times j (values m) ≤ 1
  times_once j [] h d = omega arith
  times_once j ((k, p) ∷ m) ((own, other), h) (new, d) =
      ground (arith, own, bytes_beq_iff p.id j, times_absent j m h, times_once j m h d)

  stored_tail :
      (k : NodeId) (q : Peer) (m : List (NodeId × Peer)) (ps : List Peer)
      → get k m ≡ none
      → All (λ p. get p.id m ≡ some p) ps
      → All (λ p. get p.id ((k, q) ∷ m) ≡ some p) ps
  unfolding get
  stored_tail k q m [] n h = tt
  stored_tail k q m (p ∷ ps) n (h, hs) =
      (ground (arith, bytes_beq_iff k p.id), stored_tail k q m ps n hs)

  pub stored_values :
      (m : List (NodeId × Peer))
      → All (IsKnown self) m
      → HasDistinctKeys m
      → All (λ p. get p.id m ≡ some p) (values m)
  unfolding get
  stored_values [] h d = tt
  stored_values ((k, p) ∷ m) ((own, other), h) (new, d) = (
    ground (arith, own, bytes_beq_iff k p.id),
    stored_tail k p m (values m) new (stored_values m h d),
  )
