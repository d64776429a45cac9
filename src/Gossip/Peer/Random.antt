-- ===== src/Gossip/Peer/Random.antt =====
-- GetRandom of gossip/peer.go: its number of peers, and which they may be.
use Prim.Native.Nat.{min}
use magic_tun.Base.{
  ℕ, zero, suc, ◌+◌, ◌-◌, ◌%◌, ◌≤◌, bytes_eq, ◌≡◌, refl, ap, ◌∙◌, inl, inr, Bool, true, not, ◌&&◌,
  some, List, [], ◌∷◌, arith, subst, eqb, leb, length, take, keep, get_elem?, set, All, length-take,
  Bool-cases, Option-cases,
}
use magic_tun.Identity.{NodeId, equal}
use magic_tun.Wire.Gossip.{peer_alive}
use magic_tun.Gossip.Peer.{
  Peer, PeerManager, get_peer, values, fast_rand, swap, shuffle, candidates, get_random,
}
use magic_tun.Gossip.Peer.Distinct.{
  times, times-shuffle, times-take, times-keep, times_once, stored_values,
}
use magic_tun.Gossip.Peer.Invariant.{IsManager}

module _ {A : Type 0} where
  length-set : (xs : List A) (i : ℕ) (v : A) → length (set xs i v) ≡ length xs
  length-set [] i v = refl
  length-set (x ∷ xs) zero v = refl
  length-set (x ∷ xs) (suc i) v = ap suc (length-set xs i v)

  All-set : (P : A → Type 0) (xs : List A) (i : ℕ) (v : A) → P v → All P xs → All P (set xs i v)
  All-set P [] i v p h = tt
  All-set P (x ∷ xs) zero v p (h, hs) = (p, hs)
  All-set P (x ∷ xs) (suc i) v p (h, hs) = (h, All-set P xs i v p hs)

  All-get_elem? :
      (P : A → Type 0) (xs : List A) (i : ℕ) (v : A) → All P xs → get_elem? xs i ≡ some v → P v
  All-get_elem? P [] i v h e = cc
  All-get_elem? P (x ∷ xs) zero v (h, hs) e = subst P (ground arith) h
  All-get_elem? P (x ∷ xs) (suc i) v (h, hs) e = All-get_elem? P xs i v hs e

  length-swap : (xs : List A) (i j : ℕ) → length (swap xs i j) ≡ length xs
  unfolding swap
  length-swap xs i j = elim (Option-cases (get_elem? xs i)) [
    | inl e ↦ rw e refl
    | inr (a, e) ↦ rw e (elim (Option-cases (get_elem? xs j)) [
      | inl f ↦ rw f refl
      | inr (b, f) ↦ rw f (length-set (set xs i b) j a ∙ length-set xs i b)
    ])
  ]

  All-swap : (P : A → Type 0) (xs : List A) (i j : ℕ) → All P xs → All P (swap xs i j)
  unfolding swap
  All-swap P xs i j h = elim (Option-cases (get_elem? xs i)) [
    | inl e ↦ rw e h
    | inr (a, e) ↦ rw e (elim (Option-cases (get_elem? xs j)) [
      | inl f ↦ rw f h
      | inr (b, f) ↦ rw f (
          All-set P (set xs i b) j a (All-get_elem? P xs i a h e)
            (All-set P xs i b (All-get_elem? P xs j b h f) h))
    ])
  ]

  length-shuffle : (i s : ℕ) (xs : List A) → length (shuffle i s xs).0 ≡ length xs
  unfolding shuffle
  length-shuffle zero s xs = refl
  length-shuffle (suc i) s xs =
      length-shuffle i (fast_rand s) (swap xs (suc i) (fast_rand s % (i + 2)))
      ∙ length-swap xs (suc i) (fast_rand s % (i + 2))

  All-shuffle : (P : A → Type 0) (i s : ℕ) (xs : List A) → All P xs → All P (shuffle i s xs).0
  unfolding shuffle
  All-shuffle P zero s xs h = h
  All-shuffle P (suc i) s xs h =
      All-shuffle P i (fast_rand s) _ (All-swap P xs (suc i) (fast_rand s % (i + 2)) h)

  All-take : (P : A → Type 0) (n : ℕ) (xs : List A) → All P xs → All P (take n xs)
  All-take P zero xs h = tt
  All-take P (suc n) [] h = tt
  All-take P (suc n) (x ∷ xs) (h, hs) = (h, All-take P n xs hs)

All-test : {A : Type 0} (p : A → Bool) (xs : List A) → All (λ x. p x ≡ true) (keep p xs)
All-test p [] = tt
All-test p (x ∷ xs) = elim (Bool-cases (p x)) [
  | inl e ↦ rw e (e, All-test p xs)
  | inr e ↦ rw e (All-test p xs)
]

All-keep : (P : Peer → Type 0) (p : Peer → Bool) (xs : List Peer) → All P xs → All P (keep p xs)
All-keep P p [] h = tt
All-keep P p (x ∷ xs) (h, hs) = elim (Bool-cases (p x)) [
  | inl e ↦ rw e (h, All-keep P p xs hs)
  | inr e ↦ rw e (All-keep P p xs hs)
]

-- A peer that GetRandom may return: alive, not the excluded one, and the manager's record of it.
abbrev pub IsCandidate : NodeId → PeerManager → Peer → Type 0
IsCandidate exclude pm p =
    ((eqb p.state peer_alive && not (equal p.id exclude)) ≡ true) × (get_peer p.id pm ≡ some p)

All-both : (P Q : Peer → Type 0) (xs : List Peer) → All P xs → All Q xs → All (λ p. P p × Q p) xs
All-both P Q [] h k = tt
All-both P Q (x ∷ xs) (h, hs) (k, ks) = ((h, k), All-both P Q xs hs ks)

candidates-IsCandidate :
    (exclude : NodeId) (pm : PeerManager)
    → IsManager pm
    → All (IsCandidate exclude pm) (candidates exclude pm)
candidates-IsCandidate exclude pm h =
    let test : Peer → Bool = λ p. eqb p.state peer_alive && not (equal p.id exclude) in
    All-both (λ p. test p ≡ true) (λ p. get_peer p.id pm ≡ some p) (candidates exclude pm)
      (All-test test (values pm.peers))
      (All-keep (λ p. get_peer p.id pm ≡ some p) test (values pm.peers)
        (stored_values pm.self_id pm.peers h.known h.keys))

candidates_once :
    (exclude j : NodeId) (pm : PeerManager) → IsManager pm → times j (candidates exclude pm) ≤ 1
candidates_once exclude j pm h = omega (
  arith,
  times-keep j (λ p. eqb p.state peer_alive && not (equal p.id exclude)) (values pm.peers),
  times_once pm.self_id j pm.peers h.known h.keys,
)

-- Whatever the state of the generator, GetRandom on a well-formed manager returns n peers, or as many
-- as are alive and not excluded where these are fewer; no two of them have the same identifier, and
-- each of them is alive, not the excluded one, and what the manager holds under its identifier.
pub get_random_lem :
    (n s : ℕ) (exclude j : NodeId) (pm : PeerManager)
    → IsManager pm
    → (length (get_random n exclude s pm).0
        ≡ min n (
            length
              (keep (λ p. eqb p.state peer_alive && not (equal p.id exclude)) (values pm.peers))))
      × All (IsCandidate exclude pm) (get_random n exclude s pm).0
      × (times j (get_random n exclude s pm).0 ≤ 1)
unfolding get_random
get_random_lem n s exclude j pm h =
    let alive = candidates exclude pm in
    let good = candidates-IsCandidate exclude pm h in
    let once = candidates_once exclude j pm h in
    let mixed = (shuffle (length alive - 1) s alive).0 in
    let size = length-shuffle (length alive - 1) s alive in
    elim (Bool-cases (leb (length alive) n)) [
      | inl few ↦ rw few (ground arith, good, once)
      | inr many ↦ rw many (
        ground (arith, size, length-take n mixed),
        All-take (IsCandidate exclude pm) n mixed
            (All-shuffle (IsCandidate exclude pm) (length alive - 1) s alive good),
        omega (arith, times-take j n mixed, times-shuffle j (length alive - 1) s alive, once),
      )
    ]
