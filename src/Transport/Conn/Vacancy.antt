-- ===== src/Transport/Conn/Vacancy.antt =====
-- Whether OpenStream of transport/conn.go finds a number within its 1000 attempts.
use magic_tun.Base.{
  ℕ, zero, suc, ◌+◌, ◌*◌, ◌%◌, ◌^◌, ◌≤◌, ◌<◌, ◌≡◌, refl, inl, inr, Bool, true, false, Option, none,
  some, List, [], ◌∷◌, arith, if◌then◌else◌, length, Bool-cases, Option-cases, nat_eq, eqb_iff, get,
  delete, get-delete, ◌==◌,
}
use magic_tun.Transport.Conn.{Conn, next_odd, find_id, open_stream, add_stream}
use magic_tun.Transport.Conn.Opening.{IsReady}

length-delete_le : (k : ℕ) (m : List (ℕ × ℕ)) → length (delete k m) ≤ length m
unfolding delete
length-delete_le k [] = omega arith
length-delete_le k ((j, v) ∷ m) = ground (arith, length-delete_le k m)

length-delete : (k v : ℕ) (m : List (ℕ × ℕ)) → get k m ≡ some v → length (delete k m) < length m
unfolding get delete
length-delete k v [] h = cc
length-delete k v ((j, w) ∷ m) h = elim (Bool-cases (j == k)) [
  | inl hit ↦ rw hit (omega (arith, length-delete_le k m))
  | inr miss ↦
      let rest : get k m ≡ some v = ground (arith, h, miss) in
      rw miss (omega (arith, length-delete k v m rest))
]

-- The number of the attempt `j`
abbrev attempt : ℕ → ℕ → ℕ
attempt id j = (id + 2 * j) % 2 ^ 32

next_odd_add : (id : ℕ) → id % 2 ≡ 1 → next_odd id ≡ (id + 2) % 2 ^ 32
next_odd_add id h = ground arith

attempt_next : (id j : ℕ) → id % 2 ≡ 1 → attempt (next_odd id) j ≡ attempt id (suc j)
attempt_next id j h = omega (arith, next_odd_add id h)

attempt_new : (id j : ℕ) → id < 2 ^ 32 → suc j < 2 ^ 31 → ¬ (id ≡ attempt id (suc j))
attempt_new id j h k e = omega arith

-- Every number of the attempts that is not in `m` is free.
abbrev Covers : ℕ → Conn → List (ℕ × ℕ) → Type 0
Covers n c m =
    (j : ℕ)
    → j < n
    → get (attempt c.next_id j) m ≡ none
    → get (attempt c.next_id j) c.streams ≡ none

abbrev advanced : Conn → Conn
advanced c = record c { next_id = next_odd c.next_id }

Covers-delete :
    (n : ℕ) (c : Conn) (m : List (ℕ × ℕ))
    → IsReady c
    → suc n ≤ 2 ^ 31
    → Covers (suc n) c m
    → Covers n (advanced c) (delete c.next_id m)
Covers-delete n c m ready small h j low free =
    let same = attempt_next c.next_id j ready.0 in
    let fresh = attempt_new c.next_id j ready.1 (omega arith) in
    let free' : get (attempt c.next_id (suc j)) (delete c.next_id m) ≡ none = rw (← same) free in
    rw same (
      h (suc j) (omega arith) (
        ground (
          arith,
          get-delete c.next_id (attempt c.next_id (suc j)) m,
          eqb_iff c.next_id (attempt c.next_id (suc j)),
          free',
        )))

-- What a search for a number finds
abbrev Finds : Option ℕ × Conn → Type 0
Finds got = (ref : ℕ) × (c : Conn) × (got ≡ (some ref, c))

first_attempt : (id : ℕ) → id < 2 ^ 32 → attempt id 0 ≡ id
first_attempt id h = omega arith

advanced-IsReady : (c : Conn) → IsReady c → IsReady (advanced c)
advanced-IsReady c h = (ground arith, ground arith)

find_id-Finds :
    (n : ℕ) (c : Conn) (m : List (ℕ × ℕ))
    → IsReady c
    → n ≤ 2 ^ 31
    → length m < n
    → Covers n c m
    → Finds (find_id n c)
unfolding find_id
find_id-Finds zero c m ready small few h = absurd (omega arith)
find_id-Finds (suc n) c m ready small few h = elim (Option-cases (get c.next_id c.streams)) [
  | inl free ↦ rw (free, find_id) (length c.store, add_stream c.next_id (advanced c), refl)
  | inr (ref, used) ↦ elim (Option-cases (get c.next_id m)) [
    | inl absent ↦
        let start = first_attempt c.next_id ready.1 in
        let free : get c.next_id c.streams ≡ none =
          rw start at (h 0 (omega arith) (rw start absent)) in
        cc
    | inr (v, present) ↦
        rw (used, find_id)
          (find_id-Finds n (advanced c) (delete c.next_id m) (advanced-IsReady c ready)
            (omega arith) (omega (arith, length-delete c.next_id v m present))
            (Covers-delete n c m ready small h))
  ]
]

Finds-else : (b : Bool) (x y : Option ℕ × Conn) → b ≡ false → Finds y → Finds (if b then x else y)
Finds-else true x y e h = cc
Finds-else false x y e h = h

-- On a connection that is not closed and has fewer than 1000 streams, OpenStream always finds a free
-- number within its 1000 attempts, and opens a stream. The next number is an odd one of 32 bits, as it
-- is from the beginning.
pub open_stream_finds :
    (c : Conn)
    → IsReady c
    → c.closed ≡ false
    → length c.streams < 1000
    → (ref : ℕ) × (c' : Conn) × (open_stream c ≡ (some ref, c'))
unfolding open_stream
open_stream_finds c ready open_yet few =
    Finds-else c.closed (none, c) (find_id 1000 c) open_yet
      (find_id-Finds 1000 c c.streams ready (omega arith) few (λ j low free. free))
