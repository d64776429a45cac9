-- ===== src/Transport/Conn/Opening.antt =====
-- The streams that a node opens: OpenStream of transport/conn.go.
use magic_tun.Base.{
  ℕ, zero, suc, ◌%◌, ◌^◌, ◌<◌, ◌≡◌, refl, ap, sym, ◌∙◌, inl, inr, Bool, true, false, Option, none,
  some, List, [], ◌∷◌, ◌++◌, arith, if◌then◌else◌, eqb_iff, length, get_elem?, Bool-cases,
  Option-cases, nat_eq, get, get-put,
}
use magic_tun.Transport.Conn.{Stream, Conn, new_stream, add_stream, next_odd, find_id, open_stream}

-- The next number is odd, and has 32 bits.
abbrev pub IsReady : Conn → Type 0
IsReady c = (c.next_id % 2 ≡ 1) × (c.next_id < 2 ^ 32)

next_odd_lem : (id : ℕ) → id % 2 ≡ 1 → (next_odd id % 2 ≡ 1) × (next_odd id < 2 ^ 32)
next_odd_lem id h = (ground arith, ground arith)

pub get_elem?-append :
    (xs : List Stream) (s : Stream) → get_elem? (xs ++ s ∷ []) (length xs) ≡ some s
get_elem?-append [] s = refl
get_elem?-append (x ∷ xs) s = get_elem?-append xs s

-- What an opened stream is: new in the store, under an odd number that no stream had.
pub record IsOpened (c c' : Conn) (ref : ℕ) : Type 0 where
  pub id : ℕ
  pub odd : id % 2 ≡ 1
  pub small : id < 2 ^ 32
  pub free : get id c.streams ≡ none
  pub mapped : get id c'.streams ≡ some ref
  pub stored : get_elem? c'.store ref ≡ some (new_stream 16 id)
  pub ready : IsReady c'

find_id_lem :
    (n : ℕ) (c c' : Conn) (ref : ℕ) → IsReady c → find_id n c ≡ (some ref, c') → IsOpened c c' ref
unfolding find_id
find_id_lem zero c c' ref h e = cc
find_id_lem (suc n) c c' ref h e = elim (Option-cases (get c.next_id c.streams)) [
  | inl free ↦
      let c1 : Conn = record c { next_id = next_odd c.next_id } in
      let e' : (some (length c.store), add_stream c.next_id c1) ≡ (some ref, c') =
        rw (free, find_id) at e in
      let r : length c.store ≡ ref = ground (arith, e') in
      let q : add_stream c.next_id c1 ≡ c' = ap (λ p. p.1) e' in
      rw (← r) (
        rw (← q) (record {
          id = c.next_id;
          odd = h.0;
          small = h.1;
          free = free;
          mapped =
              get-put c.next_id c.next_id (length c.store) c.streams
              ∙ ground (arith, eqb_iff c.next_id c.next_id);
          stored = get_elem?-append c.store (new_stream 16 c.next_id);
          ready = next_odd_lem c.next_id h.0;
        }))
  | inr (used, q) ↦
      let c1 : Conn = record c { next_id = next_odd c.next_id } in
      let rest = find_id_lem n c1 c' ref (next_odd_lem c.next_id h.0) (rw (q, find_id) at e) in
      record {
        id = rest.id;
        odd = rest.odd;
        small = rest.small;
        free = rest.free;
        mapped = rest.mapped;
        stored = rest.stored;
        ready = rest.ready;
      }
]

if_true : (b : Bool) (x y : Option ℕ × Conn) → b ≡ true → (if b then x else y) ≡ x
if_true b x y e = rw e refl

if_false : (b : Bool) (x y : Option ℕ × Conn) → b ≡ false → (if b then x else y) ≡ y
if_false b x y e = rw e refl

-- A stream that OpenStream returns is new: it is stored under a reference of its own, with an odd
-- 32-bit number that no stream of the connection had, and found under that number from now on; and the next number is
-- again odd. No stream is opened on a closed connection.
pub open_stream_lem :
    (c c' : Conn) (ref : ℕ)
    → IsReady c
    → open_stream c ≡ (some ref, c')
    → (c.closed ≡ false) × IsOpened c c' ref
unfolding open_stream
open_stream_lem c c' ref h e = elim (Bool-cases c.closed) [
  | inl shut ↦ cc (sym (if_true c.closed (none, c) (find_id 1000 c) shut) ∙ e)
  | inr open_yet ↦ (
    open_yet,
    find_id_lem 1000 c c' ref h (sym (if_false c.closed (none, c) (find_id 1000 c) open_yet) ∙ e),
  )
]
