-- ===== src/Transport/Conn/Reading.antt =====
-- What a stream's reader gets of what the connection delivers: readLoop and Read of
-- transport/conn.go.
use magic_tun.Base.{
  ℕ, zero, suc, ◌≤◌, ◌<◌, ◌≡◌, refl, ap, sym, ◌∙◌, inl, inr, Bool, false, some, List, [], ◌∷◌, ◌++◌,
  arith, Result, ok, ok_injective, lt→ltb, nat_eq, get, length, take, drop, get_elem?, set,
  append_assoc, append-nil, take-append-drop, Bool-cases,
}
use magic_tun.Transport.Frame.{Frame, frame_data}
use magic_tun.Transport.Conn.{
  Picks, Stream, Conn, Wait, done, ReadError, done_injective, push, modify, deliver, handle_frame,
  read_stream,
}

abbrev pub flat : List (List ℕ) → List ℕ
flat [] = []
flat (b ∷ bs) = b ++ flat bs

-- The bytes that were delivered to a stream and not yet read.
abbrev pub pending : Stream → List ℕ
pending s = s.buf ++ flat s.read_ch

length-take_le : (n : ℕ) (xs : List ℕ) → length (take n xs) ≤ n
length-take_le zero xs = omega arith
length-take_le (suc n) [] = omega arith
length-take_le (suc n) (x ∷ xs) = omega (arith, length-take_le n xs)

module _ (n id cap : ℕ) (closed : Bool) (s' : Stream) (bytes : List ℕ) where
  abbrev stream : List ℕ → List (List ℕ) → Stream
  stream buf ch = record { id = id; cap = cap; read_ch = ch; buf = buf; closed = closed }

  -- What both ways of a read that succeeds have in common
  from_front :
      (front : List ℕ) (ch : List (List ℕ))
      → ◌≡◌ {A = Wait (Result ReadError (List ℕ) × Stream)}
          (done (ok (take n front), stream (drop n front) ch))
          (done (ok bytes, s'))
      → (bytes ++ pending s' ≡ front ++ flat ch) × (length bytes ≤ n)
  from_front front ch e =
      let p = done_injective e in
      let b : take n front ≡ bytes = ok_injective (ap (λ x. x.0) p) in
      let q : stream (drop n front) ch ≡ s' = ap (λ x. x.1) p in
      rw (← b) (
        rw (← q) (
          sym (append_assoc (take n front) (drop n front) (flat ch))
              ∙ ap (λ (xs : List ℕ). xs ++ flat ch) (take-append-drop n front),
          length-take_le n front,
        ))

  read_parts :
      (buf : List ℕ) (ch : List (List ℕ))
      → read_stream n (stream buf ch) ≡ done (ok bytes, s')
      → (bytes ++ pending s' ≡ buf ++ flat ch) × (length bytes ≤ n)
  unfolding read_stream
  read_parts (b ∷ buf) ch e = from_front (b ∷ buf) ch e
  read_parts [] [] e = cc
  read_parts [] ([] ∷ ch) e =
      let p = done_injective e in
      elim (Bool-cases closed) [ inl c ↦ cc (rw c at p) | inr c ↦ cc (rw c at p) ]
  read_parts [] ((b ∷ bs) ∷ ch) e = from_front (b ∷ bs) ch e

-- A read gives the first pending bytes, in order, at most as many as were asked for, and leaves the
-- others pending.
pub read_stream_lem :
    (n : ℕ) (s s' : Stream) (bytes : List ℕ)
    → read_stream n s ≡ done (ok bytes, s')
    → (bytes ++ pending s' ≡ pending s) × (length bytes ≤ n)
read_stream_lem n s s' bytes e = read_parts n s.id s.cap s.closed s' bytes s.buf s.read_ch e

flat-append : (xs : List (List ℕ)) (b : List ℕ) → flat (xs ++ b ∷ []) ≡ flat xs ++ b
flat-append [] b = append-nil b
flat-append (x ∷ xs) b =
    ap (λ (ys : List ℕ). x ++ ys) (flat-append xs b) ∙ sym (append_assoc x (flat xs) b)

pub pending-push : (payload : List ℕ) (s : Stream) → pending (push payload s) ≡ pending s ++ payload
pending-push payload s =
    ap (λ (ys : List ℕ). s.buf ++ ys) (flat-append s.read_ch payload)
    ∙ sym (append_assoc s.buf (flat s.read_ch) payload)

pub get_elem?-set_self :
    (xs : List Stream) (i : ℕ) (s v : Stream)
    → get_elem? xs i ≡ some s
    → get_elem? (set xs i v) i ≡ some v
get_elem?-set_self [] i s v e = cc
get_elem?-set_self (x ∷ xs) zero s v e = refl
get_elem?-set_self (x ∷ xs) (suc i) s v e = get_elem?-set_self xs i s v e

pub get_elem?-set_other :
    (xs : List Stream) (i j : ℕ) (v : Stream)
    → ¬ (i ≡ j)
    → get_elem? (set xs i v) j ≡ get_elem? xs j
get_elem?-set_other [] i j v n = refl
get_elem?-set_other (x ∷ xs) zero zero v n = absurd (n refl)
get_elem?-set_other (x ∷ xs) zero (suc j) v n = refl
get_elem?-set_other (x ∷ xs) (suc i) zero v n = refl
get_elem?-set_other (x ∷ xs) (suc i) (suc j) v n = get_elem?-set_other xs i j v (λ e. n (ap suc e))

-- The connection when a data frame has been put into the channel of a stream.
abbrev pub pushed : List ℕ → ℕ → Stream → Conn → Conn
pushed payload ref s c = record c { store = set c.store ref (push payload s) }

pub handle_frame_push :
    (picks : Picks) (f : Frame) (c : Conn) (ref : ℕ) (s : Stream)
    → c.closed ≡ false
    → get f.stream_id c.streams ≡ some ref
    → get_elem? c.store ref ≡ some s
    → f.type ≡ frame_data
    → length s.read_ch < s.cap
    → handle_frame picks f c ≡ done (pushed f.payload ref s c)
unfolding handle_frame deliver modify
handle_frame_push picks f c ref s is_open e g data_frame room =
    rw (e, handle_frame)
      (rw (g, deliver)
        (rw data_frame
          (rw (lt→ltb (length s.read_ch) s.cap room) (rw is_open (rw (g, modify) refl)))))

-- A data frame on a stream of an open connection, where its channel has room, puts its payload behind the
-- bytes that wait there, and changes no other stream, nor the map.
handle_frame_data :
    (picks : Picks) (f : Frame) (c : Conn) (ref : ℕ) (s : Stream)
    → c.closed ≡ false
    → get f.stream_id c.streams ≡ some ref
    → get_elem? c.store ref ≡ some s
    → f.type ≡ frame_data
    → length s.read_ch < s.cap
    → (c' : Conn) × (s' : Stream) × (handle_frame picks f c ≡ done c')
      × (get_elem? c'.store ref ≡ some s')
      × (pending s' ≡ pending s ++ f.payload)
      × ((j : ℕ) → ¬ (ref ≡ j) → get_elem? c'.store j ≡ get_elem? c.store j)
      × (c'.streams ≡ c.streams)
handle_frame_data picks f c ref s is_open e g data_frame room = (
  pushed f.payload ref s c,
  push f.payload s,
  handle_frame_push picks f c ref s is_open e g data_frame room,
  get_elem?-set_self c.store ref s (push f.payload s) g,
  pending-push f.payload s,
  (λ j n. get_elem?-set_other c.store ref j (push f.payload s) n),
  refl,
)
