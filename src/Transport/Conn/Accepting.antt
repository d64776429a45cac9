-- ===== src/Transport/Conn/Accepting.antt =====
-- The first frame of a stream that the other end opens: readLoop, AcceptStream and Read of
-- transport/conn.go.
use magic_tun.Base.{
  ℕ, zero, suc, ◌≤◌, ◌<◌, ◌≡◌, refl, ap, false, none, List, [], ◌∷◌, ◌++◌, arith, ok, lt→ltb,
  length, take, drop, set, nat_eq, get, put,
}
use magic_tun.Transport.Conn.Opening.{get_elem?-append}
use magic_tun.Transport.Frame.{Frame, frame_data}
use magic_tun.Transport.Conn.{
  Picks, Stream, Conn, new_stream, done, push, modify, deliver, handle_frame, read_stream,
}

set-snoc : (xs : List Stream) (x y : Stream) → set (xs ++ x ∷ []) (length xs) y ≡ xs ++ y ∷ []
set-snoc [] x y = refl
set-snoc (z ∷ xs) x y = ap (λ (ys : List Stream). z ∷ ys) (set-snoc xs x y)

-- The connection with a stream more, which has got one payload and waits to be accepted
abbrev pub arrived : Frame → Conn → Conn
arrived f c = record c {
  store = c.store ++ push f.payload (new_stream 16 f.stream_id) ∷ [];
  streams = put f.stream_id (length c.store) c.streams;
  accept_ch = c.accept_ch ++ length c.store ∷ [];
}

pub handle_frame_new :
    (picks : Picks) (f : Frame) (c : Conn)
    → c.closed ≡ false
    → get f.stream_id c.streams ≡ none
    → f.type ≡ frame_data
    → length c.accept_ch < 64
    → handle_frame picks f c ≡ done (arrived f c)
unfolding handle_frame deliver modify
handle_frame_new picks f c is_open new data_frame room =
    let s = new_stream 16 f.stream_id in
    rw (new, handle_frame)
      (rw (lt→ltb (length c.accept_ch) 64 room) (
        rw is_open (
          rw (get_elem?-append c.store s, deliver)
            (rw data_frame (
              rw (get_elem?-append c.store s, modify)
                (rw (set-snoc c.store s (push f.payload s)) refl))))))

take_all : (n : ℕ) (xs : List ℕ) → length xs ≤ n → (take n xs ≡ xs) × (drop n xs ≡ [])
take_all zero [] h = (refl, refl)
take_all zero (x ∷ xs) h = absurd (omega (arith, h))
take_all (suc n) [] h = (refl, refl)
take_all (suc n) (x ∷ xs) h =
    let (taken, dropped) = take_all n xs (omega (arith, h)) in
    (ap (λ (ys : List ℕ). x ∷ ys) taken, dropped)

-- A read that has room for the first payload gives all of it and leaves nothing.
pub read_stream_first :
    (n id b : ℕ) (bytes : List ℕ)
    → length (b ∷ bytes) ≤ n
    → read_stream n (push (b ∷ bytes) (new_stream 16 id)) ≡ done (ok (b ∷ bytes), new_stream 16 id)
unfolding read_stream
read_stream_first n id b bytes h =
    let (taken, dropped) = take_all n (b ∷ bytes) h in rw taken (rw dropped refl)
