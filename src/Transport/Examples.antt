-- ===== src/Transport/Examples.antt =====
-- Frames, and a new connection.
use magic_tun.Base.{
  ℕ, ◌≡◌, refl, false, some, List, [], ◌∷◌, ◌++◌, arith, ok, get_elem?, nat_eq, get, put, ◌⊎◌, inl,
  inr,
}
use magic_tun.Transport.Frame.{Frame, frame_data}
use magic_tun.Transport.Frame.RoundTrip.{
  IsFrame, write_frames, read_frames, read_frames-write_frames,
}
use magic_tun.Transport.Conn.{
  Picks, Stream, Conn, new_stream, new_conn, add_stream, find_id, open_stream, done,
}
use magic_tun.Transport.Conn.Vacancy.{open_stream_finds}
use magic_tun.Transport.Conn.Streams.{handle_frames, HasRoom, HasReceived}
use magic_tun.Transport.Conn.Streams.Delivery.{handle_frames-HasReceived}

abbrev frame : Frame
frame = record { type = frame_data; stream_id = 0; payload = 1 ∷ 2 ∷ 3 ∷ [] }

frame_valid : IsFrame frame
frame_valid = record { id_u32 = omega arith; small = omega arith }

read_frames-write_frames_example :
    (bytes : List ℕ) × (write_frames (frame ∷ frame ∷ []) ≡ ok bytes)
    × (read_frames 2 (bytes ++ (9 ∷ [])) ≡ ok (frame ∷ frame ∷ [], 9 ∷ []))
read_frames-write_frames_example =
    read_frames-write_frames (frame ∷ frame ∷ []) (9 ∷ []) (frame_valid, (frame_valid, tt))

abbrev opened : Conn
opened = add_stream 1 (record new_conn { next_id = 3 })

opens : open_stream new_conn ≡ (some 1, opened)
unfolding open_stream find_id get
opens = refl

abbrev other_frame : Frame
other_frame = record { type = frame_data; stream_id = 1; payload = 7 ∷ [] }

two_refs :
    (id ref : ℕ)
    → get id opened.streams ≡ some ref
    → ((id ≡ 0) × (ref ≡ 0)) ⊎ ((id ≡ 1) × (ref ≡ 1))
unfolding get put
two_refs id ref e = ground arith

two_streams :
    (id ref : ℕ) (s : Stream)
    → get id opened.streams ≡ some ref
    → get_elem? opened.store ref ≡ some s
    → ((id ≡ 0) × (s ≡ new_stream 64 0)) ⊎ ((id ≡ 1) × (s ≡ new_stream 16 1))
two_streams id ref s e g = elim (two_refs id ref e) [
  | inl (i, r) ↦ let found : some (new_stream 64 0) ≡ some s = rw r at g in inl (i, ground arith)
  | inr (i, r) ↦ let found : some (new_stream 16 1) ≡ some s = rw r at g in inr (i, ground arith)
]

opened-HasRoom : HasRoom (frame ∷ other_frame ∷ frame ∷ []) opened
unfolding get put
opened-HasRoom = record {
  is_open = refl;
  frames = (
    (refl, (0, new_stream 64 0, (refl, refl, refl))),
    (
      (refl, (1, new_stream 16 1, (refl, refl, refl))),
      ((refl, (0, new_stream 64 0, (refl, refl, refl))), tt),
    ),
  );
  own = λ id ref s e g. ground (arith, two_streams id ref s e g);
  room = λ id ref s at. ground (arith, two_streams id ref s at.0 at.1);
}

abbrev calm : ℕ → Picks
calm i = (false, false)

handle_frames-HasReceived_example :
    (c' : Conn) × (handle_frames calm (frame ∷ other_frame ∷ frame ∷ []) opened ≡ done c')
    × HasReceived (frame ∷ other_frame ∷ frame ∷ []) opened c'
handle_frames-HasReceived_example =
    handle_frames-HasReceived calm (frame ∷ other_frame ∷ frame ∷ []) opened opened-HasRoom

open_stream_finds_example : (ref : ℕ) × (c' : Conn) × (open_stream new_conn ≡ (some ref, c'))
open_stream_finds_example = open_stream_finds new_conn (refl, omega arith) refl (omega arith)
