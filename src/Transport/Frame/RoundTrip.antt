-- ===== src/Transport/Frame/RoundTrip.antt =====
-- WriteFrame and ReadFrame of transport/frame.go, one after the other.
use magic_tun.Base.{
  ℕ, zero, suc, ◌^◌, ◌≤◌, ◌<◌, ◌≡◌, refl, List, [], ◌∷◌, ◌++◌, arith, Result, ok, ◌>>=◌, length,
  All, append_assoc, length-append, take-append_length, drop-append_length, le→ltb, lt→ltb,
}
use magic_tun.Wire.Codec.{put_u32}
use magic_tun.Transport.Frame.{
  Frame, Error, max_frame_size, write_frame, read_full, u32, first_byte, read_payload, read_frame,
}

pub record IsFrame (f : Frame) : Type 0 where
  pub id_u32 : f.stream_id < 2 ^ 32
  pub small : length f.payload ≤ max_frame_size

read_full-append :
    (n : ℕ) (xs rest : List ℕ) → length xs ≡ n → read_full n (xs ++ rest) ≡ ok (xs, rest)
unfolding read_full
read_full-append n xs rest h =
    rw (le→ltb (length (xs ++ rest)) n (omega (arith, length-append xs rest)))
      (rw (take-append_length n xs rest h, drop-append_length n xs rest h) refl)

u32-put_u32 : (n : ℕ) (more : List ℕ) → n < 2 ^ 32 → u32 (put_u32 n ++ more) ≡ n
unfolding u32
u32-put_u32 n more h = omega arith

read_payload-append : (xs rest : List ℕ) → read_payload (length xs) (xs ++ rest) ≡ ok (xs, rest)
unfolding read_payload
read_payload-append [] rest = refl
read_payload-append (x ∷ xs) rest =
    rw (lt→ltb 0 (length (x ∷ xs)) (omega arith))
      (read_full-append (length (x ∷ xs)) (x ∷ xs) rest refl)

-- The bytes of a frame that is not too large.
abbrev pub frame_bytes : Frame → List ℕ
frame_bytes f = f.type ∷ (put_u32 f.stream_id ++ (put_u32 (length f.payload) ++ f.payload))

read_frame_lem :
    (t id : ℕ) (payload rest : List ℕ)
    → id < 2 ^ 32
    → length payload ≤ max_frame_size
    → read_frame (t ∷ (put_u32 id ++ (put_u32 (length payload) ++ (payload ++ rest))))
      ≡ ok (record { type = t; stream_id = id; payload = payload }, rest)
unfolding read_frame first_byte
read_frame_lem t id payload rest h small =
    let header : List ℕ = t ∷ (put_u32 id ++ put_u32 (length payload)) in
    rw (read_full-append 9 header (payload ++ rest) refl) (
      rw (u32-put_u32 id (put_u32 (length payload)) h) (
        rw (u32-put_u32 (length payload) [] (omega arith)) (
          rw (le→ltb max_frame_size (length payload) small)
            (rw (read_payload-append payload rest) refl))))

-- The frames that one writer writes, one after the other.
unfoldable pub write_frames : List Frame → Result Error (List ℕ)
write_frames [] = ok []
write_frames (f ∷ fs) = do bytes ← write_frame f; more ← write_frames fs; ok (bytes ++ more)

-- As many calls of ReadFrame.
unfoldable pub read_frames : ℕ → List ℕ → Result Error (List Frame × List ℕ)
read_frames zero bytes = ok ([], bytes)
read_frames (suc n) bytes = do
  (f, rest) ← read_frame bytes
  (fs, more) ← read_frames n rest
  ok (f ∷ fs, more)

pub write_frame-IsFrame : (f : Frame) → IsFrame f → write_frame f ≡ ok (frame_bytes f)
unfolding write_frame
write_frame-IsFrame f h = rw (le→ltb max_frame_size (length f.payload) h.small) refl

pub read_frame-frame_bytes :
    (f : Frame) (rest : List ℕ) → IsFrame f → read_frame (frame_bytes f ++ rest) ≡ ok (f, rest)
read_frame-frame_bytes f rest h = read_frame_lem f.type f.stream_id f.payload rest h.id_u32 h.small

-- Any number of frames with payloads of at most 1 MB, and stream numbers of 32 bits, are all written,
-- and the same number of reads gives them back, in order, and leaves what follows them.
pub read_frames-write_frames :
    (fs : List Frame) (rest : List ℕ)
    → All IsFrame fs
    → (bytes : List ℕ) × (write_frames fs ≡ ok bytes)
      × (read_frames (length fs) (bytes ++ rest) ≡ ok (fs, rest))
unfolding write_frames read_frames
read_frames-write_frames [] rest h = ([], refl, refl)
read_frames-write_frames (f ∷ fs) rest (h, hs) =
    let (more, written, read) = read_frames-write_frames fs rest hs in
    (
      frame_bytes f ++ more,
      rw (write_frame-IsFrame f h) (rw written refl),
      rw (append_assoc (frame_bytes f) more rest)
          (rw (read_frame-frame_bytes f (more ++ rest) h) (rw read refl)),
    )
