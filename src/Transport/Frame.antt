-- ===== src/Transport/Frame.antt =====
-- transport/frame.go. What a reader still has to give is a list of bytes, so io.ReadFull fails where
-- fewer are left; what WriteFrame gives to its writer is a list too. A nil payload is an empty one.
pub mod RoundTrip
use magic_tun.Base.{
  ℕ, zero, suc, ◌+◌, ◌*◌, ◌^◌, Bool, List, [], ◌∷◌, ◌++◌, Result, ok, err, ◌>>=◌, ◌>>◌, fail_if,
  ltb, eqb, if◌then◌else◌, length, take, drop,
}
use magic_tun.Wire.Codec.{put_u32}

pub data Error : Type 0 where
  eof too_large : Error

abbrev pub frame_data : ℕ
frame_data = 0x00

abbrev pub frame_close : ℕ
frame_close = 0x01

abbrev pub control_stream_id : ℕ
control_stream_id = 0

abbrev pub max_frame_size : ℕ
max_frame_size = 1048576

pub record Frame : Type 0 where
  pub type : ℕ
  pub stream_id : ℕ
  pub payload : List ℕ

unfoldable pub write_frame : Frame → Result Error (List ℕ)
write_frame f =
    if ltb max_frame_size (length f.payload)
    then err too_large
    else ok (f.type ∷ (put_u32 f.stream_id ++ (put_u32 (length f.payload) ++ f.payload)))

-- io.ReadFull, with what is left after it
unfoldable pub read_full : ℕ → List ℕ → Result Error (List ℕ × List ℕ)
read_full n bytes = if ltb (length bytes) n then err eof else ok (take n bytes, drop n bytes)

-- binary.BigEndian.Uint32 of four bytes
unfoldable pub u32 : List ℕ → ℕ
u32 (a ∷ b ∷ c ∷ d ∷ _) = ((a * 256 + b) * 256 + c) * 256 + d
u32 _ = 0

unfoldable pub first_byte : List ℕ → ℕ
first_byte [] = 0
first_byte (b ∷ _) = b

-- The payload, which is read only if there is one
unfoldable pub read_payload : ℕ → List ℕ → Result Error (List ℕ × List ℕ)
read_payload n bytes = if ltb 0 n then read_full n bytes else ok ([], bytes)

unfoldable pub read_frame : List ℕ → Result Error (Frame × List ℕ)
read_frame bytes = do
  (header, rest) ← read_full 9 bytes
  fail_if (ltb max_frame_size (u32 (drop 5 header))) too_large
  (payload, more) ← read_payload (u32 (drop 5 header)) rest
  ok (record { type = first_byte header; stream_id = u32 (drop 1 header); payload = payload }, more)
