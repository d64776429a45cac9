-- ===== src/Wire/Tcp/Safety.antt =====
-- Panics of the decoders of wire/forward_tcp.go.
use magic_tun.Base.{ℕ, ◌+◌, ◌≤◌, ◌≡◌, ◌≢◌, List, ◌∷◌, arith, ok, panic, length, length-drop}
use magic_tun.Wire.Codec.{take_bytes, uint, uint_four, take_bytes-uint_long}
use magic_tun.Wire.Tcp.{TcpForwardHeader, decode_tcp_forward_header, decode_tcp_close}

-- DecodeTCPForwardHeader and DecodeTCPClose return a value or an error on every input.
pub decode_tcp_forward_header-ne-panic :
    (bytes : List ℕ) → (decode_tcp_forward_header bytes ≢ panic) × (decode_tcp_close bytes ≢ panic)
unfolding decode_tcp_forward_header decode_tcp_close uint take_bytes
decode_tcp_forward_header-ne-panic (t ∷ f ∷ a ∷ b ∷ c ∷ d ∷ l ∷ rest) =
    ground (arith, length-drop 4 rest, length-drop 16 rest)
decode_tcp_forward_header-ne-panic _ = ground arith

-- A header that decodes has used 13 or 25 bytes, no more than there are.
pub decode_tcp_forward_header_consumed :
    (bytes : List ℕ) (h : TcpForwardHeader) (n : ℕ)
    → decode_tcp_forward_header bytes ≡ ok (h, n)
    → (n ≤ length bytes) × (n ≡ length h.target_addr + 9)
unfolding decode_tcp_forward_header
decode_tcp_forward_header_consumed (t ∷ f ∷ a ∷ b ∷ c ∷ d ∷ l ∷ rest) h n e =
    ground (
      arith,
      uint_four a b c d (l ∷ rest),
      take_bytes-uint_long 4 rest,
      take_bytes-uint_long 16 rest,
    )
decode_tcp_forward_header_consumed _ h n e = ground arith
