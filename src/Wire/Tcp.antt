-- ===== src/Wire/Tcp.antt =====
-- wire/forward_tcp.go
pub mod RoundTrip
pub mod Safety
use magic_tun.Base.{
  ℕ, ◌+◌, ◌-◌, Bool, not, ◌&&◌, List, [], ◌∷◌, ◌++◌, ok, ◌>>=◌, ◌>>◌, fail_if, eqb, ltb, length,
  drop,
}
use magic_tun.Wire.{msg_tcp_forward, msg_tcp_close}
use magic_tun.Wire.Codec.{
  Read, too_short, bad_type, bad_addr_len, truncated, put_u16, put_u32, take_bytes, u8, uint,
}
use magic_tun.Wire.Address.{addr_len, addr_bytes}

pub record TcpForwardHeader : Type 0 where
  pub flags : ℕ
  pub stream_id : ℕ
  pub target_addr : List ℕ
  pub target_port : ℕ

abbrev pub tcp_flag_new_stream : ℕ
tcp_flag_new_stream = 0x01

unfoldable pub encode_tcp_forward_header : TcpForwardHeader → List ℕ
encode_tcp_forward_header h =
    msg_tcp_forward
    ∷ h.flags
    ∷ (put_u32 h.stream_id
        ++ (addr_len h.target_addr ∷ (addr_bytes h.target_addr ++ put_u16 h.target_port)))

-- The header, and the offset behind it: what is not left of the input.
unfoldable pub decode_tcp_forward_header : List ℕ → Read (TcpForwardHeader × ℕ)
unfolding u8
decode_tcp_forward_header bytes = do
  fail_if (ltb (length bytes) 13) too_short
  (t, rest) ← u8 bytes
  fail_if (not (eqb t msg_tcp_forward)) bad_type
  (flags, rest) ← u8 rest
  (stream, rest) ← uint 4 rest
  (len, rest) ← u8 rest
  fail_if (not (eqb len 4) && not (eqb len 16)) bad_addr_len
  fail_if (ltb (length rest) (len + 2)) truncated
  (addr, rest) ← take_bytes len rest
  (port, rest) ← uint 2 rest
  ok (
    record { flags = flags; stream_id = stream; target_addr = addr; target_port = port },
    length bytes - length rest,
  )

unfoldable pub encode_tcp_close : ℕ → List ℕ
encode_tcp_close stream_id = msg_tcp_close ∷ put_u32 stream_id

-- The type byte is not looked at.
unfoldable pub decode_tcp_close : List ℕ → Read ℕ
decode_tcp_close bytes = do
  fail_if (ltb (length bytes) 5) too_short
  (id, rest) ← uint 4 (drop 1 bytes)
  ok id
