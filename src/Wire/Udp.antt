-- ===== src/Wire/Udp.antt =====
-- wire/forward_udp.go
pub mod RoundTrip
pub mod Panics
use magic_tun.Base.{
  ℕ, ◌+◌, Bool, not, ◌&&◌, List, [], ◌∷◌, ◌++◌, ok, ◌>>=◌, ◌>>◌, fail_if, eqb, ltb, length, drop,
}
use magic_tun.Wire.{msg_udp_forward, msg_udp_session_create, msg_udp_session_close}
use magic_tun.Wire.Codec.{
  Read, too_short, bad_type, bad_addr_len, put_u16, put_u32, take_bytes, u8, uint,
}
use magic_tun.Wire.Address.{addr_len, addr_bytes}

pub record UdpForwardHeader : Type 0 where
  pub session_id : ℕ

unfoldable pub encode_udp_forward : ℕ → List ℕ → List ℕ
encode_udp_forward session_id payload = msg_udp_forward ∷ (put_u32 session_id ++ payload)

unfoldable pub decode_udp_forward : List ℕ → Read (UdpForwardHeader × List ℕ)
unfolding u8
decode_udp_forward bytes = do
  fail_if (ltb (length bytes) 5) too_short
  (t, rest) ← u8 bytes
  fail_if (not (eqb t msg_udp_forward)) bad_type
  (id, payload) ← uint 4 rest
  ok (record { session_id = id }, payload)

pub record UdpSessionCreate : Type 0 where
  pub request_id : ℕ
  pub target_addr : List ℕ
  pub target_port : ℕ

unfoldable pub encode_udp_session_create : UdpSessionCreate → List ℕ
encode_udp_session_create m =
    msg_udp_session_create
    ∷ (put_u32 m.request_id
        ++ (addr_len m.target_addr ∷ (addr_bytes m.target_addr ++ put_u16 m.target_port)))

-- Nothing compares the length with the 16 bytes of an IPv6 address. (Go slices `data[off:off+addrLen]`
-- up to the capacity; the read of the port behind it then panics in any case.)
unfoldable pub decode_udp_session_create : List ℕ → Read UdpSessionCreate
unfolding u8
decode_udp_session_create bytes = do
  fail_if (ltb (length bytes) 12) too_short
  (t, rest) ← u8 bytes
  fail_if (not (eqb t msg_udp_session_create)) bad_type
  (request, rest) ← uint 4 rest
  (len, rest) ← u8 rest
  fail_if (not (eqb len 4) && not (eqb len 16)) bad_addr_len
  (addr, rest) ← take_bytes len rest
  (port, rest) ← uint 2 rest
  ok (record { request_id = request; target_addr = addr; target_port = port })

pub record UdpSessionCreateAck : Type 0 where
  pub request_id : ℕ
  pub session_id : ℕ

unfoldable pub encode_udp_session_create_ack : UdpSessionCreateAck → List ℕ
encode_udp_session_create_ack m =
    msg_udp_session_create ∷ (put_u32 m.request_id ++ put_u32 m.session_id)

unfoldable pub encode_udp_session_close : ℕ → List ℕ
encode_udp_session_close session_id = msg_udp_session_close ∷ put_u32 session_id

-- The type byte is not looked at.
unfoldable pub decode_udp_session_close : List ℕ → Read ℕ
decode_udp_session_close bytes = do
  fail_if (ltb (length bytes) 5) too_short
  (id, rest) ← uint 4 (drop 1 bytes)
  ok id
