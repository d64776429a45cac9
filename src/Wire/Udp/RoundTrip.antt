-- ===== src/Wire/Udp/RoundTrip.antt =====
-- The encoders and decoders of wire/forward_udp.go, one after the other.
use magic_tun.Base.{ℕ, ◌^◌, ◌<◌, ◌≡◌, ◌⊎◌, List, [], ◌∷◌, ◌++◌, arith, ok, length, length-append}
use magic_tun.Wire.{msg_udp_session_create}
use magic_tun.Net.Prefix.{shorten}
use magic_tun.Wire.Codec.{put_u16, put_u32, uint-put_u32, uint-put_u16, take_bytes-append}
use magic_tun.Wire.Address.{addr_len, IsAddress, addr_bytes_lem}
use magic_tun.Wire.Udp.{
  UdpSessionCreate, encode_udp_forward, decode_udp_forward, encode_udp_session_create,
  decode_udp_session_create,
}

-- A datagram reads back as its session and its payload, byte for byte.
pub decode_udp_forward-encode_udp_forward :
    (session_id : ℕ) (payload : List ℕ)
    → session_id < 2 ^ 32
    → decode_udp_forward (encode_udp_forward session_id payload)
      ≡ ok (record { session_id = session_id }, payload)
decode_udp_forward-encode_udp_forward id payload h =
    unfold decode_udp_forward encode_udp_forward in ground (arith, uint-put_u32 id payload h)

decode_create :
    (r n p : ℕ) (a : List ℕ)
    → r < 2 ^ 32
    → p < 2 ^ 16
    → length a ≡ n
    → (n ≡ 4) ⊎ (n ≡ 16)
    → decode_udp_session_create (msg_udp_session_create ∷ (put_u32 r ++ (n ∷ (a ++ put_u16 p))))
      ≡ ok (record { request_id = r; target_addr = a; target_port = p })
unfolding decode_udp_session_create
decode_create r n p a hr hp ha hn = ground (
  arith,
  uint-put_u32 r (n ∷ (a ++ put_u16 p)) hr,
  take_bytes-append n a (put_u16 p) ha,
  uint-put_u16 p [] hp,
  length-append a (put_u16 p),
)

-- A session request reads back with its address in the short form.
pub decode_udp_session_create-encode_udp_session_create :
    (m : UdpSessionCreate)
    → m.request_id < 2 ^ 32
    → m.target_port < 2 ^ 16
    → IsAddress m.target_addr
    → decode_udp_session_create (encode_udp_session_create m)
      ≡ ok (record m { target_addr = shorten m.target_addr })
unfolding encode_udp_session_create
decode_udp_session_create-encode_udp_session_create m hr hp ha =
    let (written, len, choice) = addr_bytes_lem m.target_addr ha in
    rw written (
      decode_create m.request_id (addr_len m.target_addr) m.target_port (shorten m.target_addr) hr
        hp len choice)
