-- ===== src/Wire/Tcp/RoundTrip.antt =====
-- The encoders and decoders of wire/forward_tcp.go, one after the other.
use magic_tun.Base.{
  ℕ, ◌+◌, ◌^◌, ◌<◌, ◌≡◌, ap, ◌∙◌, ◌⊎◌, List, [], ◌∷◌, ◌++◌, arith, ok, length, length-append,
  append_assoc,
}
use magic_tun.Net.Prefix.{shorten}
use magic_tun.Wire.{msg_tcp_forward}
use magic_tun.Wire.Codec.{put_u16, put_u32, uint-put_u32, uint-put_u16, take_bytes-append}
use magic_tun.Wire.Address.{addr_len, IsAddress, addr_bytes_lem}
use magic_tun.Wire.Tcp.{
  TcpForwardHeader, encode_tcp_forward_header, decode_tcp_forward_header, encode_tcp_close,
  decode_tcp_close,
}

decode_header :
    (f s n p : ℕ) (a more : List ℕ)
    → s < 2 ^ 32
    → p < 2 ^ 16
    → length a ≡ n
    → (n ≡ 4) ⊎ (n ≡ 16)
    → decode_tcp_forward_header
        (msg_tcp_forward ∷ f ∷ (put_u32 s ++ (n ∷ (a ++ (put_u16 p ++ more)))))
      ≡ ok (record { flags = f; stream_id = s; target_addr = a; target_port = p }, n + 9)
unfolding decode_tcp_forward_header
decode_header f s n p a more hs hp ha hn = ground (
  arith,
  uint-put_u32 s (n ∷ (a ++ (put_u16 p ++ more))) hs,
  take_bytes-append n a (put_u16 p ++ more) ha,
  uint-put_u16 p more hp,
  length-append a (put_u16 p ++ more),
)

-- A header reads back with its address in the short form, whatever follows it on the stream, and the
-- offset that comes with it is the number of bytes written.
pub decode_tcp_forward_header-encode_tcp_forward_header :
    (h : TcpForwardHeader) (more : List ℕ)
    → h.stream_id < 2 ^ 32
    → h.target_port < 2 ^ 16
    → IsAddress h.target_addr
    → decode_tcp_forward_header (encode_tcp_forward_header h ++ more)
      ≡ ok (record h { target_addr = shorten h.target_addr }, length (encode_tcp_forward_header h))
unfolding encode_tcp_forward_header
decode_tcp_forward_header-encode_tcp_forward_header h more hs hp ha =
    let (written, len, choice) = addr_bytes_lem h.target_addr ha in
    let size : length (shorten h.target_addr ++ put_u16 h.target_port) + 7
        ≡ addr_len h.target_addr + 9 =
      omega (arith, length-append (shorten h.target_addr) (put_u16 h.target_port), len) in
    rw (written, append_assoc (shorten h.target_addr) (put_u16 h.target_port) more)
      (decode_header h.flags h.stream_id (addr_len h.target_addr) h.target_port
          (shorten h.target_addr) more hs hp len choice
        ∙ ap (λ (n : ℕ). ok (record h { target_addr = shorten h.target_addr }, n)) (omega arith))

-- A close notification reads back as its stream.
pub decode_tcp_close-encode_tcp_close :
    (stream_id : ℕ)
    → stream_id < 2 ^ 32
    → decode_tcp_close (encode_tcp_close stream_id) ≡ ok stream_id
unfolding decode_tcp_close encode_tcp_close
decode_tcp_close-encode_tcp_close id h = ground (arith, uint-put_u32 id [] h)
