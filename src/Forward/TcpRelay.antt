-- ===== src/Forward/TcpRelay.antt =====
-- forward/tcp_relay.go, and the dial of a SOCKS connection by way of a peer, in wireCallbacks of
-- node/node.go, which has a relay of its own. What io.Copy carries from then on, in both directions, are
-- the bytes of the streams; it is not modelled.
pub mod Tunnel
use magic_tun.Base.{
  ℕ, Bool, true, false, not, ◌&&◌, Option, none, some, List, [], ◌∷◌, Result, ok, err, panic, ◌>>=◌,
  ◌>>◌, fail_if, if◌then◌else◌, ltb, length, take, drop, get_elem?,
}
use magic_tun.Net.Ip.{or_nil}
use magic_tun.Net.Texts.{Texts, target_of}
use magic_tun.Wire.Tcp.{
  TcpForwardHeader, tcp_flag_new_stream, encode_tcp_forward_header, decode_tcp_forward_header,
}
use magic_tun.Transport.Conn.{Stream, Conn, open_stream, write_stream, close_stream}

pub data Error : Type 0 where
  no_stream bad_target bad_ip bad_port write_failed read_failed bad_header dial_failed : Error

-- A Go value with an error, as a result
abbrev pub or_error {ℓ} : {A : Type ℓ} → Error → Option A → Result Error A
or_error e none = err e
or_error e (some a) = ok a

-- The header for a target, on the stream with the number `id`
abbrev pub header_for : ℕ → List ℕ → ℕ → List ℕ
header_for id ip port =
    encode_tcp_forward_header
      (record { flags = tcp_flag_new_stream; stream_id = id; target_addr = ip; target_port = port })

-- RelayToPeer before the splice: the bytes of the header's frame
unfoldable pub relay_to_peer : Texts → Option Stream → List ℕ → Result Error (List ℕ)
relay_to_peer t stream target = do
  s ← or_error no_stream stream
  (host, port_text) ← or_error bad_target (t.split_host_port target)
  ip ← or_error bad_ip (t.parse_ip host)
  port ← or_error bad_port (t.scan_port port_text)
  or_error write_failed (write_stream (header_for s.id ip port) s)

-- HandleIncomingRelay before the splice, with what the first read gives and whether a target can be
-- dialed and written: the target, and what is written to it. It is called with the bytes that the read
-- gave, `none` for an error.
abbrev pub decoded : List ℕ → Result Error (TcpForwardHeader × ℕ)
decoded bytes = elim (decode_tcp_forward_header bytes) [
  | ok got ↦ ok got
  | err e ↦ err bad_header
  | panic ↦ panic
]

unfoldable pub handle_incoming_relay :
    Texts
    → (List ℕ → Bool)
    → (List ℕ → List ℕ → Bool)
    → Option (List ℕ)
    → Result Error (List ℕ × List ℕ)
handle_incoming_relay t dials writes first = do
  bytes ← or_error read_failed first
  (hdr, consumed) ← decoded bytes
  fail_if (not (dials (target_of t hdr.target_addr hdr.target_port))) dial_failed
  fail_if
      (ltb consumed (length bytes)
        && not (writes (target_of t hdr.target_addr hdr.target_port) (drop consumed bytes)))
      write_failed
  ok (target_of t hdr.target_addr hdr.target_port, drop consumed bytes)

-- The function of SetDialPeer, from a connection to the peer: the stream, and the frame of its header.
-- The errors of the three reads of the target are dropped: a nil address, and port 0.
abbrev host_or : Option (List ℕ × List ℕ) → List ℕ
host_or none = []
host_or (some (host, port)) = host

abbrev port_or : Option (List ℕ × List ℕ) → List ℕ
port_or none = []
port_or (some (host, port)) = port

abbrev number_or : Option ℕ → ℕ
number_or none = 0
number_or (some n) = n

abbrev pub peer_header : Texts → List ℕ → ℕ → List ℕ
peer_header t target id =
    let parts = t.split_host_port target in
    header_for id (or_nil (t.parse_ip (host_or parts))) (number_or (t.scan_port (port_or parts)))

abbrev write_header : List ℕ → Stream → ℕ → Result Error (ℕ × List ℕ)
write_header header s ref = do
  bytes ← or_error write_failed (write_stream header s)
  ok (ref, bytes)

abbrev pub dial_on : Texts → List ℕ → Option ℕ × Conn → Result Error (ℕ × List ℕ)
dial_on t target (none, c) = err no_stream
dial_on t target (some ref, c) = elim (get_elem? c.store ref) [
  | none ↦ err no_stream
  | some s ↦ write_header (peer_header t target s.id) s ref
]

unfoldable pub dial_peer : Texts → Option Conn → List ℕ → Result Error (ℕ × List ℕ)
dial_peer t none target = err no_stream
dial_peer t (some c) target = dial_on t target (open_stream c)
