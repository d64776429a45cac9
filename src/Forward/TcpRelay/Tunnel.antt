-- ===== src/Forward/TcpRelay/Tunnel.antt =====
-- A TCP connection through a peer: the dial at the entry, of wireCallbacks of node/node.go, and
-- HandleIncomingRelay of forward/tcp_relay.go at the exit.
use magic_tun.Base.{
  ℕ, ◌^◌, ◌≤◌, ◌<◌, ◌≡◌, refl, ap, ◌∙◌, inl, inr, Bool, true, false, some, none, List, [], ◌∷◌,
  append-nil, drop, ◌++◌, arith, ok, ltb, length, length-append, drop-append_length, get_elem?, get,
  nat_eq,
}
use magic_tun.Net.Ip.{v4_prefix, to16}
use magic_tun.Net.Prefix.{shorten}
use magic_tun.Net.Texts.{Texts, IsTexts, target_of}
use magic_tun.Wire.Codec.{put_u16}
use magic_tun.Wire.Address.{IsAddress, addr_bytes, addr_bytes_lem}
use magic_tun.Wire.Tcp.{TcpForwardHeader, encode_tcp_forward_header}
use magic_tun.Wire.Tcp.RoundTrip.{decode_tcp_forward_header-encode_tcp_forward_header}
use magic_tun.Transport.Frame.{Frame, frame_data, read_frame}
use magic_tun.Transport.Frame.RoundTrip.{
  IsFrame, frame_bytes, write_frame-IsFrame, read_frame-frame_bytes,
}
use magic_tun.Transport.Conn.{
  Picks, Stream, Conn, done, push, new_stream, open_stream, handle_frame, read_stream, write_stream,
}
use magic_tun.Transport.Conn.Accepting.{arrived, handle_frame_new, read_stream_first}
use magic_tun.Transport.Conn.Opening.{IsReady, open_stream_lem, get_elem?-append}
use magic_tun.Forward.TcpRelay.{
  header_for, peer_header, decoded, handle_incoming_relay, dial_on, dial_peer, write_header,
}

not_less : (n : ℕ) → ltb n n ≡ false
not_less n = ground arith

length-addr_bytes : (ip : List ℕ) → IsAddress ip → length (addr_bytes ip) ≤ 16
length-addr_bytes ip h =
    let (written, len, choice) = addr_bytes_lem ip h in ground (arith, written, len, choice)

length-header_for :
    (id : ℕ) (ip : List ℕ) (port : ℕ) → IsAddress ip → length (header_for id ip port) ≤ 25
unfolding encode_tcp_forward_header
length-header_for id ip port h =
    omega (arith, length-append (addr_bytes ip) (put_u16 port), length-addr_bytes ip h)

to16_address : (ip : List ℕ) → IsAddress ip → (a : List ℕ) × (to16 ip ≡ some a) × (length a ≡ 16)
unfolding to16
to16_address ip (inl four) = (v4_prefix ++ ip, ground arith, omega arith)
to16_address ip (inr long) = (ip, ground arith, long)

-- A new stream writes a short payload as one data frame of its number.
write_stream_new :
    (id : ℕ) (payload : List ℕ)
    → IsFrame (record { type = frame_data; stream_id = id; payload = payload })
    → write_stream payload (new_stream 16 id)
      ≡ some (frame_bytes (record { type = frame_data; stream_id = id; payload = payload }))
unfolding write_stream
write_stream_new id payload h =
    rw (write_frame-IsFrame (record { type = frame_data; stream_id = id; payload = payload }) h)
      refl

-- The header that the entry makes for a target of an address.
peer_header_lem :
    (t : Texts) (ip a : List ℕ) (port id : ℕ)
    → IsTexts t
    → IsAddress ip
    → port < 2 ^ 16
    → to16 ip ≡ some a
    → peer_header t (target_of t ip port) id ≡ header_for id a port
peer_header_lem t ip a port id laws h small long =
    rw (laws.split ip port h) (rw (laws.parse ip h ∙ long) (rw (laws.scan port small) refl))

-- The frame of the header at the entry
abbrev pub header_frame : ℕ → List ℕ → ℕ → Frame
header_frame id a port = record {
  type = frame_data;
  stream_id = id;
  payload = header_for id a port;
}

header_frame-IsFrame :
    (id : ℕ) (a : List ℕ) (port : ℕ) → id < 2 ^ 32 → IsAddress a → IsFrame (header_frame id a port)
header_frame-IsFrame id a port h q = record {
  id_u32 = h;
  small = omega (arith, length-header_for id a port q);
}

dial_on_lem :
    (t : Texts) (ip a : List ℕ) (port ref id : ℕ) (c : Conn)
    → IsTexts t
    → IsAddress ip
    → IsAddress a
    → port < 2 ^ 16
    → to16 ip ≡ some a
    → get_elem? c.store ref ≡ some (new_stream 16 id)
    → id < 2 ^ 32
    → dial_on t (target_of t ip port) (some ref, c) ≡ ok (ref, frame_bytes (header_frame id a port))
dial_on_lem t ip a port ref id c laws h ha small long stored low =
    let frame = header_frame-IsFrame id a port low ha in
    let header = peer_header_lem t ip a port id laws h small long in
    rw (stored, dial_on)
      (rw header (rw (write_stream_new id (header_for id a port) frame, write_header) refl))

-- What the exit makes of the header, where nothing stands behind it.
relay_lem :
    (t : Texts) (a : List ℕ) (port id : ℕ) (dials : List ℕ → Bool) (writes : List ℕ → List ℕ → Bool)
    → IsAddress a
    → port < 2 ^ 16
    → id < 2 ^ 32
    → dials (target_of t (shorten a) port) ≡ true
    → handle_incoming_relay t dials writes (some (header_for id a port))
      ≡ ok (target_of t (shorten a) port, [])
unfolding handle_incoming_relay
relay_lem t a port id dials writes h small low d =
    let hdr : TcpForwardHeader = record {
      flags = 1;
      stream_id = id;
      target_addr = a;
      target_port = port;
    } in
    let header = header_for id a port in
    let alone : header ++ [] ≡ header = append-nil header in
    let read = decode_tcp_forward_header-encode_tcp_forward_header hdr [] low small h in
    let rest : drop (length header) header ≡ [] =
      rw alone at (drop-append_length (length header) header [] refl) in
    rw (rw alone at read, decoded) (rw rest (rw d (rw (not_less (length header)) refl)))

-- The exit's end of a stream: readLoop takes in its first frame, and the stream that it then accepts
-- gives the frame's payload to the first read.
abbrev pub TakesIn : Picks → Frame → Conn → Conn → Type 0
TakesIn picks f exit exit' =
    (handle_frame picks f exit ≡ done exit')
    × (exit'.accept_ch ≡ exit.accept_ch ++ length exit.store ∷ [])
    × ((s : Stream) × (get_elem? exit'.store (length exit.store) ≡ some s)
        × (read_stream 32768 s ≡ done (ok f.payload, new_stream 16 f.stream_id)))

takes_in :
    (picks : Picks) (id port : ℕ) (a : List ℕ) (exit : Conn)
    → IsAddress a
    → exit.closed ≡ false
    → get id exit.streams ≡ none
    → length exit.accept_ch < 64
    → TakesIn picks (header_frame id a port) exit (arrived (header_frame id a port) exit)
unfolding encode_tcp_forward_header
takes_in picks id port a exit h is_open new room = (
  handle_frame_new picks (header_frame id a port) exit is_open new refl room,
  refl,
  (
    push (header_for id a port) (new_stream 16 id),
    get_elem?-append exit.store (push (header_for id a port) (new_stream 16 id)),
    read_stream_first 32768 id _ _ (omega (arith, length-header_for id a port h)),
  ),
)

-- A SOCKS connection to an address and port by way of a peer: the entry opens a new stream on its
-- connection to the peer and writes one frame. The exit reads that frame from the connection, with
-- nothing of it left over, makes a stream for it that waits to be accepted, and reads the frame's payload
-- from that stream; and, given these bytes, it dials exactly the target that the entry was asked for, and
-- writes nothing to it before the two are connected. The conditions are that a stream can be opened, that
-- the exit's connection is open, has room for a stream to accept, and no stream of that number, which
-- one that it has opened itself may have, and that the target can be dialed.
pub handle_incoming_relay-dial_peer :
    (t : Texts) (ip rest : List ℕ) (port ref : ℕ) (c c' exit : Conn) (picks : Picks)
    (dials : List ℕ → Bool) (writes : List ℕ → List ℕ → Bool)
    → IsTexts t
    → IsAddress ip
    → port < 2 ^ 16
    → IsReady c
    → open_stream c ≡ (some ref, c')
    → exit.closed ≡ false
    → ((id : ℕ) → get id c'.streams ≡ some ref → get id exit.streams ≡ none)
    → length exit.accept_ch < 64
    → dials (target_of t ip port) ≡ true
    → (bytes : List ℕ) × (f : Frame) × (exit' : Conn) × (dial_peer t (some c) (target_of t ip port)
        ≡ ok (ref, bytes))
      × (get f.stream_id c'.streams ≡ some ref)
      × (read_frame (bytes ++ rest) ≡ ok (f, rest))
      × TakesIn picks f exit exit'
      × (handle_incoming_relay t dials writes (some f.payload) ≡ ok (target_of t ip port, []))
unfolding dial_peer
handle_incoming_relay-dial_peer t ip rest port ref c c' exit picks dials writes laws h small ready
      opens is_open new room d =
    let (a, long, size) = to16_address ip h in
    let opened = (open_stream_lem c c' ref ready opens).1 in
    let f = header_frame opened.id a port in
    let frame = header_frame-IsFrame opened.id a port opened.small (inr size) in
    let text : target_of t (shorten a) port ≡ target_of t ip port =
      ap (λ (host : List ℕ). t.join_host_port host (t.decimal port))
        (laws.same_short a (inr size) ∙ laws.same_long ip a long) in
    let relayed =
      relay_lem t a port opened.id dials writes (inr size) small opened.small (rw text d) in
    (
      frame_bytes f,
      f,
      arrived f exit,
      rw opens (
          dial_on_lem t ip a port ref opened.id c' laws h (inr size) small long opened.stored
            opened.small),
      opened.mapped,
      read_frame-frame_bytes f rest frame,
      takes_in picks opened.id port a exit (inr size) is_open (new opened.id opened.mapped) room,
      rw text at relayed,
    )
