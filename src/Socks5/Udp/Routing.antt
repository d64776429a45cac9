-- ===== src/Socks5/Udp/Routing.antt =====
-- Where a client's datagram goes: handleUDPDatagram of socks5/udp.go.
use magic_tun.Base.{
  ℕ, zero, suc, ◌+◌, ◌/◌, ◌%◌, ◌^◌, ◌≤◌, ◌<◌, ◌≡◌, refl, ap, ◌∙◌, inl, inr, Option, none, some,
  List, [], ◌∷◌, ◌++◌, arith, if◌then◌else◌, eqb_iff, length, drop, length-append,
  take-append_length, drop-append_length, le→ltb, Option-cases, nat_eq, bytes_beq_refl, put,
}
use magic_tun.Identity.{is_zero}
use magic_tun.Wire.Codec.{put_u16}
use magic_tun.Route.Table.{Route, RoutingTable, lookup}
use magic_tun.Forward.Session.{UdpAddr}
use magic_tun.Socks5.Handshake.{byte_at}
use magic_tun.Socks5.Handshake.Accepts.{
  Target, v4, v6, domain, IsTarget, type_of, target_bytes, host_of,
}
use magic_tun.Socks5.Udp.{
  UdpClientSession, UdpAssociate, direct, forwarded, port_at, parse_address, parse_datagram,
  find_session, get_session_id, send_datagram, route_datagram, resolve_datagram,
  handle_udp_datagram,
}

-- A datagram as a client sends it.
abbrev pub datagram : Target → ℕ → List ℕ → List ℕ
datagram t port payload = 0 ∷ 0 ∷ 0 ∷ type_of t ∷ (target_bytes t ++ (put_u16 port ++ payload))

suc_plus : (i j : ℕ) → suc i + j ≡ suc (i + j)
suc_plus i j = omega arith

byte_at-drop : (bytes : List ℕ) (i j : ℕ) → byte_at bytes (i + j) ≡ byte_at (drop i bytes) j
byte_at-drop bytes zero j = ap (byte_at bytes) (omega arith)
byte_at-drop [] (suc i) j = refl
byte_at-drop (b ∷ bytes) (suc i) j = rw (suc_plus i j) (byte_at-drop bytes i j)

drop_nil : (i : ℕ) → drop {A = ℕ} i [] ≡ []
drop_nil zero = refl
drop_nil (suc i) = refl

drop-drop : (bytes : List ℕ) (i j : ℕ) → drop (i + j) bytes ≡ drop j (drop i bytes)
drop-drop bytes zero j = ap (λ (n : ℕ). drop n bytes) (omega arith)
drop-drop [] (suc i) j = rw (drop_nil (suc i + j)) (rw (drop_nil j) refl)
drop-drop (b ∷ bytes) (suc i) j = rw (suc_plus i j) (drop-drop bytes i j)

-- Behind a header of `n` bytes: the port and the payload.
behind :
    (n port : ℕ) (a payload : List ℕ)
    → length a ≡ n
    → port < 2 ^ 16
    → (port_at (a ++ (put_u16 port ++ payload)) n ≡ port)
      × (drop (n + 2) (a ++ (put_u16 port ++ payload)) ≡ payload)
behind n port a payload h p =
    let bytes : List ℕ = a ++ (put_u16 port ++ payload) in
    let cut : drop n bytes ≡ put_u16 port ++ payload = drop-append_length n a _ h in
    let high : byte_at bytes n ≡ port / 256 % 256 =
      ap (byte_at bytes) (omega arith) ∙ byte_at-drop bytes n 0 ∙ rw cut refl in
    let low : byte_at bytes (n + 1) ≡ port % 256 = byte_at-drop bytes n 1 ∙ rw cut refl in
    (rw high (rw low (omega arith)), drop-drop bytes n 2 ∙ rw cut refl)

parse_address_lem :
    (ip_string : List ℕ → List ℕ) (t : Target) (port : ℕ) (payload : List ℕ)
    → IsTarget t
    → port < 2 ^ 16
    → parse_address ip_string (datagram t port payload) ≡ some (host_of ip_string t, port, payload)
unfolding parse_address
parse_address_lem ip_string (v4 a) port payload h p =
    let (number, rest) = behind 8 port (0 ∷ 0 ∷ 0 ∷ 1 ∷ a) payload (omega (arith, h)) p in
    rw (take-append_length 4 a (put_u16 port ++ payload) h)
      (rw number (rw rest (ground (arith, length-append a (put_u16 port ++ payload)))))
parse_address_lem ip_string (v6 a) port payload h p =
    let (number, rest) = behind 20 port (0 ∷ 0 ∷ 0 ∷ 4 ∷ a) payload (omega (arith, h)) p in
    rw (take-append_length 16 a (put_u16 port ++ payload) h)
      (rw number (rw rest (ground (arith, length-append a (put_u16 port ++ payload)))))
parse_address_lem ip_string (domain d) port payload h p =
    let (number, rest) =
      behind (5 + length d) port (0 ∷ 0 ∷ 0 ∷ 3 ∷ length d ∷ d) payload (omega (arith, h)) p in
    rw (take-append_length (length d) d (put_u16 port ++ payload) refl)
      (rw number (rw rest (ground (arith, length-append d (put_u16 port ++ payload)))))

parse_datagram-datagram :
    (ip_string : List ℕ → List ℕ) (t : Target) (port : ℕ) (payload : List ℕ)
    → IsTarget t
    → port < 2 ^ 16
    → 10 ≤ length (datagram t port payload)
    → parse_datagram ip_string (datagram t port payload) ≡ some (host_of ip_string t, port, payload)
unfolding parse_datagram
parse_datagram-datagram ip_string t port payload h p long =
    rw (le→ltb (length (datagram t port payload)) 10 long)
      (parse_address_lem ip_string t port payload h p)

routes_to :
    (ip_string : List ℕ → List ℕ) (resolve : List ℕ → Option (List ℕ)) (fresh port : ℕ)
    (routes : RoutingTable) (bytes host ip payload : List ℕ) (r : Route) (ua : UdpAssociate)
    → parse_datagram ip_string bytes ≡ some (host, port, payload)
    → resolve host ≡ some ip
    → lookup routes ip ≡ some r
    → handle_udp_datagram ip_string resolve fresh routes bytes ua
      ≡ send_datagram fresh r.next_hop (record { ip = ip; port = port }) payload ua
unfolding handle_udp_datagram resolve_datagram route_datagram
routes_to ip_string resolve fresh port routes bytes host ip payload r ua e f g =
    rw (e, handle_udp_datagram) (rw (f, resolve_datagram) (rw (g, route_datagram) refl))

-- A datagram of at least 10 bytes to a target whose host resolves to an address, for which the table has
-- a route: if the route is to a network of this node, the payload goes straight to that address and port;
-- and if it has a next hop, the payload goes there, under the number of the client's flow to them.
pub handle_udp_datagram-datagram :
    (ip_string : List ℕ → List ℕ) (resolve : List ℕ → Option (List ℕ)) (fresh port : ℕ)
    (routes : RoutingTable) (t : Target) (ip payload : List ℕ) (r : Route) (ua : UdpAssociate)
    → IsTarget t
    → port < 2 ^ 16
    → 10 ≤ length (datagram t port payload)
    → resolve (host_of ip_string t) ≡ some ip
    → lookup routes ip ≡ some r
    → handle_udp_datagram ip_string resolve fresh routes (datagram t port payload) ua ≡ (
        if is_zero r.next_hop
        then (ua, direct (record { ip = ip; port = port }) payload ∷ [])
        else (
          (get_session_id fresh ua.client_addr (record { ip = ip; port = port }) ua).1,
          forwarded r.next_hop
                (get_session_id fresh ua.client_addr (record { ip = ip; port = port }) ua).0
                (record { ip = ip; port = port })
                payload
              ∷ [],
        ))
unfolding send_datagram
handle_udp_datagram-datagram ip_string resolve fresh port routes t ip payload r ua h p long e f =
    routes_to ip_string resolve fresh port routes (datagram t port payload) (host_of ip_string t) ip
      payload r ua (parse_datagram-datagram ip_string t port payload h p long) e f

-- A new flow is found under its number.
pub find_session-put :
    (fresh : ℕ) (client target : UdpAddr) (m : List (ℕ × UdpClientSession))
    → find_session client target m ≡ none
    → find_session client target
        (put fresh (record { session_id = fresh; client_addr = client; target_addr = target }) m)
      ≡ some fresh
unfolding find_session put
find_session-put fresh client target [] h = ground (
  arith,
  bytes_beq_refl client.ip,
  bytes_beq_refl target.ip,
  eqb_iff client.port client.port,
  eqb_iff target.port target.port,
)
find_session-put fresh client target ((id, s) ∷ m) h = ground (
  arith,
  bytes_beq_refl client.ip,
  bytes_beq_refl target.ip,
  eqb_iff client.port client.port,
  eqb_iff target.port target.port,
  find_session-put fresh client target m,
)

abbrev with_flow : ℕ → UdpAddr → UdpAddr → UdpAssociate → UdpAssociate
with_flow id client target ua = record ua {
  sessions =
      put id (record { session_id = id; client_addr = client; target_addr = target }) ua.sessions;
}

new_flow :
    (fresh : ℕ) (client target : UdpAddr) (ua : UdpAssociate)
    → find_session client target ua.sessions ≡ none
    → get_session_id fresh client target ua ≡ (fresh, with_flow fresh client target ua)
unfolding get_session_id
new_flow fresh client target ua e = rw (e, get_session_id) refl

known_flow :
    (fresh id : ℕ) (client target : UdpAddr) (ua : UdpAssociate)
    → find_session client target ua.sessions ≡ some id
    → get_session_id fresh client target ua ≡ (id, ua)
unfolding get_session_id
known_flow fresh id client target ua e = rw (e, get_session_id) refl

-- A flow keeps its number: once a client and a target have got one, every later call for them gives the
-- same and changes nothing.
pub get_session_id_again :
    (fresh later : ℕ) (client target : UdpAddr) (ua : UdpAssociate)
    → get_session_id later client target (get_session_id fresh client target ua).1
      ≡ get_session_id fresh client target ua
get_session_id_again fresh later client target ua =
    elim (Option-cases (find_session client target ua.sessions)) [
      | inr (id, e) ↦
          rw (known_flow fresh id client target ua e) (known_flow later id client target ua e)
      | inl e ↦ rw (new_flow fresh client target ua e) (
          known_flow later fresh client target (with_flow fresh client target ua)
            (find_session-put fresh client target ua.sessions e))
    ]
