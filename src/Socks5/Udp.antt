-- ===== src/Socks5/Udp.antt =====
-- socks5/udp.go: the datagrams of an association. `ip_string` is net.IP.String, `resolve` is
-- net.ParseIP and then net.LookupIP: the address of a host's text, if it has one. The texts of two UDP
-- addresses are the same if the ports are, and the IP addresses up to the form. `fresh` is the number that the loop of getSessionID ends with.
pub mod Routing
use magic_tun.Base.{
  ℕ, zero, suc, ◌+◌, ◌*◌, Bool, true, false, not, ◌&&◌, ◌||◌, Option, none, some, List, [], ◌∷◌,
  ◌++◌, if◌then◌else◌, ltb, eqb, length, take, drop, nat_eq, put,
}
use magic_tun.Net.Ip.{equal_ip}
use magic_tun.Identity.{NodeId, is_zero}
use magic_tun.Route.Table.{Route, RoutingTable, lookup}
use magic_tun.Forward.Session.{UdpAddr}
use magic_tun.Socks5.Handshake.{byte_at, addr_type_ipv4, addr_type_domain, addr_type_ipv6}

pub record UdpClientSession : Type 0 where
  pub session_id : ℕ
  pub client_addr : UdpAddr
  pub target_addr : UdpAddr

pub record UdpAssociate : Type 0 where
  pub client_addr : UdpAddr
  pub sessions : List (ℕ × UdpClientSession)

-- Calls of udpDirectFunc and udpForwardFunc
pub data Effect : Type 0 where
  direct : UdpAddr → List ℕ → Effect
  forwarded : NodeId → ℕ → UdpAddr → List ℕ → Effect

-- The text of the host, the port and the payload of a datagram
abbrev pub Parsed : Type 0
Parsed = List ℕ × ℕ × List ℕ

-- binary.BigEndian.Uint16(data[off:])
abbrev pub port_at : List ℕ → ℕ → ℕ
port_at bytes off = byte_at bytes off * 256 + byte_at bytes (off + 1)

-- The switch on the type of the address
unfoldable pub parse_address : (List ℕ → List ℕ) → List ℕ → Option Parsed
parse_address ip_string bytes =
    let len = byte_at bytes 4 in
    if eqb (byte_at bytes 3) addr_type_ipv4
    then (if ltb (length bytes) 10
        then none
        else some (ip_string (take 4 (drop 4 bytes)), port_at bytes 8, drop 10 bytes))
    else if eqb (byte_at bytes 3) addr_type_domain
    then (if ltb (length bytes) 7 || ltb (length bytes) (5 + len + 2)
        then none
        else some (take len (drop 5 bytes), port_at bytes (5 + len), drop (5 + len + 2) bytes))
    else if eqb (byte_at bytes 3) addr_type_ipv6
    then (if ltb (length bytes) 22
        then none
        else some (ip_string (take 16 (drop 4 bytes)), port_at bytes 20, drop 22 bytes))
    else none

unfoldable pub parse_datagram : (List ℕ → List ℕ) → List ℕ → Option Parsed
parse_datagram ip_string bytes =
    if ltb (length bytes) 10
    then none
    else if not (eqb (byte_at bytes 0) 0) || not (eqb (byte_at bytes 1) 0)
    then none
    else if not (eqb (byte_at bytes 2) 0)
    then none
    else parse_address ip_string bytes

abbrev pub same_addr : UdpAddr → UdpAddr → Bool
same_addr a b = equal_ip a.ip b.ip && eqb a.port b.port

-- The loop over the sessions
unfoldable pub find_session : UdpAddr → UdpAddr → List (ℕ × UdpClientSession) → Option ℕ
find_session client target [] = none
find_session client target ((id, s) ∷ m) =
    if same_addr s.client_addr client && same_addr s.target_addr target
    then some s.session_id
    else find_session client target m

-- getSessionID
unfoldable pub get_session_id : ℕ → UdpAddr → UdpAddr → UdpAssociate → ℕ × UdpAssociate
get_session_id fresh client target ua = elim (find_session client target ua.sessions) [
  | some id ↦ (id, ua)
  | none ↦ (
    fresh,
    record ua {
      sessions =
          put fresh (record { session_id = fresh; client_addr = client; target_addr = target })
            ua.sessions;
    },
  )
]

-- handleUDPDatagram behind the lookup of the route; both callbacks are set
unfoldable pub send_datagram :
    ℕ → NodeId → UdpAddr → List ℕ → UdpAssociate → UdpAssociate × List Effect
send_datagram fresh next_hop target payload ua =
    let (id, ua') = get_session_id fresh ua.client_addr target ua in
    if is_zero next_hop
    then (ua, direct target payload ∷ [])
    else (ua', forwarded next_hop id target payload ∷ [])

unfoldable pub route_datagram :
    ℕ → RoutingTable → List ℕ → ℕ → List ℕ → UdpAssociate → UdpAssociate × List Effect
route_datagram fresh routes ip port payload ua = elim (lookup routes ip) [
  | none ↦ (ua, [])
  | some r ↦ send_datagram fresh r.next_hop (record { ip = ip; port = port }) payload ua
]

unfoldable pub resolve_datagram :
    (List ℕ → Option (List ℕ))
    → ℕ
    → RoutingTable
    → Parsed
    → UdpAssociate
    → UdpAssociate × List Effect
resolve_datagram resolve fresh routes (host, port, payload) ua = elim (resolve host) [
  | none ↦ (ua, [])
  | some ip ↦ route_datagram fresh routes ip port payload ua
]

-- handleUDPDatagram
unfoldable pub handle_udp_datagram :
    (List ℕ → List ℕ)
    → (List ℕ → Option (List ℕ))
    → ℕ
    → RoutingTable
    → List ℕ
    → UdpAssociate
    → UdpAssociate × List Effect
handle_udp_datagram ip_string resolve fresh routes bytes ua =
    elim (parse_datagram ip_string bytes) [
      | none ↦ (ua, [])
      | some parsed ↦ resolve_datagram resolve fresh routes parsed ua
    ]
