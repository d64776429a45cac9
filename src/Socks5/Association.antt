-- ===== src/Socks5/Association.antt =====
-- A client's UDP association: handleUDPAssociate of socks5/udp.go. Its loop ends with the first read
-- that fails; what is read before is a list.
pub mod Flows
use magic_tun.Base.{ℕ, ◌++◌, Option, none, some, List, [], ◌∷◌, map, take}
use magic_tun.Net.Ip.{to4, or_nil}
use magic_tun.Route.Table.{RoutingTable}
use magic_tun.Forward.Session.{UdpAddr}
use magic_tun.Socks5.Handshake.{rep_success, send_reply, send_error_reply}
use magic_tun.Socks5.Udp.{UdpAssociate, Effect, handle_udp_datagram}

abbrev rep_general_failure : ℕ
rep_general_failure = 0x01

-- A datagram that ReadFromUDP gives, with the routing table at that time, and the number with which the
-- loop of getSessionID ends if it is entered.
pub record Received : Type 0 where
  pub client_addr : UdpAddr
  pub bytes : List ℕ
  pub routes : RoutingTable
  pub fresh : ℕ

-- `&udpAssociate{…}`
abbrev pub new_associate : UdpAssociate
new_associate = record { client_addr = record { ip = []; port = 0 }; sessions = [] }

module _ (ip_string : List ℕ → List ℕ) (resolve : List ℕ → Option (List ℕ)) where
  -- One turn of the loop, with its buffer of 65536 bytes
  abbrev pub receive : Received → UdpAssociate → UdpAssociate × List Effect
  receive d ua =
      handle_udp_datagram ip_string resolve d.fresh d.routes (take 65536 d.bytes)
        (record ua { client_addr = d.client_addr })

  -- The loop: each call of a callback, with the client whose datagram it is for
  unfoldable pub receive_all : List Received → UdpAssociate → UdpAssociate × List (UdpAddr × Effect)
  receive_all [] ua = (ua, [])
  receive_all (d ∷ ds) ua =
      let (ua1, out) = receive d ua in
      let (ua2, rest) = receive_all ds ua1 in (ua2, map (λ e. (d.client_addr, e)) out ++ rest)

  -- handleUDPAssociate, with the address of its socket, if there is one: what the client is told, and the
  -- calls.
  unfoldable pub handle_udp_associate :
      Option UdpAddr → List Received → List ℕ × List (UdpAddr × Effect)
  handle_udp_associate none ds = (send_error_reply rep_general_failure, [])
  handle_udp_associate (some bind) ds =
      (send_reply rep_success (or_nil (to4 bind.ip)) bind.port, (receive_all ds new_associate).1)
