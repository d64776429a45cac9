-- ===== src/Socks5/Association/Flows.antt =====
-- The numbers of a client's flows, over an association: handleUDPAssociate and getSessionID of
-- socks5/udp.go.
use magic_tun.Base.{
  ℕ, ◌≡◌, ◌↔◌, true, Option, none, some, List, [], ◌∷◌, map, arith, eqb_iff, All, get, nat_eq,
  HasDistinctKeys,
}
use magic_tun.Net.Ip.{long_form, equal_ip_iff}
use magic_tun.Forward.Session.{UdpAddr}
use magic_tun.Socks5.Udp.{
  UdpClientSession, UdpAssociate, Effect, direct, forwarded, same_addr, find_session,
}
use magic_tun.Socks5.Association.{Received, receive}

-- Whether two addresses have the same text
pub same_addr_iff :
    (a b : UdpAddr)
    → (same_addr a b ≡ true) ↔ ((long_form a.ip ≡ long_form b.ip) × (a.port ≡ b.port))
same_addr_iff a b = ground (arith, equal_ip_iff a.ip b.ip, eqb_iff a.port b.port)

-- Each session under its own number, once
abbrev IsOwn : ℕ × UdpClientSession → Type 0
IsOwn (id, s) = s.session_id ≡ id

abbrev IsAssociate : UdpAssociate → Type 0
IsAssociate ua = All IsOwn ua.sessions × HasDistinctKeys ua.sessions

-- Every flow that has a number keeps it.
abbrev IsExtended : UdpAssociate → UdpAssociate → Type 0
IsExtended ua later =
    (c t : UdpAddr) (id : ℕ)
    → find_session c t ua.sessions ≡ some id
    → find_session c t later.sessions ≡ some id

-- The number with which a call is made is that of its flow.
abbrev IsNumbered : UdpAssociate → UdpAddr × Effect → Type 0
IsNumbered ua (c, direct t payload) = Unit
IsNumbered ua (c, forwarded next_hop id t payload) = find_session c t ua.sessions ≡ some id

abbrev IsKept : UdpAddr → UdpAssociate → UdpAssociate × List Effect → Type 0
IsKept c ua (later, out) =
    IsAssociate later × IsExtended ua later × All (IsNumbered later) (map (λ e. (c, e)) out)

module _ (ip_string : List ℕ → List ℕ) (resolve : List ℕ → Option (List ℕ)) where
  -- The number for a new session is one that no session has, when each datagram is read.
  abbrev pub AllFresh : List Received → UdpAssociate → Type 0
  AllFresh [] ua = Unit
  AllFresh (d ∷ ds) ua =
      (get d.fresh ua.sessions ≡ none) × AllFresh ds (receive ip_string resolve d ua).0
