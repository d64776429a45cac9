-- ===== src/Socks5/Server/Requests.antt =====
-- What a client that follows RFC 1928 gets: handleConnection of socks5/server.go with the handshake and
-- the routing table.
use magic_tun.Base.{
  ℕ, ◌^◌, ◌<◌, ◌≡◌, refl, ◌∙◌, inl, inr, Bool, true, Option, none, some, List, [], ◌∷◌, ◌++◌,
  if◌then◌else◌, length, Bool-cases,
}
use magic_tun.Net.Ip.{to16}
use magic_tun.Net.Texts.{Texts, IsTexts, target_of}
use magic_tun.Wire.Address.{IsAddress}
use magic_tun.Identity.{NodeId, is_zero}
use magic_tun.Route.Table.{Route, RoutingTable, lookup}
use magic_tun.Socks5.Handshake.{no_auth_offered, send_success_reply, send_error_reply}
use magic_tun.Socks5.Handshake.Accepts.{
  Target, v4, v6, domain, IsTarget, host_of, greeting, request, handle_handshake-request,
}
use magic_tun.Socks5.Server.{
  direct, through, Outcome, closes, relays, follow_route, connect_host, connect_target,
  handle_request, handle_connection,
}

-- A target that is an address.
abbrev pub address_of : Target → List ℕ
address_of (v4 a) = a
address_of (v6 a) = a
address_of (domain d) = []

abbrev pub IsDirectTarget : Target → Type 0
IsDirectTarget (v4 a) = length a ≡ 4
IsDirectTarget (v6 a) = length a ≡ 16
IsDirectTarget (domain d) = ⊥

direct_target :
    (ip_string : List ℕ → List ℕ) (tg : Target)
    → IsDirectTarget tg
    → IsTarget tg × IsAddress (address_of tg) × (host_of ip_string tg ≡ ip_string (address_of tg))
direct_target ip_string (v4 a) h = (h, inl h, refl)
direct_target ip_string (v6 a) h = (h, inr h, refl)
direct_target ip_string (domain d) h = absurd h

-- What the client of a connection is told and where it is connected to, by the route to its target.
abbrev pub answered :
    List ℕ → List ℕ → (List ℕ → Bool) → (NodeId → List ℕ → Bool) → Option Route → Outcome
answered target rest dial dial_peer none = closes ((5 ∷ 0 ∷ []) ∷ send_error_reply 3 ∷ [])
answered target rest dial dial_peer (some r) =
    let via = if is_zero r.next_hop then direct else through r.next_hop in
    let reached = if is_zero r.next_hop then dial target else dial_peer r.next_hop target in
    if reached
    then relays ((5 ∷ 0 ∷ []) ∷ send_success_reply ∷ []) via target rest
    else closes ((5 ∷ 0 ∷ []) ∷ send_error_reply 4 ∷ [])

module _ (t : Texts) (lookup_ip : List ℕ → Option (List ℕ)) (routes : RoutingTable)
    (dial : List ℕ → Bool) (dial_peer : NodeId → List ℕ → Bool) where
  follow_route_lem :
      (target rest : List ℕ) (route : Option Route)
      → follow_route t lookup_ip routes
          (some dial)
          (some dial_peer)
          ((5 ∷ 0 ∷ []) ∷ [])
          target
          rest
          route
        ≡ answered target rest dial dial_peer route
  follow_route_lem target rest none = refl
  follow_route_lem target rest (some r) = elim (Bool-cases (is_zero r.next_hop)) [
    | inl near ↦
        rw near (elim (Bool-cases (dial target)) [ inl up ↦ rw up refl | inr down ↦ rw down refl ])
    | inr far ↦ rw far (elim (Bool-cases (dial_peer r.next_hop target)) [
      | inl up ↦ rw up refl
      | inr down ↦ rw down refl
    ])
  ]

  connect_lem :
      (ip a rest : List ℕ) (port : ℕ)
      → IsTexts t
      → IsAddress ip
      → to16 ip ≡ some a
      → connect_target t lookup_ip routes
          (some dial)
          (some dial_peer)
          ((5 ∷ 0 ∷ []) ∷ [])
          (target_of t ip port)
          rest
        ≡ answered (target_of t ip port) rest dial dial_peer (lookup routes a)
  connect_lem ip a rest port laws h long =
      rw (laws.split ip port h, connect_target)
        (rw (laws.parse ip h ∙ long, connect_host)
          (follow_route_lem (target_of t ip port) rest (lookup routes a)))

  -- A client that greets with fewer than 256 methods, among them the one without authentication, and asks
  -- for a connection to an IPv4 or IPv6 address: it is told that this method was chosen, and then, by the
  -- route of its target's address, that the network is unreachable (3) if there is none, that the host is
  -- (4) if the dial fails, and else that it succeeded. The dial is of the very target, by this node for
  -- a route without a next hop and by way of the next hop otherwise, and the bytes behind the request are
  -- left to be relayed. A client that does not offer that method is told that none will do.
  pub handle_connection-request :
      (methods : List ℕ) (tg : Target) (a : List ℕ) (port : ℕ) (rest : List ℕ)
      → IsTexts t
      → length methods < 256
      → IsDirectTarget tg
      → port < 2 ^ 16
      → to16 (address_of tg) ≡ some a
      → handle_connection t lookup_ip routes
          (some dial)
          (some dial_peer)
          true
          (greeting methods ++ (request 1 tg port ++ rest))
        ≡ (if no_auth_offered methods
            then answered (target_of t (address_of tg) port) rest dial dial_peer (lookup routes a)
            else closes ((5 ∷ 255 ∷ []) ∷ []))
  unfolding handle_connection handle_request
  handle_connection-request methods tg a port rest laws few h small long =
      let (good, addr, host) = direct_target t.ip_string tg h in
      let join = λ (host : List ℕ) (port : ℕ). t.join_host_port host (t.decimal port) in
      let shake =
        handle_handshake-request t.ip_string join methods 1 tg port rest few (inl refl) good
          small in
      rw shake (elim (Bool-cases (no_auth_offered methods)) [
        | inl offered ↦
            rw offered (rw host (connect_lem (address_of tg) a rest port laws addr long))
        | inr missing ↦ rw missing refl
      ])
