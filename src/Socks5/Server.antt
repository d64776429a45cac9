-- ===== src/Socks5/Server.antt =====
-- socks5/server.go: a client's TCP connection, from its first byte to the relay. What the client sends is
-- a list of bytes, `writes` whether it can be written. `lookup_ip` is the first address that net.LookupIP
-- finds; `dials` and `dials_peer` are whether a call of the dial functions succeeds, `none` where the
-- function is not set.
pub mod Requests
use magic_tun.Base.{
  ℕ, Bool, true, false, Option, none, some, List, [], ◌∷◌, ◌++◌, Result, ok, err, panic,
  if◌then◌else◌, eqb,
}
use magic_tun.Net.Texts.{Texts}
use magic_tun.Identity.{NodeId, is_zero}
use magic_tun.Route.Table.{Route, RoutingTable, lookup}
use magic_tun.Socks5.Handshake.{
  Error, SocksRequest, cmd_udp_associate, handle_handshake, send_success_reply, send_error_reply,
}

abbrev pub rep_net_unreachable : ℕ
rep_net_unreachable = 0x03

abbrev pub rep_host_unreachable : ℕ
rep_host_unreachable = 0x04

-- How a target is reached: by a connection of this node, or by way of a peer
pub data Via : Type 0 where
  direct : Via
  through : NodeId → Via

-- What becomes of the connection, with all that is written to the client before: it is closed, it stands
-- for a UDP association, or it is relayed, with what the client has sent behind its request.
pub data Outcome : Type 0 where
  closes : List (List ℕ) → Outcome
  associates : List (List ℕ) → Outcome
  relays : List (List ℕ) → Via → List ℕ → List ℕ → Outcome

module _ (t : Texts) (lookup_ip : List ℕ → Option (List ℕ)) (routes : RoutingTable)
    (dials : Option (List ℕ → Bool)) (dials_peer : Option (NodeId → List ℕ → Bool)) where
  -- A dial and the reply to its outcome
  abbrev pub relay_or_fail : List (List ℕ) → Via → List ℕ → List ℕ → Bool → Outcome
  relay_or_fail replies via target rest true =
      relays (replies ++ send_success_reply ∷ []) via target rest
  relay_or_fail replies via target rest false =
      closes (replies ++ send_error_reply rep_host_unreachable ∷ [])

  abbrev pub dial_direct : List (List ℕ) → List ℕ → List ℕ → Option (List ℕ → Bool) → Outcome
  dial_direct replies target rest none = closes replies
  dial_direct replies target rest (some dial) =
      relay_or_fail replies direct target rest (dial target)

  abbrev pub dial_through :
      List (List ℕ) → NodeId → List ℕ → List ℕ → Option (NodeId → List ℕ → Bool) → Outcome
  dial_through replies peer target rest none = closes replies
  dial_through replies peer target rest (some dial) =
      relay_or_fail replies (through peer) target rest (dial peer target)

  -- handleConnection behind the lookup of the route
  abbrev pub follow_route : List (List ℕ) → List ℕ → List ℕ → Option Route → Outcome
  follow_route replies target rest none =
      closes (replies ++ send_error_reply rep_net_unreachable ∷ [])
  follow_route replies target rest (some r) =
      if is_zero r.next_hop
      then dial_direct replies target rest dials
      else dial_through replies r.next_hop target rest dials_peer

  abbrev resolve_host : List (List ℕ) → List ℕ → List ℕ → List ℕ → Option (List ℕ) → Outcome
  resolve_host replies port target rest none = closes replies
  resolve_host replies port target rest (some ip) =
      follow_route replies (t.join_host_port (t.ip_string ip) port) rest (lookup routes ip)

  -- The address of a target, and its text
  abbrev pub connect_host : List (List ℕ) → List ℕ → List ℕ → List ℕ → List ℕ → Outcome
  connect_host replies host port target rest = elim (t.parse_ip host) [
    | some ip ↦ follow_route replies target rest (lookup routes ip)
    | none ↦ resolve_host replies port target rest (lookup_ip host)
  ]

  abbrev pub connect_target : List (List ℕ) → List ℕ → List ℕ → Outcome
  connect_target replies target rest = elim (t.split_host_port target) [
    | none ↦ closes replies
    | some (host, port) ↦ connect_host replies host port target rest
  ]

  -- handleConnection behind the handshake
  unfoldable pub handle_request : List (List ℕ) → SocksRequest → List ℕ → Outcome
  handle_request replies req rest =
      if eqb req.cmd cmd_udp_associate
      then associates replies
      else connect_target replies req.target_addr rest

  -- handleConnection behind the call of handleHandshake
  abbrev pub serve : Result Error (SocksRequest × List ℕ) × List (List ℕ) → Outcome
  serve (ok (req, rest), replies) = handle_request replies req rest
  serve (err e, replies) = closes replies
  serve (panic, replies) = closes replies

  -- handleConnection
  unfoldable pub handle_connection : Bool → List ℕ → Outcome
  handle_connection writes bytes = serve (
      handle_handshake t.ip_string (λ host port. t.join_host_port host (t.decimal port)) writes
        bytes)
