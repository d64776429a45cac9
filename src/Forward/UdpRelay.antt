-- ===== src/Forward/UdpRelay.antt =====
-- forward/udp_relay.go. The relay's two callbacks are effects; each may be unset.
pub mod Incoming
pub mod Clients
use magic_tun.Base.{
  ℕ, Bool, true, Option, none, some, List, [], ◌∷◌, Result, ok, err, panic, if◌then◌else◌, nat_eq,
  get,
}
use magic_tun.Identity.{NodeId, equal}
use magic_tun.Wire.Udp.{UdpForwardHeader, encode_udp_forward, decode_udp_forward}
use magic_tun.Forward.Session.{
  UdpAddr, UdpSession, SessionTable, create, create_with_id, lookup, touch,
}

pub record UdpRelay : Type 0 where
  pub sessions : SessionTable
  pub has_send : Bool
  pub has_deliver : Bool

-- Calls of sendUDP and deliverLocal
pub data Effect : Type 0 where
  sent : NodeId → List ℕ → Effect
  delivered : UdpSession → List ℕ → Effect

abbrev pub new_udp_relay : SessionTable → UdpRelay
new_udp_relay sessions = record {
  sessions = sessions;
  has_send = Bool.false;
  has_deliver = Bool.false;
}

abbrev pub forward_to_peer : UdpRelay → NodeId → UdpSession → List ℕ → List Effect
forward_to_peer r next_hop s payload =
    if r.has_send then sent next_hop (encode_udp_forward s.id payload) ∷ [] else []

-- The session of an incoming datagram: the one of its number, or a new one
unfoldable pub find_or_create : ℕ → NodeId → ℕ → SessionTable → UdpSession × SessionTable
find_or_create now from id st = elim (lookup id st) [
  | some s ↦ (s, st)
  | none ↦ create_with_id now id none none from st
]

-- HandleIncoming, behind the decoding. The touch writes the time of the session that is delivered.
unfoldable pub handle_datagram :
    ℕ → NodeId → UdpForwardHeader → List ℕ → UdpRelay → UdpRelay × List Effect
handle_datagram now from hdr payload r =
    let (s, st) = find_or_create now from hdr.session_id r.sessions in
    let r' = record r { sessions = touch now s.id st } in
    (
      r',
      if equal from s.next_hop
          then (if r.has_deliver then delivered (record s { last_used = now }) payload ∷ [] else [])
          else forward_to_peer r s.next_hop s payload,
    )

-- HandleIncoming; a datagram that does not decode changes nothing.
unfoldable pub handle_incoming : ℕ → NodeId → List ℕ → UdpRelay → UdpRelay × List Effect
handle_incoming now from bytes r = elim (decode_udp_forward bytes) [
  | ok (hdr, payload) ↦ handle_datagram now from hdr payload r
  | err e ↦ (r, [])
  | panic ↦ (r, [])
]

abbrev pub create_session :
    ℕ → Option UdpAddr → Option UdpAddr → NodeId → UdpRelay → UdpSession × UdpRelay
create_session now client target next_hop r =
    let (s, st) = create now client target next_hop r.sessions in (s, record r { sessions = st })

abbrev pub get_session : ℕ → UdpRelay → Option UdpSession
get_session id r = lookup id r.sessions
