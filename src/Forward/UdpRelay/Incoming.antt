-- ===== src/Forward/UdpRelay/Incoming.antt =====
-- Where an incoming datagram goes: HandleIncoming of forward/udp_relay.go.
use magic_tun.Base.{
  ℕ, ◌^◌, ◌<◌, ◌≡◌, refl, ◌∙◌, inl, inr, Option, none, some, List, [], ◌∷◌, arith, ok,
  if◌then◌else◌, Option-cases, eqb_iff, bytes_beq_refl, nat_eq, All-get,
}
use magic_tun.Identity.{NodeId, equal}
use magic_tun.Wire.Udp.{UdpForwardHeader, encode_udp_forward, decode_udp_forward}
use magic_tun.Wire.Udp.RoundTrip.{decode_udp_forward-encode_udp_forward}
use magic_tun.Forward.Session.{UdpSession, SessionTable, new_session, create_with_id, lookup}
use magic_tun.Forward.Session.Views.{
  IsOwn, IsSessionTable, adopts, touches, step, step-IsSessionTable, lookup-step,
}
use magic_tun.Forward.UdpRelay.{
  UdpRelay, Effect, sent, delivered, find_or_create, handle_datagram, handle_incoming,
}

-- The session that a datagram from a peer belongs to.
abbrev pub session_or_new : ℕ → NodeId → ℕ → Option UdpSession → UdpSession
session_or_new now from id none = new_session now id none none from
session_or_new now from id (some s) = s

-- Where a datagram of a session goes: the next hop's own are delivered here, with the session as it is
-- from now on, and all others go to the next hop, byte for byte.
abbrev pub routed : ℕ → NodeId → ℕ → List ℕ → UdpRelay → UdpSession → List Effect
routed now from id payload r s =
    if equal from s.next_hop
    then (if r.has_deliver then delivered (record s { last_used = now }) payload ∷ [] else [])
    else if r.has_send
    then sent s.next_hop (encode_udp_forward id payload) ∷ []
    else []

find_or_create_lem :
    (now : ℕ) (from : NodeId) (id : ℕ) (st : SessionTable)
    → IsSessionTable st
    → ((find_or_create now from id st).0 ≡ session_or_new now from id (lookup id st))
      × ((find_or_create now from id st).0.id ≡ id)
      × (lookup id (find_or_create now from id st).1 ≡ some (find_or_create now from id st).0)
      × IsSessionTable (find_or_create now from id st).1
unfolding find_or_create step create_with_id
find_or_create_lem now from id st v = elim (Option-cases (lookup id st)) [
  | inl e ↦
      rw (e, find_or_create)
        (
          refl,
          refl,
          ground (arith, lookup-step st (adopts now id none none from) id v),
          step-IsSessionTable st (adopts now id none none from) v,
        )
  | inr (s, e) ↦ rw (e, find_or_create) (refl, All-get IsOwn id s st.sessions v.own e, e, v)
]

handle_datagram_lem :
    (now : ℕ) (from : NodeId) (id : ℕ) (payload : List ℕ) (r : UdpRelay)
    → IsSessionTable r.sessions
    → ((handle_datagram now from (record { session_id = id }) payload r).1
        ≡ routed now from id payload r (session_or_new now from id (lookup id r.sessions)))
      × (lookup id (handle_datagram now from (record { session_id = id }) payload r).0.sessions
          ≡ some (record (session_or_new now from id (lookup id r.sessions)) { last_used = now }))
      × IsSessionTable (handle_datagram now from (record { session_id = id }) payload r).0.sessions
unfolding handle_datagram step
handle_datagram_lem now from id payload r v =
    let (same, own, found, valid) = find_or_create_lem now from id r.sessions v in
    let st = (find_or_create now from id r.sessions).1 in
    rw (← same) (
      rw own (
        refl,
        lookup-step st (touches now id) id valid ∙ ground (arith, found, eqb_iff id id),
        step-IsSessionTable st (touches now id) valid,
      ))

handle_incoming_ok :
    (now : ℕ) (from : NodeId) (bytes payload : List ℕ) (hdr : UdpForwardHeader) (r : UdpRelay)
    → decode_udp_forward bytes ≡ ok (hdr, payload)
    → handle_incoming now from bytes r ≡ handle_datagram now from hdr payload r
unfolding handle_incoming
handle_incoming_ok now from bytes payload hdr r e = rw (e, handle_incoming) refl

-- A datagram of a session that comes from the session's next hop is delivered here, with the session
-- touched; one that comes from any other peer goes to the next hop, byte for byte as it came. For a
-- number without a session one is made first, whose next hop is the sender. The session is in the
-- table afterwards, touched, and the table is well formed.
pub handle_incoming-encode_udp_forward :
    (now : ℕ) (from : NodeId) (id : ℕ) (payload : List ℕ) (r : UdpRelay)
    → id < 2 ^ 32
    → IsSessionTable r.sessions
    → ((handle_incoming now from (encode_udp_forward id payload) r).1
        ≡ routed now from id payload r (session_or_new now from id (lookup id r.sessions)))
      × (lookup id (handle_incoming now from (encode_udp_forward id payload) r).0.sessions
          ≡ some (record (session_or_new now from id (lookup id r.sessions)) { last_used = now }))
      × IsSessionTable (handle_incoming now from (encode_udp_forward id payload) r).0.sessions
handle_incoming-encode_udp_forward now from id payload r h v =
    rw
      (handle_incoming_ok now from (encode_udp_forward id payload) payload _ r
        (decode_udp_forward-encode_udp_forward id payload h))
      (handle_datagram_lem now from id payload r v)

-- A datagram with a number for which the node has no session is never sent on: it is delivered here,
-- in a new session without addresses, whichever peer it comes from.
pub handle_incoming_unknown :
    (now : ℕ) (from : NodeId) (id : ℕ) (payload : List ℕ) (r : UdpRelay)
    → id < 2 ^ 32
    → IsSessionTable r.sessions
    → lookup id r.sessions ≡ none
    → (handle_incoming now from (encode_udp_forward id payload) r).1
      ≡ (if r.has_deliver then delivered (new_session now id none none from) payload ∷ [] else [])
handle_incoming_unknown now from id payload r h v e =
    let (out, _, _) = handle_incoming-encode_udp_forward now from id payload r h v in
    out ∙ rw e (rw (bytes_beq_refl from) refl)
