-- ===== src/Forward/UdpRelay/Clients.antt =====
-- The client addresses of sessions: what HandleIncoming of forward/udp_relay.go does to a table whose
-- sessions have none.
use magic_tun.Base.{
  ℕ, ◌≡◌, refl, inl, inr, none, List, Option-cases, Result-cases, Bool-cases, All, All-get, All-put,
  nat_eq, get,
}
use magic_tun.Identity.{NodeId, equal}
use magic_tun.Wire.Udp.{UdpForwardHeader, decode_udp_forward}
use magic_tun.Forward.Session.{UdpSession, SessionTable, create_with_id, lookup, touch}
use magic_tun.Forward.Session.Views.{IsSessionTable, adopts, touches, step, step-IsSessionTable}
use magic_tun.Forward.UdpRelay.{
  UdpRelay, Effect, sent, delivered, find_or_create, handle_datagram, handle_incoming,
  forward_to_peer,
}

-- A session without a client's address.
abbrev pub IsClientless : ℕ × UdpSession → Type 0
IsClientless (id, s) = s.client_addr ≡ none

-- A table of such sessions, each under its own number.
pub record IsIncoming (st : SessionTable) : Type 0 where
  pub valid : IsSessionTable st
  pub clientless : All IsClientless st.sessions

-- A delivery, if it is one, is for such a session.
abbrev pub IsUndeliverable : Effect → Type 0
IsUndeliverable (sent id payload) = Unit
IsUndeliverable (delivered s payload) = s.client_addr ≡ none

find_or_create-IsIncoming :
    (now : ℕ) (from : NodeId) (id : ℕ) (st : SessionTable)
    → IsIncoming st
    → ((find_or_create now from id st).0.client_addr ≡ none)
      × IsIncoming (find_or_create now from id st).1
unfolding find_or_create create_with_id step
find_or_create-IsIncoming now from id st h = elim (Option-cases (lookup id st)) [
  | inl e ↦
      rw (e, find_or_create)
        (
          refl,
          record {
            valid = step-IsSessionTable st (adopts now id none none from) h.valid;
            clientless = All-put IsClientless id _ st.sessions refl h.clientless;
          },
        )
  | inr (s, e) ↦ rw (e, find_or_create) (All-get IsClientless id s st.sessions h.clientless e, h)
]

touch-IsIncoming : (now id : ℕ) (st : SessionTable) → IsIncoming st → IsIncoming (touch now id st)
unfolding touch step
touch-IsIncoming now id st h = record {
  valid = step-IsSessionTable st (touches now id) h.valid;
  clientless = elim (Option-cases (get id st.sessions)) [
    | inl e ↦ rw (e, touch) h.clientless
    | inr (s, e) ↦
        rw (e, touch)
          (All-put IsClientless id _ st.sessions
            (All-get IsClientless id s st.sessions h.clientless e) h.clientless)
  ];
}

pub forward_to_peer-IsUndeliverable :
    (r : UdpRelay) (next_hop : NodeId) (s : UdpSession) (payload : List ℕ)
    → All IsUndeliverable (forward_to_peer r next_hop s payload)
forward_to_peer-IsUndeliverable r next_hop s payload = elim (Bool-cases r.has_send) [
  | inl e ↦ rw (e, forward_to_peer) (tt, tt)
  | inr e ↦ rw (e, forward_to_peer) tt
]

handle_datagram-IsIncoming :
    (now : ℕ) (from : NodeId) (hdr : UdpForwardHeader) (payload : List ℕ) (r : UdpRelay)
    → IsIncoming r.sessions
    → IsIncoming (handle_datagram now from hdr payload r).0.sessions
      × All IsUndeliverable (handle_datagram now from hdr payload r).1
unfolding handle_datagram
handle_datagram-IsIncoming now from hdr payload r h =
    let got = find_or_create now from hdr.session_id r.sessions in
    let (client, good) = find_or_create-IsIncoming now from hdr.session_id r.sessions h in
    (
      touch-IsIncoming now got.0.id got.1 good,
      elim (Bool-cases (equal from got.0.next_hop)) [
        | inl own ↦
            rw own (elim (Bool-cases r.has_deliver) [ inl e ↦ rw e (client, tt) | inr e ↦ rw e tt ])
        | inr other ↦ rw other (
            forward_to_peer-IsUndeliverable (record r { sessions = touch now got.0.id got.1 })
              got.0.next_hop got.0 payload)
      ],
    )

-- Whatever datagram comes in, sessions without a client stay without one, and deliveries are for such.
pub handle_incoming-IsIncoming :
    (now : ℕ) (from : NodeId) (bytes : List ℕ) (r : UdpRelay)
    → IsIncoming r.sessions
    → IsIncoming (handle_incoming now from bytes r).0.sessions
      × All IsUndeliverable (handle_incoming now from bytes r).1
unfolding handle_incoming
handle_incoming-IsIncoming now from bytes r h = elim (Result-cases (decode_udp_forward bytes)) [
  | inl ((hdr, payload), e) ↦
      rw (e, handle_incoming) (handle_datagram-IsIncoming now from hdr payload r h)
  | inr (inl (x, e)) ↦ rw (e, handle_incoming) (h, tt)
  | inr (inr e) ↦ rw (e, handle_incoming) (h, tt)
]
