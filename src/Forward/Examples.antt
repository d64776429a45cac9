-- ===== src/Forward/Examples.antt =====
-- A table with one session, number 5, whose next hop is node 1.
use magic_tun.Base.{
  ℕ, ◌≡◌, refl, inl, ok, true, false, put, none, some, List, [], ◌∷◌, ◌++◌, arith, replicate,
  nat_eq, get,
}
use magic_tun.Net.Texts.{target_of}
use magic_tun.Net.Examples.{toy_texts, toy_texts-IsTexts}
use magic_tun.Identity.{NodeId}
use magic_tun.Wire.Udp.{encode_udp_forward}
use magic_tun.Forward.Session.{SessionTable, new_session_table, new_session, lookup}
use magic_tun.Forward.Session.Views.{IsSessionTable, Op, creates, adopts, collects}
use magic_tun.Forward.Session.Refinement.{perform_all, run, lookup-run}
use magic_tun.Transport.Frame.{Frame, read_frame}
use magic_tun.Transport.Conn.{Conn, new_conn, add_stream, find_id, open_stream}
use magic_tun.Forward.TcpRelay.{handle_incoming_relay, dial_peer}
use magic_tun.Forward.TcpRelay.Tunnel.{TakesIn, handle_incoming_relay-dial_peer}
use magic_tun.Forward.UdpRelay.{UdpRelay, handle_incoming}
use magic_tun.Forward.UdpRelay.Incoming.{session_or_new, routed, handle_incoming-encode_udp_forward}

abbrev node : ℕ → NodeId
node n = replicate 16 n

abbrev table : SessionTable
table = record { sessions = (5, new_session 10 5 none none (node 1)) ∷ []; next_id = 6; ttl = 30 }

table_valid : IsSessionTable table
unfolding get
table_valid = record { own = (refl, tt); keys = (refl, tt) }

-- A session is made for a client, one for a peer's number, and the first expires.
abbrev calls : List Op
calls = creates 10 none none (node 1) ∷ adopts 20 7 none none (node 2) ∷ collects 45 ∷ []

lookup-run_example :
    (lookup 7 (run calls (new_session_table 30))
      ≡ (perform_all 30 calls (record { find = λ i. none; next = 1 })).find 7)
    × ((run calls (new_session_table 30)).next_id
        ≡ (perform_all 30 calls (record { find = λ i. none; next = 1 })).next)
lookup-run_example = lookup-run 30 calls 7

abbrev relay : UdpRelay
relay = record { sessions = table; has_send = true; has_deliver = true }

handle_incoming-encode_udp_forward_example :
    ((handle_incoming 20 (node 2) (encode_udp_forward 5 (7 ∷ [])) relay).1
      ≡ routed 20 (node 2) 5 (7 ∷ []) relay (session_or_new 20 (node 2) 5 (lookup 5 table)))
    × (lookup 5 (handle_incoming 20 (node 2) (encode_udp_forward 5 (7 ∷ [])) relay).0.sessions
        ≡ some (record (session_or_new 20 (node 2) 5 (lookup 5 table)) { last_used = 20 }))
    × IsSessionTable (handle_incoming 20 (node 2) (encode_udp_forward 5 (7 ∷ [])) relay).0.sessions
handle_incoming-encode_udp_forward_example =
    handle_incoming-encode_udp_forward 20 (node 2) 5 (7 ∷ []) relay (omega arith) table_valid

no_session : lookup 8 table ≡ none
unfolding get
no_session = refl

abbrev ip : List ℕ
ip = 10 ∷ 0 ∷ 0 ∷ 7 ∷ []

abbrev opened : Conn
opened = add_stream 1 (record new_conn { next_id = 3 })

opens : open_stream new_conn ≡ (some 1, opened)
unfolding open_stream find_id get
opens = refl

new_number : (n : ℕ) → get n opened.streams ≡ some 1 → get n new_conn.streams ≡ none
unfolding get put
new_number n e = ground (arith, e)

handle_incoming_relay-dial_peer_example :
    (bytes : List ℕ) × (f : Frame) × (exit' : Conn) × (dial_peer toy_texts
        (some new_conn)
        (target_of toy_texts ip 443)
      ≡ ok (1, bytes))
    × (get f.stream_id opened.streams ≡ some 1)
    × (read_frame (bytes ++ []) ≡ ok (f, []))
    × TakesIn (false, true) f new_conn exit'
    × (handle_incoming_relay toy_texts (λ target. true) (λ target more. true) (some f.payload)
        ≡ ok (target_of toy_texts ip 443, []))
handle_incoming_relay-dial_peer_example =
    handle_incoming_relay-dial_peer toy_texts ip [] 443 1 new_conn opened new_conn (false, true)
      (λ target. true) (λ target more. true) toy_texts-IsTexts (inl refl) (omega arith)
      (refl, omega arith) opens refl new_number (omega arith) refl
