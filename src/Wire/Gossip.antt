-- ===== src/Wire/Gossip.antt =====
-- wire/gossip.go
pub mod RoundTrip
pub mod Safety
use magic_tun.Base.{
  ℕ, zero, suc, ◌+◌, ◌%◌, not, List, [], ◌∷◌, ◌++◌, ok, ◌>>=◌, ◌>>◌, fail_if, eqb, ltb, length,
}
use magic_tun.Wire.{msg_gossip_push, msg_gossip_pull, msg_gossip_ack, msg_ping, msg_pong}
use magic_tun.Wire.Codec.{
  Read, too_short, bad_type, truncated, put_u16, put_u64, take_bytes, u8, uint,
}

-- PeerAlive, PeerSuspect, PeerDead, PeerLeft of a uint8
abbrev pub peer_alive : ℕ
peer_alive = 0

abbrev pub peer_suspect : ℕ
peer_suspect = 1

abbrev pub peer_dead : ℕ
peer_dead = 2

abbrev pub peer_left : ℕ
peer_left = 3

pub record PeerEntry : Type 0 where
  pub id : List ℕ
  pub pub_key : List ℕ
  pub state : ℕ
  pub version : ℕ
  pub addr : List ℕ

-- One turn of the loop of EncodeGossipPush; the length byte of the address wraps.
unfoldable pub encode_peer : PeerEntry → List ℕ
encode_peer p =
    p.id ++ (p.pub_key ++ (p.state ∷ (put_u64 p.version ++ ((length p.addr % 256) ∷ p.addr))))

unfoldable pub encode_peers : List PeerEntry → List ℕ
encode_peers [] = []
encode_peers (p ∷ ps) = encode_peer p ++ encode_peers ps

unfoldable pub encode_gossip_push : List PeerEntry → List ℕ
encode_gossip_push peers = msg_gossip_push ∷ (put_u16 (length peers) ++ encode_peers peers)

-- One turn of the loop of DecodeGossipPush
unfoldable pub decode_peer : List ℕ → Read (PeerEntry × List ℕ)
unfolding u8
decode_peer bytes = do
  fail_if (ltb (length bytes) 58) truncated
  (id, rest) ← take_bytes 16 bytes
  (key, rest) ← take_bytes 32 rest
  (state, rest) ← u8 rest
  (version, rest) ← uint 8 rest
  (len, rest) ← u8 rest
  fail_if (ltb (length rest) len) truncated
  (addr, rest) ← take_bytes len rest
  ok (record { id = id; pub_key = key; state = state; version = version; addr = addr }, rest)

unfoldable pub decode_peers : ℕ → List ℕ → Read (List PeerEntry)
decode_peers zero bytes = ok []
decode_peers (suc n) bytes = do (p, rest) ← decode_peer bytes; ps ← decode_peers n rest; ok (p ∷ ps)

unfoldable pub decode_gossip_push : List ℕ → Read (List PeerEntry)
unfolding u8
decode_gossip_push bytes = do
  fail_if (ltb (length bytes) 3) too_short
  (t, rest) ← u8 bytes
  fail_if (not (eqb t msg_gossip_push)) bad_type
  (count, rest) ← uint 2 rest
  decode_peers count rest

abbrev pub encode_gossip_pull : List ℕ
encode_gossip_pull = msg_gossip_pull ∷ []

abbrev pub encode_gossip_ack : List ℕ
encode_gossip_ack = msg_gossip_ack ∷ []

abbrev pub encode_ping : List ℕ
encode_ping = msg_ping ∷ []

abbrev pub encode_pong : List ℕ
encode_pong = msg_pong ∷ []
