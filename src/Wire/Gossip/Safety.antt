-- ===== src/Wire/Gossip/Safety.antt =====
-- Panics of DecodeGossipPush, of wire/gossip.go.
use magic_tun.Base.{
  ℕ, zero, suc, ◌≢◌, inl, inr, List, [], ◌∷◌, arith, panic, length, Result-cases, le_or_lt,
}
use magic_tun.Wire.Codec.{take_bytes_long, uint_long, u8_long}
use magic_tun.Wire.Gossip.{decode_peer, decode_peers, decode_gossip_push}

decode_peer-ne-panic : (bytes : List ℕ) → decode_peer bytes ≢ panic
unfolding decode_peer
decode_peer-ne-panic bytes = elim (le_or_lt 58 (length bytes)) [
  | inr s ↦ ground arith
  | inl enough ↦
      let (i, r1, e1, _, l1, _) = take_bytes_long 16 bytes (omega arith) in
      let (k, r2, e2, _, l2, _) = take_bytes_long 32 r1 (omega arith) in
      let (s, r3, e3, l3, q3) = u8_long r2 (omega arith) in
      let (v, r4, e4, l4) = uint_long 8 r3 (omega arith) in
      let (n, r5, e5, l5, q5) = u8_long r4 (omega arith) in
      ground (arith, e1, e2, q3, e4, q5, take_bytes_long n r5)
]

decode_peers-ne-panic : (n : ℕ) (bytes : List ℕ) → decode_peers n bytes ≢ panic
unfolding decode_peers
decode_peers-ne-panic zero bytes e = cc
decode_peers-ne-panic (suc n) bytes e = elim (Result-cases (decode_peer bytes)) [
  | inl ((p, rest), q) ↦ ground (arith, q, decode_peers-ne-panic n rest)
  | inr (inl (x, q)) ↦ cc (rw (q, decode_peers) at e)
  | inr (inr q) ↦ decode_peer-ne-panic bytes q
]

-- DecodeGossipPush returns a list of peers or an error on every input.
pub decode_gossip_push-ne-panic : (bytes : List ℕ) → decode_gossip_push bytes ≢ panic
unfolding decode_gossip_push
decode_gossip_push-ne-panic [] = ground arith
decode_gossip_push-ne-panic (t ∷ rest) = elim (le_or_lt 2 (length rest)) [
  | inr s ↦ ground arith
  | inl enough ↦
      let (n, more, e, _) = uint_long 2 rest enough in
      ground (arith, e, decode_peers-ne-panic n more)
]
