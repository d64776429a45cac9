-- ===== src/Wire/Gossip/RoundTrip.antt =====
-- EncodeGossipPush and DecodeGossipPush of wire/gossip.go, one after the other.
use magic_tun.Base.{
  ℕ, ◌%◌, ◌^◌, ◌<◌, ◌≡◌, refl, List, [], ◌∷◌, ◌++◌, arith, ok, length, All, length-append,
  append_assoc, append-nil,
}
use magic_tun.Wire.Codec.{put_u64, uint-put_u16, uint-put_u64, take_bytes-append}
use magic_tun.Wire.Gossip.{
  PeerEntry, encode_peer, encode_peers, encode_gossip_push, decode_peer, decode_peers,
  decode_gossip_push,
}

pub record IsPeerEntry (p : PeerEntry) : Type 0 where
  pub id_size : length p.id ≡ 16
  pub key_size : length p.pub_key ≡ 32
  pub version_u64 : p.version < 2 ^ 64
  pub addr_size : length p.addr < 256

decode_peer_lem :
    (i k a : List ℕ) (s v n : ℕ) (more : List ℕ)
    → length i ≡ 16
    → length k ≡ 32
    → v < 2 ^ 64
    → length a ≡ n
    → decode_peer (i ++ (k ++ (s ∷ (put_u64 v ++ (n ∷ (a ++ more))))))
      ≡ ok (record { id = i; pub_key = k; state = s; version = v; addr = a }, more)
unfolding decode_peer
decode_peer_lem i k a s v n more hi hk hv ha = ground (
  arith,
  take_bytes-append 16 i (k ++ (s ∷ (put_u64 v ++ (n ∷ (a ++ more))))) hi,
  take_bytes-append 32 k (s ∷ (put_u64 v ++ (n ∷ (a ++ more)))) hk,
  uint-put_u64 v (n ∷ (a ++ more)) hv,
  take_bytes-append n a more ha,
  length-append i (k ++ (s ∷ (put_u64 v ++ (n ∷ (a ++ more))))),
  length-append k (s ∷ (put_u64 v ++ (n ∷ (a ++ more)))),
  length-append a more,
)

decode_peer-encode_peer :
    (p : PeerEntry) (more : List ℕ)
    → IsPeerEntry p
    → decode_peer (encode_peer p ++ more) ≡ ok (p, more)
unfolding encode_peer
decode_peer-encode_peer p more h =
    let size : length p.addr % 256 ≡ length p.addr = omega (arith, h.addr_size) in
    rw (size, append_assoc p.id, append_assoc p.pub_key)
      (decode_peer_lem p.id p.pub_key p.addr p.state p.version (length p.addr) more h.id_size
        h.key_size h.version_u64 refl)

decode_peers-encode_peers :
    (ps : List PeerEntry) (more : List ℕ)
    → All IsPeerEntry ps
    → decode_peers (length ps) (encode_peers ps ++ more) ≡ ok ps
unfolding decode_peers encode_peers
decode_peers-encode_peers [] more h = refl
decode_peers-encode_peers (p ∷ ps) more (h, hs) =
    rw (append_assoc (encode_peer p) (encode_peers ps) more) (
      rw (decode_peer-encode_peer p (encode_peers ps ++ more) h)
        (rw (decode_peers-encode_peers ps more hs) refl))

-- A push of fewer than 65536 entries, each with an address of fewer than 256 bytes, reads back entry
-- by entry.
pub decode_gossip_push-encode_gossip_push :
    (ps : List PeerEntry)
    → length ps < 2 ^ 16
    → All IsPeerEntry ps
    → decode_gossip_push (encode_gossip_push ps) ≡ ok ps
unfolding decode_gossip_push encode_gossip_push
decode_gossip_push-encode_gossip_push ps h hs = ground (
  arith,
  uint-put_u16 (length ps) (encode_peers ps) h,
  append-nil (encode_peers ps),
  decode_peers-encode_peers ps [] hs,
)
