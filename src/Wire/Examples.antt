-- ===== src/Wire/Examples.antt =====
-- Messages, and a signature scheme, at which the theorems on the formats are applied.
use magic_tun.Base.{
  ℕ, ◌≡◌, refl, ◌↔◌, inl, Bool, List, [], ◌∷◌, arith, ok, panic, eqb, eqb_iff, replicate,
}
use magic_tun.Net.Ip.{to4}
use magic_tun.Net.Mask.{cidr_mask, mask_bytes}
use magic_tun.Wire.{msg_route_update, msg_udp_session_create}
use magic_tun.Wire.Sign.{Ed25519}
use magic_tun.Wire.Route.{RouteMessage, encode_route_message, decode_route_message}
use magic_tun.Wire.Route.RoundTrip.{
  IsRouteMessage, widen, decode_route_message-encode_route_message,
}
use magic_tun.Wire.Route.Panics as RoutePanics
use magic_tun.Wire.Route.Panics.{decode_route_message_panics}
use magic_tun.Wire.Gossip.{PeerEntry, encode_gossip_push, decode_gossip_push}
use magic_tun.Wire.Gossip.RoundTrip.{IsPeerEntry, decode_gossip_push-encode_gossip_push}
use magic_tun.Wire.Tcp.{TcpForwardHeader}
use magic_tun.Wire.Udp.{decode_udp_session_create}
use magic_tun.Wire.Udp.Panics as UdpPanics
use magic_tun.Wire.Udp.Panics.{decode_udp_session_create_panics}

abbrev update : RouteMessage
update = record {
  flags = 0;
  prefix = record { ip = 10 ∷ 0 ∷ 0 ∷ 0 ∷ []; mask = 255 ∷ 0 ∷ 0 ∷ 0 ∷ [] };
  cost = 2;
  origin = replicate 16 1;
  local_pref = 100;
  as_path = replicate 16 2 ∷ replicate 16 1 ∷ [];
}

update_valid : IsRouteMessage update
unfolding to4 cidr_mask mask_bytes
update_valid = record {
  ones = 8;
  prefix_length = inl ((10 ∷ 0 ∷ 0 ∷ 0 ∷ []), refl, refl, omega arith);
  cost_u32 = omega arith;
  pref_u32 = omega arith;
  origin_id = refl;
  hop_ids = (refl, (refl, tt));
  short_path = omega arith;
}

decode_route_message-encode_route_message_example :
    decode_route_message (encode_route_message update)
    ≡ ok (record update { prefix = widen update.prefix })
decode_route_message-encode_route_message_example =
    decode_route_message-encode_route_message update update_valid

-- An advertisement of an IPv6 network, cut off behind the address.
abbrev cut_update : List ℕ
cut_update = msg_route_update ∷ 0 ∷ 64 ∷ 6 ∷ replicate 30 0

decode_route_message_panics_example :
    (decode_route_message cut_update ≡ panic) ↔ RoutePanics.IsCutV6 cut_update
decode_route_message_panics_example = decode_route_message_panics cut_update

abbrev entry : PeerEntry
entry = record {
  id = replicate 16 1;
  pub_key = replicate 32 7;
  state = 0;
  version = 3;
  addr = 97 ∷ 58 ∷ 49 ∷ [];
}

entry_valid : IsPeerEntry entry
entry_valid = record {
  id_size = refl;
  key_size = refl;
  version_u64 = omega arith;
  addr_size = omega arith;
}

decode_gossip_push-encode_gossip_push_example :
    decode_gossip_push (encode_gossip_push (entry ∷ entry ∷ [])) ≡ ok (entry ∷ entry ∷ [])
decode_gossip_push-encode_gossip_push_example =
    decode_gossip_push-encode_gossip_push (entry ∷ entry ∷ []) (omega arith)
      (entry_valid, (entry_valid, tt))

abbrev header : TcpForwardHeader
header = record { flags = 1; stream_id = 5; target_addr = 10 ∷ 0 ∷ 0 ∷ 7 ∷ []; target_port = 443 }

-- A session request for an IPv6 target, cut off in the address.
abbrev cut_request : List ℕ
cut_request = msg_udp_session_create ∷ 0 ∷ 0 ∷ 0 ∷ 1 ∷ 16 ∷ replicate 10 0

decode_udp_session_create_panics_example :
    (decode_udp_session_create cut_request ≡ panic) ↔ UdpPanics.IsCutV6 cut_request
decode_udp_session_create_panics_example = decode_udp_session_create_panics cut_request

-- A scheme in which a signature is 64 times the key, and verifies if its first byte is the key.
abbrev first_is : ℕ → List ℕ → Bool
first_is k [] = Bool.false
first_is k (b ∷ _) = eqb b k

abbrev first_of : List ℕ → ℕ
first_of [] = 0
first_of (b ∷ _) = b

abbrev toy : Ed25519
toy = record {
  PrivateKey = ℕ;
  public = λ k. k ∷ [];
  sign = λ k m. replicate 64 k;
  verify = λ key m sig. first_is (first_of key) sig;
  length-sign = λ k m. refl;
  verify-sign = λ k m. (eqb_iff k k).1 refl;
}
