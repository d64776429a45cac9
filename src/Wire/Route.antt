-- ===== src/Wire/Route.antt =====
-- wire/route.go: path-vector advertisements and withdrawals.
pub mod RoundTrip
pub mod Panics
use magic_tun.Base.{
  ℕ, zero, suc, ◌+◌, ◌%◌, Bool, not, Option, none, some, List, [], ◌∷◌, ◌++◌, Result, ok, err,
  ◌>>=◌, ◌>>◌, fail_if, eqb, ltb, if◌then◌else◌, length,
}
use magic_tun.Net.Ip.{to4, v4_prefix}
use magic_tun.Net.Mask.{cidr_mask, mask_size}
use magic_tun.Net.Prefix.{IpNet}
use magic_tun.Wire.{msg_route_update}
use magic_tun.Wire.Codec.{
  Read, too_short, bad_type, bad_family, truncated, path_too_long, put_u16, put_u32, take_bytes, u8,
  uint,
}
use magic_tun.Wire.Address.{addr_bytes}

pub record RouteMessage : Type 0 where
  pub flags : ℕ
  pub prefix : IpNet
  pub cost : ℕ
  pub origin : List ℕ
  pub local_pref : ℕ
  pub as_path : List (List ℕ)

abbrev pub route_flag_update : ℕ
route_flag_update = 0x00

abbrev pub route_flag_withdraw : ℕ
route_flag_withdraw = 0x01

unfoldable pub family : List ℕ → ℕ
family ip = elim (to4 ip) [ none ↦ 6 | some a ↦ 4 ]

-- `for _, hop := range msg.ASPath { copy(buf[off:], hop[:]) }`
unfoldable pub encode_path : List (List ℕ) → List ℕ
encode_path [] = []
encode_path (hop ∷ hops) = hop ++ encode_path hops

unfoldable pub encode_route_message : RouteMessage → List ℕ
encode_route_message m =
    msg_route_update
    ∷ m.flags
    ∷ (mask_size m.prefix.mask % 256)
    ∷ family m.prefix.ip
    ∷ (addr_bytes m.prefix.ip
        ++ (put_u32 m.cost
            ++ (m.origin
                ++ (put_u32 m.local_pref
                    ++ (put_u16 (length m.as_path) ++ encode_path m.as_path)))))

-- The switch on the address family
unfoldable pub decode_prefix : ℕ → ℕ → List ℕ → Read (IpNet × List ℕ)
decode_prefix family ones bytes =
    if eqb family 4
    then (do
      fail_if (ltb (length bytes) 4) truncated
      (a, rest) ← take_bytes 4 bytes
      ok (record { ip = v4_prefix ++ a; mask = cidr_mask ones 32 }, rest))
    else if eqb family 6
    then (do
      fail_if (ltb (length bytes) 16) truncated
      (a, rest) ← take_bytes 16 bytes
      ok (record { ip = a; mask = cidr_mask ones 128 }, rest))
    else err bad_family

-- The loop over the hops of the path
unfoldable pub decode_path : ℕ → List ℕ → Read (List (List ℕ))
decode_path zero bytes = ok []
decode_path (suc n) bytes = do
  fail_if (ltb (length bytes) 16) truncated
  (hop, rest) ← take_bytes 16 bytes
  hops ← decode_path n rest
  ok (hop ∷ hops)

-- From the cost on. Only the 4 or 16 bytes before it were compared with what is left.
unfoldable pub decode_attributes : ℕ → IpNet → List ℕ → Read RouteMessage
decode_attributes flags prefix bytes = do
  (cost, rest) ← uint 4 bytes
  (origin, rest) ← take_bytes 16 rest
  (local_pref, rest) ← uint 4 rest
  (hops, rest) ← uint 2 rest
  fail_if (ltb 32 hops) path_too_long
  path ← decode_path hops rest
  ok (record {
    flags = flags;
    prefix = prefix;
    cost = cost;
    origin = origin;
    local_pref = local_pref;
    as_path = path;
  })

unfoldable pub decode_route_message : List ℕ → Read RouteMessage
unfolding u8
decode_route_message bytes = do
  fail_if (ltb (length bytes) 34) too_short
  (t, rest) ← u8 bytes
  fail_if (not (eqb t msg_route_update)) bad_type
  (flags, rest) ← u8 rest
  (ones, rest) ← u8 rest
  (fam, rest) ← u8 rest
  (prefix, rest) ← decode_prefix fam ones rest
  decode_attributes flags prefix rest
