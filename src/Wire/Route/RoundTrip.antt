-- ===== src/Wire/Route/RoundTrip.antt =====
-- EncodeRouteMessage and DecodeRouteMessage of wire/route.go, one after the other.
use magic_tun.Base.{
  ℕ, ◌%◌, ◌^◌, ◌≤◌, ◌<◌, ◌≡◌, refl, ◌⊎◌, inl, inr, none, some, List, [], ◌∷◌, ◌++◌, arith, ok,
  length, All, length-append, append-nil, append_assoc, le→ltb,
}
use magic_tun.Net.Ip.{to4, to16, or_nil, length-to4, to16-to4, to16_self}
use magic_tun.Net.Mask.{cidr_mask, mask_size, mask_size-cidr_mask}
use magic_tun.Net.Prefix.{IpNet}
use magic_tun.Wire.Codec.{
  put_u16, put_u32, uint-put_u32, uint-put_u16, take_bytes-append, length-field,
}
use magic_tun.Wire.Address.{addr_bytes}
use magic_tun.Wire.Route.{
  RouteMessage, family, encode_path, encode_route_message, decode_prefix, decode_path,
  decode_attributes, decode_route_message,
}

abbrev pub IsHop : List ℕ → Type 0
IsHop hop = length hop ≡ 16

-- The address has one of its two forms, and the mask is the one that `ones` gives for it.
abbrev pub HasLength : ℕ → IpNet → Type 0
HasLength ones p =
    ((a : List ℕ) × (to4 p.ip ≡ some a) × (p.mask ≡ cidr_mask ones 32) × (ones ≤ 32))
    ⊎ ((to4 p.ip ≡ none) × (length p.ip ≡ 16) × (p.mask ≡ cidr_mask ones 128) × (ones ≤ 128))

-- The address in its 16-byte form.
abbrev pub widen : IpNet → IpNet
widen p = record { ip = or_nil (to16 p.ip); mask = p.mask }

pub record IsRouteMessage (m : RouteMessage) : Type 0 where
  pub ones : ℕ
  pub prefix_length : HasLength ones m.prefix
  pub cost_u32 : m.cost < 2 ^ 32
  pub pref_u32 : m.local_pref < 2 ^ 32
  pub origin_id : IsHop m.origin
  pub hop_ids : All IsHop m.as_path
  pub short_path : length m.as_path ≤ 32

decode_path-encode_path :
    (path : List (List ℕ)) (more : List ℕ)
    → All IsHop path
    → decode_path (length path) (encode_path path ++ more) ≡ ok path
unfolding decode_path encode_path
decode_path-encode_path [] more h = refl
decode_path-encode_path (hop ∷ hops) more (h, hs) =
    let assoc : (hop ++ encode_path hops) ++ more ≡ hop ++ (encode_path hops ++ more) =
      append_assoc hop (encode_path hops) more in
    rw assoc (
      rw
        (le→ltb (length (hop ++ (encode_path hops ++ more))) 16
          (omega (arith, length-append hop (encode_path hops ++ more), h)))
        (rw (take_bytes-append 16 hop (encode_path hops ++ more) h)
          (rw (decode_path-encode_path hops more hs) refl)))

decode_attributes_lem :
    (f c l : ℕ) (p : IpNet) (o : List ℕ) (path : List (List ℕ))
    → c < 2 ^ 32
    → l < 2 ^ 32
    → IsHop o
    → All IsHop path
    → length path ≤ 32
    → decode_attributes f p
        (put_u32 c ++ (o ++ (put_u32 l ++ (put_u16 (length path) ++ encode_path path))))
      ≡ ok (record { flags = f; prefix = p; cost = c; origin = o; local_pref = l; as_path = path })
unfolding decode_attributes
decode_attributes_lem f c l p o path hc hl ho hp len = ground (
  arith,
  uint-put_u32 c (o ++ (put_u32 l ++ (put_u16 (length path) ++ encode_path path))) hc,
  take_bytes-append 16 o (put_u32 l ++ (put_u16 (length path) ++ encode_path path)) ho,
  uint-put_u32 l (put_u16 (length path) ++ encode_path path) hl,
  uint-put_u16 (length path) (encode_path path) (omega arith),
  append-nil (encode_path path),
  decode_path-encode_path path [] hp,
)

-- The prefix bytes read back as the prefix in its wide form.
decode_prefix_lem :
    (p : IpNet) (ones : ℕ) (rest : List ℕ)
    → HasLength ones p
    → (decode_prefix (family p.ip) (mask_size p.mask % 256) (addr_bytes p.ip ++ rest)
        ≡ ok (widen p, rest))
      × (4 ≤ length (addr_bytes p.ip))
unfolding decode_prefix
decode_prefix_lem p ones rest (inl (a, e, m, le)) =
    let la : length a ≡ 4 = length-to4 p.ip a e in
    let bytes : addr_bytes p.ip ≡ a =
      unfold addr_bytes in rw (e, addr_bytes) (length-field 4 a la) in
    let fam : family p.ip ≡ 4 = unfold family in rw (e, family) refl in
    let size : mask_size p.mask % 256 ≡ ones =
      rw (m, mask_size-cidr_mask ones 32 (inl refl) le) (omega arith) in
    (
      rw (bytes, fam, size)
          (ground (arith, length-append a rest, take_bytes-append 4 a rest la, to16-to4 p.ip a e)),
      rw bytes (omega arith),
    )
decode_prefix_lem p ones rest (inr (e, len, m, le)) =
    let bytes : addr_bytes p.ip ≡ p.ip =
      unfold addr_bytes in
      rw (e, addr_bytes) (rw (to16_self p.ip len) (length-field 16 p.ip len)) in
    let fam : family p.ip ≡ 6 = unfold family in rw (e, family) refl in
    let size : mask_size p.mask % 256 ≡ ones =
      rw (m, mask_size-cidr_mask ones 128 (inr refl) le) (omega arith) in
    (
      rw (bytes, fam, size)
          (ground (
            arith,
            length-append p.ip rest,
            take_bytes-append 16 p.ip rest len,
            to16_self p.ip len,
          )),
      rw bytes (omega arith),
    )

-- A well-formed message, update or withdrawal, reads back as itself, with the address of its prefix
-- in the 16-byte form.
pub decode_route_message-encode_route_message :
    (m : RouteMessage)
    → IsRouteMessage m
    → decode_route_message (encode_route_message m) ≡ ok (record m { prefix = widen m.prefix })
unfolding decode_route_message encode_route_message
decode_route_message-encode_route_message m h =
    let attributes : List ℕ =
      put_u32 m.cost
      ++ (m.origin
          ++ (put_u32 m.local_pref ++ (put_u16 (length m.as_path) ++ encode_path m.as_path))) in
    let (prefix_read, four) = decode_prefix_lem m.prefix h.ones attributes h.prefix_length in
    ground (
      arith,
      prefix_read,
      four,
      length-append (addr_bytes m.prefix.ip) attributes,
      length-append m.origin
          (put_u32 m.local_pref ++ (put_u16 (length m.as_path) ++ encode_path m.as_path)),
      decode_attributes_lem m.flags m.cost m.local_pref (widen m.prefix) m.origin m.as_path
          h.cost_u32 h.pref_u32 h.origin_id h.hop_ids h.short_path,
    )
