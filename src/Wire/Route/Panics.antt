-- ===== src/Wire/Route/Panics.antt =====
-- When a route message makes its decoder panic.
use magic_tun.Base.{
  ℕ, zero, suc, ◌≤◌, ◌<◌, ◌≡◌, refl, ◌≢◌, ◌↔◌, inl, inr, List, [], ◌∷◌, ◌++◌, arith, err, panic,
  length, get_or, le_or_lt,
}
use magic_tun.Net.Ip.{v4_prefix}
use magic_tun.Net.Mask.{cidr_mask}
use magic_tun.Net.Prefix.{IpNet}
use magic_tun.Wire.{msg_route_update}
use magic_tun.Wire.Codec.{too_short, take_bytes_long, uint_long, uint_short, take_bytes_short}
use magic_tun.Wire.Route.{decode_prefix, decode_path, decode_attributes, decode_route_message}

decode_path-ne-panic : (n : ℕ) (bytes : List ℕ) → decode_path n bytes ≢ panic
unfolding decode_path
decode_path-ne-panic zero bytes = λ e. cc
decode_path-ne-panic (suc n) bytes = elim (le_or_lt 16 (length bytes)) [
  | inl enough ↦
      let (hop, rest, e, _, _, _) = take_bytes_long 16 bytes enough in
      ground (arith, e, decode_path-ne-panic n rest)
  | inr short ↦ ground arith
]

module _ (f : ℕ) (p : IpNet) (bytes : List ℕ) where
  attributes_long : 26 ≤ length bytes → decode_attributes f p bytes ≢ panic
  unfolding decode_attributes
  attributes_long h =
      let (cost, r1, e1, l1) = uint_long 4 bytes (omega arith) in
      let (origin, r2, e2, _, l2, _) = take_bytes_long 16 r1 (omega arith) in
      let (pref, r3, e3, l3) = uint_long 4 r2 (omega arith) in
      let (hops, r4, e4, l4) = uint_long 2 r3 (omega arith) in
      ground (arith, e1, e2, e3, e4, decode_path-ne-panic hops r4)

  attributes_short : length bytes < 26 → decode_attributes f p bytes ≡ panic
  unfolding decode_attributes
  attributes_short h = elim (le_or_lt 4 (length bytes)) [
    | inr s ↦ rw (uint_short 4 bytes s) refl
    | inl enough ↦
        let (cost, r1, e1, l1) = uint_long 4 bytes enough in
        rw e1 (elim (le_or_lt 16 (length r1)) [
          | inr s ↦ rw (take_bytes_short 16 r1 s) refl
          | inl enough1 ↦
              let (origin, r2, e2, _, l2, _) = take_bytes_long 16 r1 enough1 in
              rw e2 (elim (le_or_lt 4 (length r2)) [
                | inr s ↦ rw (uint_short 4 r2 s) refl
                | inl enough2 ↦
                    let (pref, r3, e3, l3) = uint_long 4 r2 enough2 in
                    rw e3 (rw (uint_short 2 r3 (omega arith)) refl)
              ])
        ])
  ]

-- An IPv6 prefix in a message that is long enough for an IPv4 prefix alone.
abbrev pub IsCutV6 : List ℕ → Type 0
IsCutV6 bytes =
    (34 ≤ length bytes)
    × (length bytes < 46)
    × (get_or bytes 0 0 ≡ msg_route_update)
    × (get_or bytes 3 0 ≡ 6)

module _ (t f o fam : ℕ) (rest : List ℕ) where
  cut_panics :
      30 ≤ length rest
      → length rest < 42
      → t ≡ msg_route_update
      → fam ≡ 6
      → decode_route_message (t ∷ f ∷ o ∷ fam ∷ rest) ≡ panic
  unfolding decode_route_message decode_prefix
  cut_panics h k et ef =
      let (a, more, e, _, l, _) = take_bytes_long 16 rest (omega arith) in
      ground (
        arith,
        e,
        attributes_short f (record { ip = a; mask = cidr_mask o 128 }) more (omega arith),
      )

  panic_cut :
      30 ≤ length rest
      → decode_route_message (t ∷ f ∷ o ∷ fam ∷ rest) ≡ panic
      → (length rest < 42) × (t ≡ msg_route_update) × (fam ≡ 6)
  unfolding decode_route_message decode_prefix
  panic_cut h e =
      let (a, more, ea, _, l, _) = take_bytes_long 4 rest (omega arith) in
      let (b, more', eb, _, l', _) = take_bytes_long 16 rest (omega arith) in
      ground (
        arith,
        ea,
        eb,
        attributes_long f (record { ip = v4_prefix ++ a; mask = cidr_mask o 32 }) more
            (omega arith),
        attributes_long f (record { ip = b; mask = cidr_mask o 128 }) more',
      )

short_err : (bytes : List ℕ) → length bytes < 34 → decode_route_message bytes ≡ err too_short
unfolding decode_route_message
short_err bytes h = ground arith

short_iff :
    (bytes : List ℕ) → length bytes < 34 → (decode_route_message bytes ≡ panic) ↔ IsCutV6 bytes
short_iff bytes h = (λ e. cc (e, short_err bytes h), λ c. absurd (omega (arith, c.0)))

-- DecodeRouteMessage panics exactly on an advertisement of 34 to 45 bytes whose address family is 6.
pub decode_route_message_panics :
    (bytes : List ℕ) → (decode_route_message bytes ≡ panic) ↔ IsCutV6 bytes
decode_route_message_panics (t ∷ f ∷ o ∷ fam ∷ rest) = elim (le_or_lt 30 (length rest)) [
  | inr s ↦ short_iff (t ∷ f ∷ o ∷ fam ∷ rest) (omega arith)
  | inl enough ↦ (
    λ e. let (k, et, ef) = panic_cut t f o fam rest enough e in (omega arith, omega arith, et, ef),
    λ (h, k, et, ef). cut_panics t f o fam rest enough (omega arith) et ef,
  )
]
decode_route_message_panics [] = short_iff [] (omega arith)
decode_route_message_panics (t ∷ []) = short_iff _ (omega arith)
decode_route_message_panics (t ∷ f ∷ []) = short_iff _ (omega arith)
decode_route_message_panics (t ∷ f ∷ o ∷ []) = short_iff _ (omega arith)
