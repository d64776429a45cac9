-- ===== src/Wire/Udp/Panics.antt =====
-- When a UDP message makes its decoder panic.
use magic_tun.Base.{ℕ, ◌≤◌, ◌<◌, ◌≡◌, ◌≢◌, ◌↔◌, List, [], ◌∷◌, arith, err, panic, length, get_or}
use magic_tun.Wire.{msg_udp_session_create}
use magic_tun.Wire.Codec.{
  too_short, take_bytes, uint, uint_four, take_bytes-uint_long, take_bytes-uint_short,
}
use magic_tun.Wire.Udp.{decode_udp_forward, decode_udp_session_create, decode_udp_session_close}

-- A session request that announces a 16-byte address and ends before its port.
abbrev pub IsCutV6 : List ℕ → Type 0
IsCutV6 bytes =
    (12 ≤ length bytes)
    × (length bytes < 24)
    × (get_or bytes 0 0 ≡ msg_udp_session_create)
    × (get_or bytes 5 0 ≡ 16)

module _ (t a b c d l : ℕ) (rest : List ℕ) where
  cut_panics :
      6 ≤ length rest
      → length rest < 18
      → t ≡ msg_udp_session_create
      → l ≡ 16
      → decode_udp_session_create (t ∷ a ∷ b ∷ c ∷ d ∷ l ∷ rest) ≡ panic
  unfolding decode_udp_session_create
  cut_panics h k et el =
      ground (arith, uint_four a b c d (l ∷ rest), take_bytes-uint_short 16 rest k)

  panic_cut :
      decode_udp_session_create (t ∷ a ∷ b ∷ c ∷ d ∷ l ∷ rest) ≡ panic
      → (6 ≤ length rest) × (length rest < 18) × (t ≡ msg_udp_session_create) × (l ≡ 16)
  unfolding decode_udp_session_create
  panic_cut e = ground (
    arith,
    uint_four a b c d (l ∷ rest),
    take_bytes-uint_long 4 rest,
    take_bytes-uint_long 16 rest,
  )

short_err : (bytes : List ℕ) → length bytes < 12 → decode_udp_session_create bytes ≡ err too_short
unfolding decode_udp_session_create
short_err bytes h = ground arith

short_iff :
    (bytes : List ℕ) → length bytes < 12 → (decode_udp_session_create bytes ≡ panic) ↔ IsCutV6 bytes
short_iff bytes h = (λ e. cc (e, short_err bytes h), λ c. absurd (omega (arith, c.0)))

-- DecodeUDPSessionCreate panics exactly on a message of 12 to 23 bytes, of the right type, whose
-- address length is 16.
pub decode_udp_session_create_panics :
    (bytes : List ℕ) → (decode_udp_session_create bytes ≡ panic) ↔ IsCutV6 bytes
decode_udp_session_create_panics (t ∷ a ∷ b ∷ c ∷ d ∷ l ∷ rest) = (
  λ e. let (h, k, et, el) = panic_cut t a b c d l rest e in (omega arith, omega arith, et, el),
  λ (h, k, et, el). cut_panics t a b c d l rest (omega arith) (omega arith) et el,
)
decode_udp_session_create_panics [] = short_iff [] (omega arith)
decode_udp_session_create_panics (t ∷ []) = short_iff _ (omega arith)
decode_udp_session_create_panics (t ∷ a ∷ []) = short_iff _ (omega arith)
decode_udp_session_create_panics (t ∷ a ∷ b ∷ []) = short_iff _ (omega arith)
decode_udp_session_create_panics (t ∷ a ∷ b ∷ c ∷ []) = short_iff _ (omega arith)
decode_udp_session_create_panics (t ∷ a ∷ b ∷ c ∷ d ∷ []) = short_iff _ (omega arith)

-- DecodeUDPForward and DecodeUDPSessionClose do not panic, whatever the datagram holds.
pub decode_udp_forward-ne-panic :
    (bytes : List ℕ) → (decode_udp_forward bytes ≢ panic) × (decode_udp_session_close bytes ≢ panic)
unfolding decode_udp_forward decode_udp_session_close uint take_bytes
decode_udp_forward-ne-panic (t ∷ a ∷ b ∷ c ∷ d ∷ rest) = ground arith
decode_udp_forward-ne-panic _ = ground arith
