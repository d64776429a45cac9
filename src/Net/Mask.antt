-- ===== src/Net/Mask.antt =====
-- net.CIDRMask and the length that IPMask.Size reports.
use magic_tun.Base.{
  ℕ, zero, suc, ◌+◌, ◌-◌, ◌*◌, ◌/◌, ◌%◌, ◌^◌, ◌≤◌, ◌<◌, ◌≡◌, refl, ap, ◌⊎◌, inl, inr, Bool, true,
  false, ◌&&◌, ◌||◌, Option, none, some, List, [], ◌∷◌, arith, eqb, leb, ltb, if◌then◌else◌,
  Bool-cases,
}
use mathlib.Core.Option

-- The bytes of a mask of `l` bytes with `n` leading ones. `n - 8` stops at 0, as the code's reset does.
unfoldable pub mask_bytes : ℕ → ℕ → List ℕ
mask_bytes zero n = []
mask_bytes (suc l) n = (if leb 8 n then 255 else 255 - 255 / 2 ^ n) ∷ mask_bytes l (n - 8)

-- net.CIDRMask(ones, bits); nil out of range
unfoldable pub cidr_mask : ℕ → ℕ → List ℕ
unfolding mask_bytes
cidr_mask ones bits =
    if (eqb bits 32 || eqb bits 128) && leb ones bits then mask_bytes (bits / 8) ones else []

-- `for v&0x80 != 0 { n++; v <<= 1 }` on a byte: each turn shifts a zero in, so eight turns suffice.
unfoldable pub shift_ones : ℕ → ℕ → ℕ → ℕ × ℕ
shift_ones zero n v = (n, v)
shift_ones (suc f) n v = if ltb v 128 then (n, v) else shift_ones f (n + 1) (v * 2 % 256)

unfoldable pub all_zero : List ℕ → Bool
all_zero [] = true
all_zero (v ∷ vs) = eqb v 0 && all_zero vs

-- simpleMaskLength; `none` is -1
unfoldable pub simple_mask_length : List ℕ → Option ℕ
unfolding shift_ones all_zero
simple_mask_length [] = some 0
simple_mask_length (v ∷ vs) =
    let more = Option.map (λ n. 8 + n) (simple_mask_length vs) in
    let (n, left) = shift_ones 8 0 v in
    if eqb v 255 then more else if eqb left 0 && all_zero vs then some n else none

-- ones, _ := mask.Size()
unfoldable pub mask_size : List ℕ → ℕ
unfolding simple_mask_length
mask_size m = elim (simple_mask_length m) [ none ↦ 0 | some n ↦ n ]

all_zero-mask_bytes : (l : ℕ) → all_zero (mask_bytes l 0) ≡ true
unfolding all_zero mask_bytes
all_zero-mask_bytes zero = refl
all_zero-mask_bytes (suc l) = all_zero-mask_bytes l

-- A byte with `n` leading ones and no other.
partial_byte :
    (n : ℕ)
    → n < 8
    → (shift_ones 8 0 (255 - 255 / 2 ^ n) ≡ (n, 0)) × (eqb (255 - 255 / 2 ^ n) 255 ≡ false)
unfolding shift_ones
partial_byte zero h = (refl, refl)
partial_byte (suc zero) h = (refl, refl)
partial_byte (suc (suc zero)) h = (refl, refl)
partial_byte (suc (suc (suc zero))) h = (refl, refl)
partial_byte (suc (suc (suc (suc zero)))) h = (refl, refl)
partial_byte (suc (suc (suc (suc (suc zero))))) h = (refl, refl)
partial_byte (suc (suc (suc (suc (suc (suc zero)))))) h = (refl, refl)
partial_byte (suc (suc (suc (suc (suc (suc (suc zero))))))) h = (refl, refl)
partial_byte (suc (suc (suc (suc (suc (suc (suc (suc n)))))))) h = absurd (omega arith)

pub simple_mask_length-mask_bytes :
    (l n : ℕ) → n ≤ 8 * l → simple_mask_length (mask_bytes l n) ≡ some n
unfolding simple_mask_length mask_bytes
simple_mask_length-mask_bytes zero n h = ap some (omega arith)
simple_mask_length-mask_bytes (suc l) n h = elim (Bool-cases (leb 8 n)) [
  | inl big ↦
      rw big (rw (simple_mask_length-mask_bytes l (n - 8) (ground arith)) (ap some (ground arith)))
  | inr small ↦ small_case small
]
  where
    small_case : leb 8 n ≡ false → simple_mask_length (mask_bytes (suc l) n) ≡ some n
    small_case small =
        let (p, q) = partial_byte n (ground arith) in
        let z : n - 8 ≡ 0 = ground arith in
        rw small (rw (z, q) (rw (p, all_zero-mask_bytes l) refl))

-- Size gives back the length that CIDRMask was given.
pub mask_size-cidr_mask :
    (n bits : ℕ) → (bits ≡ 32) ⊎ (bits ≡ 128) → n ≤ bits → mask_size (cidr_mask n bits) ≡ n
unfolding mask_size cidr_mask
mask_size-cidr_mask n bits h le = rw made (rw (lengths, mask_size) refl)
  where
    made : cidr_mask n bits ≡ mask_bytes (bits / 8) n
    made = ground arith

    lengths : simple_mask_length (mask_bytes (bits / 8) n) ≡ some n
    lengths = simple_mask_length-mask_bytes (bits / 8) n (ground arith)
