-- ===== src/Wire/Codec.antt =====
-- The reads and writes that the codecs of wire/ share: encoding/binary's big-endian numbers, and
-- slices. The decoders walk a slice by an offset `off`; the model carries `data[off:]`, so that
-- `off + n > len(data)` reads `length rest < n`. A read past the end panics.
use magic_tun.Base.{
  ℕ, ◌+◌, ◌-◌, ◌*◌, ◌/◌, ◌%◌, ◌^◌, ◌≤◌, ◌<◌, ◌≡◌, refl, ap, ◌⊎◌, inl, inr, List, [], ◌∷◌, ◌++◌,
  arith, Result, ok, panic, ◌>>=◌, ltb, if◌then◌else◌, length, take, drop, replicate,
  take-append_length, drop-append_length, le→ltb, append-nil, length-append, sym, le_or_lt,
  length-take, length-drop, take-append-drop,
}

-- The errors of the decoders; the formatted texts are left out.
pub data Error : Type 0 where
  too_short bad_type bad_family bad_addr_len truncated path_too_long bad_signature : Error

abbrev pub Read {ℓ} : Type ℓ → Type ℓ
Read A = Result Error A

-- binary.BigEndian.PutUint16, PutUint32, PutUint64, of the number cut to its width
abbrev pub put_u16 : ℕ → List ℕ
put_u16 n = (n / 256 % 256) ∷ (n % 256) ∷ []

abbrev pub put_u32 : ℕ → List ℕ
put_u32 n = (n / 2 ^ 24 % 256) ∷ (n / 2 ^ 16 % 256) ∷ (n / 2 ^ 8 % 256) ∷ (n % 256) ∷ []

abbrev pub put_u64 : ℕ → List ℕ
put_u64 n =
    (n / 2 ^ 56 % 256) ∷ (n / 2 ^ 48 % 256) ∷ (n / 2 ^ 40 % 256) ∷ (n / 2 ^ 32 % 256) ∷ put_u32 n

-- `copy` into a zeroed field of `n` bytes
unfoldable pub field : ℕ → List ℕ → List ℕ
field n bs = take n bs ++ replicate (n - length bs) 0

-- data[off:off+n], and the rest after it
unfoldable pub take_bytes : ℕ → List ℕ → Read (List ℕ × List ℕ)
take_bytes n rest = if ltb (length rest) n then panic else ok (take n rest, drop n rest)

abbrev value_from : ℕ → List ℕ → ℕ
value_from acc [] = acc
value_from acc (b ∷ bs) = value_from (acc * 256 + b) bs

-- data[off]
unfoldable pub u8 : List ℕ → Read (ℕ × List ℕ)
u8 [] = panic
u8 (b ∷ rest) = ok (b, rest)

-- binary.BigEndian.Uint16, Uint32, Uint64 for n = 2, 4, 8
unfoldable pub uint : ℕ → List ℕ → Read (ℕ × List ℕ)
unfolding take_bytes
uint n rest = do (bs, more) ← take_bytes n rest; ok (value_from 0 bs, more)

pub length-field : (n : ℕ) (bs : List ℕ) → length bs ≡ n → field n bs ≡ bs
unfolding field
length-field n bs h =
    let z : n - length bs ≡ 0 = omega arith in rw z (rw append-nil (subst-take bs h))
  where
    subst-take : (xs : List ℕ) → length xs ≡ n → take n xs ≡ xs
    subst-take xs e = rw append-nil at (take-append_length n xs [] e)

pub take_bytes-append :
    (n : ℕ) (xs rest : List ℕ) → length xs ≡ n → take_bytes n (xs ++ rest) ≡ ok (xs, rest)
unfolding take_bytes
take_bytes-append n xs rest h =
    rw (le→ltb (length (xs ++ rest)) n (omega (arith, length-append xs rest)))
      (rw (take-append_length n xs rest h, drop-append_length n xs rest h) refl)

pub take_bytes_short : (n : ℕ) (rest : List ℕ) → length rest < n → take_bytes n rest ≡ panic
unfolding take_bytes
take_bytes_short n rest h = ground arith

-- With enough bytes left, a slice of `n` of them, and a rest that is shorter by `n`.
pub take_bytes_long :
    (n : ℕ) (rest : List ℕ)
    → n ≤ length rest
    → (bs : List ℕ) × (more : List ℕ) × (take_bytes n rest ≡ ok (bs, more))
      × (length bs ≡ n)
      × (length more + n ≡ length rest)
      × (rest ≡ bs ++ more)
unfolding take_bytes
take_bytes_long n rest h = (
  take n rest,
  drop n rest,
  ground arith,
  length-take n rest h,
  omega (arith, length-drop n rest),
  sym (take-append-drop n rest),
)

pub uint_long :
    (n : ℕ) (rest : List ℕ)
    → n ≤ length rest
    → (v : ℕ) × (more : List ℕ) × (uint n rest ≡ ok (v, more)) × (length more + n ≡ length rest)
unfolding uint
uint_long n rest h =
    let (bs, more, e, _, l, _) = take_bytes_long n rest h in
    (value_from 0 bs, more, rw (e, uint) refl, l)

pub uint_short : (n : ℕ) (rest : List ℕ) → length rest < n → uint n rest ≡ panic
unfolding uint
uint_short n rest h = rw (take_bytes_short n rest h, uint) refl

-- The numbers read back as they were written.
pub uint-put_u16 : (n : ℕ) (rest : List ℕ) → n < 2 ^ 16 → uint 2 (put_u16 n ++ rest) ≡ ok (n, rest)
unfolding uint
uint-put_u16 n rest h =
    rw (take_bytes-append 2 (put_u16 n) rest refl, uint)
      (ap (λ (v : ℕ). ok (v, rest)) (omega arith))

pub uint-put_u32 : (n : ℕ) (rest : List ℕ) → n < 2 ^ 32 → uint 4 (put_u32 n ++ rest) ≡ ok (n, rest)
unfolding uint
uint-put_u32 n rest h =
    rw (take_bytes-append 4 (put_u32 n) rest refl, uint)
      (ap (λ (v : ℕ). ok (v, rest)) (omega arith))

pub uint-put_u64 : (n : ℕ) (rest : List ℕ) → n < 2 ^ 64 → uint 8 (put_u64 n ++ rest) ≡ ok (n, rest)
unfolding uint
uint-put_u64 n rest h =
    rw (take_bytes-append 8 (put_u64 n) rest refl, uint)
      (ap (λ (v : ℕ). ok (v, rest)) (omega arith))

pub u8_long :
    (rest : List ℕ)
    → 1 ≤ length rest
    → (b : ℕ) × (more : List ℕ) × (u8 rest ≡ ok (b, more))
      × (length more + 1 ≡ length rest)
      × (rest ≡ b ∷ more)
unfolding u8
u8_long [] h = absurd (omega arith)
u8_long (b ∷ rest) h = (b, rest, refl, omega arith, refl)

pub uint_four :
    (a b c d : ℕ) (rest : List ℕ)
    → uint 4 (a ∷ b ∷ c ∷ d ∷ rest) ≡ ok (value_from 0 (a ∷ b ∷ c ∷ d ∷ []), rest)
unfolding uint
uint_four a b c d rest = rw (take_bytes-append 4 (a ∷ b ∷ c ∷ d ∷ []) rest refl, uint) refl

-- An address of `n` bytes and a port behind it: both are read, or one of the reads panics.
pub take_bytes-uint_long :
    (n : ℕ) (rest : List ℕ)
    → n + 2 ≤ length rest
    → (a : List ℕ) × (r : List ℕ) × (p : ℕ) × (more : List ℕ) × (take_bytes n rest ≡ ok (a, r))
      × (uint 2 r ≡ ok (p, more))
      × (length a ≡ n)
      × (length more + n + 2 ≡ length rest)
take_bytes-uint_long n rest h =
    let (a, r, e, la, lr, _) = take_bytes_long n rest (omega arith) in
    let (p, more, e2, lm) = uint_long 2 r (omega arith) in (a, r, p, more, e, e2, la, omega arith)

pub take_bytes-uint_short :
    (n : ℕ) (rest : List ℕ)
    → length rest < n + 2
    → (take_bytes n rest ≡ panic)
      ⊎ ((a : List ℕ) × (r : List ℕ) × (take_bytes n rest ≡ ok (a, r)) × (uint 2 r ≡ panic))
take_bytes-uint_short n rest h = elim (le_or_lt n (length rest)) [
  | inl enough ↦
      let (a, r, e, la, lr, _) = take_bytes_long n rest enough in
      inr (a, r, e, uint_short 2 r (omega arith))
  | inr short ↦ inl (take_bytes_short n rest short)
]
