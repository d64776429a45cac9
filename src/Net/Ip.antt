-- ===== src/Net/Ip.antt =====
-- net.IP: a byte slice, of 4 or 16 bytes where it is an address. A nil slice is the empty list; where
-- the code tests a result against nil, the model returns an Option.
use magic_tun.Base.{
  ℕ, ◌+◌, ◌≡◌, ◌↔◌, true, Bool, false, length-append, bytes_beq_iff, ◌&&◌, Option, none, some, List,
  [], ◌∷◌, ◌++◌, arith, eqb, eqb_iff, if◌then◌else◌, length, take, drop, bytes_beq, bytes_beq→eq,
  bytes_beq_refl, length-drop, take-append-drop,
}

-- v4InV6Prefix: ten zeros and ff ff.
abbrev pub v4_prefix : List ℕ
v4_prefix = 0 ∷ 0 ∷ 0 ∷ 0 ∷ 0 ∷ 0 ∷ 0 ∷ 0 ∷ 0 ∷ 0 ∷ 255 ∷ 255 ∷ []

-- ip.To4()
unfoldable pub to4 : List ℕ → Option (List ℕ)
to4 ip =
    if eqb (length ip) 4
    then some ip
    else if eqb (length ip) 16 && bytes_beq (take 12 ip) v4_prefix
    then some (drop 12 ip)
    else none

-- ip.To16()
unfoldable pub to16 : List ℕ → Option (List ℕ)
to16 ip =
    if eqb (length ip) 4
    then some (v4_prefix ++ ip)
    else if eqb (length ip) 16
    then some ip
    else none

-- ip.Equal(x): an IPv4 address is equal to its form with the prefix.
abbrev pub equal_ip : List ℕ → List ℕ → Bool
equal_ip ip x =
    if eqb (length ip) (length x)
    then bytes_beq ip x
    else if eqb (length ip) 4 && eqb (length x) 16
    then bytes_beq (v4_prefix ++ ip) x
    else if eqb (length ip) 16 && eqb (length x) 4
    then bytes_beq ip (v4_prefix ++ x)
    else false

-- The 16-byte form of an IPv4 address; other slices as they are
abbrev pub long_form : List ℕ → List ℕ
long_form ip = if eqb (length ip) 4 then v4_prefix ++ ip else ip

length_prefixed : (ip : List ℕ) → length (v4_prefix ++ ip) ≡ 12 + length ip
length_prefixed ip = length-append v4_prefix ip

pub equal_ip_iff : (a b : List ℕ) → (equal_ip a b ≡ true) ↔ (long_form a ≡ long_form b)
equal_ip_iff a b = ground (
  arith,
  length_prefixed a,
  length_prefixed b,
  eqb_iff (length a) (length b),
  eqb_iff (length a) 4,
  eqb_iff (length b) 4,
  eqb_iff (length a) 16,
  eqb_iff (length b) 16,
  bytes_beq_iff a b,
  bytes_beq_iff (v4_prefix ++ a) b,
  bytes_beq_iff a (v4_prefix ++ b),
)

-- A nil slice where bytes are copied.
abbrev pub or_nil : Option (List ℕ) → List ℕ
or_nil none = []
or_nil (some bs) = bs

pub to4_self : (ip : List ℕ) → length ip ≡ 4 → to4 ip ≡ some ip
unfolding to4
to4_self ip h = ground arith

pub to4-v4_prefix : (ip : List ℕ) → length ip ≡ 4 → to4 (v4_prefix ++ ip) ≡ some ip
unfolding to4
to4-v4_prefix ip h = ground (arith, bytes_beq_refl v4_prefix)

pub length-to4 : (ip a : List ℕ) → to4 ip ≡ some a → length a ≡ 4
unfolding to4
length-to4 ip a h = ground (arith, length-drop 12 ip)

-- An address with a 4-byte form has the 16-byte form that To16 gives.
pub to16-to4 : (ip a : List ℕ) → to4 ip ≡ some a → to16 ip ≡ some (v4_prefix ++ a)
unfolding to4 to16
to16-to4 ip a h = ground (arith, take-append-drop 12 ip, bytes_beq→eq (take 12 ip) v4_prefix)

pub to16_self : (ip : List ℕ) → length ip ≡ 16 → to16 ip ≡ some ip
unfolding to16
to16_self ip h = ground arith

pub to4_ne_length : (ip : List ℕ) → to4 ip ≡ none → ¬ (length ip ≡ 4)
unfolding to4
to4_ne_length ip h e = ground arith
