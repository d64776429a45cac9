-- ===== src/Net/Prefix.antt =====
-- net.IPNet: Contains, and the value that its text determines.
use magic_tun.Base.{
  ℕ, Bool, true, ◌&&◌, none, some, List, [], ◌∷◌, bit_and, eqb, if◌then◌else◌, length, drop,
}
use magic_tun.Net.Ip.{to4}

pub record IpNet : Type 0 where
  pub ip : List ℕ
  pub mask : List ℕ

-- The switch on len(m).
match_mask : List ℕ → List ℕ → List ℕ × List ℕ
match_mask ip m =
    if eqb (length m) 4
    then (if eqb (length ip) 4 then (ip, m) else ([], []))
    else if eqb (length m) 16
    then (if eqb (length ip) 4 then (ip, drop 12 m) else (ip, m))
    else ([], [])

-- networkNumberAndMask; ([], []) is (nil, nil)
unfoldable pub network_number_and_mask : IpNet → List ℕ × List ℕ
unfolding match_mask
network_number_and_mask n = elim (to4 n.ip) [
  | some ip4 ↦ match_mask ip4 n.mask
  | none ↦ if eqb (length n.ip) 16 then match_mask n.ip n.mask else ([], [])
]

unfoldable pub masked_eq : List ℕ → List ℕ → List ℕ → Bool
masked_eq (a ∷ nn) (k ∷ m) (b ∷ ip) = eqb (bit_and a k) (bit_and b k) && masked_eq nn m ip
masked_eq _ _ _ = true

unfoldable pub shorten : List ℕ → List ℕ
shorten ip = elim (to4 ip) [ some ip4 ↦ ip4 | none ↦ ip ]

-- n.Contains(ip). Where the lengths agree, the mask has that length too.
unfoldable pub contains : IpNet → List ℕ → Bool
unfolding network_number_and_mask masked_eq shorten
contains n ip =
    let (nn, m) = network_number_and_mask n in
    let short = shorten ip in eqb (length short) (length nn) && masked_eq nn m short

-- n.String() prints the network number and the mask, and distinct pairs print differently: a map
-- keyed by that text is keyed by the pair.
abbrev pub Key : Type 0
Key = List ℕ × List ℕ

abbrev pub cidr_key : IpNet → Key
cidr_key n = network_number_and_mask n
