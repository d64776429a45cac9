-- ===== src/Wire/Address.antt =====
-- The address of a forward header: a length byte's worth of the 4-byte or the 16-byte form.
use magic_tun.Base.{ℕ, ◌≡◌, refl, ◌⊎◌, inl, inr, none, some, List, arith, length, Option-cases}
use magic_tun.Net.Ip.{to4, to16, or_nil, length-to4, to16_self, to4_ne_length}
use magic_tun.Net.Prefix.{shorten}
use magic_tun.Wire.Codec.{field, length-field}

-- addrLen, by `ip.To4() == nil`
unfoldable pub addr_len : List ℕ → ℕ
addr_len ip = elim (to4 ip) [ none ↦ 16 | some a ↦ 4 ]

-- The bytes copied behind it
unfoldable pub addr_bytes : List ℕ → List ℕ
addr_bytes ip = elim (to4 ip) [ none ↦ field 16 (or_nil (to16 ip)) | some a ↦ field 4 a ]

-- An address in one of its two forms.
abbrev pub IsAddress : List ℕ → Type 0
IsAddress ip = (length ip ≡ 4) ⊎ (length ip ≡ 16)

-- Such an address is written in its short form, in as many bytes as its length byte says: 4 or 16.
pub addr_bytes_lem :
    (ip : List ℕ)
    → IsAddress ip
    → (addr_bytes ip ≡ shorten ip)
      × (length (shorten ip) ≡ addr_len ip)
      × ((addr_len ip ≡ 4) ⊎ (addr_len ip ≡ 16))
unfolding addr_len addr_bytes shorten
addr_bytes_lem ip h = elim (Option-cases (to4 ip)) [
  | inr (a, e) ↦
      rw (e, addr_bytes, addr_len, shorten)
        (length-field 4 a (length-to4 ip a e), length-to4 ip a e, inl refl)
  | inl e ↦
      let len : length ip ≡ 16 = ground (arith, to4_ne_length ip e, h) in
      rw (e, addr_bytes, addr_len, shorten)
        (rw (to16_self ip len) (length-field 16 ip len), len, inr refl)
]
