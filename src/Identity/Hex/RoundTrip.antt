-- ===== src/Identity/Hex/RoundTrip.antt =====
-- String and ParseNodeID of identity/identity.go, one after the other.
use magic_tun.Base.{
  ℕ, ◌+◌, ◌*◌, ◌/◌, ◌%◌, ◌<◌, ◌≡◌, refl, ap, ◌&&◌, Option, none, some, List, [], ◌∷◌, arith, ok,
  leb, if◌then◌else◌, length, All, map,
}
use magic_tun.Identity.{IsNodeId, IsByte}
use magic_tun.Identity.Hex.{
  hex_digit, to_string, hex_value, decode_string, parse_node_id, join_nibbles, of_bytes,
}

hex_value-hex_digit : (n : ℕ) → n < 16 → hex_value (hex_digit n) ≡ some n
unfolding hex_value hex_digit
hex_value-hex_digit n h = ground arith

pub decode_string-to_string : (bs : List ℕ) → All IsByte bs → decode_string (to_string bs) ≡ some bs
unfolding decode_string to_string
decode_string-to_string [] h = refl
decode_string-to_string (b ∷ bs) h = rw (hex_value-hex_digit (b / 16) (omega arith)) (
    rw (hex_value-hex_digit (b % 16) (omega arith))
      (rw (decode_string-to_string bs h.1) (ap (λ (x : ℕ). some (x ∷ bs)) (omega arith))))

-- Parsing the text of a node identifier gives the identifier back.
pub parse_node_id-to_string : (id : List ℕ) → IsNodeId id → parse_node_id (to_string id) ≡ ok id
unfolding parse_node_id
parse_node_id-to_string id (len, bytes) =
    rw (decode_string-to_string id bytes, parse_node_id) (ground arith)

-- Lower case, for the letters that a hexadecimal text may hold.
unfoldable pub lower : ℕ → ℕ
lower c = if leb 65 c && leb c 70 then c + 32 else c

hex_digit-hex_value : (c n : ℕ) → hex_value c ≡ some n → (hex_digit n ≡ lower c) × (n < 16)
unfolding hex_value hex_digit lower
hex_digit-hex_value c n h = ground arith

join_nibbles-eq_some :
    (a b : Option ℕ) (r : Option (List ℕ)) (bs : List ℕ)
    → join_nibbles a b r ≡ some bs
    → (h : ℕ) × (l : ℕ) × (t : List ℕ) × (a ≡ some h)
      × (b ≡ some l)
      × (r ≡ some t)
      × (bs ≡ (h * 16 + l) ∷ t)
join_nibbles-eq_some (some h) (some l) (some t) bs e = (h, l, t, refl, refl, refl, cc)
join_nibbles-eq_some none b r bs e = cc
join_nibbles-eq_some (some h) none r bs e = cc
join_nibbles-eq_some (some h) (some l) none bs e = cc

pub to_string-decode_string :
    (s bs : List ℕ) → decode_string s ≡ some bs → (to_string bs ≡ map lower s) × All IsByte bs
unfolding decode_string to_string
to_string-decode_string [] bs e = let q : bs ≡ [] = cc in rw q (refl, tt)
to_string-decode_string (c ∷ []) bs e = cc
to_string-decode_string (c ∷ d ∷ s) bs e =
    let (h, l, t, ec, ed, es, eb) = join_nibbles-eq_some _ _ _ bs e in
    let (lc, hc) = hex_digit-hex_value c h ec in
    let (ld, hd) = hex_digit-hex_value d l ed in
    let (rest, bytes) = to_string-decode_string s t es in
    let q1 : (h * 16 + l) / 16 ≡ h = omega arith in
    let q2 : (h * 16 + l) % 16 ≡ l = omega arith in rw eb (rw (q1, q2) (cc, (omega arith, bytes)))

of_bytes-eq_ok :
    (o : Option (List ℕ)) (id : List ℕ) → of_bytes o ≡ ok id → (o ≡ some id) × (length id ≡ 16)
unfolding of_bytes
of_bytes-eq_ok none id e = cc
of_bytes-eq_ok (some b) id e = ground arith

-- A text that parses is the text of the identifier that it parses to, up to the case of its letters;
-- that identifier has 16 bytes.
pub to_string-parse_node_id :
    (s id : List ℕ) → parse_node_id s ≡ ok id → (to_string id ≡ map lower s) × IsNodeId id
to_string-parse_node_id s id e =
    let (q, len) = of_bytes-eq_ok (decode_string s) id (unfold parse_node_id in e) in
    let (text, bytes) = to_string-decode_string s id q in (text, (len, bytes))
