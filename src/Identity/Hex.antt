-- ===== src/Identity/Hex.antt =====
-- NodeID.String and ParseNodeID, over the codes of the text; the hex codec is Go's encoding/hex.
pub mod RoundTrip
use magic_tun.Base.{
  ℕ, ◌+◌, ◌-◌, ◌*◌, ◌/◌, ◌%◌, ◌≤◌, ◌<◌, ◌≡◌, refl, ap, Bool, true, false, ◌&&◌, Option, none, some,
  List, [], ◌∷◌, arith, Result, ok, err, eqb, leb, if◌then◌else◌, length, All,
}

pub data Error : Type 0 where
  bad_hex bad_length : Error

-- "0123456789abcdef"[n]
unfoldable pub hex_digit : ℕ → ℕ
hex_digit n = if leb 10 n then n + 87 else n + 48

-- hex.EncodeToString
unfoldable pub to_string : List ℕ → List ℕ
unfolding hex_digit
to_string [] = []
to_string (b ∷ bs) = hex_digit (b / 16) ∷ hex_digit (b % 16) ∷ to_string bs

-- The reverse table of encoding/hex, which takes upper case too.
unfoldable pub hex_value : ℕ → Option ℕ
hex_value c =
    if leb 48 c && leb c 57
    then some (c - 48)
    else if leb 97 c && leb c 102
    then some (c - 87)
    else if leb 65 c && leb c 70
    then some (c - 55)
    else none

abbrev join_nibbles : Option ℕ → Option ℕ → Option (List ℕ) → Option (List ℕ)
join_nibbles (some h) (some l) (some bs) = some ((h * 16 + l) ∷ bs)
join_nibbles _ _ _ = none

-- hex.DecodeString; `none` is its error
unfoldable pub decode_string : List ℕ → Option (List ℕ)
unfolding hex_value
decode_string [] = some []
decode_string (c ∷ []) = none
decode_string (c ∷ d ∷ s) = join_nibbles (hex_value c) (hex_value d) (decode_string s)

-- ParseNodeID, once the text is decoded
unfoldable pub of_bytes : Option (List ℕ) → Result Error (List ℕ)
of_bytes none = err bad_hex
of_bytes (some b) = if eqb (length b) 16 then ok b else err bad_length

-- ParseNodeID
unfoldable pub parse_node_id : List ℕ → Result Error (List ℕ)
unfolding decode_string of_bytes
parse_node_id s = of_bytes (decode_string s)
