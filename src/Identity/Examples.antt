-- ===== src/Identity/Examples.antt =====
-- Identifiers, keys and pins.
use magic_tun.Base.{
  ℕ, ◌≡◌, refl, ◌↔◌, true, false, none, some, [], get, bytes_eq, List, ◌∷◌, arith, ok, replicate,
  map,
}
use magic_tun.Identity.{IsNodeId}
use magic_tun.Wire.Sign.{Ed25519}
use magic_tun.Identity.KeyFile.{
  Hashes, missing, content, from_seed, load_or_create, load_or_create_again,
}
use magic_tun.Identity.PinStore.{Fingerprint, Attempt, trusted, check, check_all, check-check_all}
use magic_tun.Identity.Hex.{to_string, parse_node_id, hex_value, decode_string, of_bytes}
use magic_tun.Identity.Hex.RoundTrip.{lower, to_string-parse_node_id}

abbrev id : List ℕ
id = 10 ∷ 171 ∷ replicate 14 0

id_valid : IsNodeId id
id_valid = (refl, ground arith)

-- 0aAB and zeros
abbrev text : List ℕ
text = 48 ∷ 97 ∷ 65 ∷ 66 ∷ replicate 28 48

text_parses : parse_node_id text ≡ ok id
unfolding parse_node_id decode_string hex_value of_bytes
text_parses = refl

to_string-parse_node_id_example : (to_string id ≡ map lower text) × IsNodeId id
to_string-parse_node_id_example = to_string-parse_node_id text id text_parses

abbrev toy : Ed25519
toy = record {
  PrivateKey = ℕ;
  public = λ k. replicate 32 k;
  sign = λ k m. replicate 64 k;
  verify = λ key m sig. true;
  length-sign = λ k m. refl;
  verify-sign = λ k m. refl;
}

abbrev toy_hashes : Hashes toy
toy_hashes = record {
  sum256 = λ m. replicate 32 1;
  length-sum256 = λ m. refl;
  sum256_bytes = λ m. omega arith;
  new_key_from_seed = λ seed. 5;
}

load_or_create_again_example :
    (file : List ℕ) × (load_or_create toy toy_hashes missing (some (replicate 32 9)) true
      ≡ (ok (from_seed toy toy_hashes (replicate 32 9)), some file))
    × (load_or_create toy toy_hashes (content file) none false
        ≡ (ok (from_seed toy toy_hashes (replicate 32 9)), none))
    × IsNodeId (from_seed toy toy_hashes (replicate 32 9)).id
load_or_create_again_example =
    load_or_create_again toy toy_hashes (replicate 32 9) none false refl (omega arith)

abbrev fp : ℕ → Fingerprint
fp n = replicate 64 n

first_use : (check true (1 ∷ []) (fp 7) []).0 ≡ trusted
unfolding check get
first_use = refl

-- In between, another certificate at the address, and one elsewhere
abbrev attempts : List Attempt
attempts =
    record { saves = true; addr = 1 ∷ []; fp = fp 8 }
    ∷ record { saves = false; addr = 2 ∷ []; fp = fp 9 }
    ∷ []

check-check_all_example :
    ((check false (1 ∷ []) (fp 8) (check_all attempts (check true (1 ∷ []) (fp 7) []).1)).0
      ≡ trusted)
    ↔ (fp 7 ≡ fp 8)
check-check_all_example = check-check_all true false (1 ∷ []) (fp 7) (fp 8) attempts [] first_use
