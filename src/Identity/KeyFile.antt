-- ===== src/Identity/KeyFile.antt =====
-- The node's key: FromSeed and fromKeypair of identity/identity.go, and identity/keyfile.go. A file is
-- what reading it gives; a text is its bytes.
use magic_tun.Base.{
  ℕ, ◌≡◌, refl, Bool, true, Option, none, some, List, arith, Result, ok, err, if◌then◌else◌, eqb,
  length, take, length-take, All,
}
use magic_tun.Wire.Sign.{Ed25519}
use magic_tun.Identity.{NodeId, IsByte, IsNodeId}
use magic_tun.Identity.Hex.{to_string, decode_string}
use magic_tun.Identity.Hex.RoundTrip.{decode_string-to_string}

-- crypto/sha256: 32 bytes; and the expansion of a seed to a private key, of crypto/ed25519.
pub record Hashes (c : Ed25519) : Type 0 where
  pub sum256 : List ℕ → List ℕ
  pub length-sum256 : (m : List ℕ) → length (sum256 m) ≡ 32
  pub sum256_bytes : (m : List ℕ) → All IsByte (take 16 (sum256 m))
  pub new_key_from_seed : List ℕ → c.PrivateKey

abbrev pub ed25519_seed_size : ℕ
ed25519_seed_size = 32

-- What os.ReadFile gives
pub data FileRead : Type 0 where
  missing unreadable : FileRead
  content : List ℕ → FileRead

pub data Error : Type 0 where
  read_failed bad_file bad_seed_size no_seed write_failed : Error

pub record Identity (c : Ed25519) : Type 0 where
  pub pub_key : List ℕ
  pub priv_key : c.PrivateKey
  pub id : NodeId

module _ (c : Ed25519) (hashes : Hashes c) where
  unfoldable pub from_keypair : List ℕ → c.PrivateKey → Identity c
  from_keypair public priv = record {
    pub_key = public;
    priv_key = priv;
    id = take 16 (hashes.sum256 public);
  }

  unfoldable pub from_seed : List ℕ → Identity c
  from_seed seed = let priv = hashes.new_key_from_seed seed in from_keypair (c.public priv) priv

  -- createAndSave, with the random seed, `none` if there is no randomness, and whether the file can be
  -- written; also the new content of the file
  unfoldable pub create_and_save :
      Option (List ℕ) → Bool → Result Error (Identity c) × Option (List ℕ)
  create_and_save none writes = (err no_seed, none)
  create_and_save (some seed) writes =
      if writes then (ok (from_seed seed), some (to_string seed)) else (err write_failed, none)

  abbrev of_seed : Option (List ℕ) → Result Error (Identity c)
  of_seed none = err bad_file
  of_seed (some seed) =
      if eqb (length seed) ed25519_seed_size then ok (from_seed seed) else err bad_seed_size

  unfoldable pub load_or_create :
      FileRead → Option (List ℕ) → Bool → Result Error (Identity c) × Option (List ℕ)
  load_or_create missing seed writes = create_and_save seed writes
  load_or_create unreadable seed writes = (err read_failed, none)
  load_or_create (content text) seed writes = (of_seed (decode_string text), none)

  -- A node that starts for the first time makes an identity of a random seed of 32 bytes, and writes a
  -- file; whenever it starts again and reads that file, it has the very same keys and identifier, and
  -- the file stays as it is. The identifier is one of 16 bytes.
  pub load_or_create_again :
      (seed : List ℕ) (other : Option (List ℕ)) (writes : Bool)
      → length seed ≡ 32
      → All IsByte seed
      → (text : List ℕ) × (load_or_create missing (some seed) true
          ≡ (ok (from_seed seed), some text))
        × (load_or_create (content text) other writes ≡ (ok (from_seed seed), none))
        × IsNodeId (from_seed seed).id
  unfolding load_or_create create_and_save from_seed from_keypair
  load_or_create_again seed other writes size bytes =
      let public = c.public (hashes.new_key_from_seed seed) in
      (
        to_string seed,
        refl,
        rw (decode_string-to_string seed bytes, of_seed) (rw size refl),
        (
          length-take 16 (hashes.sum256 public) (omega (arith, hashes.length-sum256 public)),
          hashes.sum256_bytes public,
        ),
      )
