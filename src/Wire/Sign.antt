-- ===== src/Wire/Sign.antt =====
-- wire/sign.go. Ed25519 is not this program's code: its operations are an interface, with what its
-- documentation says of them.
use magic_tun.Base.{
  ℕ, ◌+◌, ◌-◌, ◌≡◌, refl, Bool, true, List, ◌++◌, arith, ok, err, ◌>>◌, fail_if, ltb, if◌then◌else◌,
  length, take, drop, length-append, take-append_length, drop-append_length, le→ltb,
}
use magic_tun.Wire.Codec.{Read, too_short, bad_signature}

-- crypto/ed25519: signatures have SignatureSize bytes, and a signature made with a private key
-- verifies under the public key that belongs to it.
pub record Ed25519 : Type 1 where
  pub PrivateKey : Type 0
  pub public : PrivateKey → List ℕ
  pub sign : PrivateKey → List ℕ → List ℕ
  pub verify : List ℕ → List ℕ → List ℕ → Bool
  pub length-sign : (k : PrivateKey) (m : List ℕ) → length (sign k m) ≡ 64
  pub verify-sign : (k : PrivateKey) (m : List ℕ) → verify (public k) m (sign k m) ≡ true

abbrev pub sig_size : ℕ
sig_size = 64

module _ (c : Ed25519) where
  open c use {PrivateKey, public, sign, verify}

  unfoldable pub sign_message : List ℕ → PrivateKey → List ℕ
  sign_message msg priv = msg ++ sign priv msg

  unfoldable pub verify_message : List ℕ → List ℕ → Read (List ℕ)
  verify_message bytes pub_key = do
    fail_if (ltb (length bytes) sig_size) too_short
    let msg = take (length bytes - sig_size) bytes
    let sig = drop (length bytes - sig_size) bytes
    if verify pub_key msg sig then ok msg else err bad_signature

  -- A signed message verifies under the signer's public key, and comes back without the signature.
  pub verify_message-sign_message :
      (msg : List ℕ) (priv : PrivateKey)
      → verify_message (sign_message msg priv) (public priv) ≡ ok msg
  unfolding verify_message sign_message
  verify_message-sign_message msg priv =
      let long : length (msg ++ sign priv msg) ≡ length msg + 64 =
        omega (arith, length-append msg (sign priv msg), c.length-sign priv msg) in
      let cut : length (msg ++ sign priv msg) - sig_size ≡ length msg = omega arith in
      rw (le→ltb (length (msg ++ sign priv msg)) 64 (omega arith)) (
        rw cut (
          rw (take-append_length (length msg) msg (sign priv msg) refl) (
            rw (drop-append_length (length msg) msg (sign priv msg) refl)
              (rw (c.verify-sign priv msg) refl))))
