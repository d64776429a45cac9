-- ===== src/Identity/PinStore.antt =====
-- identity/pinstore.go: the certificates that were trusted on first use. A certificate counts by its
-- fingerprint, the text of certSPKIHash; `saves` is whether the file can be written.
use magic_tun.Base.{
  ℕ, ◌≡◌, refl, ◌↔◌, inl, inr, Bool, ◌||◌, none, some, List, [], ◌∷◌, arith, if◌then◌else◌, ltb,
  length, Option-cases, bytes_eq, bytes_beq, bytes_beq_iff, get, put, get-put,
}

abbrev pub Fingerprint : Type 0
Fingerprint = List ℕ

-- The pins by the peer's address
abbrev pub Pins : Type 0
Pins = List (List ℕ × Fingerprint)

-- What Check returns: true; the error of the save; the error of a mismatch; or the panic of the two
-- slices of 16 bytes in that error's text.
pub data Verdict : Type 0 where
  trusted save_failed mismatch panics : Verdict

abbrev refused : Fingerprint → Fingerprint → Verdict
refused pinned fp = if ltb (length pinned) 16 || ltb (length fp) 16 then panics else mismatch

abbrev pub compared : Fingerprint → Fingerprint → Verdict
compared pinned fp = if bytes_beq pinned fp then trusted else refused pinned fp

-- Check
unfoldable pub check : Bool → List ℕ → Fingerprint → Pins → Verdict × Pins
check saves addr fp pins = elim (get addr pins) [
  | none ↦ (if saves then trusted else save_failed, put addr fp pins)
  | some pinned ↦ (compared pinned fp, pins)
]

-- A connection that was checked
pub record Attempt : Type 0 where
  pub saves : Bool
  pub addr : List ℕ
  pub fp : Fingerprint

unfoldable pub check_all : List Attempt → Pins → Pins
check_all [] pins = pins
check_all (a ∷ attempts) pins = check_all attempts (check a.saves a.addr a.fp pins).1

check_pins :
    (saves : Bool) (addr : List ℕ) (fp : Fingerprint) (pins : Pins)
    → (check saves addr fp pins).0 ≡ trusted
    → get addr (check saves addr fp pins).1 ≡ some fp
unfolding check
check_pins saves addr fp pins e = elim (Option-cases (get addr pins)) [
  | inl q ↦ rw (q, check) (ground (arith, get-put addr addr fp pins, bytes_beq_iff addr addr))
  | inr (pinned, q) ↦
      let same : compared pinned fp ≡ trusted = rw (q, check) at e in
      rw (q, check) (ground (arith, q, same, bytes_beq_iff pinned fp))
]

check_keeps :
    (saves : Bool) (addr other : List ℕ) (fp pinned : Fingerprint) (pins : Pins)
    → get other pins ≡ some pinned
    → get other (check saves addr fp pins).1 ≡ some pinned
unfolding check
check_keeps saves addr other fp pinned pins h = elim (Option-cases (get addr pins)) [
  | inl q ↦ rw (q, check) (ground (arith, get-put addr other fp pins, bytes_beq_iff addr other))
  | inr (p, q) ↦ rw (q, check) h
]

check_all_keeps :
    (attempts : List Attempt) (other : List ℕ) (pinned : Fingerprint) (pins : Pins)
    → get other pins ≡ some pinned
    → get other (check_all attempts pins) ≡ some pinned
unfolding check_all
check_all_keeps [] other pinned pins h = h
check_all_keeps (a ∷ attempts) other pinned pins h =
    check_all_keeps attempts other pinned (check a.saves a.addr a.fp pins).1
      (check_keeps a.saves a.addr other a.fp pinned pins h)

check_known :
    (saves : Bool) (addr : List ℕ) (fp pinned : Fingerprint) (pins : Pins)
    → get addr pins ≡ some pinned
    → (check saves addr fp pins).0 ≡ compared pinned fp
unfolding check
check_known saves addr fp pinned pins h = rw (h, check) refl

-- Trust on first use: once a certificate was trusted for an address, then after any further checks, of
-- this and of other addresses, a certificate is trusted for it exactly if it has the same fingerprint.
pub check-check_all :
    (saves saves' : Bool) (addr : List ℕ) (fp fp' : Fingerprint) (attempts : List Attempt)
    (pins : Pins)
    → (check saves addr fp pins).0 ≡ trusted
    → ((check saves' addr fp' (check_all attempts (check saves addr fp pins).1)).0 ≡ trusted)
      ↔ (fp ≡ fp')
check-check_all saves saves' addr fp fp' attempts pins first =
    let later = check_all attempts (check saves addr fp pins).1 in
    let pin : get addr later ≡ some fp =
      check_all_keeps attempts addr fp (check saves addr fp pins).1
        (check_pins saves addr fp pins first) in
    rw (check_known saves' addr fp' fp later pin) (ground (arith, bytes_beq_iff fp fp'))
