-- ===== src/Base/Equality.antt =====
-- Equality of keys, as an interface with instances for numbers, lists and pairs.
use Prim.Native.Nat.{ℕ}
use mathlib.Core.Path.{◌≡◌, refl}
use mathlib.Core.Logic.{◌↔◌}
use mathlib.Core.Bool.{Bool, true, false, ◌&&◌}
use mathlib.Core.List.{List, [], ◌∷◌}
use native.Mathlib.Omega.{arith}
use magic_tun.Base.Tests.{eqb, eqb_iff}

-- A Boolean test that decides equality: Go's == on the keys of a map.
pub record HasEquality {ℓ} (A : Type ℓ) : Type ℓ where
  pub test : (a b : A) → Bool
  pub test_iff : (x y : A) → (test x y ≡ true) ↔ (x ≡ y)

unfoldable pub bytes_beq : List ℕ → List ℕ → Bool
bytes_beq [] [] = true
bytes_beq [] (y ∷ ys) = false
bytes_beq (x ∷ xs) [] = false
bytes_beq (x ∷ xs) (y ∷ ys) = eqb x y && bytes_beq xs ys

pub bytes_beq→eq : (xs ys : List ℕ) → bytes_beq xs ys ≡ true → xs ≡ ys
unfolding bytes_beq
bytes_beq→eq [] [] h = refl
bytes_beq→eq [] (y ∷ ys) h = cc
bytes_beq→eq (x ∷ xs) [] h = cc
bytes_beq→eq (x ∷ xs) (y ∷ ys) h = ground (arith, bytes_beq→eq xs ys)

pub bytes_beq_refl : (xs : List ℕ) → bytes_beq xs xs ≡ true
unfolding bytes_beq
bytes_beq_refl [] = refl
bytes_beq_refl (x ∷ xs) = ground (arith, bytes_beq_refl xs)

pub bytes_beq_iff : (xs ys : List ℕ) → (bytes_beq xs ys ≡ true) ↔ (xs ≡ ys)
bytes_beq_iff xs ys = (bytes_beq→eq xs ys, λ e. rw e (bytes_beq_refl ys))

infix 50 ◌==◌
abbrev pub ◌==◌ {ℓ} : {K : Type ℓ} → ⦃e : HasEquality K⦄ → (k j : K) → Bool
◌==◌ ⦃e⦄ k j = e.test k j

instance abbrev pub nat_eq : HasEquality ℕ
nat_eq = record { test = eqb; test_iff = eqb_iff }

instance abbrev pub bytes_eq : HasEquality (List ℕ)
bytes_eq = record { test = bytes_beq; test_iff = bytes_beq_iff }

unfoldable pub pair_beq : List ℕ × List ℕ → List ℕ × List ℕ → Bool
pair_beq (a, b) (c, d) = bytes_beq a c && bytes_beq b d

pub pair_beq_iff : (p q : List ℕ × List ℕ) → (pair_beq p q ≡ true) ↔ (p ≡ q)
unfolding pair_beq
pair_beq_iff (a, b) (c, d) = ground (arith, bytes_beq_iff a c, bytes_beq_iff b d)

instance abbrev pub pair_eq : HasEquality (List ℕ × List ℕ)
pair_eq = record { test = pair_beq; test_iff = pair_beq_iff }

module _ {ℓ} {K : Type ℓ} ⦃e : HasEquality K⦄ where
  pub ==_refl : (k : K) → (k == k) ≡ true
  ==_refl k = (e.test_iff k k).1 refl

  pub ==_ne : (k j : K) → ¬ (k ≡ j) → (k == j) ≡ false
  ==_ne k j h = ground (arith, e.test_iff k j)
