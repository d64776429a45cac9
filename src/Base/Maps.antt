-- ===== src/Base/Maps.antt =====
-- Go's maps as association lists. The order of the entries stands for the order in which a `range`
-- happens to visit them.
use mathlib.Core.Path.{◌≡◌, refl, subst}
use mathlib.Core.Option.{Option, none, some}
use mathlib.Core.List.{List, [], ◌∷◌}
use native.Mathlib.Omega.{arith}
use mathlib.Core.Logic.{inl, inr}
use magic_tun.Base.Tests.{if◌then◌else◌, Bool-cases}
use magic_tun.Base.Lists.{All}
use magic_tun.Base.Equality.{HasEquality, ◌==◌}

module _ {ℓ κ} {K : Type ℓ} {V : Type κ} ⦃e : HasEquality K⦄ where
  -- v, ok := m[k]
  unfoldable pub get : K → List (K × V) → Option V
  get k [] = none
  get k ((j, v) ∷ m) = if j == k then some v else get k m

  -- m[k] = v
  unfoldable pub put : K → V → List (K × V) → List (K × V)
  put k v [] = (k, v) ∷ []
  put k v ((j, w) ∷ m) = if j == k then (k, v) ∷ m else (j, w) ∷ put k v m

  -- delete(m, k)
  unfoldable pub delete : K → List (K × V) → List (K × V)
  delete k [] = []
  delete k ((j, w) ∷ m) = let rest = delete k m in if j == k then rest else (j, w) ∷ rest

  pub get-put :
      (k j : K) (v : V) (m : List (K × V))
      → get j (put k v m) ≡ (if k == j then some v else get j m)
  unfolding get put
  get-put k j v [] = refl
  get-put k j v ((i, w) ∷ m) =
      ground (arith, e.test_iff k j, e.test_iff i k, e.test_iff i j, get-put k j v m)

  pub get-delete :
      (k j : K) (m : List (K × V)) → get j (delete k m) ≡ (if k == j then none else get j m)
  unfolding get delete
  get-delete k j [] = ground arith
  get-delete k j ((i, w) ∷ m) =
      ground (arith, e.test_iff k j, e.test_iff i k, e.test_iff i j, get-delete k j m)

  -- No key stands twice.
  abbrev pub HasDistinctKeys : List (K × V) → Type κ
  HasDistinctKeys [] = Unit
  HasDistinctKeys ((k, v) ∷ m) = (get k m ≡ none) × HasDistinctKeys m

  pub put-HasDistinctKeys :
      (k : K) (v : V) (m : List (K × V)) → HasDistinctKeys m → HasDistinctKeys (put k v m)
  unfolding put
  put-HasDistinctKeys k v [] h = (unfold get in refl, tt)
  put-HasDistinctKeys k v ((j, w) ∷ m) (h, hs) = elim (Bool-cases (j == k)) [
    | inl q ↦ rw q (rw (← (e.test_iff j k).0 q) h, hs)
    | inr n ↦
        rw n (
          rw get-put (ground (arith, e.test_iff k j, e.test_iff j k)),
          put-HasDistinctKeys k v m hs,
        )
  ]

  get-delete-none : (k j : K) (m : List (K × V)) → get j m ≡ none → get j (delete k m) ≡ none
  get-delete-none k j m h = rw get-delete (ground arith)

  pub delete-HasDistinctKeys :
      (k : K) (m : List (K × V)) → HasDistinctKeys m → HasDistinctKeys (delete k m)
  unfolding delete
  delete-HasDistinctKeys k [] h = tt
  delete-HasDistinctKeys k ((j, w) ∷ m) (h, hs) = elim (Bool-cases (j == k)) [
    | inl q ↦ rw q (delete-HasDistinctKeys k m hs)
    | inr n ↦ rw n (get-delete-none k j m h, delete-HasDistinctKeys k m hs)
  ]

module _ {ℓ κ ι} {K : Type ℓ} {V : Type κ} ⦃e : HasEquality K⦄ (P : K × V → Type ι) where
  pub All-get : (k : K) (v : V) (m : List (K × V)) → All P m → get k m ≡ some v → P (k, v)
  unfolding get
  All-get k v [] h q = cc
  All-get k v ((j, w) ∷ m) (h, hs) q = elim (Bool-cases (j == k)) [
    | inl hit ↦
        subst (λ x. P (x, v)) ((e.test_iff j k).0 hit)
          (subst (λ x. P (j, x)) (ground (arith, hit)) h)
    | inr miss ↦ All-get k v m hs (ground arith)
  ]

  pub All-put : (k : K) (v : V) (m : List (K × V)) → P (k, v) → All P m → All P (put k v m)
  unfolding put
  All-put k v [] p h = (p, tt)
  All-put k v ((j, w) ∷ m) p (h, hs) = elim (Bool-cases (j == k)) [
    | inl hit ↦ rw hit (p, hs)
    | inr miss ↦ rw miss (h, All-put k v m p hs)
  ]

  pub All-delete : (k : K) (m : List (K × V)) → All P m → All P (delete k m)
  unfolding delete
  All-delete k [] h = tt
  All-delete k ((j, w) ∷ m) (h, hs) = elim (Bool-cases (j == k)) [
    | inl hit ↦ rw hit (All-delete k m hs)
    | inr miss ↦ rw miss (h, All-delete k m hs)
  ]

pub ruleset map_laws = (get-put, get-delete)
