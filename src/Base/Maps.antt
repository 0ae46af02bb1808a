-- ===== src/Base/Maps.antt =====
-- A Go map as a function from keys to optional values. `m[k]` on a missing key is the zero value.
use mathlib.Core.Bool.{Bool, true, false}
use mathlib.Core.Option.{Option, none, some}
use xmtp_node_go.Base.Tests.{if◌then◌else◌}
use mathlib.Core.Path.{◌≡◌, refl}
use mathlib.Core.List.{List, [], ◌∷◌}
use native.Mathlib.Omega.{arith}
use xmtp_node_go.Base.Equality.{Key, ◌==◌, eq_self, eq_iff}

module _ {ℓ κ} {K : Type ℓ} {V : Type κ} where
  abbrev pub get_or : (K → Option V) → K → V → V
  get_or m k d = elim (m k) [ none ↦ d | some v ↦ v ]

  abbrev pub contains : (K → Option V) → K → Bool
  contains m k = elim (m k) [ none ↦ false | some v ↦ true ]

module _ {ℓ κ} {K : Type ℓ} {V : Type κ} ⦃key : Key K⦄ where
  abbrev pub insert : K → V → (K → Option V) → K → Option V
  insert k v m j = if k == j then some v else m j

  abbrev pub delete : K → (K → Option V) → K → Option V
  delete k m j = if k == j then none else m j

abbrev pub empty {ℓ κ} : {K : Type ℓ} {V : Type κ} → K → Option V
empty k = none

module _ {ℓ κ} {K : Type ℓ} {V : Type κ} ⦃key : Key K⦄ where
  pub insert_self : (k : K) (v : V) (m : K → Option V) → insert k v m k ≡ some v
  insert_self k v m = rw (eq_self k)

-- A Go map that is ranged over, as a list of its entries.
module _ {ℓ κ} {K : Type ℓ} {V : Type κ} ⦃key : Key K⦄ where
  unfoldable pub lookup : K → List (K × V) → Option V
  lookup k [] = none
  lookup k ((j, v) ∷ m) = if j == k then some v else lookup k m

  unfoldable pub erase : K → List (K × V) → List (K × V)
  erase k [] = []
  erase k ((j, v) ∷ m) = let rest = erase k m in if j == k then rest else (j, v) ∷ rest

  pub lookup-erase :
      (k j : K) (m : List (K × V)) → lookup j (erase k m) ≡ (if k == j then none else lookup j m)
  unfolding lookup erase
  lookup-erase k j [] = ground arith
  lookup-erase k j ((i, v) ∷ m) =
      ground (arith, lookup-erase k j m, eq_iff i k, eq_iff i j, eq_iff k j)

  pub lookup-cons :
      (k j : K) (v : V) (m : List (K × V))
      → lookup j ((k, v) ∷ m) ≡ (if k == j then some v else lookup j m)
  unfolding lookup
  lookup-cons k j v m = refl
