-- ===== src/Base/Equality.antt =====
-- Decidable equality as an instance, for map keys, and byte strings.
use Prim.Native.Nat.{ℕ}
use mathlib.Core.Path.{◌≡◌, refl, subst}
use mathlib.Core.Logic.{◌↔◌, inl, inr}
use mathlib.Core.Bool.{Bool, true, false, ◌&&◌, ◌||◌}
use mathlib.Core.List.{List, [], ◌∷◌, ◌++◌}
use native.Mathlib.Omega.{arith}
use xmtp_node_go.Base.Tests.{nat_beq, nat_beq_iff, Bool-cases}
use xmtp_node_go.Base.Lists.{All, keep}

-- A type that can be the key of a Go map, or an operand of `==`.
pub record Key {ℓ} (K : Type ℓ) : Type ℓ where
  pub same : K → K → Bool
  pub same_iff : (x y : K) → (same x y ≡ true) ↔ (x ≡ y)

module _ {ℓ} {K : Type ℓ} ⦃key : Key K⦄ where
  infix 50 ◌==◌
  abbrev pub ◌==◌ : K → K → Bool
  x == y = key.same x y

  pub eq_iff : (x y : K) → ((x == y) ≡ true) ↔ (x ≡ y)
  eq_iff x y = key.same_iff x y

  pub eq_self : (x : K) → (x == x) ≡ true
  eq_self x = (key.same_iff x x).1 refl

instance abbrev pub nat_eq : Key ℕ
nat_eq = record { same = nat_beq; same_iff = nat_beq_iff }

-- A Go `[]byte` or `string`: its bytes.
abbrev pub Bytes : Type 0
Bytes = List ℕ

abbrev pub bytes_beq : Bytes → Bytes → Bool
bytes_beq [] [] = true
bytes_beq (x ∷ xs) (y ∷ ys) = nat_beq x y && bytes_beq xs ys
bytes_beq _ _ = false

pub bytes_beq_iff : (xs ys : Bytes) → (bytes_beq xs ys ≡ true) ↔ (xs ≡ ys)
bytes_beq_iff [] [] = ground arith
bytes_beq_iff [] (y ∷ ys) = ground arith
bytes_beq_iff (x ∷ xs) [] = ground arith
bytes_beq_iff (x ∷ xs) (y ∷ ys) = ground (arith, bytes_beq_iff xs ys)

instance abbrev pub bytes_eq : Key Bytes
bytes_eq = record { same = bytes_beq; same_iff = bytes_beq_iff }

module _ {ℓ} {A : Type ℓ} ⦃key : Key A⦄ where
  abbrev pub member : A → List A → Bool
  member a [] = false
  member a (x ∷ xs) = x == a || member a xs

  -- No element occurs twice.
  abbrev pub Distinct : List A → Type 0
  Distinct [] = Unit
  Distinct (x ∷ xs) = (member x xs ≡ false) × Distinct xs

  pub member-keep :
      (p : A → Bool) (a : A) (xs : List A) → member a (keep p xs) ≡ (member a xs && p a)
  member-keep p a [] = refl
  member-keep p a (x ∷ xs) = ground (arith, eq_iff x a, member-keep p a xs)

  pub keep-Distinct : (p : A → Bool) (xs : List A) → Distinct xs → Distinct (keep p xs)
  keep-Distinct p [] h = tt
  keep-Distinct p (x ∷ xs) h = ground (arith, keep-Distinct p xs h.1, member-keep p x xs)

  pub member-append : (a : A) (xs ys : List A) → member a (xs ++ ys) ≡ (member a xs || member a ys)
  member-append a [] ys = refl
  member-append a (x ∷ xs) ys = ground (arith, member-append a xs ys)

  pub Distinct-left : (xs ys : List A) → Distinct (xs ++ ys) → Distinct xs
  Distinct-left [] ys h = tt
  Distinct-left (x ∷ xs) ys h = ground (arith, h, member-append x xs ys, Distinct-left xs ys h.1)

  pub Distinct-right : (xs ys : List A) → Distinct (xs ++ ys) → Distinct ys
  Distinct-right [] ys h = h
  Distinct-right (x ∷ xs) ys h = Distinct-right xs ys h.1

  pub Distinct-apart :
      (a : A) (xs ys : List A) → Distinct (xs ++ ys) → member a xs ≡ true → member a ys ≡ false
  Distinct-apart a [] ys h m = ground (arith, m)
  Distinct-apart a (x ∷ xs) ys h m = elim (Bool-cases (x == a)) [
    | inl here ↦
        let late : member a (xs ++ ys) ≡ false =
          subst (λ j. member j (xs ++ ys) ≡ false) ((eq_iff x a).0 here) h.0 in
        ground (arith, late, member-append a xs ys)
    | inr there ↦ Distinct-apart a xs ys h.1 (ground (arith, m, there))
  ]

  pub Distinct-join :
      (xs ys : List A)
      → Distinct xs
      → Distinct ys
      → ((a : A) → member a xs ≡ true → member a ys ≡ false)
      → Distinct (xs ++ ys)
  Distinct-join [] ys hx hy apart = hy
  Distinct-join (x ∷ xs) ys hx hy apart = (
    ground (arith, hx.0, member-append x xs ys, apart x (ground (arith, eq_self x))),
    Distinct-join xs ys hx.1 hy (λ a m. apart a (ground (arith, m))),
  )

  -- A property of every member is a property of every element.
  pub All-of_member {κ} :
      (P : A → Type κ) (xs : List A) → ((a : A) → member a xs ≡ true → P a) → All P xs
  All-of_member P [] h = tt
  All-of_member P (x ∷ xs) h =
      (h x (ground (arith, eq_iff x x)), All-of_member P xs (λ a m. h a (ground (arith, m))))
