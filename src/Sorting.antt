-- ===== src/Sorting.antt =====
-- The ORDER BY of a query: insertion by a total preorder, and lists in its order.
pub mod Lexicographic
pub mod Pages
use xmtp_node_go.Base.{
  All, All-map, Bool, Bool-cases, List, [], ap, false, if◌then◌else◌, inl, inr, keep, keep-All, not,
  refl, sym, true, ◌∙◌, ◌∷◌, ◌≡◌,
}
use mathlib.Core.List.{append-nil}

module _ {A : Type 0} (before : A → A → Bool) where
  unfoldable pub insert_by : A → List A → List A
  insert_by x [] = x ∷ []
  insert_by x (y ∷ ys) = let rest = insert_by x ys in if before x y then x ∷ y ∷ ys else y ∷ rest

  unfoldable pub sort_by : List A → List A
  sort_by [] = []
  sort_by (x ∷ xs) = insert_by x (sort_by xs)

  -- Each element stands before all that follow it.
  abbrev pub Sorted : List A → Type 0
  Sorted [] = Unit
  Sorted (x ∷ xs) = All (λ y. before x y ≡ true) xs × Sorted xs

  -- Each element stands before all that follow it, and none of them before it.
  abbrev pub Rising : List A → Type 0
  Rising [] = Unit
  Rising (x ∷ xs) = All (λ y. (before x y ≡ true) × (before y x ≡ false)) xs × Rising xs

  -- What stands strictly after an element.
  abbrev pub after : A → List A → List A
  after c = keep (λ x. not (before x c))

-- A reflexive order that is total and transitive.
pub record TotalPreorder {A : Type 0} (before : A → A → Bool) : Type 0 where
  pub total : (x y : A) → before x y ≡ false → before y x ≡ true
  pub trans : (x y z : A) → before x y ≡ true → before y z ≡ true → before x z ≡ true

module _ {A : Type 0} (before : A → A → Bool) where
  pub insert_by-All :
      (P : A → Type 0) (x : A) (ys : List A) → P x → All P ys → All P (insert_by before x ys)
  unfolding insert_by
  insert_by-All P x [] px h = (px, tt)
  insert_by-All P x (y ∷ ys) px h = elim (Bool-cases (before x y)) [
    | inl first ↦ rw first (px, h)
    | inr later ↦ rw later (h.0, insert_by-All P x ys px h.1)
  ]

  pub sort_by-All : (P : A → Type 0) (xs : List A) → All P xs → All P (sort_by before xs)
  unfolding sort_by
  sort_by-All P [] h = tt
  sort_by-All P (x ∷ xs) h = insert_by-All P x (sort_by before xs) h.0 (sort_by-All P xs h.1)

module _ {A : Type 0} (before : A → A → Bool) (order : TotalPreorder before) where
  pub insert_by-Sorted :
      (x : A) (ys : List A) → Sorted before ys → Sorted before (insert_by before x ys)
  unfolding insert_by
  insert_by-Sorted x [] h = (tt, tt)
  insert_by-Sorted x (y ∷ ys) h = elim (Bool-cases (before x y)) [
    | inl first ↦ rw first ((first, All-map (λ z yz. order.trans x y z first yz) ys h.0), h)
    | inr later ↦ rw later (
      insert_by-All before (λ z. before y z ≡ true) x ys (order.total x y later) h.0,
      insert_by-Sorted x ys h.1,
    )
  ]

  pub sort_by-Sorted : (xs : List A) → Sorted before (sort_by before xs)
  unfolding sort_by
  sort_by-Sorted [] = tt
  sort_by-Sorted (x ∷ xs) = insert_by-Sorted x (sort_by before xs) (sort_by-Sorted xs)

  insert_by-front :
      (x : A) (ys : List A) → All (λ y. before x y ≡ true) ys → insert_by before x ys ≡ x ∷ ys
  unfolding insert_by
  insert_by-front x [] h = refl
  insert_by-front x (y ∷ ys) h = rw (h.0) refl

  insert_by-keep :
      (p : A → Bool) (x : A) (ys : List A)
      → Sorted before ys
      → keep p (insert_by before x ys) ≡ (if p x then insert_by before x (keep p ys) else keep p ys)
  unfolding insert_by
  insert_by-keep p x [] h = refl
  insert_by-keep p x (y ∷ ys) h = elim (Bool-cases (before x y)) [
    | inl first ↦ elim (Bool-cases (p x)) [
      | inl kept ↦
          let all : All (λ z. before x z ≡ true) (y ∷ ys) =
            (first, All-map (λ z yz. order.trans x y z first yz) ys h.0) in
          rw (first, kept)
            (sym (
              insert_by-front x (keep p (y ∷ ys))
                (keep-All (λ z. before x z ≡ true) p (y ∷ ys) all)))
      | inr dropped ↦ rw (first, dropped) refl
    ]
    | inr later ↦ elim (Bool-cases (p y)) [
      | inl kept ↦ elim (Bool-cases (p x)) [
        | inl there ↦
            rw (later, kept, there)
              (rw later (ap (◌∷◌ y) (insert_by-keep p x ys h.1 ∙ rw there refl)))
        | inr gone ↦ rw (later, kept, gone) (ap (◌∷◌ y) (insert_by-keep p x ys h.1 ∙ rw gone refl))
      ]
      | inr dropped ↦ rw (later, dropped) (insert_by-keep p x ys h.1)
    ]
  ]

  -- Sorting and keeping change places.
  pub sort_by-keep :
      (p : A → Bool) (xs : List A) → sort_by before (keep p xs) ≡ keep p (sort_by before xs)
  unfolding sort_by
  sort_by-keep p [] = refl
  sort_by-keep p (x ∷ xs) = elim (Bool-cases (p x)) [
    | inl kept ↦ rw kept (
        ap (insert_by before x) (sort_by-keep p xs)
        ∙ sym (insert_by-keep p x (sort_by before xs) (sort_by-Sorted xs) ∙ rw kept refl))
    | inr dropped ↦ rw dropped (
        sort_by-keep p xs
        ∙ sym (insert_by-keep p x (sort_by before xs) (sort_by-Sorted xs) ∙ rw dropped refl))
  ]
