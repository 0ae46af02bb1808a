-- ===== src/Sorting/Pages.antt =====
-- Pages of a list in order: what follows an element, and the union of two stretches.
use xmtp_node_go.Base.{
  All, All-map, All-middle, Bool, Bool-cases, List, [], ap, arith, false, inl, inr, keep, keep-All,
  length, refl, suc, sym, take, take-All, true, zero, ℕ, ◌&&◌, ◌++◌, ◌+◌, ◌||◌, ◌∙◌, ◌∷◌, ◌≡◌, ◌≤◌,
}
use mathlib.Core.List.{append-nil}
use xmtp_node_go.Sorting.{
  insert_by, sort_by, Sorted, Rising, after, TotalPreorder, insert_by-All, sort_by-All, sort_by-All,
}

module _ {A : Type 0} (before : A → A → Bool) where
  pub keep-Sorted : (p : A → Bool) (xs : List A) → Sorted before xs → Sorted before (keep p xs)
  keep-Sorted p [] h = tt
  keep-Sorted p (x ∷ xs) h = elim (Bool-cases (p x)) [
    | inl kept ↦ rw kept (keep-All _ p xs h.0, keep-Sorted p xs h.1)
    | inr dropped ↦ rw dropped (keep-Sorted p xs h.1)
  ]

  pub take-Sorted : (n : ℕ) (xs : List A) → Sorted before xs → Sorted before (take n xs)
  take-Sorted zero xs h = tt
  take-Sorted (suc n) [] h = tt
  take-Sorted (suc n) (x ∷ xs) h = (take-All _ n xs h.0, take-Sorted n xs h.1)

  pub Sorted-sort : (xs : List A) → Sorted before xs → sort_by before xs ≡ xs
  unfolding sort_by insert_by
  Sorted-sort [] h = refl
  Sorted-sort (x ∷ []) h = refl
  Sorted-sort (x ∷ y ∷ ys) h = rw (Sorted-sort (y ∷ ys) h.1) (rw (h.0.0) refl)

  after-none :
      (y : A) (ys : List A)
      → All (λ z. (before y z ≡ true) × (before z y ≡ false)) ys
      → after before y ys ≡ ys
  after-none y [] h = refl
  after-none y (z ∷ ys) h = rw (h.0.1) (ap (◌∷◌ z) (after-none y ys h.1))

  -- What follows an element of a rising list is the rest of it.
  pub after-rest :
      (xs : List A) (y : A) (ys : List A)
      → before y y ≡ true
      → Rising before (xs ++ y ∷ ys)
      → after before y (xs ++ y ∷ ys) ≡ ys
  after-rest [] y ys self h = rw self (after-none y ys h.0)
  after-rest (x ∷ xs) y ys self h =
      rw ((All-middle (λ z. (before x z ≡ true) × (before z x ≡ false)) xs y ys h.0).0)
        (after-rest xs y ys self h.1)

take-prefix : {A : Type 0} (n k : ℕ) (ys : List A) → n ≤ k → take n (take k ys) ≡ take n ys
take-prefix zero k ys h = refl
take-prefix (suc n) zero ys h = ground (arith, h)
take-prefix (suc n) (suc k) [] h = refl
take-prefix (suc n) (suc k) (y ∷ ys) h = ap (◌∷◌ y) (take-prefix n k ys (omega (arith, h)))

pub take-cap :
    {A : Type 0} (n m k : ℕ) (xs ys : List A)
    → n ≤ m
    → n ≤ k
    → take n (take m xs ++ take k ys) ≡ take n (xs ++ ys)
take-cap zero m k xs ys h l = refl
take-cap (suc n) zero k xs ys h l = ground (arith, h)
take-cap (suc n) (suc m) k [] ys h l = take-prefix (suc n) k ys l
take-cap (suc n) (suc m) k (x ∷ xs) ys h l =
    ap (◌∷◌ x) (take-cap n m k xs ys (omega (arith, h)) (omega (arith, l)))

module _ {A : Type 0} (before : A → A → Bool) (order : TotalPreorder before) where
  pub self : (x : A) → before x x ≡ true
  self x = elim (Bool-cases (before x x)) [ inl h ↦ h | inr h ↦ order.total x x h ]

  -- No two elements stand before each other.
  abbrev pub Apart : List A → Type 0
  Apart [] = Unit
  Apart (x ∷ xs) = All (λ y. (before x y && before y x) ≡ false) xs × Apart xs

  insert_by-Rising :
      (x : A) (ys : List A)
      → All (λ y. (before x y && before y x) ≡ false) ys
      → Rising before ys
      → Rising before (insert_by before x ys)
  unfolding insert_by
  insert_by-Rising x [] apart h = (tt, tt)
  insert_by-Rising x (y ∷ ys) apart h = elim (Bool-cases (before x y)) [
    | inl first ↦
        let back : before y x ≡ false = ground (arith, apart.0, first) in
        rw first (
          (
            (first, back),
            All-map
                (λ z yz. (
                  order.trans x y z first yz.0,
                  elim (Bool-cases (before z x)) [
                    | inl zx ↦ ground (arith, yz.1, order.trans z x y zx first)
                    | inr h ↦ h
                  ],
                ))
                ys h.0,
          ),
          h,
        )
    | inr later ↦ rw later (
      insert_by-All before (λ z. (before y z ≡ true) × (before z y ≡ false)) x ys
          (order.total x y later, later) h.0,
      insert_by-Rising x ys apart.1 h.1,
    )
  ]

  length-insert_by : (x : A) (ys : List A) → length (insert_by before x ys) ≡ length ys + 1
  unfolding insert_by
  length-insert_by x [] = omega arith
  length-insert_by x (y ∷ ys) = ground (arith, length-insert_by x ys)

  pub length-sort_by : (xs : List A) → length (sort_by before xs) ≡ length xs
  unfolding sort_by
  length-sort_by [] = refl
  length-sort_by (x ∷ xs) = omega (arith, length-insert_by x (sort_by before xs), length-sort_by xs)

  pub sort_by-Rising : (xs : List A) → Apart xs → Rising before (sort_by before xs)
  unfolding sort_by
  sort_by-Rising [] h = tt
  sort_by-Rising (x ∷ xs) h =
      insert_by-Rising x (sort_by before xs) (sort_by-All before _ xs h.0) (sort_by-Rising xs h.1)

  pub keep-Apart : (p : A → Bool) (xs : List A) → Apart xs → Apart (keep p xs)
  keep-Apart p [] h = tt
  keep-Apart p (x ∷ xs) h = elim (Bool-cases (p x)) [
    | inl kept ↦ rw kept (keep-All _ p xs h.0, keep-Apart p xs h.1)
    | inr dropped ↦ rw dropped (keep-Apart p xs h.1)
  ]

  insert_by-past :
      (x : A) (ys xs : List A)
      → All (λ y. before x y ≡ false) ys
      → All (λ z. before x z ≡ true) xs
      → insert_by before x (ys ++ xs) ≡ ys ++ x ∷ xs
  unfolding insert_by
  insert_by-past x [] [] h k = refl
  insert_by-past x [] (z ∷ xs) h k = rw (k.0) refl
  insert_by-past x (y ∷ ys) xs h k = rw (h.0) (ap (◌∷◌ y) (insert_by-past x ys xs h.1 k))

  -- Two ordered stretches, of which the second stands before the first.
  pub sort_by-swap :
      (xs ys : List A)
      → Sorted before xs
      → Sorted before ys
      → All (λ x. All (λ y. before x y ≡ false) ys) xs
      → sort_by before (xs ++ ys) ≡ ys ++ xs
  unfolding sort_by
  sort_by-swap [] ys h k apart = Sorted-sort before ys k ∙ sym (append-nil ys)
  sort_by-swap (x ∷ xs) ys h k apart =
      ap (insert_by before x) (sort_by-swap xs ys h.1 k apart.1)
      ∙ insert_by-past x ys xs apart.0 h.0

  module _ (first second : A → Bool)
      (apart : (x y : A) → second x ≡ true → first y ≡ true → before x y ≡ false) where
    none_first :
        (x : A) (xs : List A)
        → second x ≡ true
        → All (λ y. before x y ≡ true) xs
        → keep first xs ≡ []
    none_first x [] h k = refl
    none_first x (y ∷ xs) h k = elim (Bool-cases (first y)) [
      | inl early ↦ ground (arith, apart x y h early, k.0)
      | inr late ↦ rw late (none_first x xs h k.1)
    ]

    only_second :
        (x : A) (xs : List A)
        → second x ≡ true
        → All (λ y. before x y ≡ true) xs
        → keep (λ y. second y || first y) xs ≡ keep second xs
    only_second x [] h k = refl
    only_second x (y ∷ xs) h k = elim (Bool-cases (first y)) [
      | inl early ↦ ground (arith, apart x y h early, k.0)
      | inr late ↦ ground (arith, late, only_second x xs h k.1)
    ]

    -- A list in order has the rows of the first kind before those of the second.
    pub keep-parts :
        (xs : List A)
        → Sorted before xs
        → keep (λ x. second x || first x) xs ≡ keep first xs ++ keep second xs
    keep-parts [] h = refl
    keep-parts (x ∷ xs) h = elim (Bool-cases (second x)) [
      | inl late ↦
          let alone : first x ≡ false = elim (Bool-cases (first x)) [
            | inl early ↦ ground (arith, apart x x late early, self x)
            | inr h ↦ h
          ] in
          rw (late, alone, none_first x xs late h.0) (ap (◌∷◌ x) (only_second x xs late h.0))
      | inr other ↦ elim (Bool-cases (first x)) [
        | inl early ↦ rw (other, early) (ap (◌∷◌ x) (keep-parts xs h.1))
        | inr neither ↦ rw (other, neither) (keep-parts xs h.1)
      ]
    ]
