-- ===== src/Batches.antt =====
-- DELETE with a LIMIT: the first rows of a table that pass a test, in the order of the table.
use xmtp_node_go.Base.{
  Bool, Bool-cases, List, [], ap, arith, false, if◌then◌else◌, inl, inr, keep, length, ltb, min,
  not, refl, true, ℕ, ◌&&◌, ◌+◌, ◌-◌, ◌∙◌, ◌∷◌, ◌≡◌, ◌≤◌,
}

unfoldable pub delete_first : {R : Type 0} → (R → Bool) → ℕ → List R → List R
delete_first p n [] = []
delete_first p n (r ∷ rows) =
    let dropped = delete_first p (n - 1) rows in
    let kept = delete_first p n rows in if p r && ltb 0 n then dropped else r ∷ kept

-- The rows that pass.
abbrev pub count_of_rows : {R : Type 0} → (R → Bool) → List R → ℕ
count_of_rows p rows = length (keep p rows)

module _ {R : Type 0} (p : R → Bool) where
  pub delete_first-none : (rows : List R) → delete_first p 0 rows ≡ rows
  unfolding delete_first
  delete_first-none [] = refl
  delete_first-none (r ∷ rows) = ground (arith, delete_first-none rows)

  pub delete_first-twice :
      (a b : ℕ) (rows : List R)
      → delete_first p b (delete_first p a rows) ≡ delete_first p (a + b) rows
  unfolding delete_first
  delete_first-twice a b [] = refl
  delete_first-twice a b (r ∷ rows) = elim (Bool-cases (p r && ltb 0 a)) [
    | inl goes ↦
        let more : (p r && ltb 0 (a + b)) ≡ true = ground (arith, goes) in
        let less : (a - 1) + b ≡ (a + b) - 1 = ground (arith, goes) in
        rw (goes, more) (delete_first-twice (a - 1) b rows ∙ ap (λ n. delete_first p n rows) less)
    | inr stays ↦ elim (Bool-cases (p r && ltb 0 b)) [
      | inl later ↦
          let more : (p r && ltb 0 (a + b)) ≡ true = ground (arith, later) in
          let less : a + (b - 1) ≡ (a + b) - 1 = ground (arith, later) in
          rw (stays, later, more)
            (delete_first-twice a (b - 1) rows ∙ ap (λ n. delete_first p n rows) less)
      | inr never ↦
          let none_left : (p r && ltb 0 (a + b)) ≡ false = ground (arith, stays, never) in
          rw (stays, none_left) (rw never (ap (◌∷◌ r) (delete_first-twice a b rows)))
    ]
  ]

  pub count-delete_first :
      (n : ℕ) (rows : List R) → count_of_rows p (delete_first p n rows) ≡ count_of_rows p rows - n
  unfolding delete_first
  count-delete_first n [] = omega arith
  count-delete_first n (r ∷ rows) =
      ground (arith, count-delete_first (n - 1) rows, count-delete_first n rows)

  -- What does not pass is not deleted.
  pub keep-delete_first :
      (n : ℕ) (rows : List R)
      → keep (λ r. not (p r)) (delete_first p n rows) ≡ keep (λ r. not (p r)) rows
  unfolding delete_first
  keep-delete_first n [] = refl
  keep-delete_first n (r ∷ rows) =
      ground (arith, keep-delete_first (n - 1) rows, keep-delete_first n rows)

  -- With room for all of them, every row that passes is deleted.
  pub delete_first-all :
      (n : ℕ) (rows : List R)
      → count_of_rows p rows ≤ n
      → delete_first p n rows ≡ keep (λ r. not (p r)) rows
  unfolding delete_first
  delete_first-all n [] h = refl
  delete_first-all n (r ∷ rows) h = elim (Bool-cases (p r)) [
    | inl goes ↦
        let room : ltb 0 n ≡ true = ground (arith, h, goes) in
        rw (goes, room) (delete_first-all (n - 1) rows (ground (arith, h, goes)))
    | inr stays ↦ rw stays (ap (◌∷◌ r) (delete_first-all n rows (ground (arith, h, stays))))
  ]

  pub length-delete_first :
      (n : ℕ) (rows : List R)
      → length (delete_first p n rows) + min n (count_of_rows p rows) ≡ length rows
  unfolding delete_first
  length-delete_first n [] = omega arith
  length-delete_first n (r ∷ rows) =
      ground (arith, length-delete_first (n - 1) rows, length-delete_first n rows)
