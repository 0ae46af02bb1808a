-- ===== src/CatchUp/Skip.antt =====
-- The rows of one key above a cursor, and those above the last of the first of them.
use xmtp_node_go.Base.{
  All, Bool, Bool-cases, Bytes, List, [], ap, arith, drop, false, inl, inr, keep, length, refl,
  subst, suc, sym, take, true, zero, ℕ, ◌==◌, ◌∙◌, ◌∷◌, ◌≡◌, ◌≤◌, nat_eq, bytes_eq,
}
use xmtp_node_go.CatchUp.{RowReader, probe_matches, count_of, last_id_of}
use xmtp_node_go.CatchUp.Query.{rows_of, Ascending, keep-Ascending}

module _ {R : Type 0} (row : RowReader R) where
  pub count_of-rows :
      (k : Bytes) (rows : List R) → count_of row k rows ≡ length (rows_of row k rows)
  unfolding count_of
  count_of-rows k [] = refl
  count_of-rows k (m ∷ ms) = ground (arith, count_of-rows k ms)

  pub last_id_of-rows :
      (k : Bytes) (rows : List R) (d : ℕ)
      → last_id_of row k rows d ≡ last_id_of row k (rows_of row k rows) d
  unfolding last_id_of
  last_id_of-rows k [] d = refl
  last_id_of-rows k (m ∷ ms) d =
      ground (arith, last_id_of-rows k ms (row.id m), last_id_of-rows k ms d)

  -- The last id of the first rows of a key.
  abbrev pub last_of : ℕ → List R → ℕ → ℕ
  last_of zero xs d = d
  last_of (suc n) [] d = d
  last_of (suc n) (x ∷ xs) d = last_of n xs (row.id x)

  pub last_of-above : (n d : ℕ) (xs : List R) → Ascending row d xs → d ≤ last_of n xs d
  last_of-above zero d xs h = omega arith
  last_of-above (suc n) d [] h = omega arith
  last_of-above (suc n) d (x ∷ xs) h = omega (arith, last_of-above n (row.id x) xs h.1)

  matches-key :
      (k : Bytes) (floor ceiling : ℕ) (x : R)
      → probe_matches row k floor ceiling x ≡ true
      → (row.key x == k) ≡ true
  unfolding probe_matches
  matches-key k floor ceiling x h = ground (arith, h)

  pub last_id_of-take :
      (k : Bytes) (floor ceiling n d : ℕ) (xs : List R)
      → last_id_of row k (take n (keep (probe_matches row k floor ceiling) xs)) d
        ≡ last_of n (keep (probe_matches row k floor ceiling) xs) d
  unfolding last_id_of
  last_id_of-take k floor ceiling zero d xs = refl
  last_id_of-take k floor ceiling (suc n) d [] = refl
  last_id_of-take k floor ceiling (suc n) d (x ∷ xs) =
      elim (Bool-cases (probe_matches row k floor ceiling x)) [
        | inl hit ↦ rw hit (
            rw (matches-key k floor ceiling x hit)
              (last_id_of-take k floor ceiling n (row.id x) xs))
        | inr miss ↦ rw miss (last_id_of-take k floor ceiling (suc n) d xs)
      ]

  -- Below the rows of a table nothing is cut by a floor.
  keep-floors :
      (k : Bytes) (f g ceiling b : ℕ) (xs : List R)
      → f ≤ b
      → g ≤ b
      → Ascending row b xs
      → keep (probe_matches row k f ceiling) xs ≡ keep (probe_matches row k g ceiling) xs
  unfolding probe_matches
  keep-floors k f g ceiling b [] p q h = refl
  keep-floors k f g ceiling b (x ∷ xs) p q h =
      ground (arith, h, keep-floors k f g ceiling (row.id x) xs (omega arith) (omega arith) h.1)

  below_floor :
      (k : Bytes) (floor ceiling : ℕ) (x : R)
      → row.id x ≤ floor
      → probe_matches row k floor ceiling x ≡ false
  unfolding probe_matches
  below_floor k floor ceiling x h = ground (arith, h)

  raised_miss :
      (k : Bytes) (f g ceiling : ℕ) (x : R)
      → f ≤ g
      → probe_matches row k f ceiling x ≡ false
      → probe_matches row k g ceiling x ≡ false
  unfolding probe_matches
  raised_miss k f g ceiling x h miss = ground (arith, h, miss)

  floor_of_hit :
      (k : Bytes) (floor ceiling : ℕ) (x : R)
      → probe_matches row k floor ceiling x ≡ true
      → floor ≤ row.id x
  unfolding probe_matches
  floor_of_hit k floor ceiling x h = ground (arith, h)

  last_of-start :
      (n d e : ℕ) (xs : List R) → suc n ≤ length xs → last_of (suc n) xs d ≡ last_of (suc n) xs e
  last_of-start n d e [] h = ground arith
  last_of-start n d e (x ∷ xs) h = refl

  above_first :
      (k : Bytes) (floor ceiling : ℕ) (x : R) (xs : List R)
      → probe_matches row k floor ceiling x ≡ true
      → Ascending row (row.id x) xs
      → keep (probe_matches row k (row.id x) ceiling) (x ∷ xs)
        ≡ keep (probe_matches row k floor ceiling) xs
  above_first k floor ceiling x xs hit h = rw (below_floor k (row.id x) ceiling x (omega arith)) (
      keep-floors k (row.id x) floor ceiling (row.id x) xs (omega arith)
        (floor_of_hit k floor ceiling x hit) h)

  keep_hit : (p : R → Bool) (x : R) (xs : List R) → p x ≡ true → keep p (x ∷ xs) ≡ x ∷ keep p xs
  keep_hit p x xs hit = rw hit refl

  keep_miss : (p : R → Bool) (x : R) (xs : List R) → p x ≡ false → keep p (x ∷ xs) ≡ keep p xs
  keep_miss p x xs miss = rw miss refl

  long_hit :
      (p : R → Bool) (n : ℕ) (x : R) (xs : List R)
      → p x ≡ true
      → suc n ≤ length (keep p (x ∷ xs))
      → suc n ≤ suc (length (keep p xs))
  long_hit p n x xs hit l = ground (arith, hit, l)

  long_miss :
      (p : R → Bool) (n : ℕ) (x : R) (xs : List R)
      → p x ≡ false
      → suc n ≤ length (keep p (x ∷ xs))
      → suc n ≤ length (keep p xs)
  long_miss p n x xs miss l = ground (arith, miss, l)

  pub last_of-floor :
      (k : Bytes) (floor ceiling n b : ℕ) (xs : List R)
      → Ascending row b xs
      → suc n ≤ length (keep (probe_matches row k floor ceiling) xs)
      → floor ≤ last_of (suc n) (keep (probe_matches row k floor ceiling) xs) 0
  last_of-floor k floor ceiling n b [] h l = omega (arith, l)
  last_of-floor k floor ceiling n b (x ∷ xs) h l =
      elim (Bool-cases (probe_matches row k floor ceiling x)) [
        | inl hit ↦ rw hit (
            omega (
              arith,
              floor_of_hit k floor ceiling x hit,
              last_of-above n (row.id x) (keep (probe_matches row k floor ceiling) xs)
                  (keep-Ascending row _ (row.id x) xs h.1),
            ))
        | inr miss ↦
            rw miss (last_of-floor k floor ceiling n (row.id x) xs h.1 (long_miss _ n x xs miss l))
      ]

  after_hit :
      (k : Bytes) (floor ceiling n : ℕ) (x : R) (xs : List R)
      → Ascending row (row.id x) xs
      → probe_matches row k floor ceiling x ≡ true
      → ((m : ℕ)
          → suc m ≤ length (keep (probe_matches row k floor ceiling) xs)
          → keep
              (probe_matches row k
                (last_of (suc m) (keep (probe_matches row k floor ceiling) xs) 0)
                ceiling)
              xs
            ≡ drop (suc m) (keep (probe_matches row k floor ceiling) xs))
      → suc n ≤ suc (length (keep (probe_matches row k floor ceiling) xs))
      → keep
          (probe_matches row k
            (last_of (suc n) (x ∷ keep (probe_matches row k floor ceiling) xs) 0)
            ceiling)
          (x ∷ xs)
        ≡ drop n (keep (probe_matches row k floor ceiling) xs)
  after_hit k floor ceiling zero x xs h hit rest l = above_first k floor ceiling x xs hit h
  after_hit k floor ceiling (suc m) x xs h hit rest l =
      let rows = keep (probe_matches row k floor ceiling) xs in
      let last = last_of (suc m) rows (row.id x) in
      keep_miss _ x xs (
        below_floor k last ceiling x
          (last_of-above (suc m) (row.id x) rows (keep-Ascending row _ (row.id x) xs h)))
      ∙ ap (λ bound. keep (probe_matches row k bound ceiling) xs)
          (last_of-start m (row.id x) 0 rows (omega (arith, l)))
      ∙ rest m (omega (arith, l))

  -- Above the last of the first rows of a key are the others.
  pub keep-after :
      (k : Bytes) (floor ceiling n b : ℕ) (xs : List R)
      → Ascending row b xs
      → suc n ≤ length (keep (probe_matches row k floor ceiling) xs)
      → keep
          (probe_matches row k
            (last_of (suc n) (keep (probe_matches row k floor ceiling) xs) 0)
            ceiling)
          xs
        ≡ drop (suc n) (keep (probe_matches row k floor ceiling) xs)
  keep-after k floor ceiling n b [] h l = ground arith
  keep-after k floor ceiling n b (x ∷ xs) h l =
      let claim : List R → Type 0 = λ rows.
        keep (probe_matches row k (last_of (suc n) rows 0) ceiling) (x ∷ xs) ≡ drop (suc n) rows in
      elim (Bool-cases (probe_matches row k floor ceiling x)) [
        | inl hit ↦ subst claim (sym (keep_hit _ x xs hit)) (
            after_hit k floor ceiling n x xs h.1 hit
              (λ m. keep-after k floor ceiling m (row.id x) xs h.1) (long_hit _ n x xs hit l))
        | inr miss ↦
            let more = long_miss _ n x xs miss l in
            subst claim (sym (keep_miss _ x xs miss)) (
              keep_miss _ x xs (
                raised_miss k floor _ ceiling x
                  (last_of-floor k floor ceiling n (row.id x) xs h.1 more) miss)
              ∙ keep-after k floor ceiling n (row.id x) xs h.1 more)
      ]

  pub last_of-most :
      (n d c : ℕ) (xs : List R) → d ≤ c → All (λ r. row.id r ≤ c) xs → last_of n xs d ≤ c
  last_of-most zero d c xs h most = h
  last_of-most (suc n) d c [] h most = h
  last_of-most (suc n) d c (x ∷ xs) h most = last_of-most n (row.id x) c xs most.0 most.1

  pub keep-most :
      (k : Bytes) (floor ceiling : ℕ) (xs : List R)
      → All (λ r. row.id r ≤ ceiling) (keep (probe_matches row k floor ceiling) xs)
  unfolding probe_matches
  keep-most k floor ceiling [] = tt
  keep-most k floor ceiling (x ∷ xs) = ground (arith, keep-most k floor ceiling xs)
