-- ===== src/CatchUp/Query.antt =====
-- What a turn's query returns for one topic: the rows of that topic's own probe, in order.
use xmtp_node_go.Base.{
  Bool, Bool-cases, Bytes, List, [], ap, arith, eq_iff, false, if◌then◌else◌, inl, inr, keep,
  keep-append, leb, length, length-append, member, refl, suc, take, zero, ℕ, ◌++◌, ◌<◌, ◌==◌, ◌||◌,
  ◌∙◌, ◌∷◌, ◌≡◌, ◌≤◌, nat_eq, bytes_eq,
}
use mathlib.Core.List.{append-nil}
use mathlib.Core.Path.{ap₂}
use xmtp_node_go.CatchUp.{
  Catchup, RowReader, probe, probes, probe_matches, query_wave_scan, insert_by_id, order_by_id,
}

abbrev pub keys_of : List Catchup → List Bytes
keys_of [] = []
keys_of (f ∷ fs) = f.key ∷ keys_of fs

module _ {R : Type 0} (row : RowReader R) where
  -- The rows of one key.
  abbrev pub rows_of : Bytes → List R → List R
  rows_of g = keep (λ m. row.key m == g)

  -- Ids that rise strictly, as in a table.
  abbrev pub Ascending : ℕ → List R → Type 0
  Ascending bound [] = Unit
  Ascending bound (m ∷ ms) = (bound < (row.id m)) × Ascending (row.id m) ms

  -- Ids that do not fall.
  abbrev Sorted : ℕ → List R → Type 0
  Sorted bound [] = Unit
  Sorted bound (m ∷ ms) = (bound ≤ (row.id m)) × Sorted (row.id m) ms

  Sorted-weaken : (a b : ℕ) (xs : List R) → a ≤ b → Sorted b xs → Sorted a xs
  Sorted-weaken a b [] h s = tt
  Sorted-weaken a b (x ∷ xs) h s = (omega arith, s.1)

  Ascending-weaken : (a b : ℕ) (xs : List R) → a ≤ b → Ascending b xs → Ascending a xs
  Ascending-weaken a b [] h s = tt
  Ascending-weaken a b (x ∷ xs) h s = (omega arith, s.1)

  Ascending-Sorted : (b : ℕ) (xs : List R) → Ascending b xs → Sorted b xs
  Ascending-Sorted b [] h = tt
  Ascending-Sorted b (x ∷ xs) h = (omega arith, Ascending-Sorted (row.id x) xs h.1)

  pub keep-Ascending :
      (p : R → Bool) (b : ℕ) (xs : List R) → Ascending b xs → Ascending b (keep p xs)
  keep-Ascending p b [] h = tt
  keep-Ascending p b (x ∷ xs) h = elim (Bool-cases (p x)) [
    | inl kept ↦ rw kept (h.0, keep-Ascending p (row.id x) xs h.1)
    | inr skipped ↦
        rw skipped (keep-Ascending p b xs (Ascending-weaken b (row.id x) xs (omega arith) h.1))
  ]

  pub take-Ascending : (n b : ℕ) (xs : List R) → Ascending b xs → Ascending b (take n xs)
  take-Ascending zero b xs h = tt
  take-Ascending (suc n) b [] h = tt
  take-Ascending (suc n) b (x ∷ xs) h = (h.0, take-Ascending n (row.id x) xs h.1)

  keep-Sorted : (p : R → Bool) (b : ℕ) (xs : List R) → Sorted b xs → Sorted b (keep p xs)
  keep-Sorted p b [] h = tt
  keep-Sorted p b (x ∷ xs) h = elim (Bool-cases (p x)) [
    | inl kept ↦ rw kept (h.0, keep-Sorted p (row.id x) xs h.1)
    | inr skipped ↦
        rw skipped (keep-Sorted p b xs (Sorted-weaken b (row.id x) xs (omega arith) h.1))
  ]

  insert_front : (m : R) (xs : List R) → Sorted (row.id m) xs → insert_by_id row m xs ≡ m ∷ xs
  unfolding insert_by_id
  insert_front m [] s = refl
  insert_front m (x ∷ xs) s = ground arith

  insert_by_id-Sorted :
      (m : R) (b : ℕ) (xs : List R)
      → b ≤ (row.id m)
      → Sorted b xs
      → Sorted b (insert_by_id row m xs)
  unfolding insert_by_id
  insert_by_id-Sorted m b [] h s = (h, tt)
  insert_by_id-Sorted m b (x ∷ xs) h s = elim (Bool-cases (leb (row.id m) (row.id x))) [
    | inl before ↦ rw before (h, (ground (arith, before), s.1))
    | inr after ↦ rw after (s.0, insert_by_id-Sorted m (row.id x) xs (ground (arith, after)) s.1)
  ]

  order_by_id-Sorted : (xs : List R) → Sorted 0 (order_by_id row xs)
  unfolding order_by_id
  order_by_id-Sorted [] = tt
  order_by_id-Sorted (x ∷ xs) =
      insert_by_id-Sorted x 0 (order_by_id row xs) (omega arith) (order_by_id-Sorted xs)

  order_by_id-Ascending : (b : ℕ) (xs : List R) → Ascending b xs → order_by_id row xs ≡ xs
  unfolding order_by_id
  order_by_id-Ascending b [] h = refl
  order_by_id-Ascending b (x ∷ xs) h =
      ap (insert_by_id row x) (order_by_id-Ascending (row.id x) xs h.1)
      ∙ insert_front x xs (Ascending-Sorted (row.id x) xs h.1)

  rows_of-insert_by_id :
      (g : Bytes) (m : R) (b : ℕ) (xs : List R)
      → Sorted b xs
      → rows_of g (insert_by_id row m xs)
        ≡ (if row.key m == g then insert_by_id row m (rows_of g xs) else rows_of g xs)
  unfolding insert_by_id
  rows_of-insert_by_id g m b [] s = ground arith
  rows_of-insert_by_id g m b (x ∷ xs) s = elim (Bool-cases (leb (row.id m) (row.id x))) [
    | inl before ↦ rw before (
        ground (
          arith,
          insert_front m (rows_of g (x ∷ xs))
              (keep-Sorted (λ r. row.key r == g) (row.id m) (x ∷ xs) (ground (arith, before), s.1)),
        ))
    | inr after ↦ rw after (ground (arith, after, rows_of-insert_by_id g m (row.id x) xs s.1))
  ]

  rows_of-order_by_id :
      (g : Bytes) (xs : List R) → rows_of g (order_by_id row xs) ≡ order_by_id row (rows_of g xs)
  unfolding order_by_id
  rows_of-order_by_id g [] = refl
  rows_of-order_by_id g (x ∷ xs) =
      rows_of-insert_by_id g x 0 (order_by_id row xs) (order_by_id-Sorted xs)
      ∙ ground (arith, rows_of-order_by_id g xs)

  -- Rows of one key only.
  abbrev OfKey : Bytes → List R → Type 0
  OfKey g [] = Unit
  OfKey g (m ∷ ms) = (row.key m ≡ g) × OfKey g ms

  keep-OfKey :
      (g : Bytes) (floor ceiling : ℕ) (xs : List R)
      → OfKey g (keep (probe_matches row g floor ceiling) xs)
  unfolding probe_matches
  keep-OfKey g floor ceiling [] = tt
  keep-OfKey g floor ceiling (x ∷ xs) =
      ground (arith, eq_iff (row.key x) g, keep-OfKey g floor ceiling xs)

  take-OfKey : (g : Bytes) (n : ℕ) (xs : List R) → OfKey g xs → OfKey g (take n xs)
  take-OfKey g zero xs h = tt
  take-OfKey g (suc n) [] h = tt
  take-OfKey g (suc n) (x ∷ xs) h = (h.0, take-OfKey g n xs h.1)

  rows_of-same : (g : Bytes) (xs : List R) → OfKey g xs → rows_of g xs ≡ xs
  rows_of-same g [] h = refl
  rows_of-same g (x ∷ xs) h = ground (arith, eq_iff (row.key x) g, h, rows_of-same g xs h.1)

  rows_of-other : (g j : Bytes) (xs : List R) → (j == g) ≡ false → OfKey j xs → rows_of g xs ≡ []
  rows_of-other g j [] different h = refl
  rows_of-other g j (x ∷ xs) different h =
      ground
        (arith, eq_iff (row.key x) g, eq_iff j g, different, h, rows_of-other g j xs different h.1)

module _ {R : Type 0} (row : RowReader R) (table : List R) (scan_cursor ceiling limit : ℕ) where
  probe-OfKey : (f : Catchup) → OfKey row f.key (probe row table scan_cursor ceiling limit f)
  unfolding probe
  probe-OfKey f = take-OfKey row f.key limit _ (keep-OfKey row f.key _ _ table)

  rows_of-absent :
      (g : Bytes) (fs : List Catchup)
      → member g (keys_of fs) ≡ false
      → rows_of row g (probes row table scan_cursor ceiling limit fs) ≡ []
  unfolding probes
  rows_of-absent g [] h = refl
  rows_of-absent g (f ∷ fs) h =
      keep-append (λ m. row.key m == g) (probe row table scan_cursor ceiling limit f)
        (probes row table scan_cursor ceiling limit fs)
      ∙ ap₂ (◌++◌)
          (rows_of-other row g f.key (probe row table scan_cursor ceiling limit f)
            (ground (arith, h)) (probe-OfKey f))
          (rows_of-absent g fs (ground (arith, h)))

  rows_of-probes :
      (f : Catchup) (before after : List Catchup)
      → member f.key (keys_of before) ≡ false
      → member f.key (keys_of after) ≡ false
      → rows_of row f.key (probes row table scan_cursor ceiling limit (before ++ f ∷ after))
        ≡ probe row table scan_cursor ceiling limit f
  unfolding probes
  rows_of-probes f [] after p q =
      keep-append (λ m. row.key m == f.key) (probe row table scan_cursor ceiling limit f)
        (probes row table scan_cursor ceiling limit after)
      ∙ ap₂ (◌++◌)
          (rows_of-same row f.key (probe row table scan_cursor ceiling limit f) (probe-OfKey f))
          (rows_of-absent f.key after q)
      ∙ append-nil (probe row table scan_cursor ceiling limit f)
  rows_of-probes f (b ∷ before) after p q =
      keep-append (λ m. row.key m == f.key) (probe row table scan_cursor ceiling limit b)
        (probes row table scan_cursor ceiling limit (before ++ f ∷ after))
      ∙ ap₂ (◌++◌)
          (rows_of-other row f.key b.key (probe row table scan_cursor ceiling limit b)
            (ground (arith, p)) (probe-OfKey b))
          (rows_of-probes f before after (ground (arith, p)) q)

  -- With a table in the order of ids, a ceiling above 0 and no filter twice, the rows of a key in
  -- the merged result of a turn are those of its own probe, in order: no key takes rows from the limit
  -- of another.
  pub query-probe :
      (f : Catchup) (before after : List Catchup)
      → Ascending row 0 table
      → (ceiling == 0) ≡ false
      → member f.key (keys_of before) ≡ false
      → member f.key (keys_of after) ≡ false
      → rows_of row f.key
          (query_wave_scan row table (before ++ f ∷ after) scan_cursor ceiling limit)
        ≡ probe row table scan_cursor ceiling limit f
  unfolding query_wave_scan
  query-probe f before after ordered above p q =
      let all_rows = probes row table scan_cursor ceiling limit (before ++ f ∷ after) in
      let some_filter : (length (before ++ f ∷ after) == 0) ≡ false =
        ground (arith, length-append before (f ∷ after)) in
      rw (some_filter, above)
        (rows_of-order_by_id row f.key all_rows
          ∙ ap (order_by_id row) (rows_of-probes f before after p q)
          ∙ order_by_id-Ascending row 0 (probe row table scan_cursor ceiling limit f)
              (unfold probe in take-Ascending row limit 0 _ (keep-Ascending row _ 0 table ordered)))

  -- A key that is not asked for has no rows.
  pub query-absent :
      (k : Bytes) (filters : List Catchup)
      → member k (keys_of filters) ≡ false
      → rows_of row k (query_wave_scan row table filters scan_cursor ceiling limit) ≡ []
  unfolding query_wave_scan
  query-absent k filters h = elim (Bool-cases (length filters == 0 || ceiling == 0)) [
    | inl nothing ↦ rw nothing refl
    | inr something ↦ rw something (
        rows_of-order_by_id row k (probes row table scan_cursor ceiling limit filters)
        ∙ ap (order_by_id row) (rows_of-absent k filters h))
  ]
