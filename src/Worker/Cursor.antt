-- ===== src/Worker/Cursor.antt =====
-- The cursor of the worker: the rows above it, and what a tick or new rows change of them.
use xmtp_node_go.Base.{
  All, Bool, Bool-cases, List, [], ap, arith, inl, inr, keep, length, length-append, ltb, refl, suc,
  sym, take, take-append-drop, zero, ℕ, ◌++◌, ◌<◌, ◌∙◌, ◌∷◌, ◌≡◌, ◌≤◌,
}
use xmtp_node_go.CatchUp.{RowReader}
use xmtp_node_go.CatchUp.Due.{take-short}
use xmtp_node_go.CatchUp.Query.{Ascending}
use xmtp_node_go.ReadStore.{last_id}
use xmtp_node_go.ReadStore.Pages.{InRange, above-next}
use xmtp_node_go.Worker.{get_all_with_cursor, latest_id, numrows}

take-own-length {ℓ} : {A : Type ℓ} (n : ℕ) (xs : List A) → take n xs ≡ take (length (take n xs)) xs
take-own-length zero xs = refl
take-own-length (suc n) [] = refl
take-own-length (suc n) (x ∷ xs) = ap (◌∷◌ x) (take-own-length n xs)

own-length {ℓ} : {A : Type ℓ} (n : ℕ) (xs : List A) → length (take n xs) ≤ length xs
own-length zero xs = omega arith
own-length (suc n) [] = omega arith
own-length (suc n) (x ∷ xs) = omega (arith, own-length n xs)

All-take {ℓ κ} : {A : Type ℓ} (P : A → Type κ) (n : ℕ) (xs : List A) → All P xs → All P (take n xs)
All-take P zero xs h = tt
All-take P (suc n) [] h = tt
All-take P (suc n) (x ∷ xs) h = (h.0, All-take P n xs h.1)

All-keep {ℓ κ} :
    {A : Type ℓ} (P : A → Type κ) (p : A → Bool) (xs : List A) → All P xs → All P (keep p xs)
All-keep P p [] h = tt
All-keep P p (x ∷ xs) h = elim (Bool-cases (p x)) [
  | inl kept ↦ rw kept (h.0, All-keep P p xs h.1)
  | inr lost ↦ rw lost (All-keep P p xs h.1)
]

module _ {R : Type 0} (row : RowReader R) where
  -- The rows read without their keys.
  abbrev plain : RowReader R
  plain = record { key = λ _. []; id = λ r. row.id r }

  -- The rows above a cursor.
  abbrev pub after : List R → ℕ → List R
  after table cursor = keep (λ m. ltb cursor (row.id m)) table

  last_id-plain : (xs : List R) (d : ℕ) → last_id plain xs d ≡ last_id row xs d
  unfolding last_id
  last_id-plain [] d = refl
  last_id-plain (x ∷ xs) d = last_id-plain xs (row.id x)

  last_id-start :
      (n d e : ℕ) (xs : List R)
      → suc n ≤ length xs
      → last_id row (take (suc n) xs) d ≡ last_id row (take (suc n) xs) e
  unfolding last_id
  last_id-start n d e [] h = ground arith
  last_id-start n d e (x ∷ xs) h = refl

  rest_of :
      (table : List R) (cursor k : ℕ)
      → Ascending row 0 table
      → InRange row table
      → k ≤ length (after table cursor)
      → take k (after table cursor)
          ++ after table (last_id row (take k (after table cursor)) cursor)
        ≡ after table cursor
  unfolding last_id
  rest_of table cursor zero ordered fits h = refl
  rest_of table cursor (suc k) ordered fits h =
      let page = take (suc k) (after table cursor) in
      ap (λ last. page ++ after table last)
        (last_id-start k cursor 0 (after table cursor) h ∙ sym (last_id-plain page 0))
      ∙ ap (λ others. page ++ others) (above-next plain table [] cursor k ordered fits h)
      ∙ take-append-drop (suc k) (after table cursor)

  -- A page, and the rows above its last id, or above the cursor if it is empty.
  pub page-rest :
      (table : List R) (cursor : ℕ)
      → Ascending row 0 table
      → InRange row table
      → get_all_with_cursor row table cursor
          ++ after table (last_id row (get_all_with_cursor row table cursor) cursor)
        ≡ after table cursor
  unfolding get_all_with_cursor
  page-rest table cursor ordered fits =
      let rows = after table cursor in
      rw (take-own-length numrows rows)
        (rest_of table cursor (length (take numrows rows)) ordered fits (own-length numrows rows))

  last_id-grows : (b : ℕ) (xs : List R) → Ascending row b xs → b ≤ last_id row xs b
  unfolding last_id
  last_id-grows b [] h = omega arith
  last_id-grows b (x ∷ xs) h = omega (arith, last_id-grows (row.id x) xs h.1)

  last_id-append :
      (b : ℕ) (xs ys : List R) → last_id row (xs ++ ys) b ≡ last_id row ys (last_id row xs b)
  unfolding last_id
  last_id-append b [] ys = refl
  last_id-append b (x ∷ xs) ys = last_id-append (row.id x) xs ys

  last_id-most : (c m : ℕ) (xs : List R) → c ≤ m → All (λ r. row.id r ≤ m) xs → last_id row xs c ≤ m
  unfolding last_id
  last_id-most c m [] h all = h
  last_id-most c m (x ∷ xs) h all = last_id-most (row.id x) m xs all.0 all.1

  ids_below : (b : ℕ) (xs : List R) → Ascending row b xs → All (λ r. row.id r ≤ last_id row xs b) xs
  unfolding last_id
  ids_below b [] h = tt
  ids_below b (x ∷ xs) h = (last_id-grows (row.id x) xs h.1, ids_below (row.id x) xs h.1)

  pub latest-append :
      (table more : List R)
      → Ascending row (latest_id row table) more
      → latest_id row table ≤ latest_id row (table ++ more)
  unfolding latest_id
  latest-append table more h =
      rw (last_id-append 0 table more) (last_id-grows (last_id row table 0) more h)

  pub Ascending-append :
      (b : ℕ) (xs ys : List R)
      → Ascending row b xs
      → Ascending row (last_id row xs b) ys
      → Ascending row b (xs ++ ys)
  unfolding last_id
  Ascending-append b [] ys hx hy = hy
  Ascending-append b (x ∷ xs) ys hx hy = (hx.0, Ascending-append (row.id x) xs ys hx.1 hy)

  pub after-all : (c b : ℕ) (xs : List R) → c ≤ b → Ascending row b xs → after xs c ≡ xs
  after-all c b [] h ordered = refl
  after-all c b (x ∷ xs) h ordered =
      ground (arith, h, ordered, after-all c (row.id x) xs (omega arith) ordered.1)

  pub page-below :
      (table : List R) (cursor : ℕ)
      → Ascending row 0 table
      → cursor ≤ latest_id row table
      → last_id row (get_all_with_cursor row table cursor) cursor ≤ latest_id row table
  unfolding get_all_with_cursor latest_id
  page-below table cursor ordered h =
      last_id-most cursor (last_id row table 0) (take numrows (after table cursor)) h
        (All-take _ numrows (after table cursor) (All-keep _ _ table (ids_below 0 table ordered)))

  nothing_added {ℓ} : {A : Type ℓ} (xs ys zs : List A) → xs ++ ys ≡ zs → xs ≡ zs → ys ≡ []
  nothing_added xs [] zs whole same = refl
  nothing_added xs (y ∷ ys) zs whole same =
      ground (arith, ap length whole, ap length same, length-append xs (y ∷ ys))

  -- A short page is the last.
  pub page-last :
      (table : List R) (cursor : ℕ)
      → Ascending row 0 table
      → InRange row table
      → length (get_all_with_cursor row table cursor) < numrows
      → after table (last_id row (get_all_with_cursor row table cursor) cursor) ≡ []
  unfolding get_all_with_cursor
  page-last table cursor ordered fits short =
      nothing_added (take numrows (after table cursor)) _ (after table cursor)
        (page-rest table cursor ordered fits) (take-short numrows (after table cursor) short)
