-- ===== src/CatchUp/Due.antt =====
-- What a scan still owes a topic, and what one turn does to it.
use xmtp_node_go.Base.{
  List, [], ap, arith, drop, false, if◌then◌else◌, keep, length, ltb, refl, suc, take, true, zero,
  ℕ, ◌<◌, ◌∙◌, ◌∷◌, ◌≡◌, ◌≤◌,
}
use xmtp_node_go.CatchUp.{
  RowReader, probe_matches, count_of, last_id_of, Catchup, greatest, probe, advance, clamp_cursor,
  max_int64,
}
use xmtp_node_go.CatchUp.Query.{rows_of, Ascending}
use xmtp_node_go.CatchUp.Skip.{
  count_of-rows, last_id_of-rows, last_of, last_id_of-take, last_of-floor, last_of-most, keep-most,
  keep-after,
}

pub take-short {ℓ} : {A : Type ℓ} (n : ℕ) (xs : List A) → length (take n xs) < n → take n xs ≡ xs
take-short zero xs h = ground arith
take-short (suc n) [] h = refl
take-short (suc n) (x ∷ xs) h = ap (◌∷◌ x) (take-short n xs (omega (arith, h)))

pub length-take-full {ℓ} :
    {A : Type ℓ} (n : ℕ) (xs : List A) → n ≤ length (take n xs) → n ≤ length xs
length-take-full zero xs h = omega arith
length-take-full (suc n) [] h = h
length-take-full (suc n) (x ∷ xs) h = omega (arith, length-take-full n xs (omega (arith, h)))

module _ {R : Type 0} (row : RowReader R) (table : List R) (ceiling : ℕ) where
  -- The rows that a scan owes a topic.
  abbrev pub due : Catchup → List R
  due f =
      keep
        (probe_matches row f.key (greatest (clamp_cursor f.id_cursor) (clamp_cursor 0))
          (clamp_cursor ceiling))
        table

  pub probe-due : (limit : ℕ) (f : Catchup) → probe row table 0 ceiling limit f ≡ take limit (due f)
  unfolding probe
  probe-due limit f = refl

  -- A topic that came back short has been given all its rows.
  pub due-retired :
      (limit : ℕ) (rows : List R) (f : Catchup)
      → rows_of row f.key rows ≡ take limit (due f)
      → ltb (count_of row f.key rows) limit ≡ true
      → take limit (due f) ≡ due f
  due-retired limit rows f h short =
      take-short limit (due f) (ground (arith, count_of-rows row f.key rows, ap length h))

  cursor_moved :
      (c last : ℕ)
      → greatest (clamp_cursor c) (clamp_cursor 0) ≤ last
      → last ≤ max_int64
      → greatest (clamp_cursor (if ltb c last then last else c)) (clamp_cursor 0) ≡ last
  unfolding greatest clamp_cursor
  cursor_moved c last low high = ground arith

  pub advance-key : (rows : List R) (f : Catchup) → (advance row rows f).key ≡ f.key
  unfolding advance
  advance-key rows f = ground arith

  advance-cursor :
      (rows : List R) (f : Catchup)
      → (advance row rows f).id_cursor ≡ (
          let last = last_id_of row f.key rows 0 in
          if ltb f.id_cursor last then last else f.id_cursor)
  unfolding advance
  advance-cursor rows f = ground arith

  pub full-length :
      (n : ℕ) (rows : List R) (f : Catchup)
      → rows_of row f.key rows ≡ take n (due f)
      → ltb (count_of row f.key rows) n ≡ false
      → n ≤ length (due f)
  full-length n rows f h full =
      length-take-full n (due f) (ground (arith, count_of-rows row f.key rows, ap length h))

  last-due :
      (n : ℕ) (rows : List R) (f : Catchup)
      → rows_of row f.key rows ≡ take n (due f)
      → last_id_of row f.key rows 0 ≡ last_of row n (due f) 0
  last-due n rows f h =
      last_id_of-rows row f.key rows 0
      ∙ ap (λ taken. last_id_of row f.key taken 0) h
      ∙ last_id_of-take row f.key _ _ n 0 table

  top_in_range : clamp_cursor ceiling ≤ max_int64
  unfolding clamp_cursor
  top_in_range = ground arith

  -- A topic that came back full is owed what follows.
  pub due-advance :
      (n : ℕ) (rows : List R) (f : Catchup)
      → Ascending row 0 table
      → rows_of row f.key rows ≡ take (suc n) (due f)
      → ltb (count_of row f.key rows) (suc n) ≡ false
      → due (advance row rows f) ≡ drop (suc n) (due f)
  due-advance n rows f ordered h full =
      let floor = greatest (clamp_cursor f.id_cursor) (clamp_cursor 0) in
      let top = clamp_cursor ceiling in
      let more : suc n ≤ length (due f) = full-length (suc n) rows f h full in
      let last = last_of row (suc n) (due f) 0 in
      let moved : greatest (clamp_cursor (advance row rows f).id_cursor) (clamp_cursor 0) ≡ last =
        rw (advance-cursor rows f, last-due (suc n) rows f h)
          (cursor_moved f.id_cursor last (last_of-floor row f.key floor top n 0 table ordered more)
            (omega (
              arith,
              top_in_range,
              last_of-most row (suc n) 0 top (due f) (omega arith)
                  (keep-most row f.key floor top table),
            ))) in
      rw (advance-key rows f, moved) (keep-after row f.key floor top n 0 table ordered more)
