-- ===== src/Streams/Marks.antt =====
-- What the marks let through, key by key.
use xmtp_node_go.Base.{
  Bool-cases, Bytes, List, Option, [], ap, eq_iff, get_or, if◌then◌else◌, inl, inr, keep-append,
  ltb, refl, some, sym, ℕ, ◌++◌, ◌==◌, ◌∙◌, ◌∷◌, ◌≡◌, nat_eq, bytes_eq,
}
use xmtp_node_go.CatchUp.{RowReader}
use xmtp_node_go.CatchUp.Query.{rows_of}
use xmtp_node_go.CatchUp.Scan.{rows_in}
use mathlib.Core.Path.{ap₂}
use xmtp_node_go.Streams.{metadata_of, send_one, send_to_stream, send_batches}

module _ {R : Type 0} (row : RowReader R) where
  -- The messages of one key that rise above all before them, from a mark on.
  abbrev pub records : ℕ → List R → List R
  records b [] = []
  records b (m ∷ ms) = if ltb b (row.id m) then m ∷ records (row.id m) ms else records b ms

  -- The mark after them.
  abbrev pub mark_after : ℕ → List R → ℕ
  mark_after b [] = b
  mark_after b (m ∷ ms) = if ltb b (row.id m) then mark_after (row.id m) ms else mark_after b ms

  abbrev pub Through : Bytes → List R → (Bytes → Option ℕ) → List R × (Bytes → Option ℕ) → Type 0
  Through k ms marks (out, marks') =
      (rows_of row k out ≡ records (get_or marks k 0) (rows_of row k ms))
      × (get_or marks' k 0 ≡ mark_after (get_or marks k 0) (rows_of row k ms))

  send_one-Through :
      (k : Bytes) (m : R) (marks : Bytes → Option ℕ)
      → Through k (m ∷ []) marks (send_one (metadata_of row) m marks)
  unfolding send_one metadata_of
  send_one-Through k m marks = elim (Bool-cases (row.key m == k)) [
    | inl same ↦
        let mark : get_or marks (row.key m) 0 ≡ get_or marks k 0 =
          ap (λ j. get_or marks j 0) ((eq_iff (row.key m) k).0 same) in
        elim (Bool-cases (ltb (get_or marks k 0) (row.id m))) [
          | inl higher ↦
              rw (send_one, metadata_of, mark, higher, same)
                (
                  rw higher refl,
                  ap (λ b. get_or (λ j. if b then some (row.id m) else marks j) k 0) same
                      ∙ rw higher refl,
                )
          | inr lower ↦ rw (send_one, metadata_of, mark, lower, same) (rw lower (refl, refl))
        ]
    | inr other ↦ elim (Bool-cases (ltb (get_or marks (row.key m) 0) (row.id m))) [
      | inl higher ↦
          rw (send_one, metadata_of, higher, other)
            (refl, ap (λ b. get_or (λ j. if b then some (row.id m) else marks j) k 0) other)
      | inr lower ↦ rw (send_one, metadata_of, lower, other) (refl, refl)
    ]
  ]

  records-append :
      (b : ℕ) (xs ys : List R) → records b (xs ++ ys) ≡ records b xs ++ records (mark_after b xs) ys
  records-append b [] ys = refl
  records-append b (x ∷ xs) ys = elim (Bool-cases (ltb b (row.id x))) [
    | inl higher ↦ rw higher (ap (◌∷◌ x) (records-append (row.id x) xs ys))
    | inr lower ↦ rw lower (records-append b xs ys)
  ]

  mark_after-append :
      (b : ℕ) (xs ys : List R) → mark_after b (xs ++ ys) ≡ mark_after (mark_after b xs) ys
  mark_after-append b [] ys = refl
  mark_after-append b (x ∷ xs) ys = elim (Bool-cases (ltb b (row.id x))) [
    | inl higher ↦ rw higher (mark_after-append (row.id x) xs ys)
    | inr lower ↦ rw lower (mark_after-append b xs ys)
  ]

  both-Through :
      (k : Bytes) (xs ys out1 out2 : List R) (marks marks1 marks2 : Bytes → Option ℕ)
      → Through k xs marks (out1, marks1)
      → Through k ys marks1 (out2, marks2)
      → Through k (xs ++ ys) marks (out1 ++ out2, marks2)
  both-Through k xs ys out1 out2 marks marks1 marks2 (sent1, mark1) (sent2, mark2) =
      let split = keep-append (λ m. row.key m == k) xs ys in
      let b = get_or marks k 0 in
      (
        keep-append (λ m. row.key m == k) out1 out2
            ∙ ap₂ (◌++◌) sent1 (sent2 ∙ ap (λ c. records c (rows_of row k ys)) mark1)
            ∙ sym (records-append b (rows_of row k xs) (rows_of row k ys))
            ∙ ap (records b) (sym split),
        mark2
            ∙ ap (λ c. mark_after c (rows_of row k ys)) mark1
            ∙ sym (mark_after-append b (rows_of row k xs) (rows_of row k ys))
            ∙ ap (mark_after b) (sym split),
      )

  pub send_to_stream-Through :
      (k : Bytes) (ms : List R) (marks : Bytes → Option ℕ)
      → Through k ms marks (send_to_stream (metadata_of row) ms marks)
  unfolding send_to_stream
  send_to_stream-Through k [] marks = (refl, refl)
  send_to_stream-Through k (m ∷ ms) marks =
      let (first, marks1) = send_one (metadata_of row) m marks in
      let (rest, marks2) = send_to_stream (metadata_of row) ms marks1 in
      both-Through k (m ∷ []) ms first rest marks marks1 marks2 (send_one-Through k m marks)
        (send_to_stream-Through k ms marks1)

  pub send_batches-Through :
      (k : Bytes) (batches : List (List R)) (marks : Bytes → Option ℕ)
      → Through k (rows_in batches) marks (send_batches (metadata_of row) batches marks)
  unfolding send_batches
  send_batches-Through k [] marks = (refl, refl)
  send_batches-Through k (batch ∷ batches) marks =
      let (first, marks1) = send_to_stream (metadata_of row) batch marks in
      let (rest, marks2) = send_batches (metadata_of row) batches marks1 in
      both-Through k batch (rows_in batches) first rest marks marks1 marks2
        (send_to_stream-Through k batch marks) (send_batches-Through k batches marks1)
