-- ===== src/Streams/Whole.antt =====
-- A whole stream of the older subscriptions, its replay and what is live after it.
use xmtp_node_go.Base.{
  Bool-cases, Bytes, List, [], ap, arith, empty, inl, inr, keep, keep-append, ltb, refl, sym, ℕ,
  ◌++◌, ◌==◌, ◌∙◌, ◌∷◌, ◌≡◌, ◌≤◌, nat_eq, bytes_eq,
}
use xmtp_node_go.CatchUp.{RowReader}
use xmtp_node_go.CatchUp.Query.{rows_of, Ascending}
use xmtp_node_go.CatchUp.Scan.{rows_in}
use mathlib.Core.Path.{ap₂}
use xmtp_node_go.Streams.{metadata_of, send_to_stream, send_batches, deliver}
use xmtp_node_go.Streams.Marks.{records, mark_after, send_batches-Through, send_to_stream-Through}

module _ {R : Type 0} (row : RowReader R) where
  -- The messages above an id.
  abbrev pub above : ℕ → List R → List R
  above c = keep (λ m. ltb c (row.id m))

  records-Ascending : (b : ℕ) (ms : List R) → Ascending row b ms → records row b ms ≡ ms
  records-Ascending b [] h = refl
  records-Ascending b (m ∷ ms) h = elim (Bool-cases (ltb b (row.id m))) [
    | inl higher ↦ rw higher (ap (◌∷◌ m) (records-Ascending (row.id m) ms h.1))
    | inr lower ↦ ground (arith, lower)
  ]

  above-Ascending : (c b : ℕ) (ms : List R) → c ≤ b → Ascending row b ms → above c ms ≡ ms
  above-Ascending c b [] h a = refl
  above-Ascending c b (m ∷ ms) h a = elim (Bool-cases (ltb c (row.id m))) [
    | inl higher ↦ rw higher (ap (◌∷◌ m) (above-Ascending c (row.id m) ms (omega arith) a.1))
    | inr lower ↦ ground (arith, lower)
  ]

  records-above : (c b : ℕ) (ms : List R) → Ascending row b ms → records row c ms ≡ above c ms
  records-above c b [] h = refl
  records-above c b (m ∷ ms) h = elim (Bool-cases (ltb c (row.id m))) [
    | inl higher ↦ rw higher (
        ap (◌∷◌ m) (
          records-Ascending (row.id m) ms h.1
          ∙ sym (above-Ascending c (row.id m) ms (ground (arith, higher)) h.1)))
    | inr lower ↦ rw lower (records-above c (row.id m) ms h.1)
  ]

  -- Where the replayed messages of a key have ids that rise strictly from 1 on, and so have its live
  -- messages, the stream sends of that key every replayed message, in order, and then exactly the
  -- live messages with an id above the last replayed one, however the two overlap and whatever
  -- messages of other keys the pages mix in between.
  pub deliver-seamless :
      (k : Bytes) (history : List (List R)) (live : List R)
      → Ascending row 0 (rows_of row k (rows_in history))
      → Ascending row 0 (rows_of row k live)
      → rows_of row k (deliver (metadata_of row) history live)
        ≡ rows_of row k (rows_in history)
          ++ above (mark_after row 0 (rows_of row k (rows_in history))) (rows_of row k live)
  unfolding deliver
  deliver-seamless k history live old fresh =
      let (replayed, marks) = send_batches (metadata_of row) history empty in
      let (after, marks2) = send_to_stream (metadata_of row) live marks in
      let (sent1, mark1) = send_batches-Through row k history empty in
      let (sent2, mark2) = send_to_stream-Through row k live marks in
      let last = mark_after row 0 (rows_of row k (rows_in history)) in
      keep-append (λ m. row.key m == k) replayed after
      ∙ ap₂ (◌++◌) (sent1 ∙ records-Ascending 0 (rows_of row k (rows_in history)) old) (
          sent2
          ∙ ap (λ c. records row c (rows_of row k live)) mark1
          ∙ records-above last 0 (rows_of row k live) fresh)
