-- ===== src/Backfill/Classify.antt =====
-- The batches of classifyMessages.
use xmtp_node_go.Base.{
  All, Bool, Bool-cases, Bytes, List, Option, [], ap, arith, false, inl, inr, length, ltb, map, ok,
  refl, some, suc, true, ℕ, ◌++◌, ◌+◌, ◌∷◌, ◌≡◌, ◌≤◌,
}
use mathlib.Core.List.{append_assoc, append-nil, map-append}
use xmtp_node_go.MlsService.{GroupMessageValidation}
use xmtp_node_go.Backfill.{
  BackfillGroupMessage, classify_message_batch, max_payload_size, set_results, classify_loop,
  classify_messages,
}

-- The size of a request.
abbrev pub total_size : (Bytes → ℕ) → List Bytes → ℕ
total_size size [] = 0
total_size size (b ∷ bs) = size b + total_size size bs

-- A message that a request has room for by itself.
abbrev pub FitsAlone : (Bytes → ℕ) → BackfillGroupMessage → Type 0
FitsAlone size m = size m.message ≤ max_payload_size

-- A message with its verdict.
abbrev pub classified : (Bytes → Bool) → BackfillGroupMessage → BackfillGroupMessage
classified verdict m = record m { is_commit = verdict m.message }

module _ (size : Bytes → ℕ)
    (validate_group_messages : List Bytes → Option (List GroupMessageValidation))
    (verdict : Bytes → Bool) where
  -- The service answers a request of at most 4 MiB, one verdict for each message, in order.
  abbrev pub Answers : Type 0
  Answers =
      (batch : List Bytes)
      → total_size size batch ≤ max_payload_size
      → (results : List GroupMessageValidation) × (validate_group_messages batch ≡ some results)
        × (map (λ r. r.is_commit) results ≡ map verdict batch)

  set_results-classified :
      (ms : List BackfillGroupMessage) (rs : List GroupMessageValidation)
      → map (λ r. r.is_commit) rs ≡ map verdict (map (λ m. m.message) ms)
      → (length rs ≡ length ms) × (set_results ms rs ≡ map (classified verdict) ms)
  unfolding set_results
  set_results-classified [] [] e = (refl, refl)
  set_results-classified [] (r ∷ rs) e = ground (arith, ap length e)
  set_results-classified (m ∷ ms) [] e = ground (arith, ap length e)
  set_results-classified (m ∷ ms) (r ∷ rs) e =
      let (long, set) = set_results-classified ms rs (cc e) in (omega (arith, long), cc (e, set))

  batch-classified :
      (answers : Answers) (ms : List BackfillGroupMessage)
      → total_size size (map (λ m. m.message) ms) ≤ max_payload_size
      → classify_message_batch size validate_group_messages ms ≡ ok (map (classified verdict) ms)
  unfolding classify_message_batch
  batch-classified answers ms small =
      let (results, said, same) = answers (map (λ m. m.message) ms) small in
      let (long, set) = set_results-classified ms results same in
      rw (classify_message_batch, said, long) (ground (arith, set))

  total-snoc :
      (ms : List BackfillGroupMessage) (m : BackfillGroupMessage)
      → total_size size (map (λ m. m.message) (ms ++ m ∷ []))
        ≡ total_size size (map (λ m. m.message) ms) + size m.message
  total-snoc [] m = omega arith
  total-snoc (c ∷ cs) m = omega (arith, total-snoc cs m)

  loop-classified :
      (answers : Answers) (ms current : List BackfillGroupMessage) (n : ℕ)
      → n ≡ total_size size (map (λ m. m.message) current)
      → n ≤ max_payload_size
      → All (FitsAlone size) ms
      → classify_loop size validate_group_messages ms current n
        ≡ ok (map (classified verdict) (current ++ ms))
  unfolding classify_loop
  loop-classified answers [] [] n e small fit = ground arith
  loop-classified answers [] (c ∷ cs) n e small fit =
      let more : ltb 0 (suc (length cs)) ≡ true = ground arith in
      rw (append-nil cs, more, batch-classified answers (c ∷ cs) (omega (arith, e, small))) refl
  loop-classified answers (m ∷ ms) current n e small fit =
      let alone : ltb max_payload_size (size m.message) ≡ false = ground (arith, fit.0) in
      let batch = batch-classified answers current (omega (arith, e, small)) in
      let on_its_own =
        loop-classified answers ms (m ∷ []) (size m.message) (omega arith) fit.0 fit.1 in
      elim (Bool-cases (ltb max_payload_size (n + size m.message))) [
        | inl over ↦
            rw (alone, over, batch, on_its_own, map-append (classified verdict) current (m ∷ ms))
              refl
        | inr fits ↦
            let in_batch =
              loop-classified answers ms (current ++ m ∷ []) (n + size m.message)
                (omega (arith, e, total-snoc current m)) (ground (arith, fits)) fit.1 in
            rw (alone, fits, in_batch, append_assoc current (m ∷ []) ms) refl
      ]

  -- If the service answers every request of at most 4 MiB, with one verdict for each message in order,
  -- and no message is larger than that by itself, every message gets its own verdict and keeps its
  -- place: no larger request is sent.
  pub classify_messages-each :
      (answers : Answers) (messages : List BackfillGroupMessage)
      → All (FitsAlone size) messages
      → classify_messages size validate_group_messages messages
        ≡ ok (map (classified verdict) messages)
  unfolding classify_messages
  classify_messages-each answers messages fit =
      loop-classified answers messages [] 0 (omega arith) (omega arith) fit
