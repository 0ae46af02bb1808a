-- ===== src/Backfill/Cycles.antt =====
-- The cycles of IsCommitBackfiller.Run.
use xmtp_node_go.Base.{
  All, Bool, Bool-cases, Bytes, List, Option, Result, [], ap, arith, eq_self, false, if◌then◌else◌,
  inl, inr, keep, keep-All, length, map, ok, refl, some, suc, take, take-All, zero, ℕ, ◌*◌, ◌-◌,
  ◌==◌, ◌∙◌, ◌∷◌, ◌≡◌, ◌≢◌, ◌≤◌, nat_eq, bytes_eq,
}
use xmtp_node_go.Backfill.{
  BackfillGroupMessage, BackfillRow, is_unset, update_all, update_is_commit_status,
  GroupMessageValidation, max_payload_size, is_commit_cycle, is_commit_cycles, select_envelopes,
  run_in_tx, classify_rows,
}
use xmtp_node_go.Backfill.Classify.{classified, Answers, FitsAlone, classify_messages-each}

-- No two rows have the same id.
abbrev pub DistinctIds : List BackfillRow → Type 0
DistinctIds [] = Unit
DistinctIds (r ∷ t) = All (λ x. r.id ≢ x.id) t × DistinctIds t

-- The row as a message to classify.
abbrev converted : BackfillRow → BackfillGroupMessage
converted r = record { id = r.id; message = r.payload; is_commit = false }

run_in_tx-ok :
    {T E : Type 0} (fn : T → Result E T) (t : T) {after : T}
    → fn t ≡ ok after
    → run_in_tx fn t ≡ (ok tt, after)
unfolding run_in_tx
run_in_tx-ok fn t done = rw (run_in_tx, done) refl

update-absent :
    (i : ℕ) (c : Bool) (t : List BackfillRow)
    → All (λ r. i ≢ r.id) t
    → update_is_commit_status i c t ≡ t
unfolding update_is_commit_status
update-absent i c [] h = refl
update-absent i c (r ∷ t) h =
    let other : (r.id == i) ≡ false = ground (arith, h.0) in
    rw other (ap (λ xs. r ∷ xs) (update-absent i c t h.1))

update_all-cons :
    (ms : List BackfillGroupMessage) (x : BackfillRow) (t : List BackfillRow)
    → All (λ m. x.id ≢ m.id) ms
    → update_all ms (x ∷ t) ≡ x ∷ update_all ms t
unfolding update_all update_is_commit_status
update_all-cons [] x t h = refl
update_all-cons (m ∷ ms) x t h =
    let other : (x.id == m.id) ≡ false = ground (arith, h.0) in
    rw other (update_all-cons ms x (update_is_commit_status m.id m.is_commit t) h.1)

module _ (verdict : Bytes → Bool) where
  -- The row with its verdict, if it had none.
  abbrev pub filled : BackfillRow → BackfillRow
  filled r = if is_unset r then record r { is_commit = some (verdict r.payload) } else r

  -- The first so many rows without a verdict get theirs.
  fill_first : ℕ → List BackfillRow → List BackfillRow
  unfolding is_unset
  fill_first zero t = t
  fill_first (suc k) [] = []
  fill_first (suc k) (r ∷ t) =
      let one_less = fill_first k t in
      let same = fill_first (suc k) t in if is_unset r then filled r ∷ one_less else r ∷ same

  abbrev sent : ℕ → List BackfillRow → List BackfillGroupMessage
  sent k t = map (classified verdict) (map converted (take k (keep is_unset t)))

  All-sent :
      (P : ℕ → Type 0) (t : List BackfillRow)
      → All (λ r. P r.id) t
      → All (λ m. P m.id) (map (classified verdict) (map converted t))
  All-sent P [] h = tt
  All-sent P (r ∷ t) h = (h.0, All-sent P t h.1)

  sent-All :
      (P : ℕ → Type 0) (k : ℕ) (t : List BackfillRow)
      → All (λ r. P r.id) t
      → All (λ m. P m.id) (sent k t)
  sent-All P k t h =
      All-sent P (take k (keep is_unset t)) (take-All _ k _ (keep-All _ is_unset t h))

  update_all-first :
      (k : ℕ) (t : List BackfillRow) → DistinctIds t → update_all (sent k t) t ≡ fill_first k t
  unfolding update_all fill_first
  update_all-first zero t apart = refl
  update_all-first (suc k) [] apart = refl
  update_all-first (suc k) (r ∷ t) apart = elim (Bool-cases (is_unset r)) [
    | inl unset ↦
        let done = record r { is_commit = some (verdict r.payload) } in
        rw (unset, eq_self r.id)
          (ap (λ xs. update_all (sent k t) (done ∷ xs))
              (update-absent r.id (verdict r.payload) t apart.0)
            ∙ update_all-cons (sent k t) done t (sent-All (λ i. r.id ≢ i) k t apart.0)
            ∙ ap (λ xs. done ∷ xs) (update_all-first k t apart.1))
    | inr has ↦ rw has (
        update_all-cons (sent (suc k) t) r t (sent-All (λ i. r.id ≢ i) (suc k) t apart.0)
        ∙ ap (λ xs. r ∷ xs) (update_all-first (suc k) t apart.1))
  ]

  fill_first-All :
      (Q : ℕ → Bytes → Type 0) (k : ℕ) (t : List BackfillRow)
      → All (λ r. Q r.id r.payload) t
      → All (λ r. Q r.id r.payload) (fill_first k t)
  unfolding fill_first
  fill_first-All Q zero t h = h
  fill_first-All Q (suc k) [] h = tt
  fill_first-All Q (suc k) (r ∷ t) h = elim (Bool-cases (is_unset r)) [
    | inl unset ↦ rw unset (h.0, fill_first-All Q k t h.1)
    | inr has ↦ rw has (h.0, fill_first-All Q (suc k) t h.1)
  ]

  fill_first-DistinctIds :
      (k : ℕ) (t : List BackfillRow) → DistinctIds t → DistinctIds (fill_first k t)
  unfolding fill_first
  fill_first-DistinctIds zero t h = h
  fill_first-DistinctIds (suc k) [] h = tt
  fill_first-DistinctIds (suc k) (r ∷ t) h = elim (Bool-cases (is_unset r)) [
    | inl unset ↦
        rw unset (fill_first-All (λ i p. r.id ≢ i) k t h.0, fill_first-DistinctIds k t h.1)
    | inr has ↦
        rw has
          (fill_first-All (λ i p. r.id ≢ i) (suc k) t h.0, fill_first-DistinctIds (suc k) t h.1)
  ]

  fill_first-rest :
      (k : ℕ) (t : List BackfillRow)
      → length (keep is_unset (fill_first k t)) ≡ length (keep is_unset t) - k
  unfolding fill_first is_unset
  fill_first-rest zero t = omega arith
  fill_first-rest (suc k) [] = omega arith
  fill_first-rest (suc k) (r ∷ t) = elim (Bool-cases (is_unset r)) [
    | inl unset ↦ rw unset (omega (arith, fill_first-rest k t))
    | inr has ↦ rw (has, has) (omega (arith, fill_first-rest (suc k) t))
  ]

  fill_first-filled : (k : ℕ) (t : List BackfillRow) → map filled (fill_first k t) ≡ map filled t
  unfolding fill_first is_unset
  fill_first-filled zero t = refl
  fill_first-filled (suc k) [] = refl
  fill_first-filled (suc k) (r ∷ t) = elim (Bool-cases (is_unset r)) [
    | inl unset ↦
        rw unset (
          ap (λ xs. record r { is_commit = some (verdict r.payload) } ∷ xs) (fill_first-filled k t))
    | inr has ↦ rw (has, has) (ap (λ xs. r ∷ xs) (fill_first-filled (suc k) t))
  ]

  filled-done : (t : List BackfillRow) → length (keep is_unset t) ≡ 0 → t ≡ map filled t
  filled-done [] h = refl
  filled-done (r ∷ t) h = elim (Bool-cases (is_unset r)) [
    | inl unset ↦ ground (arith, h, unset)
    | inr has ↦ rw has (ap (λ xs. r ∷ xs) (filled-done t (ground (arith, h, has))))
  ]

  sent-Fits :
      (size : Bytes → ℕ) (t : List BackfillRow)
      → All (λ r. size r.payload ≤ max_payload_size) t
      → All (FitsAlone size) (map converted t)
  sent-Fits size [] h = tt
  sent-Fits size (r ∷ t) h = (h.0, sent-Fits size t h.1)

  module _ (size : Bytes → ℕ)
      (validate_group_messages : List Bytes → Option (List GroupMessageValidation))
      (answers : Answers size validate_group_messages verdict) where
    classify_rows-sent :
        (t : List BackfillRow) (ms : List BackfillGroupMessage)
        → All (FitsAlone size) ms
        → classify_rows size validate_group_messages t ms
          ≡ ok (update_all (map (classified verdict) ms) t)
    unfolding classify_rows update_all
    classify_rows-sent t [] fit = refl
    classify_rows-sent t (m ∷ ms) fit =
        let some_left : (suc (length ms) == 0) ≡ false = ground arith in
        rw
          (
            some_left,
            classify_messages-each size validate_group_messages verdict answers (m ∷ ms) fit,
          )
          refl

    cycle-first :
        (t : List BackfillRow)
        → DistinctIds t
        → All (λ r. size r.payload ≤ max_payload_size) t
        → (is_commit_cycle size validate_group_messages t).1 ≡ fill_first 100 t
    unfolding is_commit_cycle select_envelopes
    cycle-first t apart fit =
        ap (λ r. r.1)
          (run_in_tx-ok
            (λ table.
              classify_rows size validate_group_messages table
                (map converted (take 100 (keep is_unset table))))
            t
            (classify_rows-sent t (map converted (take 100 (keep is_unset t))) (
              sent-Fits size (take 100 (keep is_unset t))
                (take-All _ 100 _ (keep-All _ is_unset t fit)))))
        ∙ update_all-first 100 t apart

    -- Let the service answer every request of at most 4 MiB with one verdict for each message in
    -- order, no row be larger than that, and no two rows have the same id. Then each cycle of the
    -- backfill takes a hundred rows: after enough cycles for the rows that have no is_commit, each of
    -- them has its verdict, and no other row has changed.
    pub is_commit_cycles-filled :
        (n : ℕ) (table : List BackfillRow)
        → DistinctIds table
        → All (λ r. size r.payload ≤ max_payload_size) table
        → length (keep is_unset table) ≤ n * 100
        → is_commit_cycles size validate_group_messages n table ≡ map filled table
    unfolding is_commit_cycles
    is_commit_cycles-filled zero t apart fit enough = filled-done t (omega (arith, enough))
    is_commit_cycles-filled (suc n) t apart fit enough =
        ap (is_commit_cycles size validate_group_messages n) (cycle-first t apart fit)
        ∙ is_commit_cycles-filled n (fill_first 100 t) (fill_first-DistinctIds 100 t apart)
            (fill_first-All (λ i p. size p ≤ max_payload_size) 100 t fit)
            (omega (arith, enough, fill_first-rest 100 t))
        ∙ fill_first-filled 100 t
