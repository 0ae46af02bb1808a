-- ===== src/CatchUp/Turn.antt =====
-- One turn of a scan: what its rows are, and what the queue is owed before and after it.
use xmtp_node_go.Base.{
  All, Bool-cases, Bytes, Distinct, Distinct-apart, Distinct-right, List, [], ap, arith, eq_iff,
  eq_self, false, if◌then◌else◌, inl, inr, length, length-drop, ltb, member, refl, subst, suc, sym,
  take, take-append-drop, true, zero, ℕ, ◌++◌, ◌+◌, ◌==◌, ◌∙◌, ◌∷◌, ◌≡◌, ◌≤◌, nat_eq, bytes_eq,
}
use xmtp_node_go.CatchUp.{probe, Catchup, RowReader, count_of, requeue, query_wave_scan}
use xmtp_node_go.CatchUp.Query.{rows_of, Ascending, keys_of, query-absent, query-probe}
use xmtp_node_go.CatchUp.Due.{due, due-retired, due-advance, advance-key, full-length}
use mathlib.Core.List.{append-nil, append_assoc}

pub keys_of-append : (xs ys : List Catchup) → keys_of (xs ++ ys) ≡ keys_of xs ++ keys_of ys
keys_of-append [] ys = refl
keys_of-append (x ∷ xs) ys = ap (◌∷◌ x.key) (keys_of-append xs ys)

regroup {ℓ} : {A : Type ℓ} (x : A) (xs ys : List A) → (xs ++ x ∷ []) ++ ys ≡ xs ++ x ∷ ys
regroup x xs ys = append_assoc xs (x ∷ []) ys

take-nil {ℓ} : {A : Type ℓ} (n : ℕ) → take {A = A} n [] ≡ []
take-nil zero = refl
take-nil (suc n) = refl

module _ {R : Type 0} (row : RowReader R) (table : List R) (ceiling : ℕ) where
  -- What a queue is owed under one key.
  abbrev pub due_of : Bytes → List Catchup → List R
  due_of k [] = []
  due_of k (f ∷ fs) = if f.key == k then due row table ceiling f else due_of k fs

  -- A bound on the turns of a queue.
  abbrev pub work : List Catchup → ℕ
  work [] = 0
  work (f ∷ fs) = suc (length (due row table ceiling f)) + work fs

  -- Rows that hold the first rows due to each topic of a batch.
  abbrev pub Serves : ℕ → List R → List Catchup → Type 0
  Serves n rows = All (λ f. rows_of row f.key rows ≡ take n (due row table ceiling f))

  pub due_of-append :
      (k : Bytes) (xs ys : List Catchup)
      → due_of k (xs ++ ys) ≡ (if member k (keys_of xs) then due_of k xs else due_of k ys)
  due_of-append k [] ys = refl
  due_of-append k (x ∷ xs) ys = ground (arith, due_of-append k xs ys)

  pub due_of-absent :
      (k : Bytes) (xs : List Catchup) → member k (keys_of xs) ≡ false → due_of k xs ≡ []
  due_of-absent k [] h = refl
  due_of-absent k (x ∷ xs) h = ground (arith, h, due_of-absent k xs)

  pub work-append : (xs ys : List Catchup) → work (xs ++ ys) ≡ work xs + work ys
  work-append [] ys = omega arith
  work-append (x ∷ xs) ys = omega (arith, work-append xs ys)

  pub requeue-absent :
      (n : ℕ) (rows : List R) (k : Bytes) (batch : List Catchup)
      → member k (keys_of batch) ≡ false
      → member k (keys_of (requeue row n rows batch)) ≡ false
  unfolding requeue
  requeue-absent n rows k [] h = refl
  requeue-absent n rows k (b ∷ batch) h =
      ground (arith, h, advance-key row table ceiling rows b, requeue-absent n rows k batch)

  pub requeue-Distinct :
      (n : ℕ) (rows : List R) (batch : List Catchup)
      → Distinct (keys_of batch)
      → Distinct (keys_of (requeue row n rows batch))
  unfolding requeue
  requeue-Distinct n rows [] h = tt
  requeue-Distinct n rows (b ∷ batch) h = ground (
    arith,
    h,
    advance-key row table ceiling rows b,
    requeue-absent n rows b.key batch h.0,
    requeue-Distinct n rows batch h.1,
  )

  -- The work of a queue falls by a topic a turn.
  pub work-requeue :
      (n : ℕ) (rows : List R) (batch : List Catchup)
      → Ascending row 0 table
      → Serves (suc n) rows batch
      → work (requeue row (suc n) rows batch) + length batch ≤ work batch
  unfolding requeue
  work-requeue n rows [] ordered served = omega arith
  work-requeue n rows (b ∷ batch) ordered served =
      elim (Bool-cases (ltb (count_of row b.key rows) (suc n))) [
        | inl short ↦ rw short (omega (arith, work-requeue n rows batch ordered served.1))
        | inr full ↦
            rw (full, due-advance row table ceiling n rows b ordered served.0 full)
              (omega (
                arith,
                work-requeue n rows batch ordered served.1,
                length-drop (suc n) (due row table ceiling b),
                full-length row table ceiling (suc n) rows b served.0 full,
              ))
      ]

  pub due-requeue :
      (n : ℕ) (rows : List R) (k : Bytes) (batch : List Catchup)
      → Ascending row 0 table
      → Distinct (keys_of batch)
      → Serves (suc n) rows batch
      → take (suc n) (due_of k batch) ++ due_of k (requeue row (suc n) rows batch) ≡ due_of k batch
  unfolding requeue
  due-requeue n rows k [] ordered different served = refl
  due-requeue n rows k (b ∷ batch) ordered different served = elim (Bool-cases (b.key == k)) [
    | inl mine ↦
        let absent : member k (keys_of batch) ≡ false =
          subst (λ j. member j (keys_of batch) ≡ false) ((eq_iff b.key k).0 mine) different.0 in
        let gone =
          due_of-absent k (requeue row (suc n) rows batch)
            (requeue-absent (suc n) rows k batch absent) in
        elim (Bool-cases (ltb (count_of row b.key rows) (suc n))) [
          | inl short ↦
              rw (mine, short, gone)
                (append-nil _ ∙ due-retired row table ceiling (suc n) rows b served.0 short)
          | inr full ↦
              rw
                (
                  mine,
                  full,
                  ap (λ j. j == k) (advance-key row table ceiling rows b) ∙ mine,
                  due-advance row table ceiling n rows b ordered served.0 full,
                )
                (take-append-drop (suc n) (due row table ceiling b))
        ]
    | inr other ↦
        let rest = due-requeue n rows k batch ordered different.1 served.1 in
        elim (Bool-cases (ltb (count_of row b.key rows) (suc n))) [
          | inl short ↦ rw (other, short) rest
          | inr full ↦
              rw (other, full, ap (λ j. j == k) (advance-key row table ceiling rows b) ∙ other) rest
        ]
  ]

  Serves-batch :
      (n : ℕ) (rows : List R) (k : Bytes) (batch : List Catchup)
      → Serves n rows batch
      → member k (keys_of batch) ≡ true
      → rows_of row k rows ≡ take n (due_of k batch)
  Serves-batch n rows k [] served h = ground (arith, h)
  Serves-batch n rows k (b ∷ batch) served h = elim (Bool-cases (b.key == k)) [
    | inl mine ↦ rw mine (
        subst (λ j. rows_of row j rows ≡ take n (due row table ceiling b)) ((eq_iff b.key k).0 mine)
          served.0)
    | inr other ↦ rw other (Serves-batch n rows k batch served.1 (ground (arith, h, other)))
  ]

  -- The merged rows of a turn serve each of its topics.
  pub query-Serves :
      (n : ℕ) (before batch : List Catchup)
      → Ascending row 0 table
      → (ceiling == 0) ≡ false
      → Distinct (keys_of before ++ keys_of batch)
      → Serves n (query_wave_scan row table (before ++ batch) 0 ceiling n) batch
  unfolding probe
  query-Serves n before [] ordered above different = tt
  query-Serves n before (b ∷ batch) ordered above different =
      let alone : member b.key (keys_of before) ≡ false =
        elim (Bool-cases (member b.key (keys_of before))) [
          | inl twice ↦ ground (
            arith,
            Distinct-apart b.key (keys_of before) (b.key ∷ keys_of batch) different twice,
            eq_self b.key,
          )
          | inr once ↦ once
        ] in
      (
        query-probe row table 0 ceiling n b before batch ordered above alone
            (Distinct-right (keys_of before) (b.key ∷ keys_of batch) different).0,
        subst (λ fs. Serves n (query_wave_scan row table fs 0 ceiling n) batch)
            (regroup b before batch)
            (query-Serves n (before ++ b ∷ []) batch ordered above (
              subst Distinct
                (sym (
                  ap (λ ks. ks ++ keys_of batch) (keys_of-append before (b ∷ []))
                  ∙ regroup b.key (keys_of before) (keys_of batch)))
                different)),
      )

  -- The rows of a key in a turn: the first that are due to it, or none.
  pub turn-rows :
      (n : ℕ) (k : Bytes) (batch : List Catchup)
      → Ascending row 0 table
      → (ceiling == 0) ≡ false
      → Distinct (keys_of batch)
      → rows_of row k (query_wave_scan row table batch 0 ceiling n) ≡ take n (due_of k batch)
  turn-rows n k batch ordered above different = elim (Bool-cases (member k (keys_of batch))) [
    | inl present ↦
        Serves-batch n _ k batch (query-Serves n [] batch ordered above different) present
    | inr absent ↦
        query-absent row table 0 ceiling n k batch absent
        ∙ rw (due_of-absent k batch absent) (sym (take-nil n))
  ]
