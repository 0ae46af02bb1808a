-- ===== src/CatchUp/Scan.antt =====
-- The whole scan: its turns give every topic of the queue what it is due, and end.
use xmtp_node_go.Base.{
  Bool-cases, Bytes, Distinct, Distinct-apart, Distinct-join, Distinct-left, Distinct-right, List,
  Option, [], ap, arith, drop, false, inl, inr, keep-append, length, member, refl, some, subst, suc,
  sym, take, take-append-drop, true, zero, ℕ, ◌++◌, ◌+◌, ◌==◌, ◌∙◌, ◌∷◌, ◌≡◌, ◌≤◌, nat_eq, bytes_eq,
}
use xmtp_node_go.CatchUp.{
  Catchup, CatchUpBatch, RowReader, add_page, done, parse_rows, query_wave_scan, requeue, scan_loop,
}
use xmtp_node_go.CatchUp.Query.{rows_of, Ascending, keys_of, query-absent}
use xmtp_node_go.CatchUp.Turn.{
  due_of, due_of-append, due_of-absent, due-requeue, turn-rows, work, work-append, work-requeue,
  requeue-absent, requeue-Distinct, keys_of-append, query-Serves,
}
use mathlib.Core.Option

abbrev pub rows_in {ℓ} : {A : Type ℓ} → List (List A) → List A
rows_in [] = []
rows_in (t ∷ ts) = t ++ rows_in ts

-- What is forwarded of some turns.
abbrev pub forwarded : {R M : Type 0} → (R → Option M) → List (List R) → List (CatchUpBatch M)
forwarded parse [] = done ∷ []
forwarded parse (t ∷ ts) = add_page (parse_rows parse t) (forwarded parse ts)

module _ {R M : Type 0} (row : RowReader R) (parse : R → Option M) (table : List R)
    (ceiling m n : ℕ) where
  turn_of : List Catchup → List R
  turn_of batch = query_wave_scan row table batch 0 ceiling (suc n)

  next_queue : List Catchup → List Catchup → List Catchup
  next_queue batch queue = queue ++ requeue row (suc n) (turn_of batch) batch

  apart_of :
      (k : Bytes) (batch queue : List Catchup)
      → Distinct (keys_of (batch ++ queue))
      → member k (keys_of batch) ≡ true
      → member k (keys_of queue) ≡ false
  apart_of k batch queue different =
      Distinct-apart k (keys_of batch) (keys_of queue)
        (subst Distinct (keys_of-append batch queue) different)

  batch-Distinct :
      (batch queue : List Catchup) → Distinct (keys_of (batch ++ queue)) → Distinct (keys_of batch)
  batch-Distinct batch queue different =
      Distinct-left (keys_of batch) (keys_of queue)
        (subst Distinct (keys_of-append batch queue) different)

  next-Distinct :
      (batch queue : List Catchup)
      → Distinct (keys_of (batch ++ queue))
      → Distinct (keys_of (next_queue batch queue))
  unfolding next_queue
  next-Distinct batch queue different =
      let again = requeue row (suc n) (turn_of batch) batch in
      subst Distinct (sym (keys_of-append queue again)) (
        Distinct-join (keys_of queue) (keys_of again)
          (Distinct-right (keys_of batch) (keys_of queue)
            (subst Distinct (keys_of-append batch queue) different))
          (requeue-Distinct row table ceiling (suc n) (turn_of batch) batch
            (batch-Distinct batch queue different))
          (λ k waiting. requeue-absent row table ceiling (suc n) (turn_of batch) k batch (
            ground (
              arith,
              waiting,
              apart_of k batch queue different,
              Bool-cases (member k (keys_of batch)),
            ))))

  next-work :
      (batch queue : List Catchup)
      → Ascending row 0 table
      → (ceiling == 0) ≡ false
      → Distinct (keys_of (batch ++ queue))
      → work row table ceiling (next_queue batch queue) + length batch
        ≤ work row table ceiling (batch ++ queue)
  unfolding next_queue turn_of
  next-work batch queue ordered above different = omega (
    arith,
    work-append row table ceiling queue (requeue row (suc n) (turn_of batch) batch),
    work-append row table ceiling batch queue,
    work-requeue row table ceiling n (turn_of batch) batch ordered (
        query-Serves row table ceiling (suc n) [] batch ordered above
          (batch-Distinct batch queue different)),
  )

  next-due :
      (k : Bytes) (batch queue : List Catchup)
      → Ascending row 0 table
      → (ceiling == 0) ≡ false
      → Distinct (keys_of (batch ++ queue))
      → rows_of row k (turn_of batch) ++ due_of row table ceiling k (next_queue batch queue)
        ≡ due_of row table ceiling k (batch ++ queue)
  unfolding next_queue turn_of
  next-due k batch queue ordered above different =
      let alone = batch-Distinct batch queue different in
      let again = requeue row (suc n) (turn_of batch) batch in
      let served = turn-rows row table ceiling (suc n) k batch ordered above alone in
      elim (Bool-cases (member k (keys_of batch))) [
        | inl present ↦
            rw
              (
                served,
                due_of-append row table ceiling k queue again,
                apart_of k batch queue different present,
                due_of-append row table ceiling k batch queue,
                present,
              )
              (due-requeue row table ceiling n (turn_of batch) k batch ordered alone
                (query-Serves row table ceiling (suc n) [] batch ordered above alone))
        | inr absent ↦
            rw
              (
                query-absent row table 0 ceiling (suc n) k batch absent,
                due_of-append row table ceiling k batch queue,
                absent,
                due_of-append row table ceiling k queue again,
              )
              (elim (Bool-cases (member k (keys_of queue))) [
                | inl waiting ↦ rw waiting refl
                | inr nowhere ↦
                    rw (nowhere, due_of-absent row table ceiling k queue nowhere)
                      (due_of-absent row table ceiling k again
                        (requeue-absent row table ceiling (suc n) (turn_of batch) k batch absent))
              ])
      ]

  pub scan_loop-due :
      (fuel : ℕ) (queue : List Catchup)
      → Ascending row 0 table
      → (ceiling == 0) ≡ false
      → Distinct (keys_of queue)
      → work row table ceiling queue ≤ fuel
      → (turns : List (List R)) × (scan_loop row parse table ceiling (suc m) (suc n) fuel queue
          ≡ some (forwarded parse turns))
        × ((k : Bytes) → rows_of row k (rows_in turns) ≡ due_of row table ceiling k queue)
  unfolding scan_loop turn_of next_queue
  scan_loop-due fuel [] ordered above different enough = ([], refl, λ k. refl)
  scan_loop-due zero (f ∷ fs) ordered above different enough = ground (arith, enough)
  scan_loop-due (suc fuel) (f ∷ fs) ordered above different enough =
      let batch = take (suc m) (f ∷ fs) in
      let queue = drop (suc m) (f ∷ fs) in
      let split : batch ++ queue ≡ f ∷ fs = take-append-drop (suc m) (f ∷ fs) in
      let whole = subst (λ fs. Distinct (keys_of fs)) (sym split) different in
      let (turns, run, given) =
        scan_loop-due fuel (next_queue batch queue) ordered above (next-Distinct batch queue whole)
          (omega (
            arith,
            next-work batch queue ordered above whole,
            ap (work row table ceiling) split,
          )) in
      let rows = turn_of batch in
      (
        rows ∷ turns,
        ap (Option.map (add_page (parse_rows parse rows))) run,
        λ k.
            keep-append (λ r. row.key r == k) rows (rows_in turns)
            ∙ ap (λ rest. rows_of row k rows ++ rest) (given k)
            ∙ next-due k batch queue ordered above whole
            ∙ ap (due_of row table ceiling k) split,
      )

module _ {R M : Type 0} (row : RowReader R) (parse : R → Option M) (table : List R)
    (ceiling batch_topics limit : ℕ) where
  pub scan_loop-empty :
      (fuel : ℕ) → scan_loop row parse table ceiling batch_topics limit fuel [] ≡ some (done ∷ [])
  unfolding scan_loop
  scan_loop-empty zero = refl
  scan_loop-empty (suc fuel) = refl
