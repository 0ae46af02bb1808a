-- ===== src/CatchUp/Wave.antt =====
-- The catch-up of a wave: pruned under the ceiling, it gives every topic what it is due, and ends.
use xmtp_node_go.Base.{
  Bool, Bool-cases, Bytes, Distinct, List, Option, [], ap, arith, eq_iff, false, inl, inr, keep,
  member, none, refl, some, subst, suc, sym, ℕ, ◌-◌, ◌==◌, ◌∙◌, ◌∷◌, ◌≡◌, ◌≤◌, nat_eq, bytes_eq,
}
use xmtp_node_go.CatchUp.{
  Catchup, RowReader, at_least_one, below_ceiling, catch_up, pinned_ceiling, scan_loop,
}
use xmtp_node_go.CatchUp.Query.{rows_of, Ascending, keys_of}
use xmtp_node_go.CatchUp.Turn.{due_of, work}
use xmtp_node_go.CatchUp.Scan.{rows_in, forwarded, scan_loop-due, scan_loop-empty}

keep-absent :
    (p : Catchup → Bool) (k : Bytes) (adds : List Catchup)
    → member k (keys_of adds) ≡ false
    → member k (keys_of (keep p adds)) ≡ false
keep-absent p k [] h = refl
keep-absent p k (a ∷ adds) h = ground (arith, h, keep-absent p k adds)

keep_keys-Distinct :
    (p : Catchup → Bool) (adds : List Catchup)
    → Distinct (keys_of adds)
    → Distinct (keys_of (keep p adds))
keep_keys-Distinct p [] h = tt
keep_keys-Distinct p (a ∷ adds) h =
    ground (arith, h, keep-absent p a.key adds h.0, keep_keys-Distinct p adds h.1)

none_below : (adds : List Catchup) → below_ceiling 0 adds ≡ []
unfolding below_ceiling
none_below [] = refl
none_below (a ∷ adds) = ground (arith, none_below adds)

at_least_one-suc : (n : ℕ) → at_least_one n ≡ suc (n - 1)
unfolding at_least_one
at_least_one-suc n = ground arith

pinned-positive :
    (c : ℕ) (refreshed : Option ℕ) (queue : List Catchup)
    → (c == 0) ≡ false
    → (pinned_ceiling c refreshed queue == 0) ≡ false
unfolding pinned_ceiling
pinned-positive c none queue h = ground arith
pinned-positive c (some d) queue h = ground arith

module _ {R M : Type 0} (row : RowReader R) (parse : R → Option M) where
  -- With a table in the order of ids and no topic twice in the wave, the catch-up ends, on fuel of a
  -- unit for each topic it scans and each row it is due: it forwards the parsed rows of some turns
  -- and then its done marker. The turns hold, under each key, exactly the rows of the key above its
  -- cursor and up to the pinned ceiling, in order, if the cursor is below the first snapshot of the
  -- ceiling, and none otherwise.
  pub catch_up-due :
      (table : List R) (ceiling : ℕ) (refreshed : Option ℕ) (batch_topics limit fuel : ℕ)
      (adds : List Catchup)
      → Ascending row 0 table
      → Distinct (keys_of adds)
      → work row table
          (pinned_ceiling ceiling refreshed (below_ceiling ceiling adds))
          (below_ceiling ceiling adds)
        ≤ fuel
      → (turns : List (List R)) × (catch_up row parse table ceiling refreshed batch_topics limit
            fuel adds
          ≡ some (forwarded parse turns))
        × ((k : Bytes)
            → rows_of row k (rows_in turns)
              ≡ due_of row table
                  (pinned_ceiling ceiling refreshed (below_ceiling ceiling adds))
                  k
                  (below_ceiling ceiling adds))
  unfolding catch_up
  catch_up-due table ceiling refreshed batch_topics limit fuel adds ordered different enough =
      let queue = below_ceiling ceiling adds in
      let top = pinned_ceiling ceiling refreshed queue in
      elim (Bool-cases (ceiling == 0)) [
        | inl nothing ↦
            let empty : queue ≡ [] =
              subst (λ c. below_ceiling c adds ≡ []) (sym ((eq_iff ceiling 0).0 nothing))
                (none_below adds) in
            let ended =
              scan_loop row parse table top (at_least_one batch_topics) (at_least_one limit) fuel in
            (
              [],
              ap ended empty
                  ∙ scan_loop-empty row parse table top (at_least_one batch_topics)
                      (at_least_one limit) fuel,
              λ k. sym (ap (due_of row table top k) empty),
            )
        | inr something ↦
            rw (at_least_one-suc batch_topics, at_least_one-suc limit)
              (scan_loop-due row parse table top (batch_topics - 1) (limit - 1) fuel queue ordered
                (pinned-positive ceiling refreshed queue something)
                (unfold below_ceiling in keep_keys-Distinct _ adds different) enough)
      ]
