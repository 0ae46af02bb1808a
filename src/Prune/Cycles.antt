-- ===== src/Prune/Cycles.antt =====
-- The cycles of a pruner, against one deletion of as many rows.
use xmtp_node_go.Base.{
  Bool, Bool-cases, List, ap, arith, inl, inr, ltb, min, suc, sym, zero, ℕ, ◌*◌, ◌+◌, ◌<◌, ◌∙◌, ◌≡◌,
  ◌≤◌,
}
use mathlib.Core.Path.{ap₂}
use native.Mathlib.Nat.{suc-mul, add-mul, one-mul, zero-mul}
use xmtp_node_go.Batches.{
  delete_first, count_of_rows, delete_first-twice, count-delete_first, length-delete_first,
  delete_first-all,
}
use xmtp_node_go.Prune.{Pruner, delete_old, prune_loop}

pub delete_old-count :
    {R : Type 0} (old : R → Bool) (n : ℕ) (rows : List R)
    → delete_old old n rows ≡ (min n (count_of_rows old rows), delete_first old n rows)
unfolding delete_old
delete_old-count old n rows =
    ap (λ k. (k, delete_first old n rows)) (omega (arith, length-delete_first old n rows))

module _ {R : Type 0} (old : R → Bool) (size : ℕ) (pruner : Pruner (List R))
    (deletes : (rows : List R) → pruner.prune_cycle rows ≡ delete_old old size rows)
    (some_size : 1 ≤ size) where
  next_cycle : (left : ℕ) → size + (left + 1) * size ≡ (suc left + 1) * size
  next_cycle left = omega (
    arith,
    suc-mul left size,
    suc-mul (left + 1) size,
    add-mul left 1 size,
    add-mul (suc left) 1 size,
    one-mul size,
  )

  -- A cycle that is not full has deleted every row there was.
  last_cycle :
      (m : ℕ) (rows : List R)
      → count_of_rows old rows < size
      → delete_first old size rows ≡ delete_first old (size + m) rows
  last_cycle m rows few =
      delete_first-all old size rows (omega (arith, few))
      ∙ sym (delete_first-all old (size + m) rows (omega (arith, few)))

  pub prune_loop-at_once :
      (left : ℕ) (rows : List R)
      → prune_loop pruner size left rows ≡ (
        min ((left + 1) * size) (count_of_rows old rows),
        delete_first old ((left + 1) * size) rows,
      )
  unfolding prune_loop
  prune_loop-at_once zero rows =
      deletes rows
      ∙ delete_old-count old size rows
      ∙ ap (λ n. (min n (count_of_rows old rows), delete_first old n rows))
          (omega (arith, one-mul size, add-mul 0 1 size, zero-mul size))
  prune_loop-at_once (suc left) rows =
      let n = count_of_rows old rows in
      let cycle = deletes rows ∙ delete_old-count old size rows in
      let again = prune_loop-at_once left (delete_first old size rows) in
      elim (Bool-cases (ltb (min size n) size)) [
        | inl short ↦
            let few : n < size = ground (arith, short) in
            rw (prune_loop, cycle, short)
              (ap₂ (λ a b. (a, b)) (omega (arith, few, next_cycle left))
                (last_cycle ((left + 1) * size) rows few
                  ∙ ap (λ k. delete_first old k rows) (next_cycle left)))
        | inr full ↦
            rw (prune_loop, cycle, full)
              (rw again (
                ap₂ (λ a b. (a, b))
                  (ground (arith, full, count-delete_first old size rows, next_cycle left))
                  (delete_first-twice old size ((left + 1) * size) rows
                    ∙ ap (λ k. delete_first old k rows) (next_cycle left))))
      ]
