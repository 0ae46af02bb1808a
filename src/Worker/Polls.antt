-- ===== src/Worker/Polls.antt =====
-- The rows that the worker hands over, in any interleaving of its ticks with the calls of others and
-- with new rows becoming visible above those seen.
use xmtp_node_go.Base.{
  All-append, List, Option, Option-cases, [], ap, arith, inl, inr, keep-append, length, ltb, none,
  refl, some, subst, sym, true, ℕ, ◌++◌, ◌<◌, ◌∙◌, ◌∷◌, ◌≡◌, ◌≢◌, ◌≤◌, ◌⊎◌,
}
use xmtp_node_go.CatchUp.{RowReader}
use xmtp_node_go.CatchUp.Query.{Ascending}
use xmtp_node_go.ReadStore.Pages.{InRange}
use xmtp_node_go.Subscriptions.{Envelope, SubscriptionDispatcher, handle_envelope}
use xmtp_node_go.Subscriptions.Invariant.{Reach, Step, handle_envelope_total}
use xmtp_node_go.Worker.Cursor.{
  after, after-all, latest-append, page-below, page-last, page-rest, Ascending-append,
}
use xmtp_node_go.Worker.{
  Made, skipped, failed, made, get_all_with_cursor, hand_over, poll, latest_id, last_id, numrows,
}
use mathlib.Core.Option.{some_inj}
use mathlib.Core.List.{append_assoc}

-- The envelopes of some rows.
abbrev pub envelopes : {R : Type 0} → (R → Made) → List R → List Envelope
envelopes make [] = []
envelopes make (r ∷ rows) = elim (make r) [
  | skipped ↦ envelopes make rows
  | failed ↦ envelopes make rows
  | made env ↦ env ∷ envelopes make rows
]

-- The dispatcher after some envelopes, one by one.
abbrev pub dispatch_all : List Envelope → SubscriptionDispatcher → Option SubscriptionDispatcher
dispatch_all [] d = some d
dispatch_all (env ∷ envs) d = elim (handle_envelope (some env) d) [
  | none ↦ none
  | some d' ↦ dispatch_all envs d'
]

-- The calls of others on the dispatcher, each as the dispatcher before and after it.
abbrev pub Calls : Type 0
Calls = List (SubscriptionDispatcher × SubscriptionDispatcher)

-- From one dispatcher to another by the calls of others, in their order, and by sending envelopes,
-- in their order, and by nothing else.
pub data Trace (d0 : SubscriptionDispatcher)
    : Calls → List Envelope → SubscriptionDispatcher → Type 0 where
  idle : Trace d0 [] [] d0
  called :
      {calls : Calls} {sent : List Envelope} {d d' : SubscriptionDispatcher}
      → Trace d0 calls sent d
      → Step d d'
      → Trace d0 (calls ++ (d, d') ∷ []) sent d'
  sends :
      {calls : Calls} {sent : List Envelope} {d d' : SubscriptionDispatcher}
      → Trace d0 calls sent d
      → (env : Envelope) → handle_envelope (some env) d ≡ some d'
      → Trace d0 calls (sent ++ env ∷ []) d'

-- Marshalling does not fail.
abbrev pub Marshals : {R : Type 0} → (R → Made) → Type 0
Marshals {R} make = (r : R) → make r ≢ failed

Made-cases : (o : Made) → (o ≡ skipped) ⊎ ((o ≡ failed) ⊎ ((env : Envelope) × (o ≡ made env)))
Made-cases skipped = inl refl
Made-cases failed = inr (inl refl)
Made-cases (made env) = inr (inr (env, refl))

append_nil : (es : List Envelope) → es ++ [] ≡ es
append_nil [] = refl
append_nil (e ∷ es) = ap (λ rest. e ∷ rest) (append_nil es)

dispatch_all-Trace :
    {d0 : SubscriptionDispatcher} {calls : Calls} (envs : List Envelope) {sent : List Envelope}
    {d d' : SubscriptionDispatcher}
    → Trace d0 calls sent d
    → dispatch_all envs d ≡ some d'
    → Trace d0 calls (sent ++ envs) d'
dispatch_all-Trace {d0} {calls} [] {sent} {d} {d'} trace same =
    subst (λ s. Trace d0 calls s d') (sym (append_nil sent))
      (subst (λ e. Trace d0 calls sent e) (some_inj.0 same) trace)
dispatch_all-Trace {d0} {calls} (env ∷ envs) {sent} {d} {d'} trace same =
    elim (Option-cases (handle_envelope (some env) d)) [
      | inl panics ↦
          let stopped : dispatch_all (env ∷ envs) d ≡ none = rw (dispatch_all, panics) refl in
          absurd (cc (stopped, same))
      | inr (d1, step) ↦
          subst (λ s. Trace d0 calls s d') (append_assoc sent (env ∷ []) envs)
            (dispatch_all-Trace envs (Trace.sends trace env step)
              (sym (rw (dispatch_all, step) refl) ∙ same))
    ]

envelopes-append :
    {R : Type 0} (make : R → Made) (rows more : List R)
    → envelopes make (rows ++ more) ≡ envelopes make rows ++ envelopes make more
envelopes-append make [] more = refl
envelopes-append make (r ∷ rows) more = elim (Made-cases (make r)) [
  | inl skip ↦ rw (envelopes, skip) (envelopes-append make rows more)
  | inr (inl fail) ↦ rw (envelopes, fail) (envelopes-append make rows more)
  | inr (inr (env, good)) ↦
      rw (envelopes, good) (ap (λ es. env ∷ es) (envelopes-append make rows more))
]

module _ {R : Type 0} (row : RowReader R) (make : R → Made) where
  -- Where nothing fails, the rows are dispatched one by one and the dispatcher does not panic.
  pub hand_over-all :
      (rows : List R) (d : SubscriptionDispatcher)
      → Marshals make
      → Reach d
      → (d' : SubscriptionDispatcher) × (hand_over make rows d ≡ some (d', true))
        × (dispatch_all (envelopes make rows) d ≡ some d')
        × Reach d'
  unfolding hand_over
  hand_over-all [] d marshals reached = (d, refl, refl, reached)
  hand_over-all (r ∷ rows) d marshals reached = elim (Made-cases (make r)) [
    | inl skip ↦ rw (hand_over, envelopes, skip) (hand_over-all rows d marshals reached)
    | inr (inl fail) ↦ absurd (marshals r fail)
    | inr (inr (env, good)) ↦
        let (d1, step) = handle_envelope_total reached (some env) in
        rw (hand_over, envelopes, good, dispatch_all, step)
          (hand_over-all rows d1 marshals (Reach.next reached (Step.handles (some env) step)))
  ]

  -- Rows that lie above those of a table.
  abbrev pub Follows : List R → List R → Type 0
  Follows table more = Ascending row (latest_id row table) more

  -- A history: the table as the worker sees it, the calls of others, its cursor and the dispatcher.
  pub data Run (start : ℕ) (d0 : SubscriptionDispatcher)
      : List R → Calls → ℕ → SubscriptionDispatcher → Type 0 where
    starts :
        {table : List R}
        → start ≡ latest_id row table
        → Ascending row 0 table
        → InRange row table
        → Reach d0
        → Run start d0 table [] start d0
    grows :
        {table : List R} {calls : Calls} {c : ℕ} {d : SubscriptionDispatcher}
        → Run start d0 table calls c d
        → (more : List R) → Follows table more
        → InRange row more
        → Run start d0 (table ++ more) calls c d
    others :
        {table : List R} {calls : Calls} {c : ℕ} {d d' : SubscriptionDispatcher}
        → Run start d0 table calls c d
        → Step d d'
        → Run start d0 table (calls ++ (d, d') ∷ []) c d'
    ticks :
        {table : List R} {calls : Calls} {c c' : ℕ} {d d' : SubscriptionDispatcher}
        → Run start d0 table calls c d
        → poll row make table c d ≡ some (c', d')
        → Run start d0 table calls c' d'

  record Kept (start : ℕ) (d0 : SubscriptionDispatcher) (table : List R) (calls : Calls) (c : ℕ)
      (d : SubscriptionDispatcher) : Type 0 where
    ordered : Ascending row 0 table
    fits : InRange row table
    behind : c ≤ latest_id row table
    begun : start ≤ latest_id row table
    handed : List R
    rows : handed ++ after row table c ≡ after row table start
    trace : Trace d0 calls (envelopes make handed) d
    reached : Reach d

  grows-Kept :
      (start : ℕ) (d0 : SubscriptionDispatcher) (table more : List R) (calls : Calls) (c : ℕ)
      (d : SubscriptionDispatcher)
      → Follows table more
      → InRange row more
      → Kept start d0 table calls c d
      → Kept start d0 (table ++ more) calls c d
  unfolding latest_id
  grows-Kept start d0 table more calls c d follows fits k =
      let on_top = latest-append row table more follows in
      let split : (b : ℕ)
          → b ≤ latest_id row table
          → after row (table ++ more) b ≡ after row table b ++ more =
        λ b low.
          keep-append (λ m. ltb b (row.id m)) table more
          ∙ ap (λ added. after row table b ++ added)
              (after-all row b (latest_id row table) more low follows) in
      record {
        ordered = Ascending-append row 0 table more k.ordered follows;
        fits = All-append _ table more k.fits fits;
        behind = omega (arith, on_top, k.behind);
        begun = omega (arith, on_top, k.begun);
        rows =
            rw (split c k.behind, split start k.begun)
              (sym (append_assoc k.handed (after row table c) more)
                ∙ ap (λ seen. seen ++ more) k.rows);
        handed = k.handed;
        trace = k.trace;
        reached = k.reached;
      }

  ticks-Kept :
      (start : ℕ) (d0 : SubscriptionDispatcher) (table : List R) (calls : Calls) (c c' : ℕ)
      (d d' : SubscriptionDispatcher)
      → Marshals make
      → poll row make table c d ≡ some (c', d')
      → Kept start d0 table calls c d
      → Kept start d0 table calls c' d'
  unfolding poll
  ticks-Kept start d0 table calls c c' d d' marshals ticked k =
      let page = get_all_with_cursor row table c in
      let (d1, handed, each, reached) = hand_over-all page d marshals k.reached in
      let now : poll row make table c d ≡ some (last_id row page c, d1) = rw (poll, handed) refl in
      let moved = some_inj.0 (sym now ∙ ticked) in
      let cursor : last_id row page c ≡ c' = ap (λ s. s.0) moved in
      record {
        ordered = k.ordered;
        fits = k.fits;
        behind =
            subst (λ b. b ≤ latest_id row table) cursor (page-below row table c k.ordered k.behind);
        begun = k.begun;
        handed = k.handed ++ page;
        trace =
            subst (λ es. Trace d0 calls es d') (sym (envelopes-append make k.handed page))
              (dispatch_all-Trace (envelopes make page) k.trace
                (each ∙ ap (λ s. some (s.1)) moved));
        rows =
            append_assoc k.handed page (after row table c')
            ∙ ap (λ others. k.handed ++ others)
                (ap (λ b. page ++ after row table b) (sym cursor)
                  ∙ page-rest row table c k.ordered k.fits)
            ∙ k.rows;
        reached = subst Reach (ap (λ s. s.1) moved) reached;
      }

  Run-Kept :
      {start : ℕ} {d0 : SubscriptionDispatcher} {c : ℕ} {table : List R} {calls : Calls}
      {d : SubscriptionDispatcher}
      → Marshals make
      → Run start d0 table calls c d
      → Kept start d0 table calls c d
  Run-Kept {start} marshals (starts {table} latest ordered fits reached) = record {
    ordered = ordered;
    fits = fits;
    behind = omega (arith, latest);
    begun = omega (arith, latest);
    handed = [];
    rows = refl;
    trace = Trace.idle;
    reached = reached;
  }
  Run-Kept {start} {d0} marshals (grows {table} {calls} {c} {d} run more follows fits) =
      grows-Kept start d0 table more calls c d follows fits (Run-Kept marshals run)
  Run-Kept {start} marshals (others {table} {calls} {c} {d} {d'} run step) =
      let k = Run-Kept marshals run in
      record {
        ordered = k.ordered;
        fits = k.fits;
        behind = k.behind;
        begun = k.begun;
        handed = k.handed;
        rows = k.rows;
        trace = Trace.called k.trace step;
        reached = Reach.next k.reached step;
      }
  Run-Kept {start} {d0} marshals (ticks {table} {calls} {c} {c'} {d} {d'} run ticked) =
      ticks-Kept start d0 table calls c c' d d' marshals ticked (Run-Kept marshals run)

  -- If marshalling does not fail and rows become visible in the order of their ids, then however the
  -- ticks of the worker interleave with new rows and with the calls of others on the dispatcher: the
  -- dispatcher came about by those calls and by sending a list of envelopes, and this list, and
  -- after it the envelopes of the rows above the cursor, are exactly the envelopes of the rows above
  -- the starting point, each once and in order. A row of unknown type has no envelope.
  pub ticks-exact :
      {start c : ℕ} {table : List R} {calls : Calls} {d0 d : SubscriptionDispatcher}
      → Marshals make
      → Run start d0 table calls c d
      → (sent : List Envelope) × Trace d0 calls sent d
        × (sent ++ envelopes make (after row table c) ≡ envelopes make (after row table start))
  ticks-exact {start} {c} {table} marshals run =
      let k = Run-Kept marshals run in
      (
        envelopes make k.handed,
        k.trace,
        sym (envelopes-append make k.handed (after row table c)) ∙ ap (envelopes make) k.rows,
      )

  -- In every such history the next tick succeeds: it dispatches the envelopes of its page one by one,
  -- skipping the rows of an unknown type, and its cursor is at the last row of the page; and if the
  -- page is short, no row above the cursor is left.
  pub poll_total :
      {start c : ℕ} {table : List R} {calls : Calls} {d0 d : SubscriptionDispatcher}
      → Marshals make
      → Run start d0 table calls c d
      → (d' : SubscriptionDispatcher) × (poll row make table c d
          ≡ some (last_id row (get_all_with_cursor row table c) c, d'))
        × (dispatch_all (envelopes make (get_all_with_cursor row table c)) d ≡ some d')
        × (length (get_all_with_cursor row table c) < numrows
            → after row table (last_id row (get_all_with_cursor row table c) c) ≡ [])
  unfolding poll
  poll_total {start} {c} {table} {d = d} marshals run =
      let k = Run-Kept marshals run in
      let page = get_all_with_cursor row table c in
      let (d', handed, each, reached) = hand_over-all page d marshals k.reached in
      (d', rw (poll, handed) refl, each, page-last row table c k.ordered k.fits)
