-- ===== src/Subscriptions/Delivery.antt =====
-- What HandleEnvelope of pkg/subscriptions/dispatcher.go does to every subscription at once,
-- whatever the order in which it visits them.
use xmtp_node_go.Base.{
  All, All-of_member, Bool, Bool-cases, Distinct, List, Option, [], arith, eq_iff, false,
  if◌then◌else◌, inl, inr, insert, keep-Distinct, length, ltb, member, member-keep, none, not, refl,
  some, true, ℕ, ◌&&◌, ◌++◌, ◌==◌, ◌∙◌, ◌∷◌, ◌≡◌, ◌≤◌, nat_eq, bytes_eq,
}
use xmtp_node_go.Subscriptions.{
  Envelope, Subscription, SubscriptionDispatcher, remove_key, wants, offer, dispatch_to,
  dispatch_loop, handle_envelope, is_valid_subscribe_all_topic,
}

-- The channel of an active subscription: open, and not past its capacity.
pub record IsOpen (s : Subscription) : Type 0 where
  pub is_open : s.messages_ch.closed ≡ false
  pub bounded : length s.messages_ch.buffer ≤ s.messages_ch.capacity

-- An envelope that a subscription wants is queued, or closes a channel that is full.
unfoldable pub settled : Envelope → Bool → Subscription → Subscription
settled env x s =
    if wants s env x
    then (if ltb (length s.messages_ch.buffer) s.messages_ch.capacity
        then record s {
          messages_ch = record s.messages_ch { buffer = s.messages_ch.buffer ++ env ∷ [] };
        }
        else record s { messages_ch = record s.messages_ch { closed = true } })
    else s

-- Whether that drops the subscription from the map.
unfoldable pub drops : Envelope → Bool → Subscription → Bool
drops env x s = wants s env x && not (ltb (length s.messages_ch.buffer) s.messages_ch.capacity)

abbrev pub settled_at : Envelope → Bool → Option Subscription → Option Subscription
settled_at env x none = none
settled_at env x (some s) = some (settled env x s)

abbrev pub drops_at : Envelope → Bool → Option Subscription → Bool
drops_at env x none = false
drops_at env x (some s) = drops env x s

abbrev pub OpenAt : SubscriptionDispatcher → ℕ → Type 0
OpenAt d p = (s : Subscription) × (d.heap p ≡ some s) × IsOpen s

-- `d'` is `d` with the envelope settled at each of `ps`.
pub record Dispatched (env : Envelope) (x : Bool) (ps : List ℕ) (d d' : SubscriptionDispatcher)
    : Type 0 where
  pub heap : (p : ℕ) → d'.heap p ≡ (if member p ps then settled_at env x (d.heap p) else d.heap p)
  pub active :
      (p : ℕ)
      → member p d'.subscriptions
        ≡ (member p d.subscriptions && not (member p ps && drops_at env x (d.heap p)))
  pub next : d'.next ≡ d.next
  pub distinct : Distinct d.subscriptions → Distinct d'.subscriptions

-- The loop body at an open subscription.
dispatch_to-Dispatched :
    (env : Envelope) (x : Bool) (p : ℕ) (d : SubscriptionDispatcher) (s : Subscription)
    → d.heap p ≡ some s
    → IsOpen s
    → (d' : SubscriptionDispatcher) × (dispatch_to env x p d ≡ some d')
      × Dispatched env x (p ∷ []) d d'
unfolding dispatch_to offer settled drops
dispatch_to-Dispatched env x p d s at open_s = elim (Bool-cases (wants s env x)) [
  | inr not_wanted ↦ (
    d,
    ground (arith, at, not_wanted),
    record {
      heap = λ q. ground (arith, at, not_wanted, eq_iff p q);
      active = λ q. ground (arith, at, not_wanted, eq_iff p q);
      next = refl;
      distinct = λ h. h;
    },
  )
  | inl wanted ↦ elim (Bool-cases (ltb (length s.messages_ch.buffer) s.messages_ch.capacity)) [
    | inl room ↦ (
      record d { heap = insert p (settled env x s) d.heap },
      ground (arith, at, wanted, room, open_s.is_open),
      record {
        heap = λ q. ground (arith, at, eq_iff p q);
        active = λ q. ground (arith, at, wanted, room, eq_iff p q);
        next = refl;
        distinct = λ h. h;
      },
    )
    | inr none_left ↦ (
      record d {
        heap = insert p (settled env x s) d.heap;
        subscriptions = remove_key p d.subscriptions;
      },
      ground (arith, at, wanted, none_left, open_s.is_open),
      record {
        heap = λ q. ground (arith, at, eq_iff p q);
        active = λ q.
            unfold remove_key in
            ground (
              arith,
              at,
              wanted,
              none_left,
              eq_iff p q,
              member-keep (λ r. not (p == r)) q d.subscriptions,
            );
        next = refl;
        distinct = unfold remove_key in keep-Distinct (λ r. not (p == r)) d.subscriptions;
      },
    )
  ]
]

-- One turn, then the rest of the loop.
Dispatched-trans :
    {env : Envelope} {x : Bool} {p : ℕ} {ps : List ℕ} {d d' d'' : SubscriptionDispatcher}
    → member p ps ≡ false
    → Dispatched env x (p ∷ []) d d'
    → Dispatched env x ps d' d''
    → Dispatched env x (p ∷ ps) d d''
Dispatched-trans {env} {x} {p} {ps} {d} {d'} fresh one rest = record {
  heap = λ q. ground (arith, one.heap q, rest.heap q, eq_iff p q, fresh);
  active = λ q. ground (arith, one.heap q, one.active q, rest.active q, eq_iff p q, fresh);
  next = rest.next ∙ one.next;
  distinct = λ h. rest.distinct (one.distinct h);
}

-- Open subscriptions other than the one of this turn are still there, and still open.
others_open :
    {env : Envelope} {x : Bool} {p : ℕ} {d d' : SubscriptionDispatcher} (ps : List ℕ)
    → member p ps ≡ false
    → Dispatched env x (p ∷ []) d d'
    → All (OpenAt d) ps
    → All (OpenAt d') ps
others_open [] fresh one h = tt
others_open {p = p} (q ∷ ps) fresh one ((s, at, open_s), more) = (
  (s, ground (arith, one.heap q, eq_iff p q, eq_iff q p, fresh, at), open_s),
  others_open ps (ground (arith, fresh)) one more,
)

dispatch_loop-Dispatched :
    (env : Envelope) (x : Bool) (ps : List ℕ) (d : SubscriptionDispatcher)
    → Distinct ps
    → All (OpenAt d) ps
    → (d' : SubscriptionDispatcher) × (dispatch_loop env x ps d ≡ some d')
      × Dispatched env x ps d d'
unfolding dispatch_loop
dispatch_loop-Dispatched env x [] d apart h = (
  d,
  refl,
  record { heap = λ q. refl; active = λ q. ground arith; next = refl; distinct = λ h. h },
)
dispatch_loop-Dispatched env x (p ∷ ps) d apart ((s, at, open_s), more) =
    let (d1, e1, one) = dispatch_to-Dispatched env x p d s at open_s in
    let (d2, e2, rest) =
      dispatch_loop-Dispatched env x ps d1 apart.1 (others_open ps apart.0 one more) in
    (d2, rw (e1, dispatch_loop) e2, Dispatched-trans apart.0 one rest)

-- What holds of a dispatcher between any two of its methods: the keys of the map are distinct
-- pointers to live objects with open channels, and no object lies at a pointer not handed out yet.
pub record Inv (d : SubscriptionDispatcher) : Type 0 where
  pub at_active : (p : ℕ) → member p d.subscriptions ≡ true → OpenAt d p
  pub distinct : Distinct d.subscriptions
  pub fresh : (p : ℕ) → d.next ≤ p → d.heap p ≡ none

-- On a dispatcher that meets the invariant, HandleEnvelope does not panic, and settles the
-- envelope at every active subscription at once: each that wants it has it at the end of its
-- queue, or, if its queue is full, has its channel closed and leaves the map. Every other
-- subscription stays as it is.
pub handle_envelope-Dispatched :
    (env : Envelope) (d : SubscriptionDispatcher)
    → Inv d
    → (d' : SubscriptionDispatcher) × (handle_envelope (some env) d ≡ some d')
      × Dispatched env (is_valid_subscribe_all_topic env.content_topic) d.subscriptions d d'
unfolding handle_envelope
handle_envelope-Dispatched env d v =
    dispatch_loop-Dispatched env (is_valid_subscribe_all_topic env.content_topic) d.subscriptions d
      v.distinct (All-of_member (OpenAt d) d.subscriptions v.at_active)
