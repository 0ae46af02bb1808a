-- ===== src/Subscriptions/Invariant.antt =====
-- Every method of the dispatcher and of its subscriptions keeps the invariant, so no history of
-- calls reaches a panic: a send on a closed channel, a second close, or a nil subscription.
use xmtp_node_go.Base.{
  Bool, Bool-cases, Bytes, List, Option, Option-cases, [], ap, arith, false, inl, inr, insert,
  keep-Distinct, length, length-append, member, member-keep, none, not, refl, some, subst, sym, ℕ,
  ◌==◌, ◌∙◌, ◌∷◌, ◌≡◌, nat_eq, bytes_eq,
}
use mathlib.Core.Option.{some_inj}
use xmtp_node_go.Subscriptions.{
  register, has_wildcard, add_topics, remove_topics, Envelope, Subscription, SubscriptionDispatcher,
  Received, new_subscription_dispatcher, handle_envelope, subscribe, new_subscription, unsubscribe,
  add, remove, receive, receive_from,
}
use xmtp_node_go.Subscriptions.Delivery.{
  IsOpen, Inv, Dispatched, settled, drops, handle_envelope-Dispatched,
}

new-Inv : Inv new_subscription_dispatcher
unfolding new_subscription_dispatcher
new-Inv = record { at_active = λ p h. absurd (cc); distinct = tt; fresh = λ p h. refl }

settled-IsOpen :
    (env : Envelope) (x : Bool) (s : Subscription)
    → drops env x s ≡ false
    → IsOpen s
    → IsOpen (settled env x s)
unfolding drops settled
settled-IsOpen env x s h o = ground (arith, length-append s.messages_ch.buffer (env ∷ []))

Dispatched-Inv :
    (env : Envelope) (x : Bool) (d d' : SubscriptionDispatcher)
    → Dispatched env x d.subscriptions d d'
    → Inv d
    → Inv d'
Dispatched-Inv env x d d' r v = record {
  at_active = λ p h.
      let (s, at, o) = v.at_active p (ground (arith, r.active p)) in
      (
        settled env x s,
        ground (arith, r.active p, r.heap p),
        settled-IsOpen env x s (ground (arith, r.active p)) o,
      );
  distinct = r.distinct v.distinct;
  fresh = λ p h. ground (arith, r.next, r.heap p, v.fresh p);
}

next-not-active : (d : SubscriptionDispatcher) → Inv d → member d.next d.subscriptions ≡ false
next-not-active d v = elim (Bool-cases (member d.next d.subscriptions)) [
  | inl there ↦
      let (s, at, o) = v.at_active d.next there in absurd (cc (at, v.fresh d.next (omega arith)))
  | inr missing ↦ missing
]

-- A new object under a new pointer.
register-Inv :
    (s : Subscription) (d : SubscriptionDispatcher) → IsOpen s → Inv d → Inv (register s d).1
unfolding register
register-Inv s d o v = record {
  at_active = λ p h. elim (Bool-cases (d.next == p)) [
    | inl new ↦ (s, ground (arith, new), o)
    | inr old ↦
        let (s', at, o') = v.at_active p (ground (arith, old, h)) in
        (s', ground (arith, old, at), o')
  ];
  distinct = (next-not-active d v, v.distinct);
  fresh = λ p h. ground (arith, v.fresh p);
}

-- A method that changes one object, which stays open if it was, and no map key.
update-Inv :
    (p : ℕ) (s s' : Subscription) (d : SubscriptionDispatcher)
    → d.heap p ≡ some s
    → (IsOpen s → IsOpen s')
    → Inv d
    → Inv (record d { heap = insert p s' d.heap })
update-Inv p s s' d at same v = record {
  at_active = λ q h. elim (Bool-cases (p == q)) [
    | inl this ↦
        let (r, at_q, o) = v.at_active q h in
        (s', ground (arith, this), same (subst IsOpen (ground (arith, this, at, at_q)) o))
    | inr other ↦ let (r, at_q, o) = v.at_active q h in (r, ground (arith, other, at_q), o)
  ];
  distinct = v.distinct;
  fresh = λ q h. ground (arith, v.fresh q, at);
}

pub subscribe-Inv :
    (topics : List (Bytes × Bool)) (d : SubscriptionDispatcher) → Inv d → Inv (subscribe topics d).1
unfolding subscribe
subscribe-Inv topics d v = elim (Bool-cases (has_wildcard topics)) [
  | inl e ↦
      rw (e, subscribe) (register-Inv _ d (record { is_open = refl; bounded = omega arith }) v)
  | inr e ↦
      rw (e, subscribe) (register-Inv _ d (record { is_open = refl; bounded = omega arith }) v)
]

pub new_subscription-Inv :
    (size : ℕ) (d : SubscriptionDispatcher) → Inv d → Inv (new_subscription size d).1
unfolding new_subscription
new_subscription-Inv size d v =
    register-Inv _ d (record { is_open = refl; bounded = omega arith }) v

pub unsubscribe-Inv : (p : ℕ) (d : SubscriptionDispatcher) → Inv d → Inv (unsubscribe p d)
unfolding unsubscribe
unsubscribe-Inv p d v = record {
  at_active =
      λ q h. v.at_active q (ground (arith, h, member-keep (λ r. not (p == r)) q d.subscriptions));
  distinct = keep-Distinct (λ r. not (p == r)) d.subscriptions v.distinct;
  fresh = v.fresh;
}

-- A call of a method, with the state after it. A pointer is one that a subscribe call returned.
pub data Step (d : SubscriptionDispatcher) : SubscriptionDispatcher → Type 0 where
  subscribes : (topics : List (Bytes × Bool)) → Step d (subscribe topics d).1
  subscribes_empty : (size : ℕ) → Step d (new_subscription size d).1
  unsubscribes : (p : ℕ) → Step d (unsubscribe p d)
  adds : (ts : List Bytes) (p : ℕ) {d' : SubscriptionDispatcher} → add ts p d ≡ some d' → Step d d'
  removes :
      (ts : List Bytes) (p : ℕ) {d' : SubscriptionDispatcher} → remove ts p d ≡ some d' → Step d d'
  receives :
      (p : ℕ) (r : Received) {d' : SubscriptionDispatcher} → receive p d ≡ some (r, d') → Step d d'
  handles :
      (env : Option Envelope) {d' : SubscriptionDispatcher}
      → handle_envelope env d ≡ some d'
      → Step d d'

pub data Reach : SubscriptionDispatcher → Type 0 where
  start : Reach new_subscription_dispatcher
  next : {d d' : SubscriptionDispatcher} → Reach d → Step d d' → Reach d'

add-Inv :
    (ts : List Bytes) (p : ℕ) (d d' : SubscriptionDispatcher)
    → add ts p d ≡ some d'
    → Inv d
    → Inv d'
add-Inv ts p d d' e v = elim (Option-cases (d.heap p)) [
  | inl nil ↦ absurd (unfold add in ground (arith, nil))
  | inr (s, at) ↦ elim (Bool-cases s.all) [
    | inl all ↦ let same : d ≡ d' = unfold add in ground (arith, at, all) in subst Inv same v
    | inr some_topics ↦
        let s' : Subscription = record s { topics = add_topics ts s.topics } in
        let same : record d { heap = insert p s' d.heap } ≡ d' =
          unfold add in ground (arith, at, some_topics) in
        subst Inv same
          (update-Inv p s s' d at (λ o. record { is_open = o.is_open; bounded = o.bounded }) v)
  ]
]

remove-Inv :
    (ts : List Bytes) (p : ℕ) (d d' : SubscriptionDispatcher)
    → remove ts p d ≡ some d'
    → Inv d
    → Inv d'
remove-Inv ts p d d' e v = elim (Option-cases (d.heap p)) [
  | inl nil ↦ absurd (unfold remove in ground (arith, nil))
  | inr (s, at) ↦
      let s' : Subscription = record s { topics = remove_topics ts s.topics } in
      let same : record d { heap = insert p s' d.heap } ≡ d' =
        unfold remove in ground (arith, at) in
      subst Inv same
        (update-Inv p s s' d at (λ o. record { is_open = o.is_open; bounded = o.bounded }) v)
]

receive_from-Inv :
    (p : ℕ) (s : Subscription) (buffer : List Envelope) (d : SubscriptionDispatcher)
    → d.heap p ≡ some s
    → s.messages_ch.buffer ≡ buffer
    → Inv d
    → Inv (receive_from p s buffer d).1
unfolding receive_from
receive_from-Inv p s [] d at e v = v
receive_from-Inv p s (env ∷ rest) d at e v =
    update-Inv p s (record s { messages_ch = record s.messages_ch { buffer = rest } }) d at
      (λ o. record { is_open = o.is_open; bounded = omega (arith, ap length e, o.bounded) }) v

pub receive-Inv :
    (p : ℕ) (r : Received) (d d' : SubscriptionDispatcher)
    → receive p d ≡ some (r, d')
    → Inv d
    → Inv d'
receive-Inv p r d d' e v = elim (Option-cases (d.heap p)) [
  | inl nil ↦ absurd (unfold receive in ground (arith, nil))
  | inr (s, at) ↦
      (let same : (receive_from p s s.messages_ch.buffer d).1 ≡ d' =
          unfold receive in ground (arith, at) in
        subst Inv same (receive_from-Inv p s s.messages_ch.buffer d at refl v))
]

pub handle_envelope-Inv :
    (env : Option Envelope) (d d' : SubscriptionDispatcher)
    → handle_envelope env d ≡ some d'
    → Inv d
    → Inv d'
handle_envelope-Inv none d d' e v =
    let same : d ≡ d' = unfold handle_envelope in some_inj.0 e in subst Inv same v
handle_envelope-Inv (some env) d d' e v =
    let (d1, e1, r) = handle_envelope-Dispatched env d v in
    subst Inv (some_inj.0 (sym e1 ∙ e)) (Dispatched-Inv env _ d d1 r v)

-- Every call of a method keeps the invariant: the subscriptions in the map are distinct, live,
-- with open channels that are not past their capacity, and no pointer from the next one on is in
-- use.
pub Step-Inv : {d d' : SubscriptionDispatcher} → Step d d' → Inv d → Inv d'
Step-Inv {d} (subscribes topics) v = subscribe-Inv topics d v
Step-Inv {d} (subscribes_empty size) v = new_subscription-Inv size d v
Step-Inv {d} (unsubscribes p) v = unsubscribe-Inv p d v
Step-Inv {d} {d'} (adds ts p e) v = add-Inv ts p d d' e v
Step-Inv {d} {d'} (removes ts p e) v = remove-Inv ts p d d' e v
Step-Inv {d} {d'} (receives p r e) v = receive-Inv p r d d' e v
Step-Inv {d} {d'} (handles env e) v = handle_envelope-Inv env d d' e v

pub Reach-Inv : {d : SubscriptionDispatcher} → Reach d → Inv d
Reach-Inv start = new-Inv
Reach-Inv (next r st) = Step-Inv st (Reach-Inv r)

-- After any history of calls, dispatching any envelope does not panic: no subscription in the map
-- is nil or has a closed channel.
pub handle_envelope_total :
    {d : SubscriptionDispatcher}
    → Reach d
    → (env : Option Envelope) → (d' : SubscriptionDispatcher) × (handle_envelope env d ≡ some d')
handle_envelope_total {d} r none = (d, unfold handle_envelope in refl)
handle_envelope_total {d} r (some env) =
    let (d', e, _) = handle_envelope-Dispatched env d (Reach-Inv r) in (d', e)
