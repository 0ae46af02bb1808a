-- ===== src/Subscriptions/Consumers.antt =====
-- What a consumer of the dispatcher can rely on, call by call.
use xmtp_node_go.Base.{
  Bool, Bool-cases, Bytes, List, Option, [], arith, eq_iff, eq_self, false, inl, inr, member,
  member-keep, none, not, refl, some, true, ℕ, ◌==◌, ◌∷◌, ◌≡◌, ◌⊎◌, nat_eq, bytes_eq,
}
use xmtp_node_go.Subscriptions.{
  Envelope, Subscription, SubscriptionDispatcher, Received, register, subscribe, unsubscribe,
  receive, receive_from, handle_envelope, has_wildcard, remove_key,
}
use xmtp_node_go.Subscriptions.Delivery.{Inv, Dispatched, handle_envelope-Dispatched, settled}

-- A pointer to a subscription on the heap.
abbrev pub Live : SubscriptionDispatcher → ℕ → Type 0
Live d p = (s : Subscription) × (d.heap p ≡ some s)

-- A step that keeps every pointer, and enters no subscription in the map.
pub record Kept (d d' : SubscriptionDispatcher) : Type 0 where
  pub live : (p : ℕ) → Live d p → Live d' p
  pub active : (p : ℕ) → member p d'.subscriptions ≡ true → member p d.subscriptions ≡ true

receive_from-Kept :
    (p : ℕ) (s : Subscription) (buffer : List Envelope) (d : SubscriptionDispatcher)
    → Kept d (receive_from p s buffer d).1
unfolding receive_from
receive_from-Kept p s [] d = record { live = λ q h. h; active = λ q h. h }
receive_from-Kept p s (env ∷ rest) d = record {
  live = λ q h. elim (Bool-cases (p == q)) [
    | inl this ↦ (record s { messages_ch = record s.messages_ch { buffer = rest } }, rw this refl)
    | inr other ↦ (h.0, rw other (h.1))
  ];
  active = λ q h. h;
}

pub receive-Kept :
    (p : ℕ) (d : SubscriptionDispatcher)
    → Live d p
    → (r : Received) × (d' : SubscriptionDispatcher) × (receive p d ≡ some (r, d')) × Kept d d'
unfolding receive
receive-Kept p d (s, at) =
    let (r, d') = receive_from p s s.messages_ch.buffer d in
    (r, d', rw (receive, at) refl, receive_from-Kept p s s.messages_ch.buffer d)

settled-Live :
    (env : Envelope) (x : Bool) (d d' : SubscriptionDispatcher)
    → Dispatched env x d.subscriptions d d'
    → (q : ℕ) → Live d q
    → Live d' q
settled-Live env x d d' r q (s, at) = elim (Bool-cases (member q d.subscriptions)) [
  | inl there ↦
      let kept : d'.heap q ≡ some (settled env x s) = ground (arith, r.heap q, there, at) in
      (settled env x s, kept)
  | inr gone ↦ let kept : d'.heap q ≡ some s = ground (arith, r.heap q, gone, at) in (s, kept)
]

pub handle_envelope-Kept :
    (env : Option Envelope) (d : SubscriptionDispatcher)
    → Inv d
    → (d' : SubscriptionDispatcher) × (handle_envelope env d ≡ some d') × Kept d d'
unfolding handle_envelope
handle_envelope-Kept none d v = (d, refl, record { live = λ q h. h; active = λ q h. h })
handle_envelope-Kept (some env) d v =
    let (d', e, r) = handle_envelope-Dispatched env d v in
    (
      d',
      e,
      record { live = settled-Live env _ d d' r; active = λ q h. ground (arith, r.active q, h) },
    )

pub unsubscribe-Kept : (p : ℕ) (d : SubscriptionDispatcher) → Kept d (unsubscribe p d)
unfolding unsubscribe remove_key
unsubscribe-Kept p d = record {
  live = λ q h. h;
  active = λ q h. ground (arith, h, member-keep (λ r. not (p == r)) q d.subscriptions);
}

pub unsubscribe-gone :
    (p : ℕ) (d : SubscriptionDispatcher) → member p (unsubscribe p d).subscriptions ≡ false
unfolding unsubscribe remove_key
unsubscribe-gone p d = ground (arith, member-keep (λ r. not (p == r)) p d.subscriptions, eq_self p)

-- A new subscription is on the heap, and alone new in the map.
pub record Entered (d : SubscriptionDispatcher) (p : ℕ) (d' : SubscriptionDispatcher) : Type 0 where
  pub live : Live d' p
  pub active :
      (q : ℕ) → member q d'.subscriptions ≡ true → (member q d.subscriptions ≡ true) ⊎ (p ≡ q)

register-Entered :
    (s : Subscription) (d : SubscriptionDispatcher) → Entered d (register s d).0 (register s d).1
unfolding register
register-Entered s d = record {
  live = (s, rw (eq_self d.next) refl);
  active = λ q h. elim (Bool-cases (d.next == q)) [
    | inl new ↦ inr ((eq_iff d.next q).0 new)
    | inr old ↦ inl (ground (arith, old, h))
  ];
}

pub subscribe-Entered :
    (topics : List (Bytes × Bool)) (d : SubscriptionDispatcher)
    → Entered d (subscribe topics d).0 (subscribe topics d).1
unfolding subscribe
subscribe-Entered topics d = elim (Bool-cases (has_wildcard topics)) [
  | inl all ↦ rw (subscribe, all) (register-Entered _ d)
  | inr some_topics ↦ rw (subscribe, some_topics) (register-Entered _ d)
]
