-- ===== src/Streams/Handlers/Rising.antt =====
-- The ids that sendToStream sends.

use xmtp_node_go.Base.{
  All, All-append, All-map, Bool, Bool-cases, Bytes, List, Option, Option-cases, [], ap, arith,
  eq_iff, false, get_or, inl, inr, insert, insert_self, ltb, refl, some, sym, true, ℕ, ◌++◌, ◌<◌,
  ◌==◌, ◌∙◌, ◌∷◌, ◌≡◌, ◌≤◌, nat_eq, bytes_eq,
}
use mathlib.Core.Option.{some_inj}
use xmtp_node_go.Streams.Handlers.{StreamEnd, LiveStream, send_all}
use xmtp_node_go.Subscriptions.{Envelope}

module _ {M : Type 0} (metadata : M → Option (Bytes × ℕ)) where
  -- Of one key, the first message has the lower id.
  abbrev pub Earlier : M → M → Type 0
  Earlier x y =
      (key : Bytes) (a b : ℕ) → metadata x ≡ some (key, a) → metadata y ≡ some (key, b) → a < b

  -- Of each key, the ids rise.
  abbrev pub RisingIds : List M → Type 0
  RisingIds [] = Unit
  RisingIds (x ∷ xs) = All (Earlier x) xs × RisingIds xs

  abbrev Below : (Bytes → Option ℕ) → M → Type 0
  Below marks x = (key : Bytes) (a : ℕ) → metadata x ≡ some (key, a) → a ≤ get_or marks key 0

  rising-snoc :
      (xs : List M) (m : M) → RisingIds xs → All (λ x. Earlier x m) xs → RisingIds (xs ++ m ∷ [])
  rising-snoc [] m h e = (tt, tt)
  rising-snoc (x ∷ xs) m h e = (All-append _ xs (m ∷ []) h.0 (e.0, tt), rising-snoc xs m h.1 e.1)

  Below-insert :
      (marks : Bytes → Option ℕ) (key : Bytes) (id : ℕ)
      → get_or marks key 0 < id
      → (x : M) → Below marks x
      → Below (insert key id marks) x
  Below-insert marks key id more x h k a e = elim (Bool-cases (key == k)) [
    | inl this ↦
        let same : get_or marks key 0 ≡ get_or marks k 0 =
          ap (λ j. get_or marks j 0) ((eq_iff key k).0 this) in
        rw (get_or, insert, this) (omega (arith, h k a e, same, more))
    | inr other ↦ rw (get_or, insert, other) (h k a e)
  ]

  same_metadata :
      (m : M) (k j : Bytes) (a b : ℕ)
      → metadata m ≡ some (k, a)
      → metadata m ≡ some (j, b)
      → (k ≡ j) × (a ≡ b)
  same_metadata m k j a b h e = (cc (h, e), cc (h, e))

  Below-Earlier :
      (marks : Bytes → Option ℕ) (m : M) (key : Bytes) (id : ℕ)
      → metadata m ≡ some (key, id)
      → get_or marks key 0 < id
      → (x : M) → Below marks x
      → Earlier x m
  Below-Earlier marks m key id is more x h k a b ex em =
      let (keys, ids) = same_metadata m key k id b is em in
      let mark : get_or marks key 0 ≡ get_or marks k 0 = ap (λ j. get_or marks j 0) keys in
      omega (arith, h k a ex, mark, ids, more)

  -- What was sent rises, and is below the marks.
  abbrev pub Marked : LiveStream M → Type 0
  Marked s = All (Below s.high_water_marks) s.sent × RisingIds s.sent

  Marked-snoc :
      (s : LiveStream M) (m : M) (key : Bytes) (id : ℕ)
      → metadata m ≡ some (key, id)
      → get_or s.high_water_marks key 0 < id
      → Marked s
      → Marked (record s {
        high_water_marks = insert key id s.high_water_marks;
        sent = s.sent ++ m ∷ [];
      })
  Marked-snoc s m key id is more h = (
    All-append _ s.sent (m ∷ []) (All-map (Below-insert s.high_water_marks key id more) s.sent h.0)
        (
          (λ k a e.
              let pair : (key, id) ≡ (k, a) = some_inj.0 (sym is ∙ e) in
              let mark : get_or (insert key id s.high_water_marks) k 0 ≡ id =
                ap (λ (q : Bytes × ℕ). get_or (insert key id s.high_water_marks) q.0 0) (sym pair)
                ∙ ap (λ o. get_or (λ j. o) key 0) (insert_self key id s.high_water_marks) in
              let ids : id ≡ a = ap (λ (q : Bytes × ℕ). q.1) pair in omega (arith, mark, ids)),
          tt,
        ),
    rising-snoc s.sent m h.1
        (All-map (Below-Earlier s.high_water_marks m key id is more) s.sent h.0),
  )

  module _ (panics : M → Bool) (parse : Envelope → Option M) (can_send : List M → M → Bool)
      (closed : StreamEnd) where
    -- Messages that do not panic: the dispatcher stays, and the marks are right.
    pub send_all-Marked :
        (ms : List M) (s : LiveStream M)
        → All (λ m. panics m ≡ false) ms
        → Marked s
        → (sent : Bool) × (s' : LiveStream M) × (send_all metadata panics parse can_send closed ms s
            ≡ some (sent, s'))
          × (s'.dispatcher ≡ s.dispatcher)
          × Marked s'
    unfolding send_all
    send_all-Marked [] s calm h = (true, s, refl, refl, h)
    send_all-Marked (m ∷ ms) s calm h = elim (Option-cases (metadata m)) [
      | inl invalid ↦
          let (sent, s', e, same, k) = send_all-Marked ms s calm.1 h in
          (sent, s', rw (send_all, calm.0, invalid) e, same, k)
      | inr ((key, id), is) ↦ elim (Bool-cases (ltb (get_or s.high_water_marks key 0) id)) [
        | inl more ↦
            let raised : get_or s.high_water_marks key 0 < id = ground (arith, more) in
            elim (Bool-cases (can_send s.sent m)) [
              | inl sends ↦
                  let (sent, s', e, same, k) =
                    send_all-Marked ms
                      (record s {
                        high_water_marks = insert key id s.high_water_marks;
                        sent = s.sent ++ m ∷ [];
                      })
                      calm.1 (Marked-snoc s m key id is raised h) in
                  (sent, s', rw (send_all, calm.0, is, more, sends) e, same, k)
              | inr fails ↦ (
                false,
                record s { high_water_marks = insert key id s.high_water_marks },
                rw (send_all, calm.0, is, more, fails) refl,
                refl,
                (All-map (Below-insert s.high_water_marks key id raised) s.sent h.0, h.1),
              )
            ]
        | inr old ↦
            let (sent, s', e, same, k) = send_all-Marked ms s calm.1 h in
            (sent, s', rw (send_all, calm.0, is, old) e, same, k)
      ]
    ]
