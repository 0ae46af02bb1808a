-- ===== src/Subscribe/Writer/Mutate/Adds.antt =====
-- How a Mutate collapses its adds: each topic once, with the lowest of its cursors.
use xmtp_node_go.Base.{
  Bool, Bool-cases, Bytes, Distinct, List, Option, Result, [], ap, arith, eq_iff, eq_self, err,
  false, if◌then◌else◌, inl, inr, member, min, none, ok, refl, some, subst, sym, ℕ, ◌==◌, ◌||◌, ◌∙◌,
  ◌∷◌, ◌≡◌, ◌⊎◌, nat_eq, bytes_eq,
}
use xmtp_node_go.Topic.{build_mls_topic}
use xmtp_node_go.Subscribe.Writer.{End}
use xmtp_node_go.Subscribe.Writer.Mutate.{Subscription, AddReq, merge_add, split, collect_adds}

abbrev pub add_keys : List (Bytes × AddReq) → List Bytes
add_keys [] = []
add_keys ((t, a) ∷ m) = t ∷ add_keys m

-- The cursor of a topic in the map.
abbrev pub cursor_at : Bytes → List (Bytes × AddReq) → Option ℕ
cursor_at t [] = none
cursor_at t ((u, a) ∷ m) = if u == t then some a.cursor else cursor_at t m

abbrev lower : Option ℕ → ℕ → Option ℕ
lower none c = some c
lower (some d) c = some (min d c)

abbrev key_of : ℕ × Bytes → Bytes
key_of parts = build_mls_topic parts.0 parts.1

abbrev names : Bytes → Result End (ℕ × Bytes) → Bool
names t (ok parts) = key_of parts == t
names t (err e) = false

abbrev asks_for : Bytes → Subscription → Bool
asks_for t add = names t (split add.topic)

-- The lowest cursor that the adds name for a topic.
pub lowest_cursor : Bytes → List Subscription → Option ℕ → Option ℕ
lowest_cursor t [] c = c
lowest_cursor t (add ∷ adds) c =
    lowest_cursor t adds (if asks_for t add then lower c add.id_cursor else c)

cursor_at-merge_add :
    (t u : Bytes) (a : AddReq) (m : List (Bytes × AddReq))
    → cursor_at u (merge_add t a m)
      ≡ (if t == u then lower (cursor_at t m) a.cursor else cursor_at u m)
unfolding merge_add
cursor_at-merge_add t u a [] = ground (arith, eq_self t)
cursor_at-merge_add t u a ((v, ex) ∷ m) =
    ground (arith, cursor_at-merge_add t u a m, eq_iff v t, eq_iff v u, eq_iff t u)

member-merge_add :
    (t u : Bytes) (a : AddReq) (m : List (Bytes × AddReq))
    → member u (add_keys (merge_add t a m)) ≡ (member u (add_keys m) || t == u)
unfolding merge_add
member-merge_add t u a [] = ground arith
member-merge_add t u a ((v, ex) ∷ m) =
    ground (arith, member-merge_add t u a m, eq_iff v t, eq_iff v u, eq_iff t u)

merge_add-Distinct :
    (t : Bytes) (a : AddReq) (m : List (Bytes × AddReq))
    → Distinct (add_keys m)
    → Distinct (add_keys (merge_add t a m))
unfolding merge_add
merge_add-Distinct t a [] h = ground arith
merge_add-Distinct t a ((v, ex) ∷ m) h =
    ground
      (arith, h, merge_add-Distinct t a m h.1, member-merge_add t v a m, eq_iff v t, eq_iff t v)

ok-not-err : (m : List (Bytes × AddReq)) (w : End) → ¬ (ok m ≡ err w)
ok-not-err m w h = cc

Result-cases :
    (r : Result End (ℕ × Bytes))
    → ((parts : ℕ × Bytes) × (r ≡ ok parts)) ⊎ ((e : End) × (r ≡ err e))
Result-cases (ok parts) = inl (parts, refl)
Result-cases (err e) = inr (e, refl)

abbrev map_or : List (Bytes × AddReq) → Result End (List (Bytes × AddReq)) → List (Bytes × AddReq)
map_or m (ok m') = m'
map_or m (err e) = m

asks-cursor :
    (t k : Bytes) (c : ℕ) (m : List (Bytes × AddReq))
    → (if k == t then lower (cursor_at k m) c else cursor_at t m)
      ≡ (if k == t then lower (cursor_at t m) c else cursor_at t m)
asks-cursor t k c m = elim (Bool-cases (k == t)) [
  | inl same ↦ rw ((eq_iff k t).0 same) refl
  | inr other ↦ rw other refl
]

collect_from :
    (adds : List Subscription) (m m' : List (Bytes × AddReq))
    → collect_adds adds m ≡ ok m'
    → Distinct (add_keys m)
    → Distinct (add_keys m') × ((t : Bytes) → cursor_at t m' ≡ lowest_cursor t adds (cursor_at t m))
unfolding collect_adds lowest_cursor
collect_from [] m m' e d =
    let same : m ≡ m' = ap (map_or m) e in
    (subst (λ n. Distinct (add_keys n)) same d, λ t. ap (cursor_at t) (sym same))
collect_from (add ∷ adds) m m' e d = elim (Result-cases (split add.topic)) [
  | inr (w, bad) ↦ absurd (ok-not-err m' w (sym (rw bad at e)))
  | inl (parts, good) ↦
      let a : AddReq = record {
        wire = add.topic;
        kind = parts.0;
        id = parts.1;
        cursor = add.id_cursor;
      } in
      let (d', all) =
        collect_from adds (merge_add (key_of parts) a m) m' (rw good at e)
          (merge_add-Distinct (key_of parts) a m d) in
      (
        d',
        λ t.
            all t
            ∙ ap (lowest_cursor t adds) (
                cursor_at-merge_add (key_of parts) t a m
                ∙ asks-cursor t (key_of parts) a.cursor m
                ∙ ap (λ b. if b then lower (cursor_at t m) a.cursor else cursor_at t m)
                    (ap (names t) (sym good))),
      )
]

-- The map that a Mutate builds from its adds, if they are well formed, has each topic once, in
-- whatever order and however often the adds name it, with the lowest cursor named for it; and it has
-- no other topic.
pub collect_adds-lowest :
    (adds : List Subscription) (m : List (Bytes × AddReq))
    → collect_adds adds [] ≡ ok m
    → Distinct (add_keys m) × ((t : Bytes) → cursor_at t m ≡ lowest_cursor t adds none)
collect_adds-lowest adds m e = collect_from adds [] m e tt
