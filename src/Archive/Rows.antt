-- ===== src/Archive/Rows.antt =====
-- The queries of the archive, row by row.

use xmtp_node_go.Base.{
  All, All-map, Bool, Bool-cases, Bytes, Distinct, List, [], ap, arith, eq_iff, eq_self, false, inl,
  inr, map, member, refl, some, sym, true, ℕ, ◌++◌, ◌==◌, ◌||◌, ◌∷◌, ◌≡◌, nat_eq, bytes_eq,
}
use xmtp_node_go.Archive.{
  Installation, KeyPackage, is_archived, insert_key_package, upsert_installation,
  update_is_appended_status,
}

-- An installation that is marked as appended has its key package in the archive.
abbrev pub Archived : List KeyPackage → Installation → Type 0
Archived ps i = i.is_appended ≡ some true → is_archived i.id i.key_package ps ≡ true

is_archived-append :
    (id kp : Bytes) (ps qs : List KeyPackage)
    → is_archived id kp (ps ++ qs) ≡ (is_archived id kp ps || is_archived id kp qs)
unfolding is_archived
is_archived-append id kp [] qs = refl
is_archived-append id kp (p ∷ ps) qs = ground (arith, is_archived-append id kp ps qs)

-- What is archived stays so when a key package is inserted.
pub insert-kept :
    (a k id kp : Bytes) (now : ℕ) (ps : List KeyPackage)
    → is_archived a k ps ≡ true
    → is_archived a k (insert_key_package id kp now ps) ≡ true
unfolding insert_key_package
insert-kept a k id kp now ps h =
    let more =
      is_archived-append a k ps
        (record { installation_id = id; key_package = kp; created_at = now } ∷ []) in
    elim (Bool-cases (is_archived id kp ps)) [
      | inl there ↦ rw there h
      | inr fresh ↦ rw (fresh, more, h) refl
    ]

pub insert-there :
    (id kp : Bytes) (now : ℕ) (ps : List KeyPackage)
    → is_archived id kp (insert_key_package id kp now ps) ≡ true
unfolding insert_key_package is_archived
insert-there id kp now ps =
    let more =
      is_archived-append id kp ps
        (record { installation_id = id; key_package = kp; created_at = now } ∷ []) in
    elim (Bool-cases (is_archived id kp ps)) [
      | inl there ↦ rw (there, there) refl
      | inr fresh ↦ rw (fresh, more, fresh, eq_self id, eq_self kp) refl
    ]

-- The other installations have other ids.
absent-others :
    (a : Bytes) (is : List Installation)
    → member a (map (λ (i : Installation). i.id) is) ≡ false
    → All (λ j. (j.id == a) ≡ false) is
absent-others a [] h = tt
absent-others a (i ∷ is) h = elim (Bool-cases (i.id == a)) [
  | inl here ↦ ground (arith, h, here)
  | inr other ↦ (other, absent-others a is (ground (arith, h, other)))
]

-- Every installation with the id of this one has its key package.
abbrev pub Agrees : List Installation → Installation → Type 0
Agrees is i = All (λ j. (j.id == i.id) ≡ true → j.key_package ≡ i.key_package) is

each-joined :
    (x : Installation) (is before : List Installation)
    → All (λ j. (j.id == x.id) ≡ false) is
    → All (Agrees before) is
    → All (Agrees (x ∷ before)) is
each-joined x [] before others h = tt
each-joined x (i ∷ is) before others h = (
  (λ e. ground (arith, others.0, e, eq_iff x.id i.id, eq_iff i.id x.id), h.0),
  each-joined x is before others.1 h.1,
)

pub each-Agrees :
    (is : List Installation) → Distinct (map (λ (i : Installation). i.id) is) → All (Agrees is) is
each-Agrees [] h = tt
each-Agrees (x ∷ is) h =
    let others = absent-others x.id is h.0 in
    (
      (λ e. refl, All-map (λ j apart e. ground (arith, apart, e)) is others),
      each-joined x is is others (each-Agrees is h.1),
    )

or-again : (b m c : Bool) → c ≡ b → (b || m) ≡ (b || m || c)
or-again b m c e = ground (arith, e)

or-joined : (b m n c : Bool) → n ≡ (m || c) → (b || n) ≡ (b || m || c)
or-joined b m n c e = ground (arith, e)

member-upsert :
    (a id kp : Bytes) (now : ℕ) (is : List Installation)
    → member a (map (λ (i : Installation). i.id) (upsert_installation id kp now is))
      ≡ (member a (map (λ (i : Installation). i.id) is) || id == a)
unfolding upsert_installation
member-upsert a id kp now [] = ground arith
member-upsert a id kp now (i ∷ is) = elim (Bool-cases (i.id == id)) [
  | inl here ↦
      rw here (or-again (i.id == a) _ (id == a) (ap (λ z. z == a) (sym ((eq_iff i.id id).0 here))))
  | inr other ↦ rw other (or-joined (i.id == a) _ _ (id == a) (member-upsert a id kp now is))
]

pub upsert-DistinctIds :
    (id kp : Bytes) (now : ℕ) (is : List Installation)
    → Distinct (map (λ (i : Installation). i.id) is)
    → Distinct (map (λ (i : Installation). i.id) (upsert_installation id kp now is))
unfolding upsert_installation
upsert-DistinctIds id kp now [] h = (refl, tt)
upsert-DistinctIds id kp now (i ∷ is) h = elim (Bool-cases (i.id == id)) [
  | inl here ↦ rw here h
  | inr other ↦
      let same = member-upsert i.id id kp now is in
      let apart : (id == i.id) ≡ false = ground (arith, other, eq_iff i.id id, eq_iff id i.id) in
      rw other (ground (arith, same, apart, h.0), upsert-DistinctIds id kp now is h.1)
]

pub upsert-Archived :
    (id kp : Bytes) (now : ℕ) (ps : List KeyPackage) (is : List Installation)
    → All (Archived ps) is
    → All (Archived (insert_key_package id kp now ps)) (upsert_installation id kp now is)
unfolding upsert_installation
upsert-Archived id kp now ps [] h = (λ e. insert-there id kp now ps, tt)
upsert-Archived id kp now ps (i ∷ is) h = elim (Bool-cases (i.id == id)) [
  | inl here ↦ rw here (
    λ e. ground (arith, insert-there id kp now ps, eq_iff i.id id, here),
    All-map {Q = Archived (insert_key_package id kp now ps)}
        (λ j (keeps : Archived ps j) e. insert-kept j.id j.key_package id kp now ps (keeps e)) is
        h.1,
  )
  | inr other ↦ rw other (
    λ e. insert-kept i.id i.key_package id kp now ps (h.0 e),
    upsert-Archived id kp now ps is h.1,
  )
]

pub ids-update :
    (id : Bytes) (is : List Installation)
    → map (λ (i : Installation). i.id) (update_is_appended_status id is)
      ≡ map (λ (i : Installation). i.id) is
unfolding update_is_appended_status
ids-update id [] = refl
ids-update id (i ∷ is) = elim (Bool-cases (i.id == id)) [
  | inl here ↦ rw here (ap (λ xs. i.id ∷ xs) (ids-update id is))
  | inr other ↦ rw other (ap (λ xs. i.id ∷ xs) (ids-update id is))
]

pub update-Agrees :
    (k : Installation) (id : Bytes) (is : List Installation)
    → Agrees is k
    → Agrees (update_is_appended_status id is) k
unfolding update_is_appended_status
update-Agrees k id [] h = tt
update-Agrees k id (i ∷ is) h = elim (Bool-cases (i.id == id)) [
  | inl here ↦ rw here (h.0, update-Agrees k id is h.1)
  | inr other ↦ rw other (h.0, update-Agrees k id is h.1)
]

pub update-Archived :
    (k : Installation) (now : ℕ) (ps : List KeyPackage) (is : List Installation)
    → Agrees is k
    → All (Archived ps) is
    → All
        (Archived (insert_key_package k.id k.key_package now ps))
        (update_is_appended_status k.id is)
unfolding update_is_appended_status
update-Archived k now ps [] agrees h = tt
update-Archived k now ps (i ∷ is) agrees h = elim (Bool-cases (i.id == k.id)) [
  | inl here ↦
      let there = insert-there k.id k.key_package now ps in
      let same_id = (eq_iff i.id k.id).0 here in
      rw here (λ e. rw (same_id, agrees.0 here) there, update-Archived k now ps is agrees.1 h.1)
  | inr other ↦ rw other (
    λ e. insert-kept i.id i.key_package k.id k.key_package now ps (h.0 e),
    update-Archived k now ps is agrees.1 h.1,
  )
]
