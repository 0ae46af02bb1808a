-- ===== src/MlsService/KeyPackages.antt =====
-- FetchKeyPackages against a lookup of each key.
use xmtp_node_go.Base.{
  All, All-of_member, Bool-cases, Bytes, Distinct, List, Option, [], ap, arith, empty, eq_iff,
  false, if◌then◌else◌, inl, inr, insert, keep, map, map-All, member, none, ok, refl, some, subst,
  suc, sym, true, ℕ, ◌+◌, ◌==◌, ◌∙◌, ◌∷◌, ◌≡◌, nat_eq, bytes_eq,
}
use xmtp_node_go.MlsService.Installations.{
  Installation, fetch_key_packages, key_package_map, set_at, place_packages, blank,
}

abbrev pub ids_of : List Installation → List Bytes
ids_of [] = []
ids_of (i ∷ is) = i.id ∷ ids_of is

-- The key package of an installation.
abbrev pub package_of : List Installation → Bytes → Option Bytes
package_of [] id = none
package_of (i ∷ is) id = if i.id == id then some i.key_package else package_of is id

abbrev or_else : Option Bytes → Option Bytes → Option Bytes
or_else none other = other
or_else (some p) other = some p

-- The place of a key in a list.
abbrev index_of : Bytes → List Bytes → ℕ
index_of k [] = 0
index_of k (id ∷ ids) = if id == k then 0 else suc (index_of k ids)

key_package_map-index :
    (ids : List Bytes) (at : ℕ) (places : Bytes → Option ℕ) (k : Bytes)
    → Distinct ids
    → key_package_map ids at places k
      ≡ (if member k ids then some (at + index_of k ids) else places k)
unfolding key_package_map
key_package_map-index [] at places k different = refl
key_package_map-index (id ∷ ids) at places k different =
    key_package_map-index ids (at + 1) (insert id at places) k different.1
    ∙ (elim (Bool-cases (id == k)) [
      | inl here ↦
          let later : member k ids ≡ false =
            subst (λ j. member j ids ≡ false) ((eq_iff id k).0 here) different.0 in
          rw (later, here) (ap some (omega arith))
      | inr elsewhere ↦ elim (Bool-cases (member k ids)) [
        | inl there ↦ rw (there, elsewhere) (ap some (omega arith))
        | inr nowhere ↦ rw (nowhere, elsewhere) refl
      ]
    ])

apart_from :
    (f : Bytes → Option Bytes) (p : Option Bytes) (k j : Bytes) (ids : List Bytes)
    → member k ids ≡ false
    → member j ids ≡ true
    → f j ≡ (if j == k then p else f j)
apart_from f p k j ids nowhere there = elim (Bool-cases (j == k)) [
  | inl same ↦ absurd (cc (subst (λ i. member i ids ≡ true) ((eq_iff j k).0 same) there, nowhere))
  | inr apart ↦ rw apart refl
]

package_of-absent :
    (is : List Installation) (id : Bytes) → member id (ids_of is) ≡ false → package_of is id ≡ none
package_of-absent [] id h = refl
package_of-absent (i ∷ is) id h = ground (arith, h, package_of-absent is id)

overlay :
    (i : Installation) (is : List Installation) (f : Bytes → Option Bytes) (id : Bytes)
    → member i.id (ids_of is) ≡ false
    → or_else (package_of is id) (if id == i.id then some i.key_package else f id)
      ≡ or_else (package_of (i ∷ is) id) (f id)
overlay i is f id once = elim (Bool-cases (id == i.id)) [
  | inl same ↦
      let at : id ≡ i.id = (eq_iff id i.id).0 same in
      let missing : package_of is id ≡ none =
        package_of-absent is id (subst (λ j. member j (ids_of is) ≡ false) (sym at) once) in
      let back : (i.id == id) ≡ true = (eq_iff i.id id).1 (sym at) in rw (missing, same, back) refl
  | inr apart ↦
      let back : (i.id == id) ≡ false = ground (arith, apart, eq_iff id i.id, eq_iff i.id id) in
      rw (apart, back) refl
]

set_at-index :
    (f : Bytes → Option Bytes) (p : Option Bytes) (k : Bytes) (ids : List Bytes)
    → Distinct ids
    → member k ids ≡ true
    → set_at (index_of k ids) p (map f ids) ≡ map (λ id. if id == k then p else f id) ids
unfolding set_at
set_at-index f p k [] different h = absurd (cc h)
set_at-index f p k (id ∷ ids) different h = elim (Bool-cases (id == k)) [
  | inl here ↦
      let later : member k ids ≡ false =
        subst (λ j. member j ids ≡ false) ((eq_iff id k).0 here) different.0 in
      rw here (
        ap (λ rest. p ∷ rest)
          (map-All f _ ids (
            All-of_member (λ j. f j ≡ (if j == k then p else f j)) ids
              (λ j there. apart_from f p k j ids later there))))
  | inr elsewhere ↦
      rw elsewhere
        (ap (◌∷◌ (f id)) (set_at-index f p k ids different.1 (ground (arith, h, elsewhere))))
]

place_packages-each :
    (ids : List Bytes) (is : List Installation) (f : Bytes → Option Bytes)
    → Distinct ids
    → Distinct (ids_of is)
    → All (λ i. member i.id ids ≡ true) is
    → place_packages (key_package_map ids 0 empty) is (map f ids)
      ≡ ok (map (λ id. or_else (package_of is id) (f id)) ids)
unfolding place_packages
place_packages-each ids [] f different once known = refl
place_packages-each ids (i ∷ is) f different once known =
    let place : key_package_map ids 0 empty i.id ≡ some (index_of i.id ids) =
      key_package_map-index ids 0 empty i.id different ∙ rw (known.0) (ap some (omega arith)) in
    rw
      (
        place_packages,
        place,
        set_at-index f (some i.key_package) i.id ids different known.0,
        place_packages-each ids is (λ id. if id == i.id then some i.key_package else f id) different
            once.1 known.1,
      )
      (ap ok (
        map-All _ _ ids (
          All-of_member
            (λ id.
              or_else (package_of is id) (if id == i.id then some i.key_package else f id)
              ≡ or_else (package_of (i ∷ is) id) (f id))
            ids (λ id there. overlay i is f id once.0))))

blank-map : (ids : List Bytes) → blank ids ≡ map (λ _. none) ids
unfolding blank
blank-map [] = refl
blank-map (id ∷ ids) = ap (λ rest. none ∷ rest) (blank-map ids)

kept_known :
    (ids : List Bytes) (is : List Installation)
    → All (λ i. member i.id ids ≡ true) (keep (λ i. member i.id ids) is)
kept_known ids [] = tt
kept_known ids (i ∷ is) = elim (Bool-cases (member i.id ids)) [
  | inl asked ↦ rw asked (asked, kept_known ids is)
  | inr spare ↦ rw spare (kept_known ids is)
]

kept_absent :
    (ids : List Bytes) (is : List Installation) (id : Bytes)
    → member id (ids_of is) ≡ false
    → member id (ids_of (keep (λ i. member i.id ids) is)) ≡ false
kept_absent ids [] id h = refl
kept_absent ids (i ∷ is) id h = ground (arith, h, kept_absent ids is id)

kept_once :
    (ids : List Bytes) (is : List Installation)
    → Distinct (ids_of is)
    → Distinct (ids_of (keep (λ i. member i.id ids) is))
kept_once ids [] h = tt
kept_once ids (i ∷ is) h = ground (arith, kept_absent ids is i.id h.0, kept_once ids is h.1)

kept_package :
    (ids : List Bytes) (is : List Installation) (id : Bytes)
    → member id ids ≡ true
    → or_else (package_of (keep (λ i. member i.id ids) is) id) none ≡ package_of is id
kept_package ids [] id asked = refl
kept_package ids (i ∷ is) id asked = elim (Bool-cases (i.id == id)) [
  | inl same ↦
      let known : member i.id ids ≡ true =
        subst (λ j. member j ids ≡ true) (sym ((eq_iff i.id id).0 same)) asked in
      rw (known, same) refl
  | inr apart ↦ elim (Bool-cases (member i.id ids)) [
    | inl known ↦ rw (known, apart) (kept_package ids is id asked)
    | inr spare ↦ rw (spare, apart) (kept_package ids is id asked)
  ]
]

-- If no key is asked for twice and no installation is stored twice, each place of the answer holds
-- the key package of the installation that the request names there, or nothing if it is not stored.
pub fetch_key_packages-each :
    (ids : List Bytes) (is : List Installation)
    → Distinct ids
    → Distinct (ids_of is)
    → fetch_key_packages ids is ≡ ok (map (package_of is) ids)
unfolding fetch_key_packages
fetch_key_packages-each ids is different once =
    let asked = keep (λ i. member i.id ids) is in
    ap (place_packages (key_package_map ids 0 empty) asked) (blank-map ids)
    ∙ place_packages-each ids asked (λ _. none) different (kept_once ids is once)
        (kept_known ids is)
    ∙ ap ok (
        map-All _ (package_of is) ids (
          All-of_member (λ id. or_else (package_of asked id) none ≡ package_of is id) ids
            (λ id there. kept_package ids is id there)))
