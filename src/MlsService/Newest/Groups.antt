-- ===== src/MlsService/Newest/Groups.antt =====
-- GetNewestGroupMessage against a lookup of each group's last row.
use xmtp_node_go.Base.{
  All-of_member, Bool, Bool-cases, Bytes, List, Option, [], ap, arith, empty, eq_iff, false,
  if◌then◌else◌, inl, inr, insert, length, map, map-All, member, none, not, ok, refl, some, subst,
  true, ℕ, ◌&&◌, ◌==◌, ◌∙◌, ◌∷◌, ◌≡◌, nat_eq, bytes_eq,
}
use mathlib.Core.Option
use mathlib.Core.List.{map-map}
use xmtp_node_go.MlsService.Newest.{
  NewestMessage, newest_rows, result_map, get_newest_rows, get_newest_group_message,
  convert_newest_message_to_proto, convert_newest_message_metadata_to_proto,
}
use xmtp_node_go.Store.{GroupMessageRow}

-- The last row of a group, or `found` if it has none.
abbrev pub last_row : Bytes → List GroupMessageRow → Option GroupMessageRow → Option GroupMessageRow
last_row g [] found = found
last_row g (m ∷ ms) found = last_row g ms (if m.group_id == g then some m else found)

abbrev groups_of : List GroupMessageRow → List Bytes
groups_of = map (λ r. r.group_id)

result_map-last :
    (g : Bytes) (ms : List GroupMessageRow) (found : Bytes → Option GroupMessageRow)
    → result_map ms found g ≡ last_row g ms (found g)
unfolding result_map
result_map-last g [] found = refl
result_map-last g (m ∷ ms) found = result_map-last g ms (insert m.group_id m found)

last_row-later :
    (g : Bytes) (ms : List GroupMessageRow) (a b : Option GroupMessageRow)
    → member g (groups_of ms) ≡ true
    → last_row g ms a ≡ last_row g ms b
last_row-later g [] a b there = absurd (cc there)
last_row-later g (m ∷ ms) a b there = elim (Bool-cases (m.group_id == g)) [
  | inl same ↦ rw same refl
  | inr other ↦ rw other (last_row-later g ms a b (ground (arith, there, other)))
]

last_row-newest :
    (ids : List Bytes) (g : Bytes) (ms : List GroupMessageRow) (found : Option GroupMessageRow)
    → member g ids ≡ true
    → last_row g (newest_rows ids ms) found ≡ last_row g ms found
unfolding newest_rows
last_row-newest ids g [] found asked = refl
last_row-newest ids g (m ∷ ms) found asked =
    elim (Bool-cases (member m.group_id ids && not (member m.group_id (groups_of ms)))) [
      | inl kept ↦
          rw (newest_rows, kept)
            (last_row-newest ids g ms (if m.group_id == g then some m else found) asked)
      | inr dropped ↦ elim (Bool-cases (m.group_id == g)) [
        | inl same ↦
            let group : m.group_id ≡ g = (eq_iff m.group_id g).0 same in
            let later : member g (groups_of ms) ≡ true = ground (
              arith,
              asked,
              subst (λ j. (member j ids && not (member j (groups_of ms))) ≡ false) group dropped,
            ) in
            rw (newest_rows, dropped, same)
              (last_row-newest ids g ms found asked ∙ last_row-later g ms found (some m) later)
        | inr other ↦ rw (newest_rows, dropped, other) (last_row-newest ids g ms found asked)
      ]
    ]

-- What is answered of a row: all of it, or the id, the group, the time and the commit mark alone.
abbrev pub shown : (ℕ → ℕ) → Bool → GroupMessageRow → NewestMessage
shown created_ns true r = record {
  id = r.id;
  group_id = r.group_id;
  created_ns = created_ns r.id;
  payload = r.payload;
  should_push = r.should_push;
  sender_hmac = r.sender_hmac;
  is_commit = r.is_commit;
}
shown created_ns false r = record {
  id = r.id;
  group_id = r.group_id;
  created_ns = created_ns r.id;
  payload = [];
  should_push = false;
  sender_hmac = [];
  is_commit = r.is_commit;
}

-- A request that names at least one group gets one place for each, in its order and with repeats,
-- which holds the last stored message of that group, or nothing if the group has none, whatever other
-- groups are asked for. With content the place has every field of the message; without, the id, the
-- group, the time of creation and the commit mark, and no payload, no push mark and no HMAC.
pub get_newest_group_message-each :
    (created_ns : ℕ → ℕ) (ids : List Bytes) (include_content : Bool) (table : List GroupMessageRow)
    → (length ids == 0) ≡ false
    → get_newest_group_message created_ns ids include_content table
      ≡ ok (map (λ g. Option.map (shown created_ns include_content) (last_row g table none)) ids)
unfolding get_newest_group_message get_newest_rows convert_newest_message_to_proto
    convert_newest_message_metadata_to_proto
get_newest_group_message-each created_ns ids include_content table named =
    let convert =
      if include_content
      then convert_newest_message_to_proto created_ns
      else convert_newest_message_metadata_to_proto created_ns in
    let rows : map (result_map (newest_rows ids table) empty) ids
        ≡ map (λ g. last_row g table none) ids =
      map-All (result_map (newest_rows ids table) empty) (λ g. last_row g table none) ids
        (All-of_member (λ g. result_map (newest_rows ids table) empty g ≡ last_row g table none) ids
          (λ g there.
            result_map-last g (newest_rows ids table) empty
            ∙ last_row-newest ids g table none there)) in
    let same : convert ≡ shown created_ns include_content = elim (Bool-cases include_content) [
      | inl whole ↦ rw whole refl
      | inr brief ↦ rw brief refl
    ] in
    rw named (
      ap (λ rs. ok (map (Option.map convert) rs)) rows
      ∙ ap ok (map-map (Option.map convert) (λ g. last_row g table none) ids)
      ∙ ap (λ f. ok (map (λ g. Option.map f (last_row g table none)) ids)) same)
