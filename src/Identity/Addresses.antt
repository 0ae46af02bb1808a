-- ===== src/Identity/Addresses.antt =====
-- The inbox of an address after a publication that adds it.
use xmtp_node_go.Base.{
  All, All-append, Bool, Bool-cases, Bytes, List, Option, [], ap, arith, eq_iff, eq_self, false,
  if◌then◌else◌, inl, inr, member, none, refl, some, subst, sym, true, ℕ, ◌&&◌, ◌++◌, ◌<◌, ◌==◌,
  ◌||◌, ◌∙◌, ◌∷◌, ◌≡◌, ◌≤◌, nat_eq, bytes_eq,
}
use xmtp_node_go.Identity.{
  AddressLogRow, MemberIdentifier, StateDiff, Tables, ethereum_address, other_member, find_inbox,
  get_address_logs, get_inbox_ids, insert_addresses, is_max, last_association, max_association,
  max_of, revoke_addresses, revoke_rows, unrevoked, write_update,
}

-- An Ethereum address among some members.
abbrev pub adds : Bytes → List MemberIdentifier → Bool
adds a [] = false
adds a (ethereum_address b ∷ members) = b == a || adds a members
adds a (other_member m ∷ members) = adds a members

-- The associations are all earlier than a sequence number.
abbrev pub Below : ℕ → List AddressLogRow → Type 0
Below s = All (λ r. r.association_sequence_id < s)

module _ (a inbox : Bytes) (s : ℕ) where
  -- An association of the address by the publication, which stands.
  abbrev fresh : AddressLogRow → Bool
  fresh r = r.address == a && (r.association_sequence_id == s && unrevoked r)

  abbrev any_fresh : List AddressLogRow → Bool
  any_fresh [] = false
  any_fresh (r ∷ log) = fresh r || any_fresh log

  -- Of the rows of the address, none is later than the publication, and those of the publication
  -- name its inbox and stand.
  abbrev Top : AddressLogRow → Type 0
  Top r =
      (r.address == a) ≡ true
      → (r.association_sequence_id ≤ s)
        × ((r.association_sequence_id == s) ≡ true → (r.inbox_id ≡ inbox) × (unrevoked r ≡ true))

  abbrev AtMost : Option ℕ → Type 0
  AtMost none = Unit
  AtMost (some m) = m ≤ s

  max_of-AtMost : (o : Option ℕ) (n : ℕ) → AtMost o → n ≤ s → max_of o n ≤ s
  unfolding max_of
  max_of-AtMost none n h l = l
  max_of-AtMost (some m) n h l = ground (arith, h, l)

  max_of-top : (o : Option ℕ) (n : ℕ) → AtMost o → n ≡ s → max_of o n ≡ s
  unfolding max_of
  max_of-top none n h e = e
  max_of-top (some m) n h e = ground (arith, h, e)

  max_of-keeps : (n : ℕ) → n ≤ s → max_of (some s) n ≡ s
  unfolding max_of
  max_of-keeps n l = ground (arith, l)

  max_low : (log : List AddressLogRow) → All Top log → AtMost (max_association a log)
  unfolding max_association
  max_low [] tops = tt
  max_low (r ∷ log) tops = elim (Bool-cases (r.address == a && unrevoked r)) [
    | inl counted ↦
        rw (max_association, counted)
          (max_of-AtMost (max_association a log) r.association_sequence_id (max_low log tops.1)
            (tops.0 (ground (arith, counted))).0)
    | inr not_counted ↦ rw (max_association, not_counted) (max_low log tops.1)
  ]

  max_bound :
      (log : List AddressLogRow)
      → All Top log
      → any_fresh log ≡ true
      → max_association a log ≡ some s
  unfolding max_association
  max_bound [] tops h = absurd (cc h)
  max_bound (r ∷ log) tops h = elim (Bool-cases (fresh r)) [
    | inl here ↦
        let counted : (r.address == a && unrevoked r) ≡ true = ground (arith, here) in
        let at : r.association_sequence_id ≡ s =
          (eq_iff r.association_sequence_id s).0 (ground (arith, here)) in
        rw (max_association, counted)
          (ap some
            (max_of-top (max_association a log) r.association_sequence_id (max_low log tops.1) at))
    | inr elsewhere ↦
        let rest = max_bound log tops.1 (ground (arith, h, elsewhere)) in
        elim (Bool-cases (r.address == a && unrevoked r)) [
          | inl counted ↦
              rw (max_association, counted, rest)
                (ap some
                  (max_of-keeps r.association_sequence_id (tops.0 (ground (arith, counted))).0))
          | inr not_counted ↦ rw (max_association, not_counted) rest
        ]
  ]

  picked-fresh :
      (whole : List AddressLogRow) (r : AddressLogRow)
      → max_association a whole ≡ some s
      → Top r
      → (member r.address (a ∷ []) && is_max r (max_association r.address whole)) ≡ fresh r
  unfolding is_max
  picked-fresh whole r top mine = elim (Bool-cases (r.address == a)) [
    | inl same ↦
        let at : max_association r.address whole ≡ some s =
          ap (λ k. max_association k whole) ((eq_iff r.address a).0 same) ∙ top in
        rw at (ground (arith, same, eq_iff r.address a, eq_iff a r.address, (mine same).1))
    | inr other ↦ ground (arith, other, eq_iff r.address a, eq_iff a r.address)
  ]

  find-fresh :
      (whole log : List AddressLogRow) (found : Option Bytes)
      → max_association a whole ≡ some s
      → All Top log
      → find_inbox a (get_address_logs (a ∷ []) whole log) found
        ≡ (if any_fresh log then some inbox else found)
  unfolding find_inbox get_address_logs
  find-fresh whole [] found top tops = refl
  find-fresh whole (r ∷ log) found top tops =
      rw (get_address_logs, picked-fresh whole r top tops.0)
        (elim (Bool-cases (fresh r)) [
          | inl here ↦
              let mine : (r.address == a) ≡ true = ground (arith, here) in
              let inbox_here : r.inbox_id ≡ inbox = ((tops.0 mine).1 (ground (arith, here))).0 in
              rw
                (
                  here,
                  find_inbox,
                  mine,
                  find-fresh whole log (some r.inbox_id) top tops.1,
                  inbox_here,
                )
                (ground arith)
          | inr elsewhere ↦ rw (elsewhere, find-fresh whole log found top tops.1) refl
        ])

  Below-Top : (log : List AddressLogRow) → Below s log → All Top log
  Below-Top [] h = tt
  Below-Top (r ∷ log) h =
      ((λ mine. (omega (arith, h.0), λ at. ground (arith, at, h.0))), Below-Top log h.1)

  any_fresh-append :
      (xs ys : List AddressLogRow) → any_fresh (xs ++ ys) ≡ (any_fresh xs || any_fresh ys)
  any_fresh-append [] ys = refl
  any_fresh-append (x ∷ xs) ys = ground (arith, any_fresh-append xs ys)

  insert-Top :
      (members : List MemberIdentifier) (log : List AddressLogRow)
      → All Top log
      → All Top (insert_addresses inbox s members log)
  unfolding insert_addresses unrevoked
  insert-Top [] log tops = tops
  insert-Top (ethereum_address b ∷ members) log tops =
      insert-Top members _
        (All-append Top log _ tops (λ mine. (omega arith, λ at. (refl, refl)), tt))
  insert-Top (other_member m ∷ members) log tops = insert-Top members log tops

  insert-fresh :
      (members : List MemberIdentifier) (log : List AddressLogRow)
      → (adds a members || any_fresh log) ≡ true
      → any_fresh (insert_addresses inbox s members log) ≡ true
  unfolding insert_addresses unrevoked
  insert-fresh [] log h = h
  insert-fresh (ethereum_address b ∷ members) log h =
      insert-fresh members _ (rw (any_fresh-append log _) (ground (arith, h, eq_self s)))
  insert-fresh (other_member m ∷ members) log h = insert-fresh members log h

  not_same :
      (b : Bytes) (r : AddressLogRow)
      → (b == a) ≡ false
      → (r.address == b) ≡ true
      → (r.address == a) ≡ false
  not_same b r other at = subst (λ k. (k == a) ≡ false) (sym ((eq_iff r.address b).0 at)) other

  revoke_rows-Top :
      (b : Bytes) (last : ℕ) (log : List AddressLogRow)
      → (b == a) ≡ false
      → All Top log
      → All Top (revoke_rows b inbox last s log)
  unfolding revoke_rows
  revoke_rows-Top b last [] other tops = tt
  revoke_rows-Top b last (r ∷ log) other tops =
      elim (Bool-cases
        (r.address == b && r.inbox_id == inbox && r.association_sequence_id == last)) [
          | inl hit ↦
              let apart = not_same b r other (ground (arith, hit)) in
              rw (revoke_rows, hit)
                ((λ mine. absurd (cc (apart, mine))), revoke_rows-Top b last log other tops.1)
          | inr miss ↦ rw (revoke_rows, miss) (tops.0, revoke_rows-Top b last log other tops.1)
        ]

  revoke_rows-fresh :
      (b : Bytes) (last : ℕ) (log : List AddressLogRow)
      → (b == a) ≡ false
      → any_fresh (revoke_rows b inbox last s log) ≡ any_fresh log
  unfolding revoke_rows
  revoke_rows-fresh b last [] other = refl
  revoke_rows-fresh b last (r ∷ log) other =
      elim (Bool-cases
        (r.address == b && r.inbox_id == inbox && r.association_sequence_id == last)) [
          | inl hit ↦
              let apart = not_same b r other (ground (arith, hit)) in
              rw (revoke_rows, hit) (ground (arith, apart, revoke_rows-fresh b last log other))
          | inr miss ↦ rw (revoke_rows, miss) (ground (arith, revoke_rows-fresh b last log other))
        ]

  revoke-kept :
      (members : List MemberIdentifier) (log : List AddressLogRow)
      → adds a members ≡ false
      → All Top log
      → any_fresh log ≡ true
      → All Top (revoke_addresses inbox s members log)
        × (any_fresh (revoke_addresses inbox s members log) ≡ true)
  unfolding revoke_addresses
  revoke-kept [] log none_removed tops h = (tops, h)
  revoke-kept (ethereum_address b ∷ members) log none_removed tops h =
      let other : (b == a) ≡ false = ground (arith, none_removed) in
      let last = last_association b inbox log in
      revoke-kept members (revoke_rows b inbox last s log) (ground (arith, none_removed))
        (revoke_rows-Top b last log other tops) (revoke_rows-fresh b last log other ∙ h)
  revoke-kept (other_member m ∷ members) log none_removed tops h =
      revoke-kept members log none_removed tops h

-- Where the associations so far are earlier than the next sequence number, a publication that adds an
-- Ethereum address and does not remove it makes its inbox the one that the address is resolved to.
pub get_inbox_ids-added :
    (now : ℕ) (a inbox proto : Bytes) (diff : StateDiff) (db : Tables)
    → Below db.next_sequence_id db.address_log
    → adds a diff.new_members ≡ true
    → adds a diff.removed_members ≡ false
    → get_inbox_ids (a ∷ []) (write_update now inbox proto diff db) ≡ (a, some inbox) ∷ []
unfolding get_inbox_ids write_update
get_inbox_ids-added now a inbox proto diff db earlier added kept =
    let s = db.next_sequence_id in
    let tops =
      insert-Top a inbox s diff.new_members db.address_log
        (Below-Top a inbox s db.address_log earlier) in
    let there = insert-fresh a inbox s diff.new_members db.address_log (ground (arith, added)) in
    let (tops', there') = revoke-kept a inbox s diff.removed_members _ kept tops there in
    ap (λ found. (a, found) ∷ [])
      (find-fresh a inbox s _ _ none (max_bound a inbox s _ tops' there') tops' ∙ rw there' refl)
