-- ===== src/Identity/Written.antt =====
-- What the transaction of a publication writes to the tables.
use mathlib.Core.List.{append_assoc}
use xmtp_node_go.Base.{
  Bytes, List, [], ap, arith, eq_self, keep, keep-append, map, not, refl, sym, ℕ, ◌++◌, ◌+◌, ◌==◌,
  ◌∙◌, ◌∷◌, ◌≡◌, nat_eq, bytes_eq,
}
use xmtp_node_go.Identity.{
  StateDiff, Tables, write_update, MemberIdentifier, insert_addresses, revoke_rows, AddressLogRow,
  revoke_addresses, ethereum_address, last_association, other_member,
}

-- A row of the address log, less its revocation.
abbrev pub association : AddressLogRow → Bytes × Bytes × ℕ
association r = (r.address, r.inbox_id, r.association_sequence_id)

-- The associations that some new members make: one for each Ethereum address.
abbrev pub associations_of : Bytes → ℕ → List MemberIdentifier → List (Bytes × Bytes × ℕ)
associations_of inbox_id s [] = []
associations_of inbox_id s (ethereum_address a ∷ members) =
    (a, inbox_id, s) ∷ associations_of inbox_id s members
associations_of inbox_id s (other_member m ∷ members) = associations_of inbox_id s members

-- The rows of the other inboxes.
abbrev pub others_of : Bytes → List AddressLogRow → List AddressLogRow
others_of inbox_id = keep (λ r. not (r.inbox_id == inbox_id))

append_nil {ℓ} : {A : Type ℓ} (xs : List A) → xs ++ [] ≡ xs
append_nil [] = refl
append_nil (x ∷ xs) = ap (λ rest. x ∷ rest) (append_nil xs)

map-append :
    (rows more : List AddressLogRow)
    → map association (rows ++ more) ≡ map association rows ++ map association more
map-append [] more = refl
map-append (r ∷ rows) more = ap (λ rest. association r ∷ rest) (map-append rows more)

insert_addresses-associations :
    (inbox_id : Bytes) (s : ℕ) (members : List MemberIdentifier) (log : List AddressLogRow)
    → map association (insert_addresses inbox_id s members log)
      ≡ map association log ++ associations_of inbox_id s members
unfolding insert_addresses
insert_addresses-associations inbox_id s [] log = sym (append_nil (map association log))
insert_addresses-associations inbox_id s (ethereum_address a ∷ members) log =
    insert_addresses-associations inbox_id s members _
    ∙ ap (λ rows. rows ++ associations_of inbox_id s members) (map-append log _)
    ∙ append_assoc (map association log) _ _
insert_addresses-associations inbox_id s (other_member m ∷ members) log =
    insert_addresses-associations inbox_id s members log

insert_addresses-others :
    (inbox_id : Bytes) (s : ℕ) (members : List MemberIdentifier) (log : List AddressLogRow)
    → others_of inbox_id (insert_addresses inbox_id s members log) ≡ others_of inbox_id log
unfolding insert_addresses
insert_addresses-others inbox_id s [] log = refl
insert_addresses-others inbox_id s (ethereum_address a ∷ members) log =
    insert_addresses-others inbox_id s members _
    ∙ keep-append _ log _
    ∙ rw (eq_self inbox_id) (append_nil (others_of inbox_id log))
insert_addresses-others inbox_id s (other_member m ∷ members) log =
    insert_addresses-others inbox_id s members log

revoke_rows-associations :
    (a inbox_id : Bytes) (last s : ℕ) (log : List AddressLogRow)
    → map association (revoke_rows a inbox_id last s log) ≡ map association log
unfolding revoke_rows
revoke_rows-associations a inbox_id last s [] = refl
revoke_rows-associations a inbox_id last s (r ∷ log) =
    ground (arith, revoke_rows-associations a inbox_id last s log)

revoke_rows-others :
    (a inbox_id : Bytes) (last s : ℕ) (log : List AddressLogRow)
    → others_of inbox_id (revoke_rows a inbox_id last s log) ≡ others_of inbox_id log
unfolding revoke_rows
revoke_rows-others a inbox_id last s [] = refl
revoke_rows-others a inbox_id last s (r ∷ log) =
    ground (arith, revoke_rows-others a inbox_id last s log)

revoke_addresses-associations :
    (inbox_id : Bytes) (s : ℕ) (members : List MemberIdentifier) (log : List AddressLogRow)
    → map association (revoke_addresses inbox_id s members log) ≡ map association log
unfolding revoke_addresses
revoke_addresses-associations inbox_id s [] log = refl
revoke_addresses-associations inbox_id s (ethereum_address a ∷ members) log =
    revoke_addresses-associations inbox_id s members _
    ∙ revoke_rows-associations a inbox_id (last_association a inbox_id log) s log
revoke_addresses-associations inbox_id s (other_member m ∷ members) log =
    revoke_addresses-associations inbox_id s members log

revoke_addresses-others :
    (inbox_id : Bytes) (s : ℕ) (members : List MemberIdentifier) (log : List AddressLogRow)
    → others_of inbox_id (revoke_addresses inbox_id s members log) ≡ others_of inbox_id log
unfolding revoke_addresses
revoke_addresses-others inbox_id s [] log = refl
revoke_addresses-others inbox_id s (ethereum_address a ∷ members) log =
    revoke_addresses-others inbox_id s members _
    ∙ revoke_rows-others a inbox_id (last_association a inbox_id log) s log
revoke_addresses-others inbox_id s (other_member m ∷ members) log =
    revoke_addresses-others inbox_id s members log

-- What a publication adds to the tables: one entry of the log, under the next sequence number, and the
-- associations of the new Ethereum addresses under that number. The associations so far stay, with
-- the rows of the other inboxes as they were.
pub record Added (now : ℕ) (inbox_id proto : Bytes) (diff : StateDiff) (db db' : Tables)
    : Type 0 where
  pub entry :
      db'.inbox_log
      ≡ db.inbox_log
        ++ record {
          sequence_id = db.next_sequence_id;
          inbox_id = inbox_id;
          server_timestamp_ns = now;
          identity_update_proto = proto;
        }
          ∷ []
  pub next : db'.next_sequence_id ≡ db.next_sequence_id + 1
  pub associated :
      map association db'.address_log
      ≡ map association db.address_log
        ++ associations_of inbox_id db.next_sequence_id diff.new_members
  pub others : others_of inbox_id db'.address_log ≡ others_of inbox_id db.address_log

pub write_update-Added :
    (now : ℕ) (inbox_id proto : Bytes) (diff : StateDiff) (db : Tables)
    → Added now inbox_id proto diff db (write_update now inbox_id proto diff db)
unfolding write_update
write_update-Added now inbox_id proto diff db =
    let s = db.next_sequence_id in
    record {
      entry = refl;
      next = refl;
      associated =
          revoke_addresses-associations inbox_id s diff.removed_members _
          ∙ insert_addresses-associations inbox_id s diff.new_members db.address_log;
      others =
          revoke_addresses-others inbox_id s diff.removed_members _
          ∙ insert_addresses-others inbox_id s diff.new_members db.address_log;
    }
