-- ===== src/Identity/Publish.antt =====
-- What a publication does to the log of its inbox, on every outcome.

use xmtp_node_go.Base.{
  Bool, Bool-cases, Bytes, List, Option, Option-cases, Result, Result-cases, ap, arith, bind_inv,
  err, fail_if, fail_if_inv, false, inl, inr, leb, length, none, ok, ok_or, ok_or_inv, refl, some,
  subst, suc, sym, true, zero, ℕ, ◌<◌, ◌≡◌, ◌≢◌, ◌≤◌, ◌⊎◌,
}
use xmtp_node_go.Identity.{
  bad_proto, invalid_update, IdentityError, StateDiff, Tables, entries_of, publish_identity_update,
  publish_in_tx, run_in_repeatable_read_tx, unmarshal_all, write_update, inbox_log_is_full,
  invalid_hex,
}
use xmtp_node_go.Identity.Written.{Added, write_update-Added}

module _ {U : Type 0} (canonical : Bytes → Option Bytes) (marshal : U → Option Bytes)
    (unmarshal : Bytes → Option U) (get_association_state : List U → U → Option StateDiff)
    (now : ℕ) where
  -- A publication that was accepted: the text of the inbox is hex, its log was not full and its entries decode, the validation
  -- service accepts the update after them, and what is written is one entry.
  pub record Accepted (text : Bytes) (update : U) (db db' : Tables) : Type 0 where
    pub inbox_id : Bytes
    pub updates : List U
    pub diff : StateDiff
    pub proto : Bytes
    pub read : canonical text ≡ some inbox_id
    pub room : length (entries_of inbox_id db.inbox_log) < 256
    pub decoded : unmarshal_all unmarshal (entries_of inbox_id db.inbox_log) ≡ ok updates
    pub valid : get_association_state updates update ≡ some diff
    pub encoded : marshal update ≡ some proto
    pub written : Added now inbox_id proto diff db db'

  -- Why a publication fails.
  pub data Refused (text : Bytes) (update : U) (db : Tables) : Bool → Type 0 where
    disabled : Refused text update db true
    not_hex : {off : Bool} → canonical text ≡ none → Refused text update db off
    no_room :
        {off : Bool} (inbox_id : Bytes)
        → canonical text ≡ some inbox_id
        → 256 ≤ length (entries_of inbox_id db.inbox_log)
        → Refused text update db off
    undecoded :
        {off : Bool} (inbox_id : Bytes) (e : IdentityError)
        → canonical text ≡ some inbox_id
        → unmarshal_all unmarshal (entries_of inbox_id db.inbox_log) ≡ err e
        → Refused text update db off
    rejected :
        {off : Bool} (inbox_id : Bytes) (updates : List U)
        → canonical text ≡ some inbox_id
        → unmarshal_all unmarshal (entries_of inbox_id db.inbox_log) ≡ ok updates
        → get_association_state updates update ≡ none
        → Refused text update db off
    unencoded : {off : Bool} → marshal update ≡ none → Refused text update db off

  publish_in_tx-Refused :
      (text : Bytes) (update : U) (db : Tables) (e : IdentityError)
      → publish_in_tx canonical marshal unmarshal get_association_state now text update db ≡ err e
      → Refused text update db false
  unfolding publish_in_tx
  publish_in_tx-Refused text update db e h = elim (Option-cases (canonical text)) [
    | inl missing ↦ Refused.not_hex missing
    | inr (inbox_id, read) ↦
        let rows = entries_of inbox_id db.inbox_log in
        elim (Bool-cases (leb 256 (length rows))) [
          | inl full ↦ Refused.no_room inbox_id read (ground (arith, full))
          | inr room ↦ elim (Result-cases (unmarshal_all unmarshal rows)) [
            | inr (f, bad) ↦ Refused.undecoded inbox_id f read bad
            | inl (updates, decoded) ↦ elim (Option-cases (get_association_state updates update)) [
              | inl invalid ↦ Refused.rejected inbox_id updates read decoded invalid
              | inr (diff, valid) ↦ elim (Option-cases (marshal update)) [
                | inl bad ↦ Refused.unencoded bad
                | inr (proto, encoded) ↦
                    let good : publish_in_tx canonical marshal unmarshal get_association_state now
                          text update db
                        ≡ ok (write_update now inbox_id proto diff db) =
                      rw (publish_in_tx, read, room, decoded, valid, encoded) refl in
                    absurd (cc (good, h))
              ]
            ]
          ]
        ]
  ]

  publish_in_tx-Accepted :
      (text : Bytes) (update : U) (db db' : Tables)
      → publish_in_tx canonical marshal unmarshal get_association_state now text update db ≡ ok db'
      → Accepted text update db db'
  unfolding publish_in_tx
  publish_in_tx-Accepted text update db db' h0 =
      let (inbox_id, read, h) = bind_inv (ok_or invalid_hex (canonical text)) _ db' h0 in
      let (u, room, h1) =
        bind_inv (fail_if (leb 256 (length (entries_of inbox_id db.inbox_log))) inbox_log_is_full) _
          db' h in
      let (updates, decoded, h2) =
        bind_inv (unmarshal_all unmarshal (entries_of inbox_id db.inbox_log)) _ db' h1 in
      let (diff, valid, h3) =
        bind_inv (ok_or invalid_update (get_association_state updates update)) _ db' h2 in
      let (proto, encoded, h4) = bind_inv (ok_or bad_proto (marshal update)) _ db' h3 in
      record {
        inbox_id = inbox_id;
        read = ok_or_inv invalid_hex (canonical text) inbox_id read;
        updates = updates;
        diff = diff;
        proto = proto;
        room = ground (
          arith,
          fail_if_inv (leb 256 (length (entries_of inbox_id db.inbox_log))) inbox_log_is_full u
              room,
        );
        decoded = decoded;
        valid = ok_or_inv invalid_update (get_association_state updates update) diff valid;
        encoded = ok_or_inv bad_proto (marshal update) proto encoded;
        written =
            subst (Added now inbox_id proto diff db)
              (ap (λ r. (elim r [ ok t ↦ t | err _ ↦ db' ])) h4)
              (write_update-Added now inbox_id proto diff db);
      }

  Outcome :
      (Tables → Result IdentityError Tables)
      → Tables
      → Result IdentityError (Unit {0}) × Tables
      → Type 0
  Outcome fn db (result, db') =
      ((result ≢ ok tt) × (db' ≡ db) × ((e : IdentityError) × (fn db ≡ err e)))
      ⊎ ((result ≡ ok tt) × (fn db ≡ ok db'))

  after_try :
      (n : ℕ) (fn : Tables → Result IdentityError Tables) (last : Result IdentityError (Unit {0}))
      (db : Tables) (o : Result IdentityError Tables)
      → fn db ≡ o
      → ((e : IdentityError)
          → fn db ≡ err e
          → Outcome fn db (run_in_repeatable_read_tx n (err e) fn db))
      → Outcome fn db (run_in_repeatable_read_tx (suc n) last fn db)
  unfolding run_in_repeatable_read_tx Outcome
  after_try n fn last db (ok t) at again =
      let now : run_in_repeatable_read_tx (suc n) last fn db ≡ (ok tt, t) =
        rw (run_in_repeatable_read_tx, at) refl in
      subst (Outcome fn db) (sym now) (inr (refl, at))
  after_try n fn last db (err e) at again =
      let now : run_in_repeatable_read_tx (suc n) last fn db
          ≡ run_in_repeatable_read_tx n (err e) fn db =
        rw (run_in_repeatable_read_tx, at) refl in
      subst (Outcome fn db) (sym now) (again e at)

  run-Outcome :
      (n : ℕ) (fn : Tables → Result IdentityError Tables) (last : Result IdentityError (Unit {0}))
      (db : Tables)
      → Outcome fn db (run_in_repeatable_read_tx (suc n) last fn db)
  unfolding run_in_repeatable_read_tx Outcome
  run-Outcome zero fn last db =
      after_try zero fn last db (fn db) refl (λ e at. inl ((λ h. cc h), refl, (e, at)))
  run-Outcome (suc n) fn last db =
      after_try (suc n) fn last db (fn db) refl (λ e at. run-Outcome n fn (err e) db)

  -- A publication either fails and leaves every table as it was, for one of six reasons:
  -- publishing is disabled, the text of the inbox is not hex, its log has 256 entries or more, one
  -- of them cannot be decoded, the validation service rejects the update after them, or the update
  -- cannot be encoded; or it is accepted: publishing is enabled, the text of the inbox is hex, its
  -- log had fewer than 256 entries, and the validation service accepts the update after the
  -- updates that those entries decode to. Then one entry is added, with the encoded update, its
  -- time and the next sequence number, which moves on by one. The address log has the associations
  -- it had, and after them one of the inbox under that number for each new Ethereum address that
  -- the service gives; the rows of the other inboxes are as they were.
  pub publish_identity_update-Outcome :
      (publish_disabled : Bool) (text : Bytes) (update : U) (db : Tables)
      → (((publish_identity_update canonical marshal unmarshal get_association_state now
              publish_disabled text
              (some update)
              db).0
            ≢ ok tt)
          × ((publish_identity_update canonical marshal unmarshal get_association_state now
                publish_disabled text
                (some update)
                db).1
              ≡ db)
          × Refused text update db publish_disabled)
        ⊎ ((publish_disabled ≡ false)
            × ((publish_identity_update canonical marshal unmarshal get_association_state now
                  publish_disabled text
                  (some update)
                  db).0
                ≡ ok tt)
            × Accepted text update db
                (publish_identity_update canonical marshal unmarshal get_association_state now
                  publish_disabled text
                  (some update)
                  db).1)
  unfolding publish_identity_update Outcome
  publish_identity_update-Outcome true text update db = inl ((λ h. cc h), refl, Refused.disabled)
  publish_identity_update-Outcome false text update db =
      let body = publish_in_tx canonical marshal unmarshal get_association_state now text update in
      elim (run-Outcome 2 body (ok tt) db) [
        | inl (failed, kept, (e, at)) ↦
            inl (failed, kept, publish_in_tx-Refused text update db e at)
        | inr (fine, done) ↦ inr (refl, fine, publish_in_tx-Accepted text update db _ done)
      ]
