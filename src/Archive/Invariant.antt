-- ===== src/Archive/Invariant.antt =====
-- What stays true of the archive, whatever uploads and cycles of the backfill come in between.
use xmtp_node_go.Sorting.{sort_by-All}
use xmtp_node_go.Base.{
  All, All-map, Bytes, Distinct, List, [], bytes_eq, keep-All, map, subst, sym, take-All, true, ℕ,
  ◌∷◌, ◌≡◌,
}
use xmtp_node_go.Archive.{
  Installation, Tables, is_archived, create_or_update_installation, backfill_cycle, is_unappended,
  select_installations_to_backfill, update_is_appended_status, append_each,
}
use xmtp_node_go.Archive.Rows.{
  Archived, Agrees, each-Agrees, insert-kept, insert-there, upsert-DistinctIds, upsert-Archived,
  ids-update, update-Agrees, update-Archived,
}

-- What changes the tables.
pub data Action : Type 0 where
  upload : Bytes → Bytes → ℕ → Action
  backfill : Action

pub act : Action → Tables → Tables
unfolding create_or_update_installation backfill_cycle
act (upload id key_package now) t = create_or_update_installation id key_package now t
act backfill t = backfill_cycle t

pub act_all : List Action → Tables → Tables
unfolding act
act_all [] t = t
act_all (a ∷ actions) t = act_all actions (act a t)

abbrev pub IsTables : Tables → Type 0
IsTables t =
    Distinct ⦃key = bytes_eq⦄ (map (λ (i : Installation). i.id) t.installations)
    × All (Archived t.key_packages) t.installations

append_each-IsTables :
    (ks : List Installation) (t : Tables)
    → All (Agrees t.installations) ks
    → IsTables t
    → IsTables (append_each ks t)
unfolding append_each
append_each-IsTables [] t agree h = h
append_each-IsTables (k ∷ ks) t agree h =
    append_each-IsTables ks _
      (All-map {Q = Agrees (update_is_appended_status k.id t.installations)}
        (λ j. update-Agrees j k.id t.installations) ks agree.1)
      (
        subst (λ ids. Distinct ⦃key = bytes_eq⦄ ids) (sym (ids-update k.id t.installations)) h.0,
        update-Archived k k.created_at t.key_packages t.installations agree.0 h.1,
      )

append_each-kept :
    (a p : Bytes) (ks : List Installation) (t : Tables)
    → is_archived a p t.key_packages ≡ true
    → is_archived a p (append_each ks t).key_packages ≡ true
unfolding append_each
append_each-kept a p [] t h = h
append_each-kept a p (k ∷ ks) t h =
    append_each-kept a p ks _ (insert-kept a p k.id k.key_package k.created_at t.key_packages h)

act-IsTables : (a : Action) (t : Tables) → IsTables t → IsTables (act a t)
unfolding act create_or_update_installation backfill_cycle select_installations_to_backfill
act-IsTables (upload id kp now) t h = (
  upsert-DistinctIds id kp now t.installations h.0,
  upsert-Archived id kp now t.key_packages t.installations h.1,
)
act-IsTables backfill t h =
    append_each-IsTables _ t
      (take-All _ 100 _ (sort_by-All _ _ _ (keep-All _ is_unappended _ (each-Agrees _ h.0)))) h

act-kept :
    (a : Action) (id kp : Bytes) (t : Tables)
    → is_archived id kp t.key_packages ≡ true
    → is_archived id kp (act a t).key_packages ≡ true
unfolding act create_or_update_installation backfill_cycle
act-kept (upload i k now) id kp t h = insert-kept id kp i k now t.key_packages h
act-kept backfill id kp t h =
    append_each-kept id kp (select_installations_to_backfill t.installations) t h

-- Whatever uploads and cycles of the backfill follow, in any order: no two installations have the
-- same id, and every installation that is marked as appended has its key package in the archive.
pub act_all-IsTables :
    (actions : List Action) (t : Tables) → IsTables t → IsTables (act_all actions t)
unfolding act_all
act_all-IsTables [] t h = h
act_all-IsTables (a ∷ actions) t h = act_all-IsTables actions (act a t) (act-IsTables a t h)

act_all-kept :
    (actions : List Action) (id kp : Bytes) (t : Tables)
    → is_archived id kp t.key_packages ≡ true
    → is_archived id kp (act_all actions t).key_packages ≡ true
unfolding act_all
act_all-kept [] id kp t h = h
act_all-kept (a ∷ actions) id kp t h = act_all-kept actions id kp (act a t) (act-kept a id kp t h)

-- Every key package that was uploaded is in the archive, whatever uploads and cycles of the backfill
-- follow, later uploads of the same installation too.
pub uploaded-archived :
    (id kp : Bytes) (now : ℕ) (actions : List Action) (t : Tables)
    → is_archived id kp (act_all actions (create_or_update_installation id kp now t)).key_packages
      ≡ true
unfolding create_or_update_installation
uploaded-archived id kp now actions t =
    act_all-kept actions id kp _ (insert-there id kp now t.key_packages)
