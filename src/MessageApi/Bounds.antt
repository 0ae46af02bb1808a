-- ===== src/MessageApi/Bounds.antt =====
-- How large the answers of the queries are.
use xmtp_node_go.MessageStore.Pages.{Fits, query-Fits, page_size-limited}
use xmtp_node_go.Base.{
  Bool-cases, Bytes, List, Option-cases, Result, [], arith, empty, err, false, inl, inr, length,
  ltb, none, ok, refl, some, subst, ◌==◌, ◌>>=◌, ◌∷◌, ◌≡◌, ◌≤◌, nat_eq, bytes_eq,
}
use xmtp_node_go.MessageStore.{QueryRequest, QueryResponse, MessageRow, get_page_size, paging_of}
use xmtp_node_go.MessageStore as store
use xmtp_node_go.MessageApi.{
  query, get_max_rows, max_rows_per_query, max_user_preferences_rows_per_query, query_in_batch,
  batch_query, query_each, max_queries_per_batch,
}
use xmtp_node_go.MlsService.{ServiceError}

module _ (sha256 : Bytes → Bytes) where
  -- An answer that is no error has at most the rows that its topics allow.
  abbrev pub Small : QueryRequest → Result ServiceError QueryResponse → Type 0
  Small req (ok response) = length response.envelopes ≤ get_max_rows req.content_topics
  Small req (err _) = Unit

  -- The answers of a batch, one to each of its requests.
  abbrev pub AllSmall : List QueryRequest → List QueryResponse → Type 0
  AllSmall [] [] = Unit
  AllSmall (req ∷ reqs) (response ∷ responses) =
      (length response.envelopes ≤ get_max_rows req.content_topics) × AllSmall reqs responses
  AllSmall _ _ = ⊥

  abbrev pub SmallBatch : List QueryRequest → Result ServiceError (List QueryResponse) → Type 0
  SmallBatch reqs (ok responses) = AllSmall reqs responses × (length reqs ≤ 50)
  SmallBatch reqs (err _) = Unit

  hundred-max : (topics : List Bytes) → 100 ≤ get_max_rows topics
  unfolding get_max_rows max_rows_per_query max_user_preferences_rows_per_query
  hundred-max [] = omega arith
  hundred-max (t ∷ []) = ground arith
  hundred-max (t ∷ u ∷ ts) = omega arith

  query-Small : (req : QueryRequest) (table : List MessageRow) → Small req (query sha256 req table)
  unfolding query
  query-Small req table =
      let most = get_max_rows req.content_topics in
      elim (Bool-cases (length req.content_topics == 0)) [
        | inl empty ↦ rw (query, empty) tt
        | inr named ↦
            elim (Bool-cases (elim req.paging_info [ none ↦ false | some p ↦ ltb most p.limit ])) [
              | inl large ↦ rw (query, named, large) tt
              | inr allowed ↦
                  let size =
                    page_size-limited req.paging_info most (hundred-max req.content_topics)
                      allowed in
                  let fits = query-Fits sha256 req table in
                  elim (Option-cases (store.query sha256 req table)) [
                    | inl panics ↦ rw (query, named, allowed, panics) tt
                    | inr (response, found) ↦
                        rw (query, named, allowed, found)
                          (omega (
                            arith,
                            size,
                            subst (Fits (get_page_size (paging_of req.paging_info))) found fits,
                          ))
                  ]
            ]
      ]

  batch-Small :
      (req : QueryRequest) (table : List MessageRow) → Small req (query_in_batch sha256 req table)
  unfolding query_in_batch
  batch-Small req table = by_answer (query sha256 req table) refl (query-Small req table)
    where
      by_answer :
          (answer : Result ServiceError QueryResponse)
          → query sha256 req table ≡ answer
          → Small req answer
          → Small req (query_in_batch sha256 req table)
      by_answer (ok response) e small = rw (query_in_batch, e) small
      by_answer (err xmtp_node_go.MlsService.panicked) e small = rw (query_in_batch, e) tt
      by_answer (err xmtp_node_go.MlsService.unavailable) e small = rw (query_in_batch, e) tt
      by_answer (err xmtp_node_go.MlsService.invalid_argument) e small = rw (query_in_batch, e) tt
      by_answer (err xmtp_node_go.MlsService.internal) e small = rw (query_in_batch, e) tt

  abbrev Answered : List QueryRequest → Result ServiceError (List QueryResponse) → Type 0
  Answered reqs (ok responses) = AllSmall reqs responses
  Answered reqs (err _) = Unit

  Answered-cons :
      (req : QueryRequest) (reqs : List QueryRequest) (answer : Result ServiceError QueryResponse)
      (rest : Result ServiceError (List QueryResponse))
      → Small req answer
      → Answered reqs rest
      → Answered
          (req ∷ reqs)
          (answer >>= λ response. rest >>= λ responses. ok (response ∷ responses))
  Answered-cons req reqs (ok response) (ok responses) small h = (small, h)
  Answered-cons req reqs (ok response) (err e) small h = tt
  Answered-cons req reqs (err e) rest small h = tt

  query_each-Answered :
      (reqs : List QueryRequest) (table : List MessageRow)
      → Answered reqs (query_each sha256 reqs table)
  unfolding query_each
  query_each-Answered [] table = tt
  query_each-Answered (req ∷ reqs) table =
      Answered-cons req reqs (query_in_batch sha256 req table) (query_each sha256 reqs table)
        (batch-Small req table) (query_each-Answered reqs table)

  limit-SmallBatch :
      (reqs : List QueryRequest) (rest : Result ServiceError (List QueryResponse))
      → ltb 50 (length reqs) ≡ false
      → Answered reqs rest
      → SmallBatch reqs rest
  limit-SmallBatch reqs (ok responses) few h = (h, ground (arith, few))
  limit-SmallBatch reqs (err e) few h = tt

  -- A batch of queries that is answered has at most 50 queries and one response for each, in their
  -- order, of at most 100 envelopes, or 500 where the query asks for the one topic of user
  -- preferences.
  pub batch_query-SmallBatch :
      (reqs : List QueryRequest) (table : List MessageRow)
      → SmallBatch reqs (batch_query sha256 reqs table)
  unfolding batch_query max_queries_per_batch
  batch_query-SmallBatch reqs table = elim (Bool-cases (ltb 50 (length reqs))) [
    | inl many ↦ rw (batch_query, many) tt
    | inr few ↦
        rw (batch_query, few)
          (limit-SmallBatch reqs (query_each sha256 reqs table) few
            (query_each-Answered reqs table))
  ]
