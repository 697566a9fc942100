-- ===== src/Retrieval/Answers.antt =====
-- What `RetrieveMemories` of knowledge/retrieval.go answers with.
use vessica_knowledge_server.Base.{positive_or, from_int, pos, ap}
use vessica_knowledge_server.Base.{
  ℕ, ◌≤◌, String, Bool, true, false, not, ◌&&◌, ◌||◌, ◌≡◌, refl, Option, none, some, List, [], ◌∷◌,
  Result, Result-cases, ok, err, Failure, ltb, nat_eq, length, member, All, All-take, All-sort_by,
  length-take, arith, Bool-cases, inl, inr,
}
use vessica_knowledge_server.Text.{trim_space, runes}
use vessica_knowledge_server.Models.{Memory, Entity}
use vessica_knowledge_server.Models.Retrieval.{
  RankedMemory, MemoryRetrievalRequest, MemoryRetrievalResponse,
}
use vessica_knowledge_server.Store.Tables.{Tables}
use vessica_knowledge_server.Store.Ancestors.{Visit}
use vessica_knowledge_server.Service.Host.{Host, Service}
use vessica_knowledge_server.Retrieval.Search.{search_memory_candidates}
use vessica_knowledge_server.Retrieval.Subjects.{memory_mentions_entity, no_runes}
use vessica_knowledge_server.Retrieval.Candidates.{Semantic, semantic_scores}
use vessica_knowledge_server.Retrieval.Scores.{scored, sort_ranked_memories}
use vessica_knowledge_server.Retrieval.Kept.{AllRanked, maybe_rerank-All}
use vessica_knowledge_server.Retrieval.Sound.{IsCurrent, IsEligible, candidates-All, search-All}
use vessica_knowledge_server.Retrieval.Retrieve.{
  World, check_request, expand_scopes, rank_candidates, ranked_candidates, score_in,
  retrieval_response, answer_for, is_ambiguous, retrieve_in, retrieve_memories,
}

module _ {A : Type 0} where
  some_same : {a b : A} → some a ≡ some b → a ≡ b
  some_same h = cc

  no_answer : {e : Failure} {a : A} → ¬ (◌≡◌ {A = Result A} (err e) (ok a))
  no_answer h = cc

  same_answer : {a b : A} → ◌≡◌ {A = Result A} (ok a) (ok b) → a ≡ b
  same_answer h = cc

-- The limit of a request that leaves it out, or gives a negative one, is 20.
abbrev pub limit_of : MemoryRetrievalRequest → ℕ
limit_of r = positive_or 20 r.limit

check_request-ok :
    (r q : MemoryRetrievalRequest)
    → check_request r ≡ ok q
    → (q.workspace_id ≡ r.workspace_id)
      × (q.scope_ids ≡ r.scope_ids)
      × (q.limit ≡ pos (limit_of r))
      × (limit_of r ≤ 100)
unfolding check_request
check_request-ok r q h = ground (arith, h)

-- What the expansion of the scopes makes of a request that passed the checks.
expanded :
    {F : Type 0} (v : Visit) (f : List String → Result (MemoryRetrievalResponse F))
    (response : MemoryRetrievalResponse F)
    → ◌≡◌ {A = Option (Result (MemoryRetrievalResponse F))}
        (elim v [ none ↦ none | some (err e) ↦ some (err e) | some (ok scopes) ↦ some (f scopes) ])
        (some (ok response))
    → (scopes : List String) × (v ≡ some (ok scopes)) × (f scopes ≡ ok response)
expanded none f response h = absurd cc
expanded (some (err e)) f response h = absurd cc
expanded (some (ok scopes)) f response h = (scopes, refl, cc)

module _ {F : Type 0} ⦃host : Host F⦄ (svc : Service F) (world : World F) (s : Tables F) where
  rank_candidates-All :
      (P : Memory F → Type 0) (r : MemoryRetrievalRequest) (subject : List ℕ)
      (related : List String) (entities : List Entity) (score : Memory F → Bool → RankedMemory F)
      → ((m : Memory F) (b : Bool) → (score m b).memory ≡ m)
      → (ms : List (Memory F)) → All P ms
      → AllRanked P (rank_candidates svc world s r subject related entities score ms)
  unfolding rank_candidates
  rank_candidates-All P r subject related entities score same [] h = tt
  rank_candidates-All P r subject related entities score same (m ∷ ms) h =
      let rest = rank_candidates-All P r subject related entities score same ms h.1 in
      let match = member m.id related || memory_mentions_entity host m entities in
      elim (Bool-cases
        (not (no_runes subject) && not (world.equal_fold (trim_space (runes m.subject)) subject))) [
          | inl other ↦ rw other rest
          | inr named ↦
              elim (Bool-cases
                ((ltb 0 (length r.entity_ids) || nat_eq (length entities) 1) && not match)) [
                  | inl apart ↦ rw (named, apart) rest
                  | inr kept ↦ rw (named, kept) (rw (same m match) h.0, rest)
                ]
        ]

  ranked_candidates-All :
      (r : MemoryRetrievalRequest) (lexical : List (Memory F)) (sem : Semantic F)
      → All (IsCurrent s r.workspace_id) lexical
      → AllRanked
          (IsEligible s r.workspace_id world.now r.scope_ids)
          (ranked_candidates svc world s r lexical sem)
  unfolding ranked_candidates sort_ranked_memories scored
  ranked_candidates-All r lexical sem h = All-sort_by _ _ _ (
      rank_candidates-All (IsEligible s r.workspace_id world.now r.scope_ids) r _ _ _
        (score_in svc world s r lexical sem) (λ m b. refl) _
        (candidates-All world.engine s r.workspace_id world.now r.scope_ids lexical sem h))

  answer_for-All :
      (P : Memory F → Type 0) (r : MemoryRetrievalRequest) (b : Bool)
      (ranked : List (RankedMemory F))
      → AllRanked P ranked
      → AllRanked P (answer_for svc world s r b ranked).results
  unfolding answer_for
  answer_for-All P r true ranked h = h
  answer_for-All P r false ranked h = maybe_rerank-All P svc world.latency r _ h

  retrieval_response-All :
      (P : Memory F → Type 0) (r : MemoryRetrievalRequest) (sem : Semantic F)
      (ranked : List (RankedMemory F))
      → AllRanked P ranked
      → AllRanked P (retrieval_response svc world s r sem ranked).results
        × (length (retrieval_response svc world s r sem ranked).results ≤ from_int r.limit)
  unfolding retrieval_response
  retrieval_response-All P r sem ranked h =
      let all = (answer_for svc world s r (is_ambiguous svc world s r ranked) ranked).results in
      (
        All-take _ (from_int r.limit) all (answer_for-All P r _ ranked h),
        omega (arith, length-take (from_int r.limit) all),
      )

  retrieve_in-All :
      (r : MemoryRetrievalRequest) (response : MemoryRetrievalResponse F)
      → retrieve_in svc world s r ≡ ok response
      → AllRanked (IsEligible s r.workspace_id world.now r.scope_ids) response.results
        × (length response.results ≤ from_int r.limit)
  unfolding retrieve_in
  retrieve_in-All r response h =
      elim (Result-cases
        (search_memory_candidates world.engine world.now r.workspace_id r.scope_ids r.query 50 s)) [
          | inr (e, failed) ↦ absurd (no_answer (rw (retrieve_in, failed) at h))
          | inl (lexical, found) ↦
              let all =
                search-All world.engine s r.workspace_id world.now r.scope_ids r.query 50 lexical
                  found in
              let sem =
                semantic_scores svc world.engine world.now r.workspace_id r.scope_ids r.query s in
              rw (← same_answer (rw (retrieve_in, found) at h)) (
                retrieval_response-All (IsEligible s r.workspace_id world.now r.scope_ids) r sem _
                  (ranked_candidates-All r lexical sem all))
        ]

  -- If `RetrieveMemories` answers, the results are at most as many as the limit of the request (20 if it
  -- gives none or a negative one), which is at most 100, and each of them is a row of the request's workspace that its
  -- current version points to, active, valid at the time, and in one of the scopes, if any, that
  -- `ScopeAncestors` expands those of the request to, whatever the reranker does.
  pub retrieve_memories-safe :
      (request : MemoryRetrievalRequest) (response : MemoryRetrievalResponse F)
      → retrieve_memories svc world s request ≡ some (ok response)
      → (length response.results ≤ limit_of request)
        × (limit_of request ≤ 100)
        × ((scopes : List String) × (expand_scopes world.fuel request.workspace_id request.scope_ids
                s
              ≡ some (ok scopes))
            × AllRanked (IsEligible s request.workspace_id world.now scopes) response.results)
  unfolding retrieve_memories
  retrieve_memories-safe request response h = elim (Result-cases (check_request request)) [
    | inr (e, failed) ↦ absurd (no_answer (some_same (rw (retrieve_memories, failed) at h)))
    | inl (r, passed) ↦
        let (own, given, limit, most) = check_request-ok request r passed in
        let (scopes, e, answer) =
          expanded (expand_scopes world.fuel r.workspace_id r.scope_ids s)
            (λ xs. retrieve_in svc world s (record r { scope_ids = xs })) response
            (rw (retrieve_memories, passed) at h) in
        let (all, few) = retrieve_in-All (record r { scope_ids = scopes }) response answer in
        let same : from_int r.limit ≡ limit_of request = ap from_int limit in
        (rw (← same) few, most, (scopes, (rw (← own, ← given) e), (rw (← own) all)))
  ]
