-- ===== src/Retrieval/Retrieve.antt =====
-- `RetrieveMemories` of knowledge/retrieval.go. The clock stands still during a call. `fuel` bounds the
-- recursion of `ScopeAncestors`; `none` says that it goes on. Failures of the database itself are not
-- modelled, but for a refused full-text query.
use Prim.Native.Nat.{min}
use vessica_knowledge_server.Base.{positive_or, from_int, pos}
use vessica_knowledge_server.Base.{
  ℕ, String, Bool, true, false, not, ◌&&◌, ◌||◌, Option, none, some, List, [], ◌∷◌, ◌++◌, Result,
  ok, err, invalid, map, nat_eq, ltb, length, take, member, if◌then◌else◌,
}
use vessica_knowledge_server.Models.{api_version, Memory, Entity}
use vessica_knowledge_server.Models.Retrieval.{
  RankedMemory, MemoryRetrievalRequest, MemoryRetrievalResponse,
}
use vessica_knowledge_server.Text.{trimmed, trim_space, runes}
use vessica_knowledge_server.Store.Tables.{Tables}
use vessica_knowledge_server.Store.Queries.{resolve_entities, related_object_ids}
use vessica_knowledge_server.Store.Ancestors.{Visit, scope_ancestors}
use vessica_knowledge_server.Store.Jobs.{embedding_backlog}
use vessica_knowledge_server.Service.Host.{Host, Service}
use vessica_knowledge_server.Service.Rules.{is_empty, default_string}
use vessica_knowledge_server.Retrieval.Search.{Engine, search_memory_candidates}
use vessica_knowledge_server.Retrieval.Subjects.{
  canonical_candidate_subject, memory_mentions_entity, ambiguous_candidate_subjects, no_runes,
}
use vessica_knowledge_server.Retrieval.Scores.{scored, sort_ranked_memories, ranking_mechanism}
use vessica_knowledge_server.Retrieval.Candidates.{
  Semantic, add_entities, semantic_scores, semantic_ids, candidates, lexical_rank, semantic_rank,
}
use vessica_knowledge_server.Retrieval.Rerank.{Answer, with_reason, maybe_rerank}

-- What a call reads from the world: the database's search, Go's `strings.EqualFold`, the clock, the time
-- that the reranker takes, and the fuel.
pub record World (F : Type 0) : Type 0 where
  pub engine : Engine F
  pub equal_fold : List ℕ → List ℕ → Bool
  pub now : ℕ
  pub latency : ℕ
  pub fuel : ℕ

-- The defaults and the checks of the request.
unfoldable pub check_request : MemoryRetrievalRequest → Result MemoryRetrievalRequest
unfolding default_string
check_request r =
    let limit = positive_or 20 r.limit in
    let rerank = default_string r.rerank "auto" in
    if is_empty r.workspace_id
    then err (invalid "workspace_id required")
    else if ltb 100 limit
    then err (invalid "limit must not exceed 100")
    else if not (member rerank ("auto" ∷ "never" ∷ "always" ∷ []))
    then err (invalid "rerank must be auto, never, or always")
    else ok (record r { query = trimmed r.query; limit = pos limit; rerank = rerank })

-- Scopes are expanded if there are any.
unfoldable pub expand_scopes : {F : Type 0} → ℕ → String → List String → Tables F → Visit
expand_scopes fuel w [] s = some (ok [])
expand_scopes fuel w (x ∷ xs) s = scope_ancestors fuel w (x ∷ xs) s

module _ {F : Type 0} ⦃host : Host F⦄ (svc : Service F) (world : World F) (s : Tables F) where
  -- The entities that the query resolves to, and those of the request.
  unfoldable pub known_entities : String → List String → String → List String → List Entity
  known_entities w scopes query ids =
      add_entities w ids s (resolve_entities world.engine.database w scopes query s)

  -- The keys of `entitySet`
  unfoldable pub entity_set : String → List String → String → List String → List String
  entity_set w scopes query ids =
      map (λ e. e.id) (resolve_entities world.engine.database w scopes query s) ++ ids

  -- Whether a candidate stays, and the ranked memory that it becomes.
  unfoldable pub rank_candidates :
      MemoryRetrievalRequest
      → List ℕ
      → List String
      → List Entity
      → (Memory F → Bool → RankedMemory F)
      → List (Memory F)
      → List (RankedMemory F)
  rank_candidates r subject related entities score [] = []
  rank_candidates r subject related entities score (m ∷ ms) =
      let rest = rank_candidates r subject related entities score ms in
      let entity_match = member m.id related || memory_mentions_entity host m entities in
      let enforce = ltb 0 (length r.entity_ids) || nat_eq (length entities) 1 in
      if not (no_runes subject) && not (world.equal_fold (trim_space (runes m.subject)) subject)
      then rest
      else if enforce && not entity_match
      then rest
      else score m entity_match ∷ rest

  abbrev pub score_in :
      MemoryRetrievalRequest → List (Memory F) → Semantic F → Memory F → Bool → RankedMemory F
  score_in r lexical sem m entity_match =
      scored sem.hybrid world.now r.scope_ids (lexical_rank world.now r.scope_ids 0 lexical m.id)
        (semantic_rank 0 (semantic_ids sem) m.id) entity_match m

  unfoldable pub ranked_candidates :
      MemoryRetrievalRequest → List (Memory F) → Semantic F → List (RankedMemory F)
  unfolding rank_candidates known_entities entity_set
  ranked_candidates r lexical sem =
      let w = r.workspace_id in
      let cs = candidates world.now w r.scope_ids lexical sem s in
      sort_ranked_memories (
        rank_candidates r (canonical_candidate_subject host r.query cs)
          (related_object_ids w (entity_set w r.scope_ids r.query r.entity_ids) s)
          (known_entities w r.scope_ids r.query r.entity_ids) (score_in r lexical sem) cs)

  unfoldable pub is_ambiguous : MemoryRetrievalRequest → List (RankedMemory F) → Bool
  unfolding known_entities
  is_ambiguous r ranked =
      let entities = known_entities r.workspace_id r.scope_ids r.query r.entity_ids in
      nat_eq (length r.entity_ids) 0
      && (ltb 1 (length entities) || ambiguous_candidate_subjects host r.query ranked)

  abbrev pub disabled : List (RankedMemory F) → Answer F
  disabled ranked = record {
    results = ranked;
    rerank = record {
      applied = false;
      model = "";
      reason = "disabled";
      candidate_count = min (length ranked) 12;
      latency_ms = 0;
      input_tokens = 0;
      output_tokens = 0;
    };
  }

  -- Where the question is ambiguous, no provider is asked.
  unfoldable pub answer_for : MemoryRetrievalRequest → Bool → List (RankedMemory F) → Answer F
  answer_for r true ranked = with_reason "ambiguous_subject" (disabled ranked)
  answer_for r false ranked = maybe_rerank svc world.latency r (disabled ranked)

  -- From the ranked memories to the response.
  unfoldable pub retrieval_response :
      MemoryRetrievalRequest → Semantic F → List (RankedMemory F) → MemoryRetrievalResponse F
  unfolding is_ambiguous answer_for
  retrieval_response r sem ranked =
      let ambiguous = is_ambiguous r ranked in
      let answer = answer_for r ambiguous ranked in
      record {
        schema = api_version;
        results = take (from_int r.limit) answer.results;
        ranking = ranking_mechanism sem.hybrid;
        retrieval_mode = if sem.hybrid then "semantic_hybrid" else "lexical";
        embedding_model = sem.model;
        index_fresh = nat_eq (embedding_backlog r.workspace_id s.jobs) 0;
        ambiguity = if ambiguous then "ambiguous_subject" else "";
        rerank = answer.rerank;
      }

  -- Behind the checks, with the expanded scopes in the request.
  unfoldable pub retrieve_in : MemoryRetrievalRequest → Result (MemoryRetrievalResponse F)
  unfolding ranked_candidates retrieval_response
  retrieve_in r =
      let w = r.workspace_id in
      elim (search_memory_candidates world.engine world.now w r.scope_ids r.query 50 s) [
        | err e ↦ err e
        | ok lexical ↦
            let sem = semantic_scores svc world.engine world.now w r.scope_ids r.query s in
            ok (retrieval_response r sem (ranked_candidates r lexical sem))
      ]

  unfoldable pub retrieve_memories :
      MemoryRetrievalRequest → Option (Result (MemoryRetrievalResponse F))
  unfolding check_request expand_scopes retrieve_in
  retrieve_memories request = elim (check_request request) [
    | err e ↦ some (err e)
    | ok r ↦ elim (expand_scopes world.fuel r.workspace_id r.scope_ids s) [
      | none ↦ none
      | some (err e) ↦ some (err e)
      | some (ok scopes) ↦ some (retrieve_in (record r { scope_ids = scopes }))
    ]
  ]
