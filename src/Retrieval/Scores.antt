-- ===== src/Retrieval/Scores.antt =====
-- The scores of `RetrieveMemories` of knowledge/retrieval.go, `sortRankedMemories`, and `scopeScore`,
-- `recencyScore` and `rankingMechanism` of knowledge/service.go.
use vessica_knowledge_server.Base.{
  ℕ, suc, ◌-◌, ◌/◌, ◌%◌, String, Bool, not, List, [], ◌∷◌, ◌==◌, nat_eq, ltb, length, sort_by,
  text_lt, if◌then◌else◌,
}
use vessica_knowledge_server.Models.{Memory}
use vessica_knowledge_server.Models.Retrieval.{RankedMemory, RankingMechanism}
use vessica_knowledge_server.Service.Host.{Host}
use vessica_knowledge_server.Retrieval.Rerank.{reciprocal_rank}

-- Nanoseconds in an hour
abbrev hour : ℕ
hour = 3600000000000

module _ {F : Type 0} ⦃host : Host F⦄ where
  -- The loop over the scopes from the index `i` on, with their number.
  scope_index : ℕ → ℕ → List String → String → F
  scope_index count i [] s = host.ratio 0 1
  scope_index count i (x ∷ xs) s =
      let rest = scope_index count (suc i) xs s in
      if x == s then host.div (host.ratio (suc i) 1) (host.ratio count 1) else rest

  unfoldable pub scope_score : List String → String → F
  unfolding scope_index
  scope_score [] s = host.ratio 5 10
  scope_score (x ∷ xs) s = scope_index (length (x ∷ xs)) 0 (x ∷ xs) s

  -- `Duration.Hours`
  hours : ℕ → F
  hours d =
      host.add (host.ratio (d / hour) 1) (host.div (host.ratio (d % hour) 1) (host.ratio hour 1))

  unfoldable pub recency_score : ℕ → ℕ → F
  unfolding hours
  recency_score now t =
      if ltb now t
      then host.ratio 1 1
      else let days = host.div (hours (now - t)) (host.ratio 24 1) in
        host.div (host.ratio 1 1) (host.add (host.ratio 1 1) (host.div days (host.ratio 30 1)))

  -- `mode == "lexical"` sets the first two weights anew.
  unfoldable pub ranking_mechanism : Bool → RankingMechanism F
  ranking_mechanism semantic = record {
    version = "v2";
    memory_weights =
        ("lexical_rrf", if semantic then host.ratio 36 100 else host.ratio 65 100)
        ∷ ("semantic_rrf", if semantic then host.ratio 29 100 else host.ratio 0 1)
        ∷ ("entity", host.ratio 15 100)
        ∷ ("scope", host.ratio 10 100)
        ∷ ("importance", host.ratio 5 100)
        ∷ ("confidence", host.ratio 5 100)
        ∷ ("episode_recency", host.ratio 5 100)
        ∷ [];
    artifact_policy =
        "explicit identity and version" ∷ "active lifecycle and type selectors"
        ∷ "query or entity relevance" ∷ "50 percent unselected artifact budget"
        ∷ "stable storage order" ∷ [];
    context_order =
        "explicit_artifacts" ∷ "instructions" ∷ "decisions" ∷ "facts" ∷ "relevant_artifacts"
        ∷ "episodes" ∷ [];
    instruction_override =
        "A more-specific applicable instruction replaces a broader instruction only when both declare the same metadata.semantic_key.";
  }

  -- The score of one candidate: `lexical` and `semantic` are its ranks, 0 for none.
  unfoldable pub scored : Bool → ℕ → List String → ℕ → ℕ → Bool → Memory F → RankedMemory F
  unfolding scope_score recency_score
  scored hybrid now scopes lexical semantic entity_match m =
      let lexical_component = reciprocal_rank lexical in
      let semantic_component = reciprocal_rank semantic in
      let entity_component = if entity_match then host.ratio 1 1 else host.ratio 0 1 in
      let scope_component = scope_score scopes m.scope_id in
      let recency_component =
        if m.type == "episode" then recency_score now m.updated_at else host.ratio 0 1 in
      let lexical_weight = if hybrid then host.ratio 36 100 else host.ratio 65 100 in
      let semantic_weight = if hybrid then host.ratio 29 100 else host.ratio 0 1 in
      record {
        memory = m;
        score =
            host.add
              (host.add
                (host.add
                  (host.add
                    (host.add
                      (host.add (host.mul lexical_weight lexical_component)
                        (host.mul semantic_weight semantic_component))
                      (host.mul (host.ratio 15 100) entity_component))
                    (host.mul (host.ratio 1 10) scope_component))
                  (host.mul (host.ratio 5 100) m.importance))
                (host.mul (host.ratio 5 100) m.confidence))
              (host.mul (host.ratio 5 100) recency_component);
        explanation =
            ("lexical", lexical_component)
            ∷ ("semantic", semantic_component)
            ∷ ("entity", entity_component)
            ∷ ("scope", scope_component)
            ∷ ("importance", m.importance)
            ∷ ("confidence", m.confidence)
            ∷ ("recency", recency_component)
            ∷ [];
      }

  -- The order of `sortRankedMemories`
  abbrev pub goes_first : RankedMemory F → RankedMemory F → Bool
  goes_first a b =
      if not (host.eq a.score b.score)
      then host.lt b.score a.score
      else if not (nat_eq a.memory.version b.memory.version)
      then ltb b.memory.version a.memory.version
      else if not (nat_eq a.memory.updated_at b.memory.updated_at)
      then ltb b.memory.updated_at a.memory.updated_at
      else text_lt a.memory.id b.memory.id

  unfoldable pub sort_ranked_memories : List (RankedMemory F) → List (RankedMemory F)
  sort_ranked_memories xs = sort_by goes_first xs
