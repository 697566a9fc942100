-- ===== src/Context/Compose.antt =====
-- `Context` of knowledge/service.go, from the request to the response.
use vessica_knowledge_server.Base.{pos}
use vessica_knowledge_server.Models.{api_version}
use vessica_knowledge_server.Base.{Option, none, some, Result, ok, err, invalid, if◌then◌else◌}
use vessica_knowledge_server.Models.Retrieval.{
  ContextRequest, ContextResponse, MemoryRetrievalRequest, MemoryRetrievalResponse,
}
use vessica_knowledge_server.Store.Tables.{Tables}
use vessica_knowledge_server.Store.Queries.{list_artifacts, related_to_any}
use vessica_knowledge_server.Service.Host.{Host, Service}
use vessica_knowledge_server.Service.Rules.{is_empty}
use vessica_knowledge_server.Context.Assembly.{Assembly, assemble}
use vessica_knowledge_server.Retrieval.Retrieve.{
  World, expand_scopes, known_entities, entity_set, retrieve_memories,
}

-- The request that `Context` sends to `RetrieveMemories`.
abbrev pub memories_for : ContextRequest → MemoryRetrievalRequest
memories_for r = record {
  workspace_id = r.workspace_id;
  query = r.query;
  scope_ids = r.scope_ids;
  entity_ids = r.entity_ids;
  limit = pos 100;
  rerank = "auto";
}

module _ {F : Type 0} ⦃host : Host F⦄ (svc : Service F) (world : World F) (s : Tables F) where
  -- The four loops over what was found.
  unfoldable pub assembled : ContextRequest → MemoryRetrievalResponse F → Assembly F
  unfolding entity_set
  assembled r retrieval =
      let w = r.workspace_id in
      let entities = entity_set svc world s w r.scope_ids r.query r.entity_ids in
      assemble r entities (λ id. related_to_any w id entities s)
        (list_artifacts w r.scope_ids r.artifact_selectors s) retrieval.results

  unfoldable pub context_response : ContextRequest → MemoryRetrievalResponse F → ContextResponse F
  unfolding assembled known_entities
  context_response r retrieval =
      let st = assembled r retrieval in
      record {
        schema = api_version;
        ranking = retrieval.ranking;
        retrieval_mode = retrieval.retrieval_mode;
        artifacts = st.artifacts;
        artifact_explanations = st.artifact_explanations;
        instructions = st.instructions;
        entities = known_entities svc world s r.workspace_id r.scope_ids r.query r.entity_ids;
        decisions = st.decisions;
        facts = st.facts;
        episodes = st.episodes;
        token_estimate = st.used;
        omissions = st.omissions;
        index_fresh = retrieval.index_fresh;
        embedding_model = retrieval.embedding_model;
      }

  -- Behind the expansion of the scopes.
  unfoldable pub context_in : ContextRequest → Option (Result (ContextResponse F))
  unfolding context_response
  context_in r = elim (retrieve_memories svc world s (memories_for r)) [
    | none ↦ none
    | some (err e) ↦ some (err e)
    | some (ok retrieval) ↦ some (ok (context_response r retrieval))
  ]

  unfoldable pub context : ContextRequest → Option (Result (ContextResponse F))
  unfolding context_in
  context r =
      if is_empty r.workspace_id
      then some (err (invalid "workspace_id required"))
      else elim (expand_scopes world.fuel r.workspace_id r.scope_ids s) [
        | none ↦ none
        | some (err e) ↦ some (err e)
        | some (ok scopes) ↦ context_in (record r { scope_ids = scopes })
      ]
