-- ===== src/Models/Retrieval.antt =====
-- knowledge/models.go: requests and responses of retrieval and context assembly. A
-- `map[string]float64` is an association list.
use vessica_knowledge_server.Base.{ℕ, ℤ, String, List, Bool}
use vessica_knowledge_server.Models.{Artifact, Entity, Memory, ArtifactSelector}

pub record RankedMemory (F : Type 0) : Type 0 where
  pub memory : Memory F
  pub score : F
  pub explanation : List (String × F)

pub record ContextRequest : Type 0 where
  pub workspace_id : String
  pub query : String
  pub scope_ids : List String
  pub entity_ids : List String
  pub artifact_selectors : List ArtifactSelector
  pub token_budget : ℤ

pub record MemoryRetrievalRequest : Type 0 where
  pub workspace_id : String
  pub query : String
  pub scope_ids : List String
  pub entity_ids : List String
  pub limit : ℤ
  pub rerank : String

pub record RerankMetadata : Type 0 where
  pub applied : Bool
  pub model : String
  pub reason : String
  pub candidate_count : ℕ
  pub latency_ms : ℕ
  pub input_tokens : ℕ
  pub output_tokens : ℕ

pub record ArtifactExplanation : Type 0 where
  pub artifact_id : String
  pub reasons : List String

pub record RankingMechanism (F : Type 0) : Type 0 where
  pub version : String
  pub memory_weights : List (String × F)
  pub artifact_policy : List String
  pub context_order : List String
  pub instruction_override : String

pub record MemoryRetrievalResponse (F : Type 0) : Type 0 where
  pub schema : String
  pub results : List (RankedMemory F)
  pub ranking : RankingMechanism F
  pub retrieval_mode : String
  pub embedding_model : String
  pub index_fresh : Bool
  pub ambiguity : String
  pub rerank : RerankMetadata

pub record ContextResponse (F : Type 0) : Type 0 where
  pub schema : String
  pub ranking : RankingMechanism F
  pub retrieval_mode : String
  pub artifacts : List Artifact
  pub artifact_explanations : List ArtifactExplanation
  pub instructions : List (RankedMemory F)
  pub entities : List Entity
  pub decisions : List (RankedMemory F)
  pub facts : List (RankedMemory F)
  pub episodes : List (RankedMemory F)
  pub token_estimate : ℕ
  pub omissions : List String
  pub index_fresh : Bool
  pub embedding_model : String
