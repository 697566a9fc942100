-- ===== src/Models.antt =====
-- knowledge/models.go: the objects of the knowledge base. `F` stands for Go's float64. A `time.Time`
-- is a number of nanoseconds, 0 for the zero time; a version is a natural number.
pub mod Json
pub mod Retrieval
use vessica_knowledge_server.Base.{ℕ, ℤ, String, Option, List, Bool}
use Json.{Metadata}

-- `APIVersion`
abbrev pub api_version : String
api_version = "vessica.knowledge/v1"

pub record Actor : Type 0 where
  pub id : String
  pub type : String

pub record Provenance : Type 0 where
  pub source : String
  pub source_id : String
  pub source_url : String
  pub detail : Metadata

pub record Scope : Type 0 where
  pub id : String
  pub workspace_id : String
  pub parent_id : String
  pub type : String
  pub name : String
  pub canonical_key : String
  pub created_at : ℕ

pub record ExternalRef : Type 0 where
  pub system : String
  pub id : String
  pub url : String

pub record Entity : Type 0 where
  pub id : String
  pub workspace_id : String
  pub scope_id : String
  pub version : ℕ
  pub type : String
  pub display_name : String
  pub aliases : List String
  pub external_refs : List ExternalRef
  pub metadata : Metadata
  pub state : String
  pub provenance : Provenance
  pub created_at : ℕ
  pub updated_at : ℕ

pub record Artifact : Type 0 where
  pub id : String
  pub workspace_id : String
  pub scope_id : String
  pub version : ℕ
  pub type : String
  pub title : String
  pub status : String
  pub content : String
  pub content_hash : String
  pub source_ref : Option ExternalRef
  pub metadata : Metadata
  pub provenance : Provenance
  pub created_at : ℕ
  pub updated_at : ℕ

pub record Memory (F : Type 0) : Type 0 where
  pub id : String
  pub workspace_id : String
  pub scope_id : String
  pub version : ℕ
  pub type : String
  pub subject : String
  pub predicate : String
  pub object : String
  pub title : String
  pub content : String
  pub importance : F
  pub confidence : F
  pub confidence_source : String
  pub valid_from : Option ℕ
  pub valid_until : Option ℕ
  pub state : String
  pub embedding_state : String
  pub metadata : Metadata
  pub provenance : Provenance
  pub created_at : ℕ
  pub updated_at : ℕ

pub record Relationship (F : Type 0) : Type 0 where
  pub id : String
  pub workspace_id : String
  pub scope_id : String
  pub version : ℕ
  pub from_type : String
  pub from_id : String
  pub predicate : String
  pub to_type : String
  pub to_id : String
  pub confidence : F
  pub state : String
  pub metadata : Metadata
  pub provenance : Provenance
  pub created_at : ℕ

-- `Event.Payload` as `event` builds it: one key, the name of the object's kind.
pub data Payload (F : Type 0) : Type 0 where
  scope : Scope → Payload F
  entity : Entity → Payload F
  artifact : Artifact → Payload F
  memory : Memory F → Payload F
  relationship : Relationship F → Payload F

pub record Event (F : Type 0) : Type 0 where
  pub id : String
  pub workspace_id : String
  pub aggregate_type : String
  pub aggregate_id : String
  pub aggregate_version : ℕ
  pub type : String
  pub actor : Actor
  pub provenance : Provenance
  pub idempotency_key : String
  pub payload : Payload F
  pub occurred_at : ℕ

pub record WriteOptions : Type 0 where
  pub workspace_id : String
  pub idempotency_key : String
  pub actor : Actor
  pub provenance : Provenance

pub record ArtifactSelector : Type 0 where
  pub type : String
  pub status : String
  pub id : String
  pub version : ℕ

pub record WorkflowEvent : Type 0 where
  pub id : String
  pub workspace_id : String
  pub repository_scope_id : String
  pub type : String
  pub summary : String
  pub occurred_at : ℕ
  pub actor : Actor
  pub references : List ExternalRef
  pub metadata : Metadata

pub record EmbeddingJob : Type 0 where
  pub workspace_id : String
  pub memory_id : String
  pub version : ℕ
  pub text : String
  pub attempts : ℕ

-- The map of the counts is the list of its entries, in the order in which a loop over it meets them.
pub record Snapshot (F : Type 0) : Type 0 where
  pub schema : String
  pub workspace_id : String
  pub exported_at : ℕ
  pub high_watermark : String
  pub scopes : List Scope
  pub entities : List Entity
  pub artifacts : List Artifact
  pub memories : List (Memory F)
  pub relationships : List (Relationship F)
  pub events : List (Event F)
  pub counts : List (String × ℤ)
  pub checksum : String
