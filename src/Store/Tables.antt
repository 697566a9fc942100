-- ===== src/Store/Tables.antt =====
-- The tables of the `schema` of knowledge/sqlstore.go. A JSON or time column holds the value that it
-- encodes. The full-text tables of SQLite are derived from the others and are left out.
use vessica_knowledge_server.Base.{ℕ, String, Option, List, []}
use vessica_knowledge_server.Models.{Scope, Entity, Artifact, Memory, Relationship, Event}
use vessica_knowledge_server.Store.Table.{Row, Table, no_table}

instance abbrev pub entity_row : Row Entity
entity_row = record {
  workspace_of = λ v. v.workspace_id;
  id_of = λ v. v.id;
  version_of = λ v. v.version;
}

instance abbrev pub artifact_row : Row Artifact
artifact_row = record {
  workspace_of = λ v. v.workspace_id;
  id_of = λ v. v.id;
  version_of = λ v. v.version;
}

instance abbrev pub memory_row : {F : Type 0} → Row (Memory F)
memory_row = record {
  workspace_of = λ v. v.workspace_id;
  id_of = λ v. v.id;
  version_of = λ v. v.version;
}

instance abbrev pub relationship_row : {F : Type 0} → Row (Relationship F)
relationship_row = record {
  workspace_of = λ v. v.workspace_id;
  id_of = λ v. v.id;
  version_of = λ v. v.version;
}

-- A row of `embedding_jobs`
pub record Job : Type 0 where
  pub workspace_id : String
  pub memory_id : String
  pub version : ℕ
  pub text : String
  pub status : String
  pub attempts : ℕ
  pub available_at : ℕ
  pub last_error : Option String
  pub updated_at : ℕ

-- A row of `embeddings`
pub record Embedding (F : Type 0) : Type 0 where
  pub workspace_id : String
  pub object_type : String
  pub object_id : String
  pub version : ℕ
  pub vector : List F
  pub provider : String
  pub model : String
  pub created_at : ℕ

pub record Tables (F : Type 0) : Type 0 where
  pub events : List (Event F)
  pub scopes : List Scope
  pub entities : Table Entity
  pub artifacts : Table Artifact
  pub memories : Table (Memory F)
  pub relationships : Table (Relationship F)
  pub embeddings : List (Embedding F)
  pub jobs : List Job

abbrev pub empty : {F : Type 0} → Tables F
empty = record {
  events = [];
  scopes = [];
  entities = no_table;
  artifacts = no_table;
  memories = no_table;
  relationships = no_table;
  embeddings = [];
  jobs = [];
}
