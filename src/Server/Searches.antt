-- ===== src/Server/Searches.antt =====
-- The handlers `search`, `searchMemories` and `resolveEntities` of server/http.go, and `truncate`.
use Prim.Native.String.{◌++◌}
use vessica_knowledge_server.Base.{
  ℕ, String, Bool, List, [], ◌||◌, ◌==◌, ltb, map, sort_by, select, if◌then◌else◌,
}
use vessica_knowledge_server.Models.{Entity, Artifact, Memory}
use vessica_knowledge_server.Text.{contains, trimmed}
use vessica_knowledge_server.Text.Bytes.{truncate, in_order}
use vessica_knowledge_server.Context.Artifacts.{lower}
use vessica_knowledge_server.Store.Tables.{Tables}
use vessica_knowledge_server.Store.Queries.{resolve_entities, list_artifacts}
use vessica_knowledge_server.Service.Host.{Host}
use vessica_knowledge_server.Service.Rules.{is_empty}
use vessica_knowledge_server.Retrieval.Search.{Engine}
use vessica_knowledge_server.Retrieval.Memories.{search_memories}
use vessica_knowledge_server.Server.Options.{Settings, Headers, workspace}
use vessica_knowledge_server.Server.Pages.{Codec, Page, paginate}
use vessica_knowledge_server.Server.Handlers.{Reply, answered}

-- `SearchResult` of knowledge/models.go. The summary is its bytes, which need not be whole runes.
pub record SearchResult : Type 0 where
  pub object_type : String
  pub id : String
  pub scope_id : String
  pub subtype : String
  pub title : String
  pub summary : List ℕ
  pub state : String
  pub updated_at : ℕ

entity_result : Entity → SearchResult
entity_result v = record {
  object_type = "entity";
  id = v.id;
  scope_id = v.scope_id;
  subtype = v.type;
  title = v.display_name;
  summary = [];
  state = v.state;
  updated_at = v.updated_at;
}

artifact_result : Artifact → SearchResult
unfolding truncate
artifact_result v = record {
  object_type = "artifact";
  id = v.id;
  scope_id = v.scope_id;
  subtype = v.type;
  title = v.title;
  summary = truncate v.content 240;
  state = v.status;
  updated_at = v.updated_at;
}

memory_result : {F : Type 0} → Memory F → SearchResult
unfolding truncate
memory_result v = record {
  object_type = "memory";
  id = v.id;
  scope_id = v.scope_id;
  subtype = v.type;
  title = v.title;
  summary = truncate v.content 240;
  state = v.state;
  updated_at = v.updated_at;
}

-- The parameters are those of the URL.
module _ {F : Type 0} (engine : Engine F) (c : Settings) (r : Headers) (s : Tables F) where
  unfoldable pub search_memories_reply : List String → String → Reply (List (Memory F))
  unfolding search_memories workspace
  search_memories_reply scopes q =
      answered 200 (search_memories engine (workspace r c.default_workspace) scopes q 100 s)

  unfoldable pub resolve_entities_reply : List String → String → Reply (List Entity)
  unfolding resolve_entities workspace
  resolve_entities_reply scopes q =
      answered 200 (resolve_entities engine.database (workspace r c.default_workspace) scopes q s)

  -- `want == "" || want == type`
  abbrev wanted : String → String → Bool
  wanted want type = is_empty want || want == type

  module _ ⦃host : Host F⦄ where
    abbrev has_text : String → Artifact → Bool
    has_text q v =
        is_empty q
        || contains (lower host.to_lower (v.title ++ " " ++ v.content)) (lower host.to_lower q)

    -- The results in the order in which they are appended
    unfoldable pub search_results : List String → String → String → List SearchResult
    unfolding entity_result artifact_result memory_result resolve_entities search_memories
        list_artifacts
    search_results scopes q want =
        let w = workspace r c.default_workspace in
        let entities = resolve_entities engine.database w scopes q s in
        let artifacts = list_artifacts w scopes [] s in
        let memories = search_memories engine w scopes q 500 s in
        in_order (if wanted want "entity" then map entity_result entities else [])
          (if wanted want "artifact"
            then map artifact_result (select (has_text q) artifacts)
            else [])
          (if wanted want "memory" then map memory_result memories else [])

    -- `sort.SliceStable`, the newest first
    unfoldable pub search_reply :
        Codec → List String → String → String → String → String → Reply (Page SearchResult)
    unfolding search_results paginate
    search_reply codec scopes q object_type cursor limit = answered 200 (
        paginate codec
          (sort_by (λ a b. ltb b.updated_at a.updated_at)
            (search_results scopes (trimmed q) (trimmed object_type)))
          cursor limit)
