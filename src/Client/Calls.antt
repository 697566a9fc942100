-- ===== src/Client/Calls.antt =====
-- The methods of client/client.go: the call of each.
use Prim.Native.String.{◌++◌}
use vessica_knowledge_server.Base.{ℤ, String, none, some, List, [], ◌∷◌, ◌==◌, if◌then◌else◌}
use vessica_knowledge_server.Models.{
  Scope, Entity, Artifact, Memory, Relationship, WorkflowEvent, Snapshot,
}
use vessica_knowledge_server.Models.Retrieval.{ContextRequest, MemoryRetrievalRequest}
use vessica_knowledge_server.Store.Snapshots.{int_text}
use vessica_knowledge_server.Client.{Body, Call}

-- `url.QueryEscape` and `url.PathEscape`
pub record Escape : Type 0 where
  pub query : String → String
  pub path : String → String

-- The last part of the path
abbrev action_of : String → String
action_of status =
    if status == "active"
    then "activate"
    else if status == "superseded"
    then "supersede"
    else status

module _ (escape : Escape) where
  -- `u += "&scope=" + url.QueryEscape(s)`
  unfoldable pub with_scopes : String → List String → String
  with_scopes u [] = u
  with_scopes u (s ∷ scopes) = with_scopes (u ++ "&scope=" ++ escape.query s) scopes

  -- The cursor and the limit of a page
  abbrev page_of : String → ℤ → String
  page_of cursor limit = "&cursor=" ++ escape.query cursor ++ "&limit=" ++ int_text limit

  abbrev in_workspace : String → String
  in_workspace w = "?workspace_id=" ++ escape.query w

module _ {F : Type 0} where
  abbrev post : String → String → Body F → Call F
  post path key v = record { method = "POST"; path = path; key = key; body = some v }

  abbrev get : String → Call F
  get path = record { method = "GET"; path = path; key = ""; body = none }

  unfoldable pub context_call : ContextRequest → Call F
  context_call v = post "/v1/context" "" (Body.question v)

  unfoldable pub retrieve_memories_call : MemoryRetrievalRequest → Call F
  retrieve_memories_call v = post "/v1/memories:retrieve" "" (Body.retrieval v)

  unfoldable pub create_scope_call : String → Scope → Call F
  create_scope_call key v = post "/v1/scopes" key (Body.scope v)

  unfoldable pub create_entity_call : String → Entity → Call F
  create_entity_call key v = post "/v1/entities" key (Body.entity v)

  unfoldable pub create_artifact_call : String → Artifact → Call F
  create_artifact_call key v = post "/v1/artifacts" key (Body.artifact v)

  unfoldable pub create_memory_call : String → Memory F → Call F
  create_memory_call key v = post "/v1/memories" key (Body.memory v)

  unfoldable pub create_relationship_call : String → Relationship F → Call F
  create_relationship_call key v = post "/v1/relationships" key (Body.relationship v)

  unfoldable pub ingest_workflow_event_call : String → WorkflowEvent → Call F
  ingest_workflow_event_call key v = post "/v1/workflow-events" key (Body.workflow v)

  unfoldable pub export_call : String → Call F
  export_call w = post "/v1/exports" "" (Body.workspace_only w)

  unfoldable pub import_call : Snapshot F → Call F
  import_call v = post "/v1/imports" ("import-" ++ v.checksum) (Body.snapshot v)

  module _ (escape : Escape) where
    unfoldable pub resolve_entities_call : String → String → List String → Call F
    unfolding with_scopes
    resolve_entities_call w q scopes = get (
        with_scopes escape
          ("/v1/entities:resolve" ++ in_workspace escape w ++ "&q=" ++ escape.query q) scopes)

    unfoldable pub list_entities_call : String → String → String → String → ℤ → List String → Call F
    unfolding with_scopes
    list_entities_call w type state cursor limit scopes = get (
        with_scopes escape
          ("/v1/entities"
            ++ in_workspace escape w
            ++ "&type="
            ++ escape.query type
            ++ "&state="
            ++ escape.query state
            ++ page_of escape cursor limit)
          scopes)

    unfoldable pub get_entity_call : String → String → Call F
    get_entity_call w id = get ("/v1/entities/" ++ escape.path id ++ in_workspace escape w)

    unfoldable pub status_call : String → Call F
    status_call w = get ("/v1/status" ++ in_workspace escape w)

    unfoldable pub search_call : String → String → String → String → ℤ → List String → Call F
    unfolding with_scopes
    search_call w q object_type cursor limit scopes = get (
        with_scopes escape
          ("/v1/search"
            ++ in_workspace escape w
            ++ "&q="
            ++ escape.query q
            ++ "&object_type="
            ++ escape.query object_type
            ++ page_of escape cursor limit)
          scopes)

    unfoldable pub get_artifact_call : String → String → ℤ → Call F
    get_artifact_call w id version = get (
        "/v1/artifacts/"
        ++ escape.path id
        ++ in_workspace escape w
        ++ "&version="
        ++ int_text version)

    unfoldable pub list_artifact_versions_call : String → String → String → ℤ → Call F
    list_artifact_versions_call w id cursor limit = get (
        "/v1/artifacts/"
        ++ escape.path id
        ++ "/versions"
        ++ in_workspace escape w
        ++ page_of escape cursor limit)

    unfoldable pub list_artifacts_call : String → String → String → List String → Call F
    unfolding with_scopes
    list_artifacts_call w type status scopes = get (
        with_scopes escape
          ("/v1/artifacts"
            ++ in_workspace escape w
            ++ "&type="
            ++ escape.query type
            ++ "&status="
            ++ escape.query status)
          scopes)

    unfoldable pub version_artifact_call : String → Artifact → Call F
    version_artifact_call key v =
        post ("/v1/artifacts/" ++ escape.path v.id ++ "/versions") key (Body.artifact v)

    unfoldable pub set_artifact_status_call : String → String → String → String → Call F
    set_artifact_status_call key w id status =
        post ("/v1/artifacts/" ++ escape.path id ++ "/" ++ action_of status) key
          (Body.workspace_only w)

    unfoldable pub get_memory_call : String → String → ℤ → Call F
    get_memory_call w id version = get (
        "/v1/memories/"
        ++ escape.path id
        ++ in_workspace escape w
        ++ "&version="
        ++ int_text version)

    unfoldable pub list_memory_versions_call : String → String → String → ℤ → Call F
    list_memory_versions_call w id cursor limit = get (
        "/v1/memories/"
        ++ escape.path id
        ++ "/versions"
        ++ in_workspace escape w
        ++ page_of escape cursor limit)

    unfoldable pub list_relationships_call : String → String → String → ℤ → Call F
    list_relationships_call w object_id cursor limit = get (
        "/v1/relationships"
        ++ in_workspace escape w
        ++ "&object_id="
        ++ escape.query object_id
        ++ page_of escape cursor limit)

    unfoldable pub search_memories_call : String → String → List String → Call F
    unfolding with_scopes
    search_memories_call w q scopes = get (
        with_scopes escape ("/v1/memories" ++ in_workspace escape w ++ "&q=" ++ escape.query q)
          scopes)

    unfoldable pub version_memory_call : String → Memory F → Call F
    version_memory_call key v =
        post ("/v1/memories/" ++ escape.path v.id ++ "/versions") key (Body.memory v)

    unfoldable pub set_memory_state_call : String → String → String → String → Call F
    set_memory_state_call key w id state =
        post ("/v1/memories/" ++ escape.path id ++ "/" ++ state) key (Body.workspace_only w)
