-- ===== src/Server/Handlers.antt =====
-- The handlers of server/http.go that write and read, from the decoded body to the answer. A handler whose
-- body does not decode answers before it comes here.
pub mod Tenant
use vessica_knowledge_server.Base.{
  ℕ, String, Result, ok, err, Error, Failure, Action, List, [], ◌∷◌, invalid, if◌then◌else◌,
}
use vessica_knowledge_server.Models.{
  Scope, Entity, Artifact, Memory, Relationship, WorkflowEvent, WriteOptions, ArtifactSelector,
}
use vessica_knowledge_server.Store.Tables.{Tables}
use vessica_knowledge_server.Store.Read.{get_scope, get_entity, get_artifact, get_memory}
use vessica_knowledge_server.Service.Host.{Host, Env, Service}
use vessica_knowledge_server.Service.Scopes.{create_scope}
use vessica_knowledge_server.Service.Entities.{create_entity}
use vessica_knowledge_server.Service.Artifacts.{
  create_artifact, version_artifact, set_artifact_status,
}
use vessica_knowledge_server.Service.Memories.{create_memory, version_memory, set_memory_state}
use vessica_knowledge_server.Service.Relationships.{create_relationship}
use vessica_knowledge_server.Service.Workflow.{ingest_workflow_event}
use vessica_knowledge_server.Service.Rules.{is_empty}
use vessica_knowledge_server.Store.Queries.{
  list_entities, list_artifacts, list_artifact_versions, list_memory_versions, list_relationships,
}
use vessica_knowledge_server.Server.Options.{Settings, Headers, opts, workspace, failure}
use vessica_knowledge_server.Base.{from_int}
use vessica_knowledge_server.Server.Pages.{Codec, Page, paginate}

-- The envelope of an answer, with its status.
pub data Reply (A : Type 0) : Type 0 where
  answered : ℕ → A → Reply A
  failed : Error → Reply A

-- `respond`
unfoldable pub respond : {A : Type 0} → Result A → ℕ → Reply A
unfolding failure
respond (ok a) status = answered status a
respond (err f) status = failed (failure f)

module _ {S A : Type 0} where
  abbrev sent : Result A × S → ℕ → Reply A × S
  sent (r, s) status = (respond r status, s)

  -- `o, e := s.opts(r, v.WorkspaceID)`, the call of the service, and its answer.
  unfoldable pub posted :
      Settings → Headers → String → (WriteOptions → Action S A) → ℕ → S → Reply A × S
  unfolding respond opts
  posted c r asked call status s = elim (opts c r asked) [
    | err f ↦ (failed (failure f), s)
    | ok o ↦ sent (call o s) status
  ]

-- The handlers that write. `asked` is the `workspace_id` of a body that has nothing else.
module _ {F : Type 0} ⦃host : Host F⦄ (c : Settings) (r : Headers) (svc : Service F)
    (env : Env) where
  unfoldable pub post_scope : Scope → Tables F → Reply Scope × Tables F
  unfolding posted
  post_scope v = posted c r v.workspace_id (λ o. create_scope env o v) 201

  unfoldable pub post_entity : Entity → Tables F → Reply Entity × Tables F
  unfolding posted
  post_entity v = posted c r v.workspace_id (λ o. create_entity env o v) 201

  unfoldable pub post_artifact : Artifact → Tables F → Reply Artifact × Tables F
  unfolding posted
  post_artifact v = posted c r v.workspace_id (λ o. create_artifact env o v) 201

  unfoldable pub post_artifact_version : String → Artifact → Tables F → Reply Artifact × Tables F
  unfolding posted
  post_artifact_version id v = posted c r v.workspace_id (λ o. version_artifact env o id v) 200

  unfoldable pub post_artifact_status :
      String → String → String → Tables F → Reply Artifact × Tables F
  unfolding posted
  post_artifact_status status id asked =
      posted c r asked (λ o. set_artifact_status env o id status) 200

  unfoldable pub post_memory : Memory F → Tables F → Reply (Memory F) × Tables F
  unfolding posted
  post_memory v = posted c r v.workspace_id (λ o. create_memory svc env o v) 201

  unfoldable pub post_memory_version : String → Memory F → Tables F → Reply (Memory F) × Tables F
  unfolding posted
  post_memory_version id v = posted c r v.workspace_id (λ o. version_memory svc env o id v) 200

  unfoldable pub post_memory_state :
      String → String → String → Tables F → Reply (Memory F) × Tables F
  unfolding posted
  post_memory_state state id asked = posted c r asked (λ o. set_memory_state svc env o id state) 200

  unfoldable pub post_relationship : Relationship F → Tables F → Reply (Relationship F) × Tables F
  unfolding posted
  post_relationship v = posted c r v.workspace_id (λ o. create_relationship env o v) 201

  unfoldable pub post_workflow : (ℕ → Env) → WorkflowEvent → Tables F → Reply (Memory F) × Tables F
  unfolding posted
  post_workflow envs v = posted c r v.workspace_id (λ o. ingest_workflow_event svc env envs o v) 201

-- The handlers that read one object or a list. `id` is the path's, the others are of the query.
module _ {F : Type 0} (c : Settings) (r : Headers) (codec : Codec) (s : Tables F) where
  unfoldable pub get_scope_reply : String → Reply Scope
  unfolding respond workspace
  get_scope_reply id = respond (get_scope (workspace r c.default_workspace) id s).0 200

  unfoldable pub get_entity_reply : String → Reply Entity
  unfolding respond workspace
  get_entity_reply id = respond (get_entity (workspace r c.default_workspace) id s).0 200

  unfoldable pub get_artifact_reply : String → String → Reply Artifact
  unfolding respond workspace
  get_artifact_reply id version =
      respond
        (get_artifact (workspace r c.default_workspace) id (from_int (codec.atoi version)) s).0 200

  unfoldable pub get_memory_reply : String → String → Reply (Memory F)
  unfolding respond workspace
  get_memory_reply id version =
      respond (get_memory (workspace r c.default_workspace) id (from_int (codec.atoi version)) s).0
        200

  unfoldable pub list_entities_reply :
      List String → String → String → String → String → Reply (Page Entity)
  unfolding workspace paginate
  list_entities_reply scopes type state cursor limit = answered 200 (
      paginate codec (list_entities (workspace r c.default_workspace) scopes type state s) cursor
        limit)

  unfoldable pub artifact_versions_reply : String → String → String → Reply (Page Artifact)
  unfolding workspace paginate
  artifact_versions_reply id cursor limit =
      answered 200 (
        paginate codec (list_artifact_versions (workspace r c.default_workspace) id s) cursor limit)

  unfoldable pub memory_versions_reply : String → String → String → Reply (Page (Memory F))
  unfolding workspace paginate
  memory_versions_reply id cursor limit =
      answered 200
        (paginate codec (list_memory_versions (workspace r c.default_workspace) id s) cursor limit)

  unfoldable pub list_artifacts_reply : List String → String → String → Reply (List Artifact)
  unfolding workspace
  list_artifacts_reply scopes type status = answered 200 (
      list_artifacts (workspace r c.default_workspace) scopes
        (record { type = type; status = status; id = ""; version = 0 } ∷ []) s)

  unfoldable pub list_relationships_reply : String → String → String → Reply (Page (Relationship F))
  unfolding workspace paginate respond
  list_relationships_reply object cursor limit =
      if is_empty object
      then respond (err (invalid "object_id required")) 200
      else answered 200 (
          paginate codec (list_relationships (workspace r c.default_workspace) object s) cursor
            limit)
