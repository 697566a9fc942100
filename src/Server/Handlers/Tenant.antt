-- ===== src/Server/Handlers/Tenant.antt =====
-- The handlers of server/http.go that write stay within the workspace of the server.
use vessica_knowledge_server.Base.{
  ℕ, String, false, ◌≡◌, ◌≢◌, refl, List, ◌∷◌, ◌==◌, Result-cases, ok, Action, select, eq_iff,
  arith, inl, inr,
}
use vessica_knowledge_server.Models.{
  Scope, Entity, Artifact, Memory, Relationship, WorkflowEvent, WriteOptions, Event,
}
use vessica_knowledge_server.Store.Table.{put_row}
use vessica_knowledge_server.Store.Tables.{
  Tables, entity_row, artifact_row, memory_row, relationship_row,
}
use vessica_knowledge_server.Store.Write
use vessica_knowledge_server.Store.Write.{
  scope_clash, put_entity, put_artifact, put_memory, put_relationship,
}
use vessica_knowledge_server.Service.Host.{Host, Env, Service}
use vessica_knowledge_server.Service.Rules.{is_empty}
use vessica_knowledge_server.Service.Kept.{
  IsKept, create_scope_keeps, create_entity_keeps, create_artifact_keeps, version_artifact_keeps,
  set_artifact_status_keeps, create_relationship_keeps, create_memory_keeps, version_memory_keeps,
  set_memory_state_keeps,
}
use vessica_knowledge_server.Service.Scopes.{create_scope}
use vessica_knowledge_server.Service.Entities.{create_entity}
use vessica_knowledge_server.Service.Artifacts.{
  create_artifact, version_artifact, set_artifact_status,
}
use vessica_knowledge_server.Service.Memories.{create_memory, version_memory, set_memory_state}
use vessica_knowledge_server.Service.Relationships.{create_relationship}
use vessica_knowledge_server.Service.Workflow.{ingest_workflow_event}
use vessica_knowledge_server.Service.Workflow.Keeps.{ingest_workflow_event_keeps}
use vessica_knowledge_server.Service.Writing.Keeps.{tx-Keeps, row-Keeps, clash-Keeps}
use vessica_knowledge_server.Server.Options.{Settings, Headers, opts}
use vessica_knowledge_server.Server.Handlers.{
  posted, post_scope, post_entity, post_artifact, post_artifact_version, post_artifact_status,
  post_memory, post_memory_version, post_memory_state, post_relationship, post_workflow,
}

module _ {F : Type 0} where
  -- The events of a workspace
  unfoldable pub log_of : String → Tables F → List (Event F)
  log_of w s = select (λ e. e.workspace_id == w) s.events

  -- The log of the workspace is `log`.
  HasLog : String → List (Event F) → Tables F → Type 0
  HasLog w log s = log_of w s ≡ log

  module _ (w other : String) (apart : w ≢ other) (log : List (Event F)) where
    -- A transaction of another workspace leaves the log.
    tx-HasLog :
        (s : Tables F) (e : Event F) (s2 : Tables F)
        → HasLog other log s
        → e.workspace_id ≡ w
        → s2.events ≡ e ∷ s.events
        → HasLog other log s2
    unfolding HasLog log_of select
    tx-HasLog s e s2 h own grown = rw (grown, own) (ground (arith, eq_iff w other, apart, h))

    HasLog-IsKept : IsKept w (HasLog other log)
    unfolding Write.create_scope put_entity put_artifact put_memory put_relationship
    HasLog-IsKept = record {
      scope = λ s h v e own _ _ _. tx-Keeps (HasLog other log) s h v e _ λ s2 fresh applied.
          clash-Keeps (HasLog other log) s h (scope_clash v s.scopes)
            (record s { events = e ∷ s.events; scopes = v ∷ s.scopes }) s2 applied
            λ free. tx-HasLog s e _ h own refl;
      entity = λ s h v e own _ _ _. tx-Keeps (HasLog other log) s h v e _ λ s2 fresh applied.
          row-Keeps (HasLog other log) s h (put_row v s.entities)
            (λ t. record s { events = e ∷ s.events; entities = t }) s2 applied
            λ t put. tx-HasLog s e _ h own refl;
      artifact = λ s h v e own _ _ _. tx-Keeps (HasLog other log) s h v e _ λ s2 fresh applied.
          row-Keeps (HasLog other log) s h (put_row v s.artifacts)
            (λ t. record s { events = e ∷ s.events; artifacts = t }) s2 applied
            λ t put. tx-HasLog s e _ h own refl;
      memory = λ s h v e now own _ _ _.
          tx-Keeps (HasLog other log) s h v e _
            λ s2 fresh applied. tx-HasLog s e s2 h own (ground (arith, applied));
      relationship = λ s h v e own _ _ _. tx-Keeps (HasLog other log) s h v e _ λ s2 fresh applied.
          row-Keeps (HasLog other log) s h (put_row v s.relationships)
            (λ t. record s { events = e ∷ s.events; relationships = t }) s2 applied
            λ t put. tx-HasLog s e _ h own refl;
    }

-- The requests that the routes which write hand to their handlers.
pub data Post (F : Type 0) : Type 0 where
  scope : Scope → Post F
  entity : Entity → Post F
  artifact : Artifact → Post F
  artifact_version : String → Artifact → Post F
  artifact_status : String → String → String → Post F
  memory : Memory F → Post F
  memory_version : String → Memory F → Post F
  memory_state : String → String → String → Post F
  relationship : Relationship F → Post F
  workflow : (ℕ → Env) → WorkflowEvent → Post F

-- A call of the service behind the options.
posted-Keeps :
    {F A : Type 0} (P : Tables F → Type 0) (c : Settings) (r : Headers) (asked : String)
    (call : WriteOptions → Action (Tables F) A) (status : ℕ) (s : Tables F)
    → P s
    → ((o : WriteOptions) → opts c r asked ≡ ok o → P (call o s).1)
    → P (posted c r asked call status s).1
unfolding posted
posted-Keeps P c r asked call status s h k = elim (Result-cases (opts c r asked)) [
  | inl (o, e) ↦ rw (posted, e) (k o e)
  | inr (f, e) ↦ rw (posted, e) h
]

-- The options are for the default workspace.
opts-default :
    (c : Settings) (r : Headers) (asked : String) (o : WriteOptions)
    → is_empty c.default_workspace ≡ false
    → opts c r asked ≡ ok o
    → o.workspace_id ≡ c.default_workspace
unfolding opts
opts-default c r asked o given e =
    ground
      (arith, given, e, eq_iff asked c.default_workspace, eq_iff o.workspace_id c.default_workspace)

module _ {F : Type 0} ⦃host : Host F⦄ (c : Settings) (r : Headers) (svc : Service F)
    (env : Env) where
  -- The store after a request.
  unfoldable pub serve : Post F → Tables F → Tables F
  unfolding post_scope post_entity post_artifact post_artifact_version post_artifact_status
      post_memory post_memory_version post_memory_state post_relationship post_workflow
  serve (scope v) s = (post_scope c r svc env v s).1
  serve (entity v) s = (post_entity c r svc env v s).1
  serve (artifact v) s = (post_artifact c r svc env v s).1
  serve (artifact_version id v) s = (post_artifact_version c r svc env id v s).1
  serve (artifact_status status id asked) s = (post_artifact_status c r svc env status id asked s).1
  serve (memory v) s = (post_memory c r svc env v s).1
  serve (memory_version id v) s = (post_memory_version c r svc env id v s).1
  serve (memory_state state id asked) s = (post_memory_state c r svc env state id asked s).1
  serve (relationship v) s = (post_relationship c r svc env v s).1
  serve (workflow envs v) s = (post_workflow c r svc env envs v s).1

  module _ (P : Tables F → Type 0) (given : is_empty c.default_workspace ≡ false)
      (kept : IsKept c.default_workspace P) (s : Tables F) (h : P s) where
    kept_for : (asked : String) (o : WriteOptions) → opts c r asked ≡ ok o → IsKept o.workspace_id P
    kept_for asked o e = rw (opts-default c r asked o given e) kept

    -- What the transactions of the default workspace keep holds after any request that writes.
    serve_keeps : (p : Post F) → P (serve p s)
    unfolding serve
    serve_keeps (scope v) =
        posted-Keeps P c r v.workspace_id (λ (o : WriteOptions). create_scope env o v) 201 s h
          λ o e. create_scope_keeps P env o (kept_for v.workspace_id o e) s h v
    serve_keeps (entity v) =
        posted-Keeps P c r v.workspace_id (λ (o : WriteOptions). create_entity env o v) 201 s h
          λ o e. create_entity_keeps P env o (kept_for v.workspace_id o e) s h v
    serve_keeps (artifact v) =
        posted-Keeps P c r v.workspace_id (λ (o : WriteOptions). create_artifact env o v) 201 s h
          λ o e. create_artifact_keeps P env o (kept_for v.workspace_id o e) s h v
    serve_keeps (artifact_version id v) =
        posted-Keeps P c r v.workspace_id (λ (o : WriteOptions). version_artifact env o id v) 200 s
          h λ o e. version_artifact_keeps P env o (kept_for v.workspace_id o e) s h id v
    serve_keeps (artifact_status status id asked) =
        posted-Keeps P c r asked (λ (o : WriteOptions). set_artifact_status env o id status) 200 s h
          λ o e. set_artifact_status_keeps P env o (kept_for asked o e) s h id status
    serve_keeps (memory v) =
        posted-Keeps P c r v.workspace_id (λ (o : WriteOptions). create_memory svc env o v) 201 s h
          λ o e. create_memory_keeps P svc env o (kept_for v.workspace_id o e) s h v
    serve_keeps (memory_version id v) =
        posted-Keeps P c r v.workspace_id (λ (o : WriteOptions). version_memory svc env o id v) 200
          s h λ o e. version_memory_keeps P svc env o (kept_for v.workspace_id o e) s h id v
    serve_keeps (memory_state state id asked) =
        posted-Keeps P c r asked (λ (o : WriteOptions). set_memory_state svc env o id state) 200 s h
          λ o e. set_memory_state_keeps P svc env o (kept_for asked o e) s h id state
    serve_keeps (relationship v) =
        posted-Keeps P c r v.workspace_id (λ (o : WriteOptions). create_relationship env o v) 201 s
          h λ o e. create_relationship_keeps P env o (kept_for v.workspace_id o e) s h v
    serve_keeps (workflow envs v) =
        posted-Keeps P c r v.workspace_id
          (λ (o : WriteOptions). ingest_workflow_event svc env envs o v) 201 s h
          λ o e. ingest_workflow_event_keeps P o (kept_for v.workspace_id o e) svc env envs v s h

  -- If the server has a default workspace, then no request to a route that writes, but for the import of a
  -- snapshot, changes the log of any other workspace, whatever workspace its body names.
  pub serve-log_of :
      (p : Post F) (s : Tables F) (other : String)
      → is_empty c.default_workspace ≡ false
      → c.default_workspace ≢ other
      → log_of other (serve p s) ≡ log_of other s
  unfolding HasLog
  serve-log_of p s other given apart =
      serve_keeps (HasLog other (log_of other s)) given
        (HasLog-IsKept c.default_workspace other apart _) s refl p
