-- ===== src/Service/Run.antt =====
-- A life of the service: any writes of knowledge/service.go, one after another, each with its own
-- options, clock and random source, and the embedder that is configured then.
use vessica_knowledge_server.Base.{ℕ, String, List, [], ◌∷◌}
use vessica_knowledge_server.Models.{
  Scope, Entity, Artifact, Memory, Relationship, WorkflowEvent, WriteOptions,
}
use vessica_knowledge_server.Store.Tables.{Tables, empty}
use vessica_knowledge_server.Store.Consistent.{IsConsistent, empty-IsConsistent}
use vessica_knowledge_server.Store.Projections.{
  rebuild_projections, SameCurrent, rebuild_projections-SameCurrent,
}
use vessica_knowledge_server.Service.Host.{Host, Env, Service}
use vessica_knowledge_server.Service.Scopes.{create_scope}
use vessica_knowledge_server.Service.Entities.{create_entity, version_entity}
use vessica_knowledge_server.Service.Artifacts.{
  create_artifact, version_artifact, set_artifact_status,
}
use vessica_knowledge_server.Service.Memories.{create_memory, version_memory, set_memory_state}
use vessica_knowledge_server.Service.Relationships.{create_relationship}
use vessica_knowledge_server.Service.Workflow.{ingest_workflow_event}
use vessica_knowledge_server.Service.Workflow.Keeps.{ingest_workflow_event_keeps}
use vessica_knowledge_server.Service.Consistent.{IsConsistent-IsKept}
use vessica_knowledge_server.Service.Kept.{
  IsKept, create_scope_keeps, create_entity_keeps, version_entity_keeps, create_artifact_keeps,
  version_artifact_keeps, set_artifact_status_keeps, create_relationship_keeps, create_memory_keeps,
  version_memory_keeps, set_memory_state_keeps,
}

pub data Write (F : Type 0) : Type 0 where
  scope : Scope → Write F
  entity : Entity → Write F
  next_entity : String → Entity → Write F
  artifact : Artifact → Write F
  next_artifact : String → Artifact → Write F
  artifact_status : String → String → Write F
  memory : Memory F → Write F
  next_memory : String → Memory F → Write F
  memory_state : String → String → Write F
  relationship : Relationship F → Write F
  workflow : (ℕ → Env) → WorkflowEvent → Write F

pub record Request (F : Type 0) : Type 0 where
  pub service : Service F
  pub env : Env
  pub options : WriteOptions
  pub write : Write F

module _ {F : Type 0} ⦃host : Host F⦄ where
  -- The store after one write, whether it succeeds or not.
  unfoldable pub perform : Service F → Env → WriteOptions → Write F → Tables F → Tables F
  perform svc env o (scope v) s = (create_scope env o v s).1
  perform svc env o (entity v) s = (create_entity env o v s).1
  perform svc env o (next_entity id v) s = (version_entity env o id v s).1
  perform svc env o (artifact v) s = (create_artifact env o v s).1
  perform svc env o (next_artifact id v) s = (version_artifact env o id v s).1
  perform svc env o (artifact_status id status) s = (set_artifact_status env o id status s).1
  perform svc env o (memory v) s = (create_memory svc env o v s).1
  perform svc env o (next_memory id v) s = (version_memory svc env o id v s).1
  perform svc env o (memory_state id state) s = (set_memory_state svc env o id state s).1
  perform svc env o (relationship v) s = (create_relationship env o v s).1
  perform svc env o (workflow envs v) s = (ingest_workflow_event svc env envs o v s).1

  unfoldable pub run : List (Request F) → Tables F → Tables F
  run [] s = s
  run (r ∷ rs) s = run rs (perform r.service r.env r.options r.write s)

  module _ (P : Tables F → Type 0) (kept : (w : String) → IsKept w P) where
    perform-Keeps :
        (svc : Service F) (env : Env) (o : WriteOptions) (w : Write F) (s : Tables F)
        → P s
        → P (perform svc env o w s)
    unfolding perform
    perform-Keeps svc env o (scope v) s h = create_scope_keeps P env o (kept o.workspace_id) s h v
    perform-Keeps svc env o (entity v) s h = create_entity_keeps P env o (kept o.workspace_id) s h v
    perform-Keeps svc env o (next_entity id v) s h =
        version_entity_keeps P env o (kept o.workspace_id) s h id v
    perform-Keeps svc env o (artifact v) s h =
        create_artifact_keeps P env o (kept o.workspace_id) s h v
    perform-Keeps svc env o (next_artifact id v) s h =
        version_artifact_keeps P env o (kept o.workspace_id) s h id v
    perform-Keeps svc env o (artifact_status id status) s h =
        set_artifact_status_keeps P env o (kept o.workspace_id) s h id status
    perform-Keeps svc env o (memory v) s h =
        create_memory_keeps P svc env o (kept o.workspace_id) s h v
    perform-Keeps svc env o (next_memory id v) s h =
        version_memory_keeps P svc env o (kept o.workspace_id) s h id v
    perform-Keeps svc env o (memory_state id state) s h =
        set_memory_state_keeps P svc env o (kept o.workspace_id) s h id state
    perform-Keeps svc env o (relationship v) s h =
        create_relationship_keeps P env o (kept o.workspace_id) s h v
    perform-Keeps svc env o (workflow envs v) s h =
        ingest_workflow_event_keeps P o (kept o.workspace_id) svc env envs v s h

    -- What the transactions keep holds after any writes.
    pub run_keeps : (rs : List (Request F)) (s : Tables F) → P s → P (run rs s)
    unfolding run
    run_keeps [] s h = h
    run_keeps (r ∷ rs) s h = run_keeps rs _ (perform-Keeps r.service r.env r.options r.write s h)

  -- After any writes from the empty store, successful or not, no two events share an id, or a workspace
  -- and an idempotency key, and the versions of each object run from 1 to its current one without a gap.
  pub run-IsConsistent : (rs : List (Request F)) → IsConsistent (run rs empty)
  run-IsConsistent rs =
      run_keeps IsConsistent (λ w. IsConsistent-IsKept) rs empty empty-IsConsistent

  -- After any writes from the empty store, rebuilding the projections of a workspace changes no answer
  -- to a query for a current entity, artifact, memory or relationship, of that workspace or another.
  pub rebuild_after_run :
      (rs : List (Request F)) (w : String)
      → SameCurrent (run rs empty) (rebuild_projections w (run rs empty)).1
  rebuild_after_run rs w = rebuild_projections-SameCurrent w (run rs empty) (run-IsConsistent rs)
