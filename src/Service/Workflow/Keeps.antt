-- ===== src/Service/Workflow/Keeps.antt =====
-- What the transactions keep holds after a workflow event.
use vessica_knowledge_server.Base.{ℕ, suc, String, List, [], ◌∷◌, ok, err, Result, ◌>>=◌}
use vessica_knowledge_server.Models.{WorkflowEvent, WriteOptions, ExternalRef}
use vessica_knowledge_server.Store.Tables.{Tables}
use vessica_knowledge_server.Service.Host.{Host, Env, Service}
use vessica_knowledge_server.Service.Memories.{create_memory}
use vessica_knowledge_server.Service.Kept.{IsKept, create_memory_keeps, create_relationship_keeps}
use vessica_knowledge_server.Service.Writing.Keeps.{reject-Keeps}
use vessica_knowledge_server.Service.Workflow.{
  workflow_options, workflow_memory, link_references, ingest_workflow_event,
}

module _ {F : Type 0} (P : Tables F → Type 0) where
  -- A call, and what is done behind its success.
  then_keeps :
      {A B : Type 0} (r : Result A × Tables F) (f : A → Tables F → Tables F) (g : A → B)
      → P r.1
      → ((a : A) (t : Tables F) → P t → P (f a t))
      → P (((λ (t : Tables F). r) >>= λ a t. (ok (g a), f a t)) r.1).1
  unfolding ◌>>=◌
  then_keeps (ok a, t) f g h k = k a t h
  then_keeps (err e, t) f g h k = h

module _ {F : Type 0} ⦃host : Host F⦄ (P : Tables F → Type 0) (o : WriteOptions)
    (kept : IsKept o.workspace_id P) where
  link_references_keeps :
      (envs : ℕ → Env) (w : WorkflowEvent) (id : String) (i : ℕ) (rs : List ExternalRef)
      (s : Tables F)
      → P s
      → P (link_references envs o w id i rs s)
  unfolding link_references
  link_references_keeps envs w id i [] s h = h
  link_references_keeps envs w id i (r ∷ rs) s h =
      link_references_keeps envs w id (suc i) rs _
        (create_relationship_keeps P (envs i) _ kept s h _)

module _ {F : Type 0} ⦃host : Host F⦄ (P : Tables F → Type 0) (o : WriteOptions)
    (kept : IsKept o.workspace_id P) where
  pub ingest_workflow_event_keeps :
      (svc : Service F) (env : Env) (envs : ℕ → Env) (w : WorkflowEvent) (s : Tables F)
      → P s
      → P (ingest_workflow_event svc env envs o w s).1
  unfolding ingest_workflow_event ◌>>=◌ workflow_options
  ingest_workflow_event_keeps svc env envs w s h = reject-Keeps P s h _ _ _ λ _.
      reject-Keeps P s h _ _ _ λ _.
        then_keeps P (create_memory svc env (workflow_options o w) (workflow_memory w) s)
          (λ got. link_references envs (workflow_options o w) w got.id 0 w.references) (λ got. got)
          (create_memory_keeps P svc env (workflow_options o w) kept s h (workflow_memory w))
          (λ got t.
            link_references_keeps P (workflow_options o w) kept envs w got.id 0 w.references t)
