-- ===== src/Service/Kept.antt =====
-- A property of the tables that every transaction of the service keeps is kept by every write of
-- knowledge/service.go.
use vessica_knowledge_server.Base.{◌≡◌, ℕ, String, inl, inr, refl, bind_ok, bind_err}
use vessica_knowledge_server.Store.Write
use vessica_knowledge_server.Store.Table.Laws.{get_current-version}
use vessica_knowledge_server.Service.Scopes.Parent.{check_parent-Passes}
use vessica_knowledge_server.Service.Scopes.{new_scope, check_parent, create_scope}
use vessica_knowledge_server.Models.{
  Scope, Entity, Artifact, Memory, Relationship, WriteOptions, Event,
}
use vessica_knowledge_server.Store.Tables.{
  Tables, entity_row, artifact_row, memory_row, relationship_row,
}
use vessica_knowledge_server.Store.Table.{get_current}
use vessica_knowledge_server.Store.Table.History.{Follows}
use vessica_knowledge_server.Store.Read.{
  get_scope, get_entity, get_artifact, get_memory, get_relationship, get_version,
}
use vessica_knowledge_server.Store.Write.{
  event_clash, put_entity, put_artifact, put_memory, put_relationship,
}
use vessica_knowledge_server.Service.Host.{Host, Env, Service}
use vessica_knowledge_server.Service.Writing.Keeps.{reject-Keeps, found-Keeps, once-Keeps}
use vessica_knowledge_server.Service.Artifacts.{
  new_artifact, next_artifact, create_artifact, version_artifact, set_artifact_status,
}
use vessica_knowledge_server.Service.Memories.{
  new_memory, next_memory, create_memory, version_memory, set_memory_state,
}
use vessica_knowledge_server.Service.Relationships.{new_relationship, create_relationship}
use vessica_knowledge_server.Service.Entities.{
  new_entity, next_entity, create_entity, version_entity,
}
use vessica_knowledge_server.Store.Ancestors.{HasParent}
use vessica_knowledge_server.Models.{Payload}
use vessica_knowledge_server.Service.Writing.{event}

-- The transactions that the service makes: the event carries the object, and a version follows the current
-- one.
pub record IsKept {F : Type 0} (w : String) (P : Tables F → Type 0) : Type 0 where
  pub scope :
      (s : Tables F)
      → P s
      → (v : Scope) (e : Event F) → e.workspace_id ≡ w
      → e.aggregate_type ≡ "scope"
      → e.payload ≡ Payload.scope v
      → HasParent v.workspace_id v.parent_id s.scopes
      → P (Write.create_scope v e s).1
  pub entity :
      (s : Tables F)
      → P s
      → (v : Entity) (e : Event F) → e.workspace_id ≡ w
      → e.aggregate_type ≡ "entity"
      → e.payload ≡ Payload.entity v
      → Follows v s.entities
      → P (put_entity v e s).1
  pub artifact :
      (s : Tables F)
      → P s
      → (v : Artifact) (e : Event F) → e.workspace_id ≡ w
      → e.aggregate_type ≡ "artifact"
      → e.payload ≡ Payload.artifact v
      → Follows v s.artifacts
      → P (put_artifact v e s).1
  pub memory :
      (s : Tables F)
      → P s
      → (v : Memory F) (e : Event F) (now : ℕ) → e.workspace_id ≡ w
      → e.aggregate_type ≡ "memory"
      → e.payload ≡ Payload.memory v
      → Follows v s.memories
      → P (put_memory v e now s).1
  pub relationship :
      (s : Tables F)
      → P s
      → (v : Relationship F) (e : Event F) → e.workspace_id ≡ w
      → e.aggregate_type ≡ "relationship"
      → e.payload ≡ Payload.relationship v
      → Follows v s.relationships
      → P (put_relationship v e s).1

module _ {F : Type 0} (P : Tables F → Type 0) (env : Env) (o : WriteOptions)
    (kept : IsKept o.workspace_id P) (s : Tables F) (sound : P s) where
  pub create_entity_keeps : (v : Entity) → P (create_entity env o v s).1
  unfolding create_entity get_entity new_entity event
  create_entity_keeps v =
      once-Keeps P s sound o _ _ (λ old. refl)
        (reject-Keeps P s sound _ _ _ λ _.
          reject-Keeps P s sound _ _ _
            λ _. kept.entity s sound (new_entity env o v) _ refl refl refl (inl refl))

  pub version_entity_keeps : (id : String) (v : Entity) → P (version_entity env o id v s).1
  unfolding version_entity get_entity next_entity event
  version_entity_keeps id v =
      once-Keeps P s sound o _ _ (λ old. refl)
        (found-Keeps P s sound _ _ (get_current o.workspace_id id s.entities) _ refl λ cur found.
          reject-Keeps P s sound _ _ _ λ _.
            kept.entity s sound (next_entity env o id cur v) _ refl refl refl
              (inr (cur.version, get_current-version o.workspace_id id s.entities found, refl)))

  pub create_scope_keeps : (v : Scope) → P (create_scope env o v s).1
  unfolding create_scope new_scope get_scope event
  create_scope_keeps v =
      once-Keeps P s sound o _ _ (λ old. refl)
        (reject-Keeps P s sound _ _ _ λ _. elim (check_parent-Passes o.workspace_id v.parent_id s) [
          | inl (passed, parent) ↦
              rw (bind_ok (check_parent o.workspace_id v.parent_id) _ passed)
                (kept.scope s sound (new_scope env o v) _ refl refl refl parent)
          | inr (f, bad) ↦ rw (bind_err (check_parent o.workspace_id v.parent_id) _ bad) sound
        ])

module _ {F : Type 0} ⦃host : Host F⦄ (P : Tables F → Type 0) (env : Env) (o : WriteOptions)
    (kept : IsKept o.workspace_id P) (s : Tables F) (sound : P s) where
  pub create_artifact_keeps : (v : Artifact) → P (create_artifact env o v s).1
  unfolding create_artifact get_artifact new_artifact event
  create_artifact_keeps v =
      once-Keeps P s sound o _ _ (λ old. refl)
        (reject-Keeps P s sound _ _ _ λ _. reject-Keeps P s sound _ _ _ λ _.
          reject-Keeps P s sound _ _ _ λ _.
            kept.artifact s sound (new_artifact host.sha256_hex env o v) _ refl refl refl
              (inl refl))

  pub version_artifact_keeps : (id : String) (v : Artifact) → P (version_artifact env o id v s).1
  unfolding version_artifact get_artifact get_version next_artifact event
  version_artifact_keeps id v =
      once-Keeps P s sound o _ _ (λ old. refl)
        (found-Keeps P s sound _ _ (get_current o.workspace_id id s.artifacts) _ refl λ cur found.
          reject-Keeps P s sound _ _ _ λ _. reject-Keeps P s sound _ _ _ λ _.
            kept.artifact s sound (next_artifact host.sha256_hex env o id cur v) _ refl refl refl
              (inr (cur.version, get_current-version o.workspace_id id s.artifacts found, refl)))

  pub set_artifact_status_keeps : (id status : String) → P (set_artifact_status env o id status s).1
  unfolding set_artifact_status get_artifact get_version
  set_artifact_status_keeps id status = reject-Keeps P s sound _ _ _ λ _.
      found-Keeps P s sound _ _ (get_current o.workspace_id id s.artifacts) _ refl
        λ cur found. version_artifact_keeps id (record cur { status = status })

  pub create_relationship_keeps : (v : Relationship F) → P (create_relationship env o v s).1
  unfolding create_relationship get_relationship new_relationship event
  create_relationship_keeps v =
      once-Keeps P s sound o _ _ (λ old. refl)
        (reject-Keeps P s sound _ _ _ λ _.
          reject-Keeps P s sound _ _ _
            λ _. kept.relationship s sound (new_relationship env o v) _ refl refl refl (inl refl))

module _ {F : Type 0} ⦃host : Host F⦄ (P : Tables F → Type 0) (svc : Service F) (env : Env)
    (o : WriteOptions) (kept : IsKept o.workspace_id P) (s : Tables F) (sound : P s) where
  pub create_memory_keeps : (v : Memory F) → P (create_memory svc env o v s).1
  unfolding create_memory get_memory new_memory event
  create_memory_keeps v =
      once-Keeps P s sound o _ _ (λ old. refl)
        (reject-Keeps P s sound _ _ _ λ _. reject-Keeps P s sound _ _ _ λ _.
          reject-Keeps P s sound _ _ _ λ _.
            reject-Keeps P s sound _ _ _
              λ _. kept.memory s sound (new_memory svc env o v) _ _ refl refl refl (inl refl))

  pub version_memory_keeps : (id : String) (v : Memory F) → P (version_memory svc env o id v s).1
  unfolding version_memory get_memory get_version next_memory event
  version_memory_keeps id v =
      once-Keeps P s sound o _ _ (λ old. refl)
        (found-Keeps P s sound _ _ (get_current o.workspace_id id s.memories) _ refl λ cur found.
          reject-Keeps P s sound _ _ _ λ _. reject-Keeps P s sound _ _ _ λ _.
            reject-Keeps P s sound _ _ _ λ _.
              kept.memory s sound (next_memory svc env o id cur v) _ _ refl refl refl
                (inr (cur.version, get_current-version o.workspace_id id s.memories found, refl)))

  pub set_memory_state_keeps : (id state : String) → P (set_memory_state svc env o id state s).1
  unfolding set_memory_state get_memory get_version
  set_memory_state_keeps id state = reject-Keeps P s sound _ _ _ λ _.
      found-Keeps P s sound _ _ (get_current o.workspace_id id s.memories) _ refl
        λ cur found. version_memory_keeps id (record cur { state = state })
