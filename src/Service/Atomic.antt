-- ===== src/Service/Atomic.antt =====
-- Every write of knowledge/service.go is refused, replayed or made once.
use vessica_knowledge_server.Base.{
  ◌+◌, String, ◌≡◌, refl, some, Action, ◌>>◌, bind_ok, bind_err, inl, inr, ap,
}
use vessica_knowledge_server.Models.{
  Scope, Entity, Artifact, Memory, Relationship, WriteOptions, Payload, Event,
}
use vessica_knowledge_server.Store.Tables.{
  Tables, entity_row, artifact_row, memory_row, relationship_row,
}
use vessica_knowledge_server.Store.Table.{get_current}
use vessica_knowledge_server.Store.Read.{
  or_missing, get_version, get_scope, get_entity, get_artifact, get_memory, get_relationship,
}
use vessica_knowledge_server.Store.Write.Effect.{
  Effect, create_scope-Effect, put_entity-Effect, put_artifact-Effect, put_memory-Effect,
  put_relationship-Effect,
}
use vessica_knowledge_server.Service.Host.{Host, Env, Service}
use vessica_knowledge_server.Service.Writing.{event}
use vessica_knowledge_server.Service.Writing.Outcome.{Outcome, once-Outcome, reject-Effect}
use vessica_knowledge_server.Service.Scopes.Parent.{check_parent-Passes}
use vessica_knowledge_server.Service.Scopes.{new_scope, check_parent, create_scope}
use vessica_knowledge_server.Service.Entities.{
  new_entity, next_entity, create_entity, version_entity,
}
use vessica_knowledge_server.Service.Artifacts.{
  new_artifact, next_artifact, create_artifact, version_artifact,
}
use vessica_knowledge_server.Service.Memories.{
  new_memory, next_memory, create_memory, version_memory,
}
use vessica_knowledge_server.Service.Relationships.{new_relationship, create_relationship}

module _ {F : Type 0} (env : Env) (o : WriteOptions) (s : Tables F) where
  check_parent-Effect :
      {A : Type 0} (p : String) (m : Action (Tables F) A) (u : A) (e : Event F)
      → Effect s u e (m s)
      → Effect s u e ((check_parent o.workspace_id p >> m) s)
  check_parent-Effect p m u e h = elim (check_parent-Passes o.workspace_id p s) [
    | inl (passed, _) ↦ rw (bind_ok (check_parent o.workspace_id p) (λ _. m) passed) h
    | inr (f, bad) ↦ rw (bind_err (check_parent o.workspace_id p) (λ _. m) bad) refl
  ]

  -- `CreateScope`: an error leaves the store as it was. A success either finds the idempotency key
  -- recorded and leaves the store as it was, or finds it new, returns the scope as the service completes
  -- it, and adds to the log exactly the event of its creation.
  pub create_scope-Outcome :
      (v : Scope)
      → let u = new_scope env o v in
        Outcome s o u
          (event env o "scope" u.id "scope.created" 1 (Payload.scope u))
          (create_scope env o v s)
  unfolding create_scope get_scope
  create_scope-Outcome v =
      once-Outcome s o _ _ _ _ (λ old. refl)
        (reject-Effect _ _ _ s _ _ (check_parent-Effect _ _ _ _ (create_scope-Effect _ _ s)))

  -- `CreateEntity`: an error leaves the store as it was. A success either finds the idempotency key
  -- recorded and leaves the store as it was, or finds it new, returns the entity as the service completes
  -- it, and adds to the log exactly the event of its creation.
  pub create_entity-Outcome :
      (v : Entity)
      → let u = new_entity env o v in
        Outcome s o u
          (event env o "entity" u.id "entity.created" 1 (Payload.entity u))
          (create_entity env o v s)
  unfolding create_entity get_entity
  create_entity-Outcome v =
      once-Outcome s o _ _ _ _ (λ old. refl)
        (reject-Effect _ _ _ s _ _ (reject-Effect _ _ _ s _ _ (put_entity-Effect _ _ s)))

  -- `VersionEntity` of an object that has a current version: an error leaves the store as it was. A success
  -- either finds the idempotency key recorded and leaves the store as it was, or finds it new, returns
  -- the next version of the entity, and adds to the log exactly the event of that version.
  pub version_entity-Outcome :
      (id : String) (v cur : Entity)
      → get_current o.workspace_id id s.entities ≡ some cur
      → let u = next_entity env o id cur v in
        Outcome s o u
          (event env o "entity" id "entity.versioned" (cur.version + 1) (Payload.entity u))
          (version_entity env o id v s)
  unfolding version_entity get_entity
  version_entity-Outcome id v cur found =
      once-Outcome s o _ _ _ _ (λ old. refl)
        (rw
          (bind_ok (get_entity o.workspace_id id) _
            (ap (λ c. (or_missing "entity not found" c, s)) found))
          (reject-Effect _ _ _ s _ _ (put_entity-Effect _ _ s)))

module _ {F : Type 0} ⦃host : Host F⦄ (env : Env) (o : WriteOptions) (s : Tables F) where
  -- `CreateArtifact`: an error leaves the store as it was. A success either finds the idempotency key
  -- recorded and leaves the store as it was, or finds it new, returns the artifact as the service completes
  -- it, and adds to the log exactly the event of its creation.
  pub create_artifact-Outcome :
      (v : Artifact)
      → let u = new_artifact host.sha256_hex env o v in
        Outcome s o u
          (event env o "artifact" u.id "artifact.created" 1 (Payload.artifact u))
          (create_artifact env o v s)
  unfolding create_artifact get_artifact
  create_artifact-Outcome v =
      once-Outcome s o _ _ _ _ (λ old. refl)
        (reject-Effect _ _ _ s _ _
          (reject-Effect _ _ _ s _ _ (reject-Effect _ _ _ s _ _ (put_artifact-Effect _ _ s))))

  -- `VersionArtifact` of an object that has a current version: an error leaves the store as it was. A success
  -- either finds the idempotency key recorded and leaves the store as it was, or finds it new, returns
  -- the next version of the artifact, and adds to the log exactly the event of that version.
  pub version_artifact-Outcome :
      (id : String) (v cur : Artifact)
      → get_current o.workspace_id id s.artifacts ≡ some cur
      → let u = next_artifact host.sha256_hex env o id cur v in
        Outcome s o u
          (event env o "artifact" id "artifact.versioned" (cur.version + 1) (Payload.artifact u))
          (version_artifact env o id v s)
  unfolding version_artifact get_artifact get_version
  version_artifact-Outcome id v cur found =
      once-Outcome s o _ _ _ _ (λ old. refl)
        (rw
          (bind_ok (get_artifact o.workspace_id id 0) _
            (ap (λ c. (or_missing "artifact not found" c, s)) found))
          (reject-Effect _ _ _ s _ _ (reject-Effect _ _ _ s _ _ (put_artifact-Effect _ _ s))))

  -- `CreateRelationship`: an error leaves the store as it was. A success either finds the idempotency key
  -- recorded and leaves the store as it was, or finds it new, returns the relationship as the service completes
  -- it, and adds to the log exactly the event of its creation.
  pub create_relationship-Outcome :
      (v : Relationship F)
      → let u = new_relationship env o v in
        Outcome s o u
          (event env o "relationship" u.id "relationship.created" 1 (Payload.relationship u))
          (create_relationship env o v s)
  unfolding create_relationship get_relationship
  create_relationship-Outcome v =
      once-Outcome s o _ _ _ _ (λ old. refl)
        (reject-Effect _ _ _ s _ _ (reject-Effect _ _ _ s _ _ (put_relationship-Effect _ _ s)))

module _ {F : Type 0} ⦃host : Host F⦄ (svc : Service F) (env : Env) (o : WriteOptions)
    (s : Tables F) where
  -- `CreateMemory`: an error leaves the store as it was. A success either finds the idempotency key
  -- recorded and leaves the store as it was, or finds it new, returns the memory as the service completes
  -- it, and adds to the log exactly the event of its creation.
  pub create_memory-Outcome :
      (v : Memory F)
      → let u = new_memory svc env o v in
        Outcome s o u
          (event env o "memory" u.id "memory.created" 1 (Payload.memory u))
          (create_memory svc env o v s)
  unfolding create_memory get_memory
  create_memory-Outcome v =
      once-Outcome s o _ _ _ _ (λ old. refl)
        (reject-Effect _ _ _ s _ _ (
          reject-Effect _ _ _ s _ _
            (reject-Effect _ _ _ s _ _ (reject-Effect _ _ _ s _ _ (put_memory-Effect _ _ _ s)))))

  -- `VersionMemory` of an object that has a current version: an error leaves the store as it was. A success
  -- either finds the idempotency key recorded and leaves the store as it was, or finds it new, returns
  -- the next version of the memory, and adds to the log exactly the event of that version.
  pub version_memory-Outcome :
      (id : String) (v cur : Memory F)
      → get_current o.workspace_id id s.memories ≡ some cur
      → let u = next_memory svc env o id cur v in
        Outcome s o u
          (event env o "memory" id "memory.versioned" (cur.version + 1) (Payload.memory u))
          (version_memory svc env o id v s)
  unfolding version_memory get_memory get_version
  version_memory-Outcome id v cur found =
      once-Outcome s o _ _ _ _ (λ old. refl)
        (rw
          (bind_ok (get_memory o.workspace_id id 0) _
            (ap (λ c. (or_missing "memory not found" c, s)) found))
          (reject-Effect _ _ _ s _ _
            (reject-Effect _ _ _ s _ _ (reject-Effect _ _ _ s _ _ (put_memory-Effect _ _ _ s)))))
