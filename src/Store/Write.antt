-- ===== src/Store/Write.antt =====
-- The writes of knowledge/sqlstore.go. Each appends one event and one row in a transaction. The only
-- failure of the database is a violated key: a transaction that meets one is rolled back.
pub mod Effect
pub mod Stored
use Prim.Native.String.{◌++◌}
use vessica_knowledge_server.Base.{
  ℕ, String, Bool, true, false, Option, none, some, List, [], ◌∷◌, ◌&&◌, ◌||◌, ◌==◌, Action,
  Failure, other, ok, err, pure, ◌>>=◌, ◌>>◌, if◌then◌else◌,
}
use vessica_knowledge_server.Models.{Scope, Entity, Artifact, Memory, Relationship, Event}
use vessica_knowledge_server.Store.Table.{put_row}
use vessica_knowledge_server.Store.Tables.{
  Tables, entity_row, artifact_row, memory_row, relationship_row,
}
use vessica_knowledge_server.Store.Jobs.{enqueue}

abbrev pub constraint_failed : Failure
constraint_failed = other "constraint failed"

-- PRIMARY KEY(id) and UNIQUE(workspace_id,canonical_key)
unfoldable pub scope_clash : Scope → List Scope → Bool
scope_clash v [] = false
scope_clash v (u ∷ us) =
    (u.id == v.id || u.workspace_id == v.workspace_id && u.canonical_key == v.canonical_key)
    || scope_clash v us

module _ {F : Type 0} where
  -- PRIMARY KEY(id) and UNIQUE(workspace_id,idempotency_key)
  unfoldable pub event_clash : Event F → List (Event F) → Bool
  event_clash e [] = false
  event_clash e (d ∷ ds) =
      (d.id == e.id || d.workspace_id == e.workspace_id && d.idempotency_key == e.idempotency_key)
      || event_clash e ds

  -- `eventTx`
  unfoldable pub event_tx : Event F → (Tables F → Option (Tables F)) → Action (Tables F) (Unit {0})
  event_tx e apply s =
      if event_clash e s.events
      then (err constraint_failed, s)
      else elim (apply (record s { events = e ∷ s.events })) [
        | none ↦ (err constraint_failed, s)
        | some s' ↦ (ok tt, s')
      ]

  unfoldable pub create_scope : Scope → Event F → Action (Tables F) Scope
  create_scope v e = do
    event_tx e
        (λ s. if scope_clash v s.scopes then none else some (record s { scopes = v ∷ s.scopes }))
    pure v

  unfoldable pub put_entity : Entity → Event F → Action (Tables F) Entity
  put_entity v e = do
    event_tx e (λ s. elim (put_row v s.entities) [
      | none ↦ none
      | some t ↦ some (record s { entities = t })
    ])
    pure v

  unfoldable pub put_artifact : Artifact → Event F → Action (Tables F) Artifact
  put_artifact v e = do
    event_tx e (λ s. elim (put_row v s.artifacts) [
      | none ↦ none
      | some t ↦ some (record s { artifacts = t })
    ])
    pure v

  -- `now` is the clock that dates the embedding job of a pending memory.
  unfoldable pub put_memory : Memory F → Event F → ℕ → Action (Tables F) (Memory F)
  put_memory v e now = do
    event_tx e (λ s. elim (put_row v s.memories) [
      | none ↦ none
      | some t ↦ some (record s {
        memories = t;
        jobs =
            if v.embedding_state == "pending"
            then enqueue v.workspace_id v.id v.version (v.title ++ "\n" ++ v.content) now s.jobs
            else s.jobs;
      })
    ])
    pure v

  unfoldable pub put_relationship : Relationship F → Event F → Action (Tables F) (Relationship F)
  put_relationship v e = do
    event_tx e (λ s. elim (put_row v s.relationships) [
      | none ↦ none
      | some t ↦ some (record s { relationships = t })
    ])
    pure v
