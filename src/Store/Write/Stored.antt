-- ===== src/Store/Write/Stored.antt =====
-- What a successful write has stored.
use vessica_knowledge_server.Base.{ℕ, ◌≡◌, ◌∷◌, some, ok, arith, ◌>>=◌}
use vessica_knowledge_server.Models.{Entity, Artifact, Memory, Relationship, Event}
use vessica_knowledge_server.Store.Table.{put_row}
use vessica_knowledge_server.Store.Tables.{
  Tables, entity_row, artifact_row, memory_row, relationship_row,
}
use vessica_knowledge_server.Store.Write.{
  event_tx, put_entity, put_artifact, put_memory, put_relationship,
}

module _ {F : Type 0} (e : Event F) (s : Tables F) {s1 : Tables F} where
  pub put_entity-stored :
      (v : Entity) {r : Entity}
      → put_entity v e s ≡ (ok r, s1)
      → (r ≡ v) × (s1.events ≡ e ∷ s.events) × (put_row v s.entities ≡ some s1.entities)
  unfolding put_entity event_tx ◌>>=◌
  put_entity-stored v h = ground arith

  pub put_artifact-stored :
      (v : Artifact) {r : Artifact}
      → put_artifact v e s ≡ (ok r, s1)
      → (r ≡ v) × (s1.events ≡ e ∷ s.events) × (put_row v s.artifacts ≡ some s1.artifacts)
  unfolding put_artifact event_tx ◌>>=◌
  put_artifact-stored v h = ground arith

  pub put_memory-stored :
      (v : Memory F) {r : Memory F} (now : ℕ)
      → put_memory v e now s ≡ (ok r, s1)
      → (r ≡ v) × (s1.events ≡ e ∷ s.events) × (put_row v s.memories ≡ some s1.memories)
  unfolding put_memory event_tx ◌>>=◌
  put_memory-stored v now h = ground arith

  pub put_relationship-stored :
      (v : Relationship F) {r : Relationship F}
      → put_relationship v e s ≡ (ok r, s1)
      → (r ≡ v) × (s1.events ≡ e ∷ s.events) × (put_row v s.relationships ≡ some s1.relationships)
  unfolding put_relationship event_tx ◌>>=◌
  put_relationship-stored v h = ground arith
