-- ===== src/Service/Consistent.antt =====
-- Every write of knowledge/service.go keeps the store consistent.
use vessica_knowledge_server.Base.{ℕ, String, arith, ◌∷◌, ◌==◌, if◌then◌else◌}
use Prim.Native.String.{◌++◌}
use vessica_knowledge_server.Store.Write
use vessica_knowledge_server.Store.Jobs.{enqueue}
use vessica_knowledge_server.Models.{Scope, Entity, Artifact, Memory, Relationship, Event}
use vessica_knowledge_server.Store.Tables.{
  Tables, entity_row, artifact_row, memory_row, relationship_row,
}
use vessica_knowledge_server.Store.Table.{put_row}
use vessica_knowledge_server.Store.Table.History.{Follows}
use vessica_knowledge_server.Store.Table.Numbered.{put_row-IsNumbered}
use vessica_knowledge_server.Store.Write.{
  event_clash, put_entity, put_artifact, put_memory, put_relationship,
}
use vessica_knowledge_server.Store.Consistent.{IsConsistent, event_clash-IsNew}
use vessica_knowledge_server.Service.Writing.Keeps.{tx-Keeps, row-Keeps}
use vessica_knowledge_server.Service.Kept.{IsKept}

module _ {F : Type 0} (s : Tables F) (sound : IsConsistent s) (e : Event F) where
  put_entity-IsConsistent : (v : Entity) → Follows v s.entities → IsConsistent (put_entity v e s).1
  unfolding put_entity
  put_entity-IsConsistent v f = tx-Keeps IsConsistent s sound v e _ λ s2 fresh h.
      row-Keeps IsConsistent s sound (put_row v s.entities)
        (λ t. record s { events = e ∷ s.events; entities = t }) s2 h
        λ t put. record {
          log = (event_clash-IsNew _ _ fresh, sound.log);
          artifacts = sound.artifacts;
          memories = sound.memories;
          relationships = sound.relationships;
          entities = put_row-IsNumbered v s.entities sound.entities f put;
        }

  put_artifact-IsConsistent :
      (v : Artifact) → Follows v s.artifacts → IsConsistent (put_artifact v e s).1
  unfolding put_artifact
  put_artifact-IsConsistent v f = tx-Keeps IsConsistent s sound v e _ λ s2 fresh h.
      row-Keeps IsConsistent s sound (put_row v s.artifacts)
        (λ t. record s { events = e ∷ s.events; artifacts = t }) s2 h
        λ t put. record {
          log = (event_clash-IsNew _ _ fresh, sound.log);
          entities = sound.entities;
          memories = sound.memories;
          relationships = sound.relationships;
          artifacts = put_row-IsNumbered v s.artifacts sound.artifacts f put;
        }

  put_relationship-IsConsistent :
      (v : Relationship F) → Follows v s.relationships → IsConsistent (put_relationship v e s).1
  unfolding put_relationship
  put_relationship-IsConsistent v f = tx-Keeps IsConsistent s sound v e _ λ s2 fresh h.
      row-Keeps IsConsistent s sound (put_row v s.relationships)
        (λ t. record s { events = e ∷ s.events; relationships = t }) s2 h
        λ t put. record {
          log = (event_clash-IsNew _ _ fresh, sound.log);
          entities = sound.entities;
          artifacts = sound.artifacts;
          memories = sound.memories;
          relationships = put_row-IsNumbered v s.relationships sound.relationships f put;
        }

  put_memory-IsConsistent :
      (v : Memory F) (now : ℕ) → Follows v s.memories → IsConsistent (put_memory v e now s).1
  unfolding put_memory
  put_memory-IsConsistent v now f = tx-Keeps IsConsistent s sound v e _ λ s2 fresh h.
      row-Keeps IsConsistent s sound (put_row v s.memories)
        (λ t. record s {
          events = e ∷ s.events;
          memories = t;
          jobs =
              if v.embedding_state == "pending"
              then enqueue v.workspace_id v.id v.version (v.title ++ "\n" ++ v.content) now s.jobs
              else s.jobs;
        })
        s2 h
        λ t put. record {
          log = (event_clash-IsNew _ _ fresh, sound.log);
          entities = sound.entities;
          artifacts = sound.artifacts;
          relationships = sound.relationships;
          memories = put_row-IsNumbered v s.memories sound.memories f put;
        }

  create_scope-IsConsistent : (v : Scope) → IsConsistent (Write.create_scope v e s).1
  unfolding Write.create_scope
  create_scope-IsConsistent v =
      tx-Keeps IsConsistent s sound v e _
        λ s2 fresh h. let new = event_clash-IsNew e s.events fresh in ground arith

pub IsConsistent-IsKept : {F : Type 0} {w : String} → IsKept w (IsConsistent {F = F})
IsConsistent-IsKept = record {
  scope = λ s h v e _ _ _ _. create_scope-IsConsistent s h e v;
  entity = λ s h v e _ _ _ f. put_entity-IsConsistent s h e v f;
  artifact = λ s h v e _ _ _ f. put_artifact-IsConsistent s h e v f;
  memory = λ s h v e now _ _ _ f. put_memory-IsConsistent s h e v now f;
  relationship = λ s h v e _ _ _ f. put_relationship-IsConsistent s h e v f;
}
