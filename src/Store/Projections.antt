-- ===== src/Store/Projections.antt =====
-- `RebuildProjections` of knowledge/sqlstore.go: the four tables of current versions are computed
-- again from the rows. The full-text tables that it refills are not part of the model.
use vessica_knowledge_server.Base.{String, ◌≡◌, ok, Action}
use vessica_knowledge_server.Store.Table.{rebuild, get_current}
use vessica_knowledge_server.Store.Table.History.{IsHistory-IsCoherent}
use vessica_knowledge_server.Store.Table.Rebuild.{get_current-rebuild}
use vessica_knowledge_server.Store.Tables.{
  Tables, entity_row, artifact_row, memory_row, relationship_row,
}
use vessica_knowledge_server.Store.Consistent.{IsConsistent}

module _ {F : Type 0} where
  unfoldable pub rebuild_projections : String → Action (Tables F) (Unit {0})
  rebuild_projections w s = (
    ok tt,
    record s {
      entities = rebuild w s.entities;
      artifacts = rebuild w s.artifacts;
      memories = rebuild w s.memories;
      relationships = rebuild w s.relationships;
    },
  )

  -- Two stores answer every query for a current object alike.
  pub record SameCurrent (s t : Tables F) : Type 0 where
    pub entities : (v i : String) → get_current v i t.entities ≡ get_current v i s.entities
    pub artifacts : (v i : String) → get_current v i t.artifacts ≡ get_current v i s.artifacts
    pub memories : (v i : String) → get_current v i t.memories ≡ get_current v i s.memories
    pub relationships :
        (v i : String) → get_current v i t.relationships ≡ get_current v i s.relationships

  pub rebuild_projections-SameCurrent :
      (w : String) (s : Tables F) → IsConsistent s → SameCurrent s (rebuild_projections w s).1
  unfolding rebuild_projections
  rebuild_projections-SameCurrent w s h = record {
    entities = λ v i.
        get_current-rebuild w v i s.entities (IsHistory-IsCoherent s.entities h.entities.history);
    artifacts = λ v i.
        get_current-rebuild w v i s.artifacts
          (IsHistory-IsCoherent s.artifacts h.artifacts.history);
    memories = λ v i.
        get_current-rebuild w v i s.memories (IsHistory-IsCoherent s.memories h.memories.history);
    relationships = λ v i.
        get_current-rebuild w v i s.relationships
          (IsHistory-IsCoherent s.relationships h.relationships.history);
  }
