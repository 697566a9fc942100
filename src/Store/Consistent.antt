-- ===== src/Store/Consistent.antt =====
-- The invariant of the database of knowledge/sqlstore.go under the writes of the service.
use vessica_knowledge_server.Base.{All, ◌≢◌, arith, eq_iff, List, [], ◌∷◌, false, ◌≡◌}
use vessica_knowledge_server.Models.{Event}
use vessica_knowledge_server.Store.Table.Numbered.{IsNumbered, no_table-IsNumbered}
use vessica_knowledge_server.Store.Tables.{
  Tables, empty, entity_row, artifact_row, memory_row, relationship_row,
}
use vessica_knowledge_server.Store.Write.{event_clash}

module _ {F : Type 0} where
  -- Neither the id nor the key within the workspace is taken.
  abbrev pub IsNew : Event F → Event F → Type 0
  IsNew e d =
      (d.id ≢ e.id) × (d.workspace_id ≡ e.workspace_id → d.idempotency_key ≢ e.idempotency_key)

  -- No two events share an id, or a workspace and an idempotency key.
  abbrev pub IsLog : List (Event F) → Type 0
  IsLog [] = Unit
  IsLog (e ∷ es) = All (IsNew e) es × IsLog es

  -- An event that the indexes admit is new to each event of the log.
  pub event_clash-IsNew :
      (e : Event F) (ds : List (Event F)) → event_clash e ds ≡ false → All (IsNew e) ds
  unfolding event_clash
  event_clash-IsNew e [] h = tt
  event_clash-IsNew e (d ∷ ds) h =
      let own : IsNew e d = (
        λ same. ground (arith, h, same, eq_iff d.id e.id),
        λ w same. ground (
          arith,
          h,
          w,
          same,
          eq_iff d.workspace_id e.workspace_id,
          eq_iff d.idempotency_key e.idempotency_key,
        ),
      ) in
      (own, event_clash-IsNew e ds (ground (arith, h)))

-- The log has no clashes, and each object has the versions 1 to its current one, once each.
pub record IsConsistent {F : Type 0} (s : Tables F) : Type 0 where
  pub log : IsLog s.events
  pub entities : IsNumbered s.entities
  pub artifacts : IsNumbered s.artifacts
  pub memories : IsNumbered s.memories
  pub relationships : IsNumbered s.relationships

pub empty-IsConsistent : {F : Type 0} → IsConsistent (empty {F = F})
empty-IsConsistent = record {
  log = tt;
  entities = no_table-IsNumbered;
  artifacts = no_table-IsNumbered;
  memories = no_table-IsNumbered;
  relationships = no_table-IsNumbered;
}
