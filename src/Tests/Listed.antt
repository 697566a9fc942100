-- ===== src/Tests/Listed.antt =====
-- The theorems on lists, at the writes of the history.
use mathlib.Core.List.{map}
use vessica_knowledge_server.Base.{ℕ, true, false, ◌≡◌, ◌↔◌, refl, [], ◌∷◌, some, Member, member}
use vessica_knowledge_server.Store.Table.{get_current}
use vessica_knowledge_server.Store.Table.Numbered.{countdown, or_zero}
use vessica_knowledge_server.Store.Table.Pointers.{current_version}
use vessica_knowledge_server.Store.Tables.{
  Tables, entity_row, artifact_row, memory_row, relationship_row,
}
use vessica_knowledge_server.Store.Queries.{
  list_entities, has_entity, list_artifact_versions, list_memory_versions, related_object_ids,
  related_to_any,
}
use vessica_knowledge_server.Store.Queries.Related.{related_object_ids-related_to_any}
use vessica_knowledge_server.Base.{◌>>=◌, reject_if, select}
use vessica_knowledge_server.Store.Table.{find_row, at_key, put_row}
use vessica_knowledge_server.Store.Table.Pointers.{upsert_current}
use vessica_knowledge_server.Store.Read.{find_event, get_event_by_idempotency, get_relationship}
use vessica_knowledge_server.Store.Write.{event_tx, event_clash, put_relationship}
use vessica_knowledge_server.Store.Queries.{joined}
use vessica_knowledge_server.Service.Rules.{default_string, normalize_maps, valid_object_state}
use vessica_knowledge_server.Service.Writing.{event, once, replay, validate_write}
use vessica_knowledge_server.Service.Relationships.{new_relationship, create_relationship}
use vessica_knowledge_server.Service.Listed.{versions_after_run, list_entities_after_run}
use vessica_knowledge_server.Tests.Data.{thousandths}
use vessica_knowledge_server.Tests.History.{history, filled, current_gateway, with_relationship}

versions_after_run_example :
    (map (λ a. a.version) (list_artifact_versions "w1" "a1" filled)
      ≡ countdown (or_zero (current_version "w1" "a1" filled.artifacts.current)))
    × (map (λ m. m.version) (list_memory_versions "w1" "a1" filled)
        ≡ countdown (or_zero (current_version "w1" "a1" filled.memories.current)))
versions_after_run_example = versions_after_run history "w1" "a1"

list_entities_after_run_example :
    Member current_gateway (list_entities "w1" ("s1" ∷ []) "service" "" filled) ↔ (
      (current_gateway.workspace_id ≡ "w1")
      × (get_current "w1" current_gateway.id filled.entities ≡ some current_gateway)
      × (has_entity ("s1" ∷ []) "service" "" current_gateway ≡ true))
list_entities_after_run_example =
    list_entities_after_run history "w1" ("s1" ∷ []) "service" "" current_gateway

abbrev linked : Tables ℕ
linked = with_relationship.1

leads_to : member "e1" (related_object_ids "w1" ("a1" ∷ []) linked) ≡ true
unfolding create_relationship new_relationship once replay validate_write event
    get_event_by_idempotency find_event ◌>>=◌ reject_if default_string normalize_maps
    valid_object_state put_relationship event_tx event_clash put_row find_row at_key upsert_current
    current_version get_relationship related_object_ids joined select
leads_to = refl

related_object_ids-related_to_any_example :
    (related_to_any "w1" "e1" ("a1" ∷ []) linked ≡ true) × (member "e1" ("a1" ∷ []) ≡ false)
related_object_ids-related_to_any_example =
    related_object_ids-related_to_any "w1" ("a1" ∷ []) linked "e1" leads_to
