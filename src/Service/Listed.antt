-- ===== src/Service/Listed.antt =====
-- What the lists of knowledge/sqlstore.go hold after writes of knowledge/service.go.
use mathlib.Core.List.{map}
use vessica_knowledge_server.Base.{String, List, ◌≡◌, ◌↔◌, true, Member, some}
use vessica_knowledge_server.Models.{Entity}
use vessica_knowledge_server.Store.Table.{get_current}
use vessica_knowledge_server.Store.Table.Pointers.{current_version}
use vessica_knowledge_server.Store.Table.Numbered.{countdown, or_zero}
use vessica_knowledge_server.Store.Tables.{empty, entity_row, artifact_row, memory_row}
use vessica_knowledge_server.Store.Queries.{
  list_entities, has_entity, list_artifact_versions, list_memory_versions,
}
use vessica_knowledge_server.Store.Queries.Versions.{list_versions-countdown}
use vessica_knowledge_server.Store.Queries.Current.{listed_iff}
use vessica_knowledge_server.Service.Host.{Host}
use vessica_knowledge_server.Service.Run.{Request, run, run-IsConsistent}

module _ {F : Type 0} ⦃host : Host F⦄ (rs : List (Request F)) (w : String) where
  -- After any writes from the empty store, successful or not, the versions that `ListArtifactVersions` and
  -- `ListMemoryVersions` list count down from the object's current version to 1, each once; an id without
  -- a current version has none.
  pub versions_after_run :
      (i : String)
      → (map (λ a. a.version) (list_artifact_versions w i (run rs empty))
          ≡ countdown (or_zero (current_version w i (run rs empty).artifacts.current)))
        × (map (λ m. m.version) (list_memory_versions w i (run rs empty))
            ≡ countdown (or_zero (current_version w i (run rs empty).memories.current)))
  unfolding list_artifact_versions list_memory_versions
  versions_after_run i =
      let ok = run-IsConsistent rs in
      (
        list_versions-countdown w i (run rs empty).artifacts ok.artifacts,
        list_versions-countdown w i (run rs empty).memories ok.memories,
      )

  -- After any writes from the empty store, `ListEntities` lists an entity exactly when it is of the
  -- workspace, it is what `GetEntity` answers for its id, and it has one of the scopes and, where they
  -- are given, the type and the state.
  pub list_entities_after_run :
      (scopes : List String) (type state : String) (v : Entity)
      → Member v (list_entities w scopes type state (run rs empty)) ↔ (
          (v.workspace_id ≡ w)
          × (get_current w v.id (run rs empty).entities ≡ some v)
          × (has_entity scopes type state v ≡ true))
  unfolding list_entities
  list_entities_after_run scopes type state v =
      listed_iff w (run rs empty).entities _ (has_entity scopes type state) v
        (run-IsConsistent rs).entities
