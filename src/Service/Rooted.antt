-- ===== src/Service/Rooted.antt =====
-- The scopes that `CreateScope` of knowledge/service.go makes, and when `ScopeAncestors` ends on them.
use vessica_knowledge_server.Base.{ℕ, ◌≤◌, String, List, ◌≢◌, none, [], arith, ◌∷◌}
use vessica_knowledge_server.Models.{Scope, Entity, Artifact, Memory, Relationship, Event}
use vessica_knowledge_server.Store.Table.{put_row}
use vessica_knowledge_server.Store.Tables.{
  Tables, empty, entity_row, artifact_row, memory_row, relationship_row,
}
use vessica_knowledge_server.Store.Ancestors.{
  scope_ancestors, enough, HasParent, IsRooted, IsUnambiguous,
}
use vessica_knowledge_server.Store.Ancestors.Ends.{visit_all-ends}
use vessica_knowledge_server.Store.Write
use vessica_knowledge_server.Store.Write.{
  scope_clash, put_entity, put_artifact, put_memory, put_relationship,
}
use vessica_knowledge_server.Service.Host.{Host}
use vessica_knowledge_server.Service.Writing.Keeps.{tx-Keeps, row-Keeps, clash-Keeps}
use vessica_knowledge_server.Service.Kept.{IsKept}
use vessica_knowledge_server.Service.Run.{Request, run, run_keeps}

module _ {F : Type 0} where
  -- Every parent is older than its scope.
  abbrev pub AreRooted : Tables F → Type 0
  AreRooted s = IsRooted s.scopes

  module _ (s : Tables F) (h : AreRooted s) (e : Event F) where
    create_scope-AreRooted :
        (v : Scope)
        → HasParent v.workspace_id v.parent_id s.scopes
        → AreRooted (Write.create_scope v e s).1
    unfolding Write.create_scope
    create_scope-AreRooted v parent = tx-Keeps AreRooted s h v e _ λ s2 fresh applied.
        clash-Keeps AreRooted s h (scope_clash v s.scopes)
          (record s { events = e ∷ s.events; scopes = v ∷ s.scopes }) s2 applied λ free. (parent, h)

    put_entity-AreRooted : (v : Entity) → AreRooted (put_entity v e s).1
    unfolding put_entity
    put_entity-AreRooted v = tx-Keeps AreRooted s h v e _ λ s2 fresh applied.
        row-Keeps AreRooted s h (put_row v s.entities)
          (λ t. record s { events = e ∷ s.events; entities = t }) s2 applied λ t put. h

    put_artifact-AreRooted : (v : Artifact) → AreRooted (put_artifact v e s).1
    unfolding put_artifact
    put_artifact-AreRooted v = tx-Keeps AreRooted s h v e _ λ s2 fresh applied.
        row-Keeps AreRooted s h (put_row v s.artifacts)
          (λ t. record s { events = e ∷ s.events; artifacts = t }) s2 applied λ t put. h

    put_relationship-AreRooted : (v : Relationship F) → AreRooted (put_relationship v e s).1
    unfolding put_relationship
    put_relationship-AreRooted v = tx-Keeps AreRooted s h v e _ λ s2 fresh applied.
        row-Keeps AreRooted s h (put_row v s.relationships)
          (λ t. record s { events = e ∷ s.events; relationships = t }) s2 applied λ t put. h

    put_memory-AreRooted : (v : Memory F) (now : ℕ) → AreRooted (put_memory v e now s).1
    unfolding put_memory
    put_memory-AreRooted v now =
        tx-Keeps AreRooted s h v e _ λ s2 fresh applied. ground (arith, h, applied)

  AreRooted-IsKept : {w : String} → IsKept w AreRooted
  AreRooted-IsKept = record {
    scope = λ s h v e _ _ _ parent. create_scope-AreRooted s h e v parent;
    entity = λ s h v e _ _ _ _. put_entity-AreRooted s h e v;
    artifact = λ s h v e _ _ _ _. put_artifact-AreRooted s h e v;
    memory = λ s h v e now _ _ _ _. put_memory-AreRooted s h e v now;
    relationship = λ s h v e _ _ _ _. put_relationship-AreRooted s h e v;
  }

module _ {F : Type 0} ⦃host : Host F⦄ where
  pub run-AreRooted : (rs : List (Request F)) → AreRooted (run rs empty)
  run-AreRooted rs = run_keeps AreRooted (λ w. AreRooted-IsKept) rs empty tt

  -- After any writes from the empty store, successful or not, `ScopeAncestors` ends, for any ids, if no
  -- scope's id or canonical key names an older scope of its workspace: a recursion two deeper than there
  -- are scopes is enough.
  pub scope_ancestors-ends :
      (rs : List (Request F)) (w : String) (ids : List String) (fuel : ℕ)
      → IsUnambiguous (run rs empty).scopes
      → enough (run rs empty).scopes ≤ fuel
      → scope_ancestors fuel w ids (run rs empty) ≢ none
  unfolding scope_ancestors
  scope_ancestors-ends rs w ids fuel clear le =
      visit_all-ends w (run rs empty).scopes (run-AreRooted rs) clear fuel ids [] le
