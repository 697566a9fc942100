-- ===== src/Service/Relationships.antt =====
-- `CreateRelationship` of knowledge/service.go
use vessica_knowledge_server.Base.{Bool, not, ◌||◌, invalid, Action, reject_if, ◌>>◌, if◌then◌else◌}
use vessica_knowledge_server.Models.{Relationship, WriteOptions, Payload}
use vessica_knowledge_server.Store.Tables.{Tables}
use vessica_knowledge_server.Store.Read.{get_relationship}
use vessica_knowledge_server.Store.Write.{put_relationship}
use vessica_knowledge_server.Service.Host.{Host, Env, new_id}
use vessica_knowledge_server.Service.Rules.{
  is_empty, default_string, valid_object_state, normalize_maps,
}
use vessica_knowledge_server.Service.Writing.{event, once}

module _ {F : Type 0} ⦃host : Host F⦄ where
  unfoldable pub new_relationship : Env → WriteOptions → Relationship F → Relationship F
  new_relationship env o v = record v {
    id = if is_empty v.id then new_id "rel" env.object_suffix else v.id;
    workspace_id = o.workspace_id;
    version = 1;
    state = default_string v.state "active";
    confidence = if host.eq v.confidence (host.ratio 0 1) then host.ratio 1 1 else v.confidence;
    provenance = o.provenance;
    created_at = env.created;
    metadata = normalize_maps v.metadata;
  }

  -- An endpoint, the predicate or the scope is missing.
  unfoldable pub incomplete : Relationship F → Bool
  incomplete v =
      is_empty v.scope_id
      || is_empty v.from_type
      || is_empty v.from_id
      || is_empty v.predicate
      || is_empty v.to_type
      || is_empty v.to_id

  unfoldable pub create_relationship :
      Env → WriteOptions → Relationship F → Action (Tables F) (Relationship F)
  unfolding new_relationship incomplete
  create_relationship env o v =
      once o (λ old. get_relationship o.workspace_id old.aggregate_id)
        do
          reject_if (incomplete v) (invalid "relationship endpoints, predicate, and scope required")
          let u = new_relationship env o v
          reject_if (not (valid_object_state u.state)) (invalid "invalid relationship state")
          put_relationship u
              (event env o "relationship" u.id "relationship.created" 1 (Payload.relationship u))
