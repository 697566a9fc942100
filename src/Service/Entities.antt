-- ===== src/Service/Entities.antt =====
-- `CreateEntity` and `VersionEntity` of knowledge/service.go
use vessica_knowledge_server.Base.{
  ◌+◌, String, not, ◌||◌, invalid, Action, reject_if, ◌>>=◌, ◌>>◌, if◌then◌else◌,
}
use vessica_knowledge_server.Models.{Entity, WriteOptions, Payload}
use vessica_knowledge_server.Store.Tables.{Tables}
use vessica_knowledge_server.Store.Read.{get_entity}
use vessica_knowledge_server.Store.Write.{put_entity}
use vessica_knowledge_server.Service.Host.{Env, new_id}
use vessica_knowledge_server.Service.Rules.{
  is_empty, default_string, valid_object_state, normalize_maps,
}
use vessica_knowledge_server.Service.Writing.{event, once}

unfoldable pub new_entity : Env → WriteOptions → Entity → Entity
new_entity env o v = record v {
  id = if is_empty v.id then new_id "ent" env.object_suffix else v.id;
  workspace_id = o.workspace_id;
  version = 1;
  state = default_string v.state "active";
  provenance = o.provenance;
  created_at = env.created;
  updated_at = env.created;
  metadata = normalize_maps v.metadata;
}

unfoldable pub next_entity : Env → WriteOptions → String → Entity → Entity → Entity
next_entity env o id cur v = record v {
  id = id;
  workspace_id = o.workspace_id;
  version = cur.version + 1;
  scope_id = default_string v.scope_id cur.scope_id;
  type = default_string v.type cur.type;
  display_name = default_string v.display_name cur.display_name;
  state = default_string v.state cur.state;
  provenance = o.provenance;
  created_at = cur.created_at;
  updated_at = env.created;
}

module _ {F : Type 0} where
  unfoldable pub create_entity : Env → WriteOptions → Entity → Action (Tables F) Entity
  unfolding new_entity
  create_entity env o v =
      once o (λ old. get_entity o.workspace_id old.aggregate_id)
        do
          reject_if (is_empty v.scope_id || is_empty v.type || is_empty v.display_name)
              (invalid "scope_id, type, and display_name required")
          let u = new_entity env o v
          reject_if (not (valid_object_state u.state)) (invalid "invalid entity state")
          put_entity u (event env o "entity" u.id "entity.created" u.version (Payload.entity u))

  unfoldable pub version_entity : Env → WriteOptions → String → Entity → Action (Tables F) Entity
  unfolding next_entity
  version_entity env o id v =
      once o (λ _. get_entity o.workspace_id id)
        do
          cur ← get_entity o.workspace_id id
          let u = next_entity env o id cur v
          reject_if (not (valid_object_state u.state)) (invalid "invalid entity state")
          put_entity u (event env o "entity" id "entity.versioned" u.version (Payload.entity u))
