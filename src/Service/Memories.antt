-- ===== src/Service/Memories.antt =====
-- `CreateMemory`, `VersionMemory` and `SetMemoryState` of knowledge/service.go
use Prim.Native.String.{len}
use vessica_knowledge_server.Base.{
  ℕ, ◌+◌, String, Bool, not, ◌||◌, none, some, invalid, Action, reject_if, ◌>>=◌, ◌>>◌, ltb,
  if◌then◌else◌,
}
use vessica_knowledge_server.Models.{Memory, WriteOptions, Payload}
use vessica_knowledge_server.Store.Tables.{Tables}
use vessica_knowledge_server.Store.Read.{get_memory}
use vessica_knowledge_server.Store.Write.{put_memory}
use vessica_knowledge_server.Service.Host.{Host, Env, Service, new_id}
use vessica_knowledge_server.Service.Rules.{
  is_empty, default_string, valid_object_state, memory_types, confidence_sources, normalize_maps,
}
use vessica_knowledge_server.Service.Writing.{event, once}

-- 1 << 20 bytes
abbrev pub memory_limit : ℕ
memory_limit = 1_048_576

module _ {F : Type 0} where
  -- `if s.Embedder == nil { … }`
  unfoldable pub initial_embedding_state : Service F → String
  initial_embedding_state svc = elim svc.embedder [ none ↦ "not_configured" | some _ ↦ "pending" ]

module _ {F : Type 0} ⦃host : Host F⦄ where
  abbrev pub float_zero : F
  float_zero = host.ratio 0 1

  abbrev pub float_one : F
  float_one = host.ratio 1 1

  -- `v < 0 || v > 1`
  unfoldable pub outside_unit : F → Bool
  outside_unit x = host.lt x float_zero || host.lt float_one x

  unfoldable pub bad_confidence : Memory F → Bool
  unfolding outside_unit
  bad_confidence v =
      not (confidence_sources v.confidence_source)
      || outside_unit v.importance
      || outside_unit v.confidence

  -- `if v == 0 { v = d }`
  unfoldable pub default_float : F → F → F
  default_float x d = if host.eq x float_zero then d else x

  -- The fields that are set before the checks, in one value: a refused memory is not stored.
  unfoldable pub new_memory : Service F → Env → WriteOptions → Memory F → Memory F
  unfolding default_float initial_embedding_state
  new_memory svc env o v = record v {
    id = if is_empty v.id then new_id "mem" env.object_suffix else v.id;
    workspace_id = o.workspace_id;
    version = 1;
    state = default_string v.state "active";
    confidence_source = default_string v.confidence_source "agent_inferred";
    importance = default_float v.importance (host.ratio 1 2);
    confidence = default_float v.confidence (host.ratio 1 2);
    embedding_state = initial_embedding_state svc;
    provenance = o.provenance;
    created_at = env.created;
    updated_at = env.created;
    metadata = normalize_maps v.metadata;
  }

  unfoldable pub next_memory :
      Service F → Env → WriteOptions → String → Memory F → Memory F → Memory F
  unfolding default_float initial_embedding_state
  next_memory svc env o id cur v = record v {
    id = id;
    workspace_id = o.workspace_id;
    version = cur.version + 1;
    scope_id = default_string v.scope_id cur.scope_id;
    type = default_string v.type cur.type;
    content = default_string v.content cur.content;
    state = default_string v.state cur.state;
    confidence_source = default_string v.confidence_source cur.confidence_source;
    importance = default_float v.importance cur.importance;
    confidence = default_float v.confidence cur.confidence;
    embedding_state = initial_embedding_state svc;
    provenance = o.provenance;
    created_at = cur.created_at;
    updated_at = env.created;
  }

  unfoldable pub create_memory :
      Service F → Env → WriteOptions → Memory F → Action (Tables F) (Memory F)
  unfolding new_memory bad_confidence
  create_memory svc env o v =
      once o (λ old. get_memory o.workspace_id old.aggregate_id 0)
        do
          reject_if (not (memory_types v.type) || is_empty v.scope_id || is_empty v.content)
              (invalid "valid type, scope_id, and content required")
          reject_if (ltb memory_limit (len v.content)) (invalid "memory content exceeds 1 MiB")
          let u = new_memory svc env o v
          reject_if (not (valid_object_state u.state)) (invalid "invalid memory state")
          reject_if (bad_confidence (record v { confidence_source = u.confidence_source }))
              (invalid "invalid confidence source, importance, or confidence")
          put_memory u (event env o "memory" u.id "memory.created" u.version (Payload.memory u))
              env.queued

  unfoldable pub version_memory :
      Service F → Env → WriteOptions → String → Memory F → Action (Tables F) (Memory F)
  unfolding next_memory bad_confidence
  version_memory svc env o id v =
      once o (λ _. get_memory o.workspace_id id 0)
        do
          cur ← get_memory o.workspace_id id 0
          let u = next_memory svc env o id cur v
          reject_if (not (valid_object_state u.state)) (invalid "invalid memory state")
          reject_if (ltb memory_limit (len u.content)) (invalid "memory content exceeds 1 MiB")
          reject_if (bad_confidence (record v { confidence_source = u.confidence_source }))
              (invalid "invalid confidence source, importance, or confidence")
          put_memory u (event env o "memory" id "memory.versioned" u.version (Payload.memory u))
              env.queued

  unfoldable pub set_memory_state :
      Service F → Env → WriteOptions → String → String → Action (Tables F) (Memory F)
  unfolding version_memory
  set_memory_state svc env o id state = do
    reject_if (not (valid_object_state state)) (invalid "invalid memory state")
    cur ← get_memory o.workspace_id id 0
    version_memory svc env o id (record cur { state = state })
