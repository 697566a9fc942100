-- ===== src/Service/Artifacts.antt =====
-- `CreateArtifact`, `VersionArtifact` and `SetArtifactStatus` of knowledge/service.go
use Prim.Native.String.{len}
use vessica_knowledge_server.Base.{
  ℕ, ◌+◌, String, not, ◌||◌, invalid, Action, reject_if, ◌>>=◌, ◌>>◌, ltb, if◌then◌else◌,
}
use vessica_knowledge_server.Models.{Artifact, WriteOptions, Payload}
use vessica_knowledge_server.Store.Tables.{Tables}
use vessica_knowledge_server.Store.Read.{get_artifact}
use vessica_knowledge_server.Store.Write.{put_artifact}
use vessica_knowledge_server.Service.Host.{Host, Env, new_id}
use vessica_knowledge_server.Service.Rules.{
  is_empty, default_string, valid_artifact_status, normalize_maps,
}
use vessica_knowledge_server.Service.Writing.{event, once}

-- 4 << 20 bytes
abbrev pub artifact_limit : ℕ
artifact_limit = 4_194_304

-- `sha256_hex` is `hash`.
unfoldable pub new_artifact : (String → String) → Env → WriteOptions → Artifact → Artifact
new_artifact sha256_hex env o v = record v {
  id = if is_empty v.id then new_id "art" env.object_suffix else v.id;
  workspace_id = o.workspace_id;
  version = 1;
  status = default_string v.status "draft";
  content_hash = sha256_hex v.content;
  provenance = o.provenance;
  created_at = env.created;
  updated_at = env.created;
  metadata = normalize_maps v.metadata;
}

unfoldable pub next_artifact :
    (String → String) → Env → WriteOptions → String → Artifact → Artifact → Artifact
next_artifact sha256_hex env o id cur v = record v {
  id = id;
  workspace_id = o.workspace_id;
  version = cur.version + 1;
  scope_id = default_string v.scope_id cur.scope_id;
  type = default_string v.type cur.type;
  title = default_string v.title cur.title;
  status = default_string v.status cur.status;
  content_hash = sha256_hex v.content;
  provenance = o.provenance;
  created_at = cur.created_at;
  updated_at = env.created;
}

module _ {F : Type 0} ⦃host : Host F⦄ where
  unfoldable pub create_artifact : Env → WriteOptions → Artifact → Action (Tables F) Artifact
  unfolding new_artifact
  create_artifact env o v =
      once o (λ old. get_artifact o.workspace_id old.aggregate_id 0)
        do
          reject_if (is_empty v.scope_id || is_empty v.type || is_empty v.title)
              (invalid "scope_id, type, and title required")
          reject_if (ltb artifact_limit (len v.content)) (invalid "artifact content exceeds 4 MiB")
          let u = new_artifact host.sha256_hex env o v
          reject_if (not (valid_artifact_status u.status)) (invalid "invalid artifact status")
          put_artifact u
              (event env o "artifact" u.id "artifact.created" u.version (Payload.artifact u))

  unfoldable pub version_artifact :
      Env → WriteOptions → String → Artifact → Action (Tables F) Artifact
  unfolding next_artifact
  version_artifact env o id v =
      once o (λ _. get_artifact o.workspace_id id 0)
        do
          cur ← get_artifact o.workspace_id id 0
          let u = next_artifact host.sha256_hex env o id cur v
          reject_if (ltb artifact_limit (len v.content)) (invalid "artifact content exceeds 4 MiB")
          reject_if (not (valid_artifact_status u.status)) (invalid "invalid artifact status")
          put_artifact u
              (event env o "artifact" id "artifact.versioned" u.version (Payload.artifact u))

  unfoldable pub set_artifact_status :
      Env → WriteOptions → String → String → Action (Tables F) Artifact
  unfolding version_artifact
  set_artifact_status env o id status = do
    reject_if (not (valid_artifact_status status)) (invalid "invalid artifact status")
    cur ← get_artifact o.workspace_id id 0
    version_artifact env o id (record cur { status = status })
