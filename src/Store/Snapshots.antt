-- ===== src/Store/Snapshots.antt =====
-- `Export` and `Import` of knowledge/sqlstore.go, with `snapshotChecksum` and the `find` functions.
pub mod Again
use Prim.Native.String.{◌++◌}
use vessica_knowledge_server.Base.{
  ℕ, suc, ◌+◌, ℤ, pos, negsuc, int_eq, String, Bool, not, ◌&&◌, ◌==◌, nat_eq, length, Option, none,
  some, List, [], ◌∷◌, Action, ok, pure, reject_if, other, invalid, ◌>>=◌, ◌>>◌, if◌then◌else◌,
}
use vessica_knowledge_server.Models.{
  Scope, Entity, Artifact, Memory, Relationship, Event, Snapshot, Provenance, api_version,
}
use vessica_knowledge_server.Store.Table.{Row}
use vessica_knowledge_server.Store.Tables.{
  Tables, entity_row, artifact_row, memory_row, relationship_row,
}
use vessica_knowledge_server.Store.Read.{find_event}
use vessica_knowledge_server.Store.Queries.{list_events, all_scopes, all_rows}
use vessica_knowledge_server.Store.Write
use vessica_knowledge_server.Store.Write.{put_entity, put_artifact, put_memory, put_relationship}
use vessica_knowledge_server.Service.Host.{Host}
use vessica_knowledge_server.Service.Workflow.{decimal}

-- The zero values of the structs
abbrev no_provenance : Provenance
no_provenance = record { source = ""; source_id = ""; source_url = ""; detail = none }

abbrev no_scope : Scope
no_scope = record {
  id = "";
  workspace_id = "";
  parent_id = "";
  type = "";
  name = "";
  canonical_key = "";
  created_at = 0;
}

abbrev no_entity : Entity
no_entity = record {
  id = "";
  workspace_id = "";
  scope_id = "";
  version = 0;
  type = "";
  display_name = "";
  aliases = [];
  external_refs = [];
  metadata = none;
  state = "";
  provenance = no_provenance;
  created_at = 0;
  updated_at = 0;
}

abbrev no_artifact : Artifact
no_artifact = record {
  id = "";
  workspace_id = "";
  scope_id = "";
  version = 0;
  type = "";
  title = "";
  status = "";
  content = "";
  content_hash = "";
  source_ref = none;
  metadata = none;
  provenance = no_provenance;
  created_at = 0;
  updated_at = 0;
}

abbrev no_memory : {F : Type 0} → F → Memory F
no_memory zero_float = record {
  id = "";
  workspace_id = "";
  scope_id = "";
  version = 0;
  type = "";
  subject = "";
  predicate = "";
  object = "";
  title = "";
  content = "";
  importance = zero_float;
  confidence = zero_float;
  confidence_source = "";
  valid_from = none;
  valid_until = none;
  state = "";
  embedding_state = "";
  metadata = none;
  provenance = no_provenance;
  created_at = 0;
  updated_at = 0;
}

abbrev no_relationship : {F : Type 0} → F → Relationship F
no_relationship zero_float = record {
  id = "";
  workspace_id = "";
  scope_id = "";
  version = 0;
  from_type = "";
  from_id = "";
  predicate = "";
  to_type = "";
  to_id = "";
  confidence = zero_float;
  state = "";
  metadata = none;
  provenance = no_provenance;
  created_at = 0;
}

-- `findEntity`, `findArtifact`, `findMemory` and `findRelationship`, which differ in their type
unfoldable pub find_version : {A : Type 0} → ⦃row : Row A⦄ → A → List A → String → ℕ → A
find_version zero_value [] id n = zero_value
find_version ⦃row⦄ zero_value (x ∷ xs) id n =
    if row.id_of x == id && nat_eq (row.version_of x) n then x else find_version zero_value xs id n

unfoldable pub find_in_scopes : List Scope → String → Scope
find_in_scopes [] id = no_scope
find_in_scopes (x ∷ xs) id = if x.id == id then x else find_in_scopes xs id

-- `%d`
pub int_text : ℤ → String
int_text (pos n) = decimal n
int_text (negsuc n) = "-" ++ decimal (n + 1)

-- The value of a key of a map, 0 if it is missing
unfoldable pub count_at : String → List (String × ℤ) → ℤ
count_at k [] = pos 0
count_at k ((j, n) ∷ counts) = if j == k then n else count_at k counts

unfoldable pub last_id : {F : Type 0} → List (Event F) → String
last_id [] = ""
last_id (e ∷ []) = e.id
last_id (_ ∷ e ∷ es) = last_id (e ∷ es)

-- `marshal` is `json.Marshal`.
module _ {F : Type 0} ⦃host : Host F⦄ (marshal : Snapshot F → String) where
  unfoldable pub snapshot_checksum : Snapshot F → String
  snapshot_checksum s = host.sha256_hex (marshal (record s { checksum = "" }))

  -- The snapshot without its checksum
  abbrev pub collected : ℕ → String → Tables F → Snapshot F
  collected now w s =
      let events = list_events w s in
      let scopes = all_scopes w s in
      let entities = all_rows w s.entities in
      let artifacts = all_rows w s.artifacts in
      let memories = all_rows w s.memories in
      let relationships = all_rows w s.relationships in
      record {
        schema = api_version;
        workspace_id = w;
        exported_at = now;
        high_watermark = last_id events;
        scopes = scopes;
        entities = entities;
        artifacts = artifacts;
        memories = memories;
        relationships = relationships;
        events = events;
        counts =
            ("scopes", pos (length scopes))
            ∷ ("entities", pos (length entities))
            ∷ ("artifacts", pos (length artifacts))
            ∷ ("memories", pos (length memories))
            ∷ ("relationships", pos (length relationships))
            ∷ ("events", pos (length events))
            ∷ [];
        checksum = "";
      }

  unfoldable pub export : ℕ → String → Tables F → Snapshot F
  unfolding snapshot_checksum
  export now w s = let snap = collected now w s in record snap { checksum = snapshot_checksum snap }

  -- The `switch` of the loop; `now` dates the embedding jobs.
  unfoldable pub import_aggregate : Snapshot F → ℕ → Event F → Action (Tables F) (Unit {0})
  unfolding find_version find_in_scopes
  import_aggregate snap now e =
      let i = e.aggregate_id in
      let n = e.aggregate_version in
      let zero_float = host.ratio 0 1 in
      if e.aggregate_type == "scope"
      then Write.create_scope (find_in_scopes snap.scopes i) e >> pure tt
      else if e.aggregate_type == "entity"
      then put_entity (find_version no_entity snap.entities i n) e >> pure tt
      else if e.aggregate_type == "artifact"
      then put_artifact (find_version no_artifact snap.artifacts i n) e >> pure tt
      else if e.aggregate_type == "memory"
      then put_memory (find_version (no_memory zero_float) snap.memories i n) e now >> pure tt
      else if e.aggregate_type == "relationship"
      then put_relationship (find_version (no_relationship zero_float) snap.relationships i n) e
        >> pure tt
      else pure tt

  -- An event whose key is in the log is skipped.
  unfoldable pub import_event : Snapshot F → ℕ → Event F → Action (Tables F) (Unit {0})
  unfolding import_aggregate
  import_event snap now e s = elim (find_event e.workspace_id e.idempotency_key s.events) [
    | some old ↦ (ok tt, s)
    | none ↦ import_aggregate snap now e s
  ]

  unfoldable pub import_events : Snapshot F → ℕ → List (Event F) → Action (Tables F) (Unit {0})
  unfolding import_event
  import_events snap now [] = pure tt
  import_events snap now (e ∷ es) = import_event snap now e >> import_events snap now es

  unfoldable pub compare_counts :
      List (String × ℤ) → List (String × ℤ) → Action (Tables F) (Unit {0})
  unfolding int_text
  compare_counts got [] = pure tt
  compare_counts got ((k, n) ∷ counts) =
      reject_if (not (int_eq (count_at k got) n)) (
        other (
          "import count mismatch for "
          ++ k
          ++ ": "
          ++ int_text (count_at k got)
          ++ " != "
          ++ int_text n))
      >> compare_counts got counts

  -- `checked` is the clock of the export that is compared.
  unfoldable pub import_snapshot : ℕ → ℕ → Snapshot F → Action (Tables F) (Unit {0})
  unfolding import_events compare_counts
  import_snapshot now checked snap = do
    reject_if (not (snap.schema == api_version)) (invalid "unsupported snapshot schema")
    reject_if (not (snapshot_checksum snap == snap.checksum)) (invalid "snapshot checksum mismatch")
    import_events snap now snap.events
    λ s. compare_counts (export checked snap.workspace_id s).counts snap.counts s
