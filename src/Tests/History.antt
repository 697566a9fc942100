-- ===== src/Tests/History.antt =====
-- A few writes of one workspace, and what they leave.
use vessica_knowledge_server.Base.{ℕ, String, ◌≡◌, refl, List, [], ◌∷◌, ok, Result, some}
use vessica_knowledge_server.Models.{Entity, Artifact, Memory, Relationship}
use vessica_knowledge_server.Store.Tables.{Tables, empty, entity_row, artifact_row, memory_row}
use vessica_knowledge_server.Store.Table.{get_current}
use vessica_knowledge_server.Base.{◌>>=◌, reject_if}
use vessica_knowledge_server.Service.Rules.{
  default_string, normalize_maps, valid_object_state, valid_artifact_status, memory_types,
  confidence_sources,
}
use vessica_knowledge_server.Service.Writing.{event, once, replay, validate_write}
use vessica_knowledge_server.Store.Read.{
  find_event, get_event_by_idempotency, get_version, get_entity, get_artifact, get_memory,
}
use vessica_knowledge_server.Store.Write.{
  event_tx, event_clash, put_entity, put_artifact, put_memory, put_relationship,
}
use vessica_knowledge_server.Store.Table.{put_row, find_row, at_key}
use vessica_knowledge_server.Store.Table.Pointers.{current_version, upsert_current}
use vessica_knowledge_server.Service.Entities.{
  new_entity, next_entity, create_entity, version_entity,
}
use vessica_knowledge_server.Service.Artifacts.{
  new_artifact, next_artifact, create_artifact, version_artifact,
}
use vessica_knowledge_server.Service.Memories.{
  new_memory, next_memory, create_memory, version_memory,
}
use vessica_knowledge_server.Service.Relationships.{new_relationship, create_relationship}
use vessica_knowledge_server.Service.Run.{Request, Write, run, perform}
use vessica_knowledge_server.Tests.Data.{
  thousandths, plain_service, env_at, keyed, gateway, runbook, drains, runs_on,
}

abbrev pub request : ℕ → String → Write ℕ → Request ℕ
request t key w = record {
  service = plain_service;
  env = env_at t key;
  options = keyed key;
  write = w;
}

abbrev pub history : List (Request ℕ)
history =
    request 10 "k1" (Write.entity gateway)
    ∷ request 20 "k2" (Write.next_entity "e1" gateway)
    ∷ request 30 "k3" (Write.artifact runbook)
    ∷ request 40 "k4" (Write.memory drains)
    ∷ []

abbrev pub filled : Tables ℕ
filled = run history empty

abbrev pub later : ℕ
later = 50

-- The versions that `filled` holds.
abbrev pub current_gateway : Entity
current_gateway =
    next_entity (env_at 20 "k2") (keyed "k2") "e1"
      (new_entity (env_at 10 "k1") (keyed "k1") gateway) gateway

abbrev pub current_runbook : Artifact
current_runbook = new_artifact thousandths.sha256_hex (env_at 30 "k3") (keyed "k3") runbook

abbrev pub current_drains : Memory ℕ
current_drains = new_memory plain_service (env_at 40 "k4") (keyed "k4") drains

abbrev pub with_entity : Result Entity × Tables ℕ
with_entity = create_entity (env_at 10 "k1") (keyed "k1") gateway empty

abbrev pub with_artifact : Result Artifact × Tables ℕ
with_artifact = create_artifact (env_at 10 "k1") (keyed "k1") runbook empty

abbrev pub with_memory : Result (Memory ℕ) × Tables ℕ
with_memory = create_memory plain_service (env_at 10 "k1") (keyed "k1") drains empty

abbrev pub with_relationship : Result (Relationship ℕ) × Tables ℕ
with_relationship = create_relationship (env_at 10 "k1") (keyed "k1") runs_on empty

abbrev pub first_entity : Entity
first_entity = new_entity (env_at 10 "k1") (keyed "k1") gateway

abbrev pub first_artifact : Artifact
first_artifact = new_artifact thousandths.sha256_hex (env_at 10 "k1") (keyed "k1") runbook

abbrev pub first_memory : Memory ℕ
first_memory = new_memory plain_service (env_at 10 "k1") (keyed "k1") drains

abbrev pub first_relationship : Relationship ℕ
first_relationship = new_relationship (env_at 10 "k1") (keyed "k1") runs_on

pub record Computed : Type 0 where
  pub gateway_found : get_current "w1" "e1" filled.entities ≡ some current_gateway
  pub runbook_found : get_current "w1" "a1" filled.artifacts ≡ some current_runbook
  pub drains_found : get_current "w1" "m1" filled.memories ≡ some current_drains
  pub entity_made : with_entity ≡ (ok first_entity, with_entity.1)
  pub artifact_made : with_artifact ≡ (ok first_artifact, with_artifact.1)
  pub memory_made : with_memory ≡ (ok first_memory, with_memory.1)
  pub relationship_made : with_relationship ≡ (ok first_relationship, with_relationship.1)

pub computed : Computed
unfolding run perform create_entity version_entity create_artifact version_artifact create_memory
    version_memory new_entity next_entity new_artifact next_artifact new_memory next_memory
    create_relationship new_relationship once replay validate_write event get_event_by_idempotency
    find_event ◌>>=◌ reject_if default_string normalize_maps valid_object_state
    valid_artifact_status memory_types confidence_sources put_entity put_artifact put_memory
    put_relationship event_tx event_clash put_row find_row at_key upsert_current current_version
    get_current get_version get_entity get_artifact get_memory
computed = record {
  gateway_found = refl;
  runbook_found = refl;
  drains_found = refl;
  entity_made = refl;
  artifact_made = refl;
  memory_made = refl;
  relationship_made = refl;
}
