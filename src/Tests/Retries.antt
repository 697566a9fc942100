-- ===== src/Tests/Retries.antt =====
-- The theorems on a repeated create, on an empty store.
use vessica_knowledge_server.Base.{◌≡◌, ok}
use vessica_knowledge_server.Store.Tables.{empty, entity_row, artifact_row, memory_row}
use vessica_knowledge_server.Service.Entities.{create_entity}
use vessica_knowledge_server.Service.Artifacts.{create_artifact}
use vessica_knowledge_server.Service.Memories.{create_memory}
use vessica_knowledge_server.Service.Relationships.{create_relationship}
use vessica_knowledge_server.Service.Retry.{
  create_entity-retry, create_artifact-retry, create_memory-retry, create_relationship-retry,
}
use vessica_knowledge_server.Tests.Data.{
  thousandths, plain_service, env_at, keyed, gateway, runbook, drains, runs_on,
}
use vessica_knowledge_server.Tests.History.{
  later, with_entity, with_artifact, with_memory, with_relationship, first_entity, first_artifact,
  first_memory, first_relationship, computed,
}

create_entity-retry_example :
    create_entity (env_at later "x") (keyed "k1") gateway with_entity.1
    ≡ (ok first_entity, with_entity.1)
create_entity-retry_example =
    create_entity-retry (env_at 10 "k1") (env_at later "x") (keyed "k1") empty gateway gateway
      computed.entity_made

create_artifact-retry_example :
    create_artifact (env_at later "x") (keyed "k1") runbook with_artifact.1
    ≡ (ok first_artifact, with_artifact.1)
create_artifact-retry_example =
    create_artifact-retry (env_at 10 "k1") (env_at later "x") (keyed "k1") empty runbook runbook
      computed.artifact_made

create_memory-retry_example :
    create_memory plain_service (env_at later "x") (keyed "k1") drains with_memory.1
    ≡ (ok first_memory, with_memory.1)
create_memory-retry_example =
    create_memory-retry plain_service plain_service (env_at 10 "k1") (env_at later "x") (keyed "k1")
      empty drains drains computed.memory_made

create_relationship-retry_example :
    create_relationship (env_at later "x") (keyed "k1") runs_on with_relationship.1
    ≡ (ok first_relationship, with_relationship.1)
create_relationship-retry_example =
    create_relationship-retry (env_at 10 "k1") (env_at later "x") (keyed "k1") empty runs_on runs_on
      computed.relationship_made
