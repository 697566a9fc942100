-- ===== src/Tests/Writes.antt =====
-- The theorems on one write, behind the history.
use vessica_knowledge_server.Models.{Payload}
use vessica_knowledge_server.Store.Tables.{entity_row, artifact_row, memory_row}
use vessica_knowledge_server.Service.Writing.{event}
use vessica_knowledge_server.Service.Writing.Outcome.{Outcome}
use vessica_knowledge_server.Service.Scopes.{new_scope, create_scope}
use vessica_knowledge_server.Service.Entities.{
  new_entity, next_entity, create_entity, version_entity,
}
use vessica_knowledge_server.Service.Artifacts.{
  new_artifact, next_artifact, create_artifact, version_artifact,
}
use vessica_knowledge_server.Service.Memories.{
  new_memory, next_memory, create_memory, version_memory,
}
use vessica_knowledge_server.Service.Relationships.{new_relationship, create_relationship}
use vessica_knowledge_server.Service.Atomic.{
  create_scope-Outcome, create_entity-Outcome, version_entity-Outcome, create_artifact-Outcome,
  version_artifact-Outcome, create_memory-Outcome, version_memory-Outcome,
  create_relationship-Outcome,
}
use vessica_knowledge_server.Tests.Data.{
  thousandths, plain_service, env_at, keyed, team_scope, gateway, runbook, drains, runs_on,
}
use vessica_knowledge_server.Tests.History.{
  filled, later, current_gateway, current_runbook, current_drains, computed,
}

create_scope-Outcome_example :
    Outcome filled
      (keyed "k5")
      (new_scope (env_at later "x") (keyed "k5") team_scope)
      (event
        (env_at later "x")
        (keyed "k5")
        "scope"
        (new_scope (env_at later "x") (keyed "k5") team_scope).id
        "scope.created"
        1
        (Payload.scope (new_scope (env_at later "x") (keyed "k5") team_scope)))
      (create_scope (env_at later "x") (keyed "k5") team_scope filled)
create_scope-Outcome_example =
    create_scope-Outcome (env_at later "x") (keyed "k5") filled team_scope

create_entity-Outcome_example :
    let env = env_at later "x" in
    let u = new_entity env (keyed "k5") gateway in
    Outcome filled
      (keyed "k5")
      u
      (event env (keyed "k5") "entity" u.id "entity.created" 1 (Payload.entity u))
      (create_entity env (keyed "k5") gateway filled)
create_entity-Outcome_example = create_entity-Outcome (env_at later "x") (keyed "k5") filled gateway

version_entity-Outcome_example :
    let env = env_at later "x" in
    let u = next_entity env (keyed "k5") "e1" current_gateway gateway in
    Outcome filled
      (keyed "k5")
      u
      (event env (keyed "k5") "entity" "e1" "entity.versioned" 3 (Payload.entity u))
      (version_entity env (keyed "k5") "e1" gateway filled)
unfolding next_entity new_entity
version_entity-Outcome_example =
    version_entity-Outcome (env_at later "x") (keyed "k5") filled "e1" gateway current_gateway
      computed.gateway_found

create_artifact-Outcome_example :
    let env = env_at later "x" in
    let u = new_artifact thousandths.sha256_hex env (keyed "k5") runbook in
    Outcome filled
      (keyed "k5")
      u
      (event env (keyed "k5") "artifact" u.id "artifact.created" 1 (Payload.artifact u))
      (create_artifact env (keyed "k5") runbook filled)
create_artifact-Outcome_example =
    create_artifact-Outcome (env_at later "x") (keyed "k5") filled runbook

version_artifact-Outcome_example :
    let env = env_at later "x" in
    let u = next_artifact thousandths.sha256_hex env (keyed "k5") "a1" current_runbook runbook in
    Outcome filled
      (keyed "k5")
      u
      (event env (keyed "k5") "artifact" "a1" "artifact.versioned" 2 (Payload.artifact u))
      (version_artifact env (keyed "k5") "a1" runbook filled)
unfolding new_artifact
version_artifact-Outcome_example =
    version_artifact-Outcome (env_at later "x") (keyed "k5") filled "a1" runbook current_runbook
      computed.runbook_found

create_memory-Outcome_example :
    let env = env_at later "x" in
    let u = new_memory plain_service env (keyed "k5") drains in
    Outcome filled
      (keyed "k5")
      u
      (event env (keyed "k5") "memory" u.id "memory.created" 1 (Payload.memory u))
      (create_memory plain_service env (keyed "k5") drains filled)
create_memory-Outcome_example =
    create_memory-Outcome plain_service (env_at later "x") (keyed "k5") filled drains

version_memory-Outcome_example :
    let env = env_at later "x" in
    let u = next_memory plain_service env (keyed "k5") "m1" current_drains drains in
    Outcome filled
      (keyed "k5")
      u
      (event env (keyed "k5") "memory" "m1" "memory.versioned" 2 (Payload.memory u))
      (version_memory plain_service env (keyed "k5") "m1" drains filled)
unfolding new_memory
version_memory-Outcome_example =
    version_memory-Outcome plain_service (env_at later "x") (keyed "k5") filled "m1" drains
      current_drains computed.drains_found

create_relationship-Outcome_example :
    let env = env_at later "x" in
    let u = new_relationship env (keyed "k5") runs_on in
    Outcome filled
      (keyed "k5")
      u
      (event env (keyed "k5") "relationship" u.id "relationship.created" 1 (Payload.relationship u))
      (create_relationship env (keyed "k5") runs_on filled)
create_relationship-Outcome_example =
    create_relationship-Outcome (env_at later "x") (keyed "k5") filled runs_on
