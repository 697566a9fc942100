-- ===== src/Service/Replayed.antt =====
-- The log of the service's writes is enough: replayed into an empty store it makes the same tables.
use vessica_knowledge_server.Base.{
  ℕ, String, ◌≡◌, refl, ap, ◌∙◌, List, [], ◌∷◌, ◌++◌, ◌==◌, ok, if◌then◌else◌,
}
use vessica_knowledge_server.Models.{Event, Payload, Scope, Entity, Artifact, Memory, Relationship}
use vessica_knowledge_server.Store.Table.{put_row}
use vessica_knowledge_server.Store.Tables.{
  Tables, Job, empty, entity_row, artifact_row, memory_row, relationship_row,
}
use vessica_knowledge_server.Store.Write
use vessica_knowledge_server.Store.Write.{
  event_clash, event_tx, scope_clash, put_entity, put_artifact, put_memory, put_relationship,
}
use vessica_knowledge_server.Store.Replay.{replay_event, replay_events}
use Prim.Native.String
use vessica_knowledge_server.Store.Jobs.{enqueue}
use vessica_knowledge_server.Service.Host.{Host}
use vessica_knowledge_server.Service.Writing.Keeps.{tx-Keeps, row-Keeps, clash-Keeps}
use vessica_knowledge_server.Service.Kept.{IsKept}
use vessica_knowledge_server.Service.Run.{Request, run, run_keeps}
use vessica_knowledge_server.Store.Replay.Steps.{
  replay-last, replay_event-scope, replay_event-entity, replay_event-artifact, replay_event-memory,
  replay_event-relationship,
}

module _ {F : Type 0} where
  -- The log in the order of its events.
  abbrev pub oldest_first : List (Event F) → List (Event F)
  oldest_first [] = []
  oldest_first (e ∷ es) = oldest_first es ++ (e ∷ [])

module _ {F : Type 0} (now : ℕ) where
  -- Replayed into an empty store, the log makes the tables, up to the clock of the embedding jobs.
  pub record IsReplayed (s : Tables F) : Type 0 where
    pub jobs : List Job
    pub replays :
        replay_events now (oldest_first s.events) empty ≡ (ok tt, record s { jobs = jobs })

  module _ (s : Tables F) (h : IsReplayed s) (e : Event F) where
    grown :
        (s2 : Tables F) (jobs : List Job)
        → s2.events ≡ e ∷ s.events
        → replay_event now e (record s { jobs = h.jobs }) ≡ (ok tt, record s2 { jobs = jobs })
        → IsReplayed s2
    grown s2 jobs log step = record {
      jobs = jobs;
      replays =
          ap (λ es. replay_events now (oldest_first es) empty) log
          ∙ replay-last now (oldest_first s.events) e empty h.replays step;
    }

    put_entity-IsReplayed :
        (v : Entity)
        → e.aggregate_type ≡ "entity"
        → e.payload ≡ Payload.entity v
        → IsReplayed (put_entity v e s).1
    unfolding put_entity
    put_entity-IsReplayed v tag load = tx-Keeps IsReplayed s h v e _ λ s2 fresh applied.
        row-Keeps IsReplayed s h (put_row v s.entities)
          (λ t. record s { events = e ∷ s.events; entities = t }) s2 applied
          λ t put.
            grown _ h.jobs refl
              (replay_event-entity now e (record s { jobs = h.jobs }) v tag load fresh put)

    put_artifact-IsReplayed :
        (v : Artifact)
        → e.aggregate_type ≡ "artifact"
        → e.payload ≡ Payload.artifact v
        → IsReplayed (put_artifact v e s).1
    unfolding put_artifact
    put_artifact-IsReplayed v tag load = tx-Keeps IsReplayed s h v e _ λ s2 fresh applied.
        row-Keeps IsReplayed s h (put_row v s.artifacts)
          (λ t. record s { events = e ∷ s.events; artifacts = t }) s2 applied
          λ t put.
            grown _ h.jobs refl
              (replay_event-artifact now e (record s { jobs = h.jobs }) v tag load fresh put)

    put_relationship-IsReplayed :
        (v : Relationship F)
        → e.aggregate_type ≡ "relationship"
        → e.payload ≡ Payload.relationship v
        → IsReplayed (put_relationship v e s).1
    unfolding put_relationship
    put_relationship-IsReplayed v tag load = tx-Keeps IsReplayed s h v e _ λ s2 fresh applied.
        row-Keeps IsReplayed s h (put_row v s.relationships)
          (λ t. record s { events = e ∷ s.events; relationships = t }) s2 applied
          λ t put.
            grown _ h.jobs refl
              (replay_event-relationship now e (record s { jobs = h.jobs }) v tag load fresh put)

    put_memory-IsReplayed :
        (v : Memory F) (now' : ℕ)
        → e.aggregate_type ≡ "memory"
        → e.payload ≡ Payload.memory v
        → IsReplayed (put_memory v e now' s).1
    unfolding put_memory
    put_memory-IsReplayed v now' tag load = tx-Keeps IsReplayed s h v e _ λ s2 fresh applied.
        row-Keeps IsReplayed s h (put_row v s.memories)
          (λ t. record s {
            events = e ∷ s.events;
            memories = t;
            jobs =
                (if v.embedding_state == "pending"
                  then enqueue v.workspace_id v.id v.version
                      (String.◌++◌ v.title (String.◌++◌ "\n" v.content)) now' s.jobs
                  else s.jobs);
          })
          s2 applied
          λ t put.
            grown _
              (if v.embedding_state == "pending"
                then enqueue v.workspace_id v.id v.version
                    (String.◌++◌ v.title (String.◌++◌ "\n" v.content)) now h.jobs
                else h.jobs)
              refl (replay_event-memory now e (record s { jobs = h.jobs }) v tag load fresh put)

    create_scope-IsReplayed :
        (v : Scope)
        → e.aggregate_type ≡ "scope"
        → e.payload ≡ Payload.scope v
        → IsReplayed (Write.create_scope v e s).1
    unfolding Write.create_scope
    create_scope-IsReplayed v tag load = tx-Keeps IsReplayed s h v e _ λ s2 fresh applied.
        clash-Keeps IsReplayed s h (scope_clash v s.scopes)
          (record s { events = e ∷ s.events; scopes = v ∷ s.scopes }) s2 applied
          λ free.
            grown _ h.jobs refl
              (replay_event-scope now e (record s { jobs = h.jobs }) v tag load fresh free)

  pub IsReplayed-IsKept : {w : String} → IsKept w IsReplayed
  IsReplayed-IsKept = record {
    scope = λ s h v e _ tag load _. create_scope-IsReplayed s h e v tag load;
    entity = λ s h v e _ tag load _. put_entity-IsReplayed s h e v tag load;
    artifact = λ s h v e _ tag load _. put_artifact-IsReplayed s h e v tag load;
    memory = λ s h v e t _ tag load _. put_memory-IsReplayed s h e v t tag load;
    relationship = λ s h v e _ tag load _. put_relationship-IsReplayed s h e v tag load;
  }

module _ {F : Type 0} ⦃host : Host F⦄ (now : ℕ) (rs : List (Request F)) where
  -- After any writes from the empty store, successful or not, a replay of the log in its order into an
  -- empty store succeeds, and makes the same events, scopes and versions, with the same current ones;
  -- only the embedding jobs may differ.
  pub replay_events-run :
      (jobs : List Job) × (replay_events now (oldest_first (run rs empty).events) empty
        ≡ (ok tt, record (run rs empty) { jobs = jobs }))
  unfolding replay_events
  replay_events-run =
      let start : IsReplayed now (empty {F = F}) = record { jobs = []; replays = refl } in
      let h = run_keeps (IsReplayed now) (λ w. IsReplayed-IsKept now) rs empty start in
      (h.jobs, h.replays)
