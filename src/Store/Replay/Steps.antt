-- ===== src/Store/Replay/Steps.antt =====
-- What `ReplayEvents` does with one event, and with one event more.
use vessica_knowledge_server.Base.{
  ℕ, false, ◌≡◌, refl, ap, ◌∙◌, some, List, [], ◌∷◌, ◌++◌, ◌==◌, Result, ok, err, Action, pure,
  ◌>>=◌, ◌>>◌, bind_ok, if◌then◌else◌,
}
use vessica_knowledge_server.Models.{Event, Payload, Scope, Entity, Artifact, Memory, Relationship}
use vessica_knowledge_server.Store.Table.{Table, put_row}
use vessica_knowledge_server.Store.Tables.{
  Tables, entity_row, artifact_row, memory_row, relationship_row,
}
use vessica_knowledge_server.Store.Write
use vessica_knowledge_server.Store.Write.{
  event_clash, event_tx, scope_clash, put_entity, put_artifact, put_memory, put_relationship,
}
use vessica_knowledge_server.Store.Replay.{
  replay_event, replay_events, replay_scope, replay_entity, replay_artifact, replay_memory,
  replay_relationship,
}
use Prim.Native.String
use vessica_knowledge_server.Store.Jobs.{enqueue}

module _ {F : Type 0} (now : ℕ) where
  -- What a first step leads to depends on the second one alone.
  second_step :
      (p : Result (Unit {0}) × Tables F) (k k' : Action (Tables F) (Unit {0})) (s : Tables F)
      {s1 s2 : Tables F}
      → ((t : Tables F) → k t ≡ (ok tt, s1) → k' t ≡ (ok tt, s2))
      → ((λ _. p) >> k) s ≡ (ok tt, s1)
      → ((λ _. p) >> k') s ≡ (ok tt, s2)
  unfolding ◌>>=◌
  second_step (ok u, t) k k' s h e = h t e
  second_step (err f, t) k k' s h e = cc

  -- One more event behind a stream that replays.
  pub replay-last :
      (es : List (Event F)) (e : Event F) (s : Tables F) {s1 s2 : Tables F}
      → replay_events now es s ≡ (ok tt, s1)
      → replay_event now e s1 ≡ (ok tt, s2)
      → replay_events now (es ++ (e ∷ [])) s ≡ (ok tt, s2)
  unfolding replay_events ◌>>=◌
  replay-last [] e s first last =
      bind_ok (replay_event now e) (λ _. pure tt) (ap (λ p. replay_event now e p.1) first ∙ last)
  replay-last (x ∷ es) e s first last =
      second_step (replay_event now x s) _ _ s (λ t h. replay-last es e t h last) first

-- One event of each kind, at a store that admits it.
module _ {F : Type 0} (now : ℕ) (e : Event F) (s : Tables F) where
  pub replay_event-entity :
      (v : Entity) {t : Table (Entity)}
      → e.aggregate_type ≡ "entity"
      → e.payload ≡ Payload.entity v
      → event_clash e s.events ≡ false
      → put_row v s.entities ≡ some t
      → replay_event now e s ≡ (ok tt, record s { events = e ∷ s.events; entities = t })
  unfolding replay_event replay_entity put_entity event_tx ◌>>=◌ event_clash
  replay_event-entity v tag load fresh put = rw (tag, load, fresh, put) refl

  pub replay_event-artifact :
      (v : Artifact) {t : Table (Artifact)}
      → e.aggregate_type ≡ "artifact"
      → e.payload ≡ Payload.artifact v
      → event_clash e s.events ≡ false
      → put_row v s.artifacts ≡ some t
      → replay_event now e s ≡ (ok tt, record s { events = e ∷ s.events; artifacts = t })
  unfolding replay_event replay_artifact put_artifact event_tx ◌>>=◌ event_clash
  replay_event-artifact v tag load fresh put = rw (tag, load, fresh, put) refl

  pub replay_event-relationship :
      (v : Relationship F) {t : Table (Relationship F)}
      → e.aggregate_type ≡ "relationship"
      → e.payload ≡ Payload.relationship v
      → event_clash e s.events ≡ false
      → put_row v s.relationships ≡ some t
      → replay_event now e s ≡ (ok tt, record s { events = e ∷ s.events; relationships = t })
  unfolding replay_event replay_relationship put_relationship event_tx ◌>>=◌ event_clash
  replay_event-relationship v tag load fresh put = rw (tag, load, fresh, put) refl

  pub replay_event-memory :
      (v : Memory F) {t : Table (Memory F)}
      → e.aggregate_type ≡ "memory"
      → e.payload ≡ Payload.memory v
      → event_clash e s.events ≡ false
      → put_row v s.memories ≡ some t
      → replay_event now e s ≡ (
        ok tt,
        record s {
          events = e ∷ s.events;
          memories = t;
          jobs =
              if v.embedding_state == "pending"
              then enqueue v.workspace_id v.id v.version
                  (String.◌++◌ v.title (String.◌++◌ "\n" v.content))
                  now
                  s.jobs
              else s.jobs;
        },
      )
  unfolding replay_event replay_memory put_memory event_tx ◌>>=◌ event_clash
  replay_event-memory v tag load fresh put = rw (tag, load, fresh, put) refl

  pub replay_event-scope :
      (v : Scope)
      → e.aggregate_type ≡ "scope"
      → e.payload ≡ Payload.scope v
      → event_clash e s.events ≡ false
      → scope_clash v s.scopes ≡ false
      → replay_event now e s ≡ (ok tt, record s { events = e ∷ s.events; scopes = v ∷ s.scopes })
  unfolding replay_event replay_scope Write.create_scope event_tx ◌>>=◌ event_clash
  replay_event-scope v tag load fresh put = rw (tag, load, fresh, put) refl
