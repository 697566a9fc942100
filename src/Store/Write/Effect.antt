-- ===== src/Store/Write/Effect.antt =====
-- A write of the store appends its event, or it fails and leaves every table as it was.
use vessica_knowledge_server.Base.{
  ◌==◌, ℕ, ◌≡◌, List, ◌∷◌, Option, none, some, Bool, true, false, Result, ok, err, refl, pure, ◌>>◌,
  ◌>>=◌, Action, ap, sym, ◌∙◌, if◌then◌else◌,
}
use Prim.Native.String.{◌++◌}
use vessica_knowledge_server.Store.Jobs.{enqueue}
use mathlib.Core.Option.{some-injective}
use vessica_knowledge_server.Store.Table.{put_row}
use vessica_knowledge_server.Models.{Scope, Entity, Artifact, Memory, Relationship, Event}
use vessica_knowledge_server.Store.Tables.{
  Tables, entity_row, artifact_row, memory_row, relationship_row,
}
use vessica_knowledge_server.Store.Write.{
  event_tx, event_clash, scope_clash, constraint_failed, create_scope, put_entity, put_artifact,
  put_memory, put_relationship,
}

-- The outcome of a write of `u` with the event `e`: refused with nothing changed, or done.
abbrev pub Effect : {F A : Type 0} → Tables F → A → Event F → Result A × Tables F → Type 0
Effect s u e (err _, s') = s' ≡ s
Effect s u e (ok v, s') = (v ≡ u) × (s'.events ≡ e ∷ s.events)

module _ {F : Type 0} where
  -- `event_tx` fails and rolls back, or it appends the event and does what `apply` did.
  abbrev pub TxEffect : Tables F → Event F → Result (Unit {0}) × Tables F → Type 0
  TxEffect s e (err _, s') = s' ≡ s
  TxEffect s e (ok _, s') = s'.events ≡ e ∷ s.events

  commit-Effect :
      (e : Event F) (s : Tables F) (clash : Bool) (applied : Option (Tables F))
      → ((s2 : Tables F) → applied ≡ some s2 → s2.events ≡ e ∷ s.events)
      → TxEffect s e (
          if clash
          then (err constraint_failed, s)
          else elim applied [ none ↦ (err constraint_failed, s) | some s' ↦ (ok tt, s') ])
  commit-Effect e s true applied h = refl
  commit-Effect e s false none h = refl
  commit-Effect e s false (some s2) h = h s2 refl

  event_tx-Effect :
      (e : Event F) (apply : Tables F → Option (Tables F)) (s : Tables F)
      → ((s2 : Tables F)
          → apply (record s { events = e ∷ s.events }) ≡ some s2
          → s2.events ≡ e ∷ s.events)
      → TxEffect s e (event_tx e apply s)
  unfolding event_tx
  event_tx-Effect e apply s keeps =
      commit-Effect e s (event_clash e s.events) (apply (record s { events = e ∷ s.events })) keeps

  behind_tx :
      {A : Type 0} (s : Tables F) (v : A) (e : Event F) (p : Result (Unit {0}) × Tables F)
      → TxEffect s e p
      → Effect s v e (((λ (_ : Tables F). p) >> pure v) s)
  unfolding ◌>>=◌
  behind_tx s v e (err f, s') h = h
  behind_tx s v e (ok _, s') h = (refl, h)

  -- The value that the method returns behind the transaction.
  pure-Effect :
      {A : Type 0} (s : Tables F) (v : A) (e : Event F) (m : Action (Tables F) (Unit {0}))
      → TxEffect s e (m s)
      → Effect s v e ((m >> pure v) s)
  unfolding ◌>>=◌
  pure-Effect s v e m h = behind_tx s v e (m s) h

  some-events :
      {T : Type 0} (o : Option T) (f : T → Tables F) (es : List (Event F))
      → ((t : T) → (f t).events ≡ es)
      → (s2 : Tables F)
      → ◌≡◌ {A = Option (Tables F)} (elim o [ none ↦ none | some t ↦ some (f t) ]) (some s2)
      → s2.events ≡ es
  some-events none f es h s2 e = cc
  some-events (some t) f es h s2 e =
      ap (λ (x : Tables F). x.events) (sym (some-injective (f t) s2 e)) ∙ h t

  pub put_entity-Effect :
      (v : Entity) (e : Event F) (s : Tables F) → Effect s v e (put_entity v e s)
  unfolding put_entity
  put_entity-Effect v e s = pure-Effect s v e _ (
      event_tx-Effect e _ s (
        some-events (put_row v s.entities) (λ t. record s { events = e ∷ s.events; entities = t })
          (e ∷ s.events) (λ t. refl)))

  pub put_artifact-Effect :
      (v : Artifact) (e : Event F) (s : Tables F) → Effect s v e (put_artifact v e s)
  unfolding put_artifact
  put_artifact-Effect v e s = pure-Effect s v e _ (
      event_tx-Effect e _ s (
        some-events (put_row v s.artifacts) (λ t. record s { events = e ∷ s.events; artifacts = t })
          (e ∷ s.events) (λ t. refl)))

  pub put_memory-Effect :
      (v : Memory F) (e : Event F) (now : ℕ) (s : Tables F) → Effect s v e (put_memory v e now s)
  unfolding put_memory
  put_memory-Effect v e now s = pure-Effect s v e _ (
      event_tx-Effect e _ s (
        some-events (put_row v s.memories)
          (λ t. record s {
            events = e ∷ s.events;
            memories = t;
            jobs =
                if v.embedding_state == "pending"
                then enqueue v.workspace_id v.id v.version (v.title ++ "\n" ++ v.content) now s.jobs
                else s.jobs;
          })
          (e ∷ s.events) (λ t. refl)))

  pub put_relationship-Effect :
      (v : Relationship F) (e : Event F) (s : Tables F) → Effect s v e (put_relationship v e s)
  unfolding put_relationship
  put_relationship-Effect v e s = pure-Effect s v e _ (
      event_tx-Effect e _ s (
        some-events (put_row v s.relationships)
          (λ t. record s { events = e ∷ s.events; relationships = t }) (e ∷ s.events) (λ t. refl)))

  scope-events :
      (clash : Bool) (v : Scope) (e : Event F) (s s2 : Tables F)
      → (if clash then none else some (record s { events = e ∷ s.events; scopes = v ∷ s.scopes }))
        ≡ some s2
      → s2.events ≡ e ∷ s.events
  scope-events true v e s s2 h = cc
  scope-events false v e s s2 h = ap (λ (x : Tables F). x.events) (sym (some-injective _ s2 h))

  pub create_scope-Effect :
      (v : Scope) (e : Event F) (s : Tables F) → Effect s v e (create_scope v e s)
  unfolding create_scope
  create_scope-Effect v e s =
      pure-Effect s v e _ (event_tx-Effect e _ s (scope-events (scope_clash v s.scopes) v e s))
