-- ===== src/Service/Retry.antt =====
-- A client that repeats a create with its idempotency key is answered with the object that it made, and
-- nothing more is written, whatever it sends the second time.
use mathlib.Core.Path.{subst}
use vessica_knowledge_server.Base.{
  String, ◌≡◌, refl, sym, ap, ◌∙◌, some, ok, Result, inl, inr, ◌∷◌, Option-cases, eq_refl,
}
use vessica_knowledge_server.Models.{Entity, Artifact, Memory, Relationship, WriteOptions, Event}
use vessica_knowledge_server.Store.Tables.{
  Tables, entity_row, artifact_row, memory_row, relationship_row,
}
use vessica_knowledge_server.Store.Table.{Row, Table, get_current, put_row}
use vessica_knowledge_server.Store.Table.Laws.{get_current-put_row}
use vessica_knowledge_server.Store.Read.{
  or_missing, get_version, find_event, get_entity, get_artifact, get_memory, get_relationship,
}
use vessica_knowledge_server.Store.Write.Stored.{
  put_entity-stored, put_artifact-stored, put_memory-stored, put_relationship-stored,
}
use vessica_knowledge_server.Service.Host.{Host, Env, Service}
use vessica_knowledge_server.Service.Writing.{event, once}
use vessica_knowledge_server.Service.Writing.Outcome.{
  recorded, once-replayed, once-fresh, reject-ok,
}
use vessica_knowledge_server.Service.Entities.{new_entity, create_entity}
use vessica_knowledge_server.Service.Artifacts.{new_artifact, create_artifact}
use vessica_knowledge_server.Service.Memories.{new_memory, create_memory}
use vessica_knowledge_server.Service.Relationships.{new_relationship, create_relationship}

get_current-put_row_self :
    {A : Type 0} ⦃row : Row A⦄ (x : A) (t : Table A) {t' : Table A} (w i : String)
    → put_row x t ≡ some t'
    → row.workspace_of x ≡ w
    → row.id_of x ≡ i
    → get_current w i t' ≡ some x
get_current-put_row_self x t w i h ew ei =
    rw (get_current-put_row x t w i h, ew, ei, eq_refl w, eq_refl i) refl

module _ {F : Type 0} (o : WriteOptions) where
  recorded-head :
      (e : Event F) (s s1 : Tables F)
      → s1.events ≡ e ∷ s.events
      → e.workspace_id ≡ o.workspace_id
      → e.idempotency_key ≡ o.idempotency_key
      → recorded o s1 ≡ some e
  unfolding find_event
  recorded-head e s s1 h ew ek =
      rw (h, ew, ek, eq_refl o.workspace_id, eq_refl o.idempotency_key) refl

  -- A success whose key was recorded before left the store alone.
  again_and_again :
      {A : Type 0} (s : Tables F) {s1 : Tables F} (r : A) (old : Event F)
      (answer : Event F → Tables F → Result A) (fresh fresh' : Tables F → Result A × Tables F)
      → once o (λ e t. (answer e t, t)) fresh s ≡ (ok r, s1)
      → recorded o s ≡ some old
      → once o (λ e t. (answer e t, t)) fresh' s1 ≡ (ok r, s1)
  again_and_again {A = A} s {s1} r old answer fresh fresh' done found =
      let same : ◌≡◌ {A = Result A × Tables F} (answer old s, s) (ok r, s1) =
        sym (once-replayed s s o r old _ (λ e t. (answer e t, t)) fresh fresh done found) ∙ done in
      subst (λ t. once o (λ e t. (answer e t, t)) fresh' t ≡ (ok r, s1)) (ap (λ p. p.1) same)
        (once-replayed s s o r old _ (λ e t. (answer e t, t)) fresh fresh' done found ∙ same)

  -- A success that wrote `u` is answered with `u` from then on.
  wrote_once :
      {A : Type 0} ⦃row : Row A⦄ (s : Tables F) {s1 : Tables F} (r u : A) (m : String) (t : Table A)
      {t' : Table A} (e : Event F) (answer : Event F → Tables F → Result A)
      (fresh fresh' : Tables F → Result A × Tables F)
      → once o (λ e t. (answer e t, t)) fresh s ≡ (ok r, s1)
      → r ≡ u
      → s1.events ≡ e ∷ s.events
      → e.workspace_id ≡ o.workspace_id
      → e.idempotency_key ≡ o.idempotency_key
      → put_row u t ≡ some t'
      → answer e s1 ≡ or_missing m (get_current (row.workspace_of u) (row.id_of u) t')
      → once o (λ e t. (answer e t, t)) fresh' s1 ≡ (ok r, s1)
  wrote_once s {s1} r u m t e answer fresh fresh' done er ee ew ek ep ans =
      once-replayed s s1 o r e _ (λ e t. (answer e t, t)) fresh fresh' done
        (recorded-head e s s1 ee ew ek)
      ∙ ap (λ a. (a, s1))
          (ans ∙ ap (or_missing m) (get_current-put_row_self u t _ _ ep refl refl) ∙ ap ok (sym er))

module _ {F : Type 0} (env env' : Env) (o : WriteOptions) (s : Tables F) {s1 : Tables F} where
  -- A `CreateEntity` that succeeded is repeated with the same options in the store that it left, at another
  -- time and with any entity: the second call returns what the first one returned, and leaves the
  -- store as it was.
  pub create_entity-retry :
      (v v' : Entity) {r : Entity}
      → create_entity env o v s ≡ (ok r, s1)
      → create_entity env' o v' s1 ≡ (ok r, s1)
  unfolding create_entity get_entity event new_entity
  create_entity-retry v v' done = elim (Option-cases (recorded o s)) [
    | inr (old, found) ↦ again_and_again o s _ old _ _ _ done found
    | inl new ↦
        let (er, ee, ep) =
          put_entity-stored _ s (new_entity env o v)
            (reject-ok _ _ _ s _ (reject-ok _ _ _ s _ (once-fresh s o _ _ _ done new))) in
        wrote_once o s _ (new_entity env o v) "entity not found" s.entities _ _ _ _ done er ee refl
          refl ep refl
  ]

module _ {F : Type 0} ⦃host : Host F⦄ (env env' : Env) (o : WriteOptions) (s : Tables F)
    {s1 : Tables F} where
  -- A `CreateArtifact` that succeeded is repeated with the same options in the store that it left, at another
  -- time and with any artifact: the second call returns what the first one returned, and leaves the
  -- store as it was.
  pub create_artifact-retry :
      (v v' : Artifact) {r : Artifact}
      → create_artifact env o v s ≡ (ok r, s1)
      → create_artifact env' o v' s1 ≡ (ok r, s1)
  unfolding create_artifact get_artifact get_version event new_artifact
  create_artifact-retry v v' done = elim (Option-cases (recorded o s)) [
    | inr (old, found) ↦ again_and_again o s _ old _ _ _ done found
    | inl new ↦
        let (er, ee, ep) = put_artifact-stored _ s (new_artifact host.sha256_hex env o v) (
          reject-ok _ _ _ s _
            (reject-ok _ _ _ s _ (reject-ok _ _ _ s _ (once-fresh s o _ _ _ done new)))) in
        wrote_once o s _ (new_artifact host.sha256_hex env o v) "artifact not found" s.artifacts _ _
          _ _ done er ee refl refl ep refl
  ]

  -- A `CreateRelationship` that succeeded is repeated with the same options in the store that it left, at another
  -- time and with any relationship: the second call returns what the first one returned, and leaves the
  -- store as it was.
  pub create_relationship-retry :
      (v v' : Relationship F) {r : Relationship F}
      → create_relationship env o v s ≡ (ok r, s1)
      → create_relationship env' o v' s1 ≡ (ok r, s1)
  unfolding create_relationship get_relationship event new_relationship
  create_relationship-retry v v' done = elim (Option-cases (recorded o s)) [
    | inr (old, found) ↦ again_and_again o s _ old _ _ _ done found
    | inl new ↦
        let (er, ee, ep) =
          put_relationship-stored _ s (new_relationship env o v)
            (reject-ok _ _ _ s _ (reject-ok _ _ _ s _ (once-fresh s o _ _ _ done new))) in
        wrote_once o s _ (new_relationship env o v) "relationship not found" s.relationships _ _ _ _
          done er ee refl refl ep refl
  ]

module _ {F : Type 0} ⦃host : Host F⦄ (svc svc' : Service F) (env env' : Env) (o : WriteOptions)
    (s : Tables F) {s1 : Tables F} where
  -- A `CreateMemory` that succeeded is repeated with the same options in the store that it left, at another
  -- time and with any memory and any embedder: the second call returns what the first one returned, and leaves the
  -- store as it was.
  pub create_memory-retry :
      (v v' : Memory F) {r : Memory F}
      → create_memory svc env o v s ≡ (ok r, s1)
      → create_memory svc' env' o v' s1 ≡ (ok r, s1)
  unfolding create_memory get_memory get_version event new_memory
  create_memory-retry v v' done = elim (Option-cases (recorded o s)) [
    | inr (old, found) ↦ again_and_again o s _ old _ _ _ done found
    | inl new ↦
        let (er, ee, ep) = put_memory-stored _ s (new_memory svc env o v) _ (
          reject-ok _ _ _ s _ (
            reject-ok _ _ _ s _
              (reject-ok _ _ _ s _ (reject-ok _ _ _ s _ (once-fresh s o _ _ _ done new))))) in
        wrote_once o s _ (new_memory svc env o v) "memory not found" s.memories _ _ _ _ done er ee
          refl refl ep refl
  ]
