-- ===== src/Store/Replay.antt =====
-- knowledge/replay.go: `ReplayEvents`, with a store of the model as its destination. A payload holds the
-- value that its JSON encodes.
pub mod Steps
use vessica_knowledge_server.Base.{
  ℕ, String, List, [], ◌∷◌, ◌==◌, other, Action, pure, raise, ◌>>◌, if◌then◌else◌,
}
use Prim.Native.String.{◌++◌}
use vessica_knowledge_server.Models.{Event, Payload, scope, entity, artifact, memory, relationship}
use vessica_knowledge_server.Store.Tables.{Tables}
use vessica_knowledge_server.Store.Write
use vessica_knowledge_server.Store.Write.{put_entity, put_artifact, put_memory, put_relationship}

module _ {F : Type 0} where
  no_payload : String → Event F → Action (Tables F) (Unit {0})
  no_payload key e = raise (other ("event " ++ e.id ++ " has no " ++ key ++ " payload"))

  unfoldable pub replay_scope : Event F → Payload F → Action (Tables F) (Unit {0})
  unfolding no_payload
  replay_scope e (scope v) = Write.create_scope v e >> pure tt
  replay_scope e _ = no_payload "scope" e

  unfoldable pub replay_entity : Event F → Payload F → Action (Tables F) (Unit {0})
  unfolding no_payload
  replay_entity e (entity v) = put_entity v e >> pure tt
  replay_entity e _ = no_payload "entity" e

  unfoldable pub replay_artifact : Event F → Payload F → Action (Tables F) (Unit {0})
  unfolding no_payload
  replay_artifact e (artifact v) = put_artifact v e >> pure tt
  replay_artifact e _ = no_payload "artifact" e

  unfoldable pub replay_memory : ℕ → Event F → Payload F → Action (Tables F) (Unit {0})
  unfolding no_payload
  replay_memory now e (memory v) = put_memory v e now >> pure tt
  replay_memory now e _ = no_payload "memory" e

  unfoldable pub replay_relationship : Event F → Payload F → Action (Tables F) (Unit {0})
  unfolding no_payload
  replay_relationship e (relationship v) = put_relationship v e >> pure tt
  replay_relationship e _ = no_payload "relationship" e

  -- The `switch` of the loop; `now` dates the embedding jobs.
  unfoldable pub replay_event : ℕ → Event F → Action (Tables F) (Unit {0})
  unfolding replay_scope replay_entity replay_artifact replay_memory replay_relationship
  replay_event now e =
      if e.aggregate_type == "scope"
      then replay_scope e e.payload
      else if e.aggregate_type == "entity"
      then replay_entity e e.payload
      else if e.aggregate_type == "artifact"
      then replay_artifact e e.payload
      else if e.aggregate_type == "memory"
      then replay_memory now e e.payload
      else if e.aggregate_type == "relationship"
      then replay_relationship e e.payload
      else raise
          (other ("unsupported aggregate type \"" ++ e.aggregate_type ++ "\" in event " ++ e.id))

  unfoldable pub replay_events : ℕ → List (Event F) → Action (Tables F) (Unit {0})
  unfolding replay_event
  replay_events now [] = pure tt
  replay_events now (e ∷ es) = replay_event now e >> replay_events now es
