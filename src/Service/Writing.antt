-- ===== src/Service/Writing.antt =====
-- What every write of knowledge/service.go begins with: `validateWrite`, `replay` and `event`.
pub mod Outcome
pub mod Keeps
use vessica_knowledge_server.Base.{
  ℕ, String, Option, none, some, ◌||◌, Result, ok, err, invalid, Action, pure, reject_if, ◌>>=◌,
  ◌>>◌,
}
use vessica_knowledge_server.Models.{Event, Payload, WriteOptions}
use vessica_knowledge_server.Store.Tables.{Tables}
use vessica_knowledge_server.Store.Read.{get_event_by_idempotency}
use vessica_knowledge_server.Service.Host.{Env, new_id}
use vessica_knowledge_server.Service.Rules.{is_empty}

unfoldable pub validate_write : {S : Type 0} → WriteOptions → Action S (Unit {0})
validate_write o = do
  reject_if (is_empty o.workspace_id) (invalid "workspace_id required")
  reject_if (is_empty o.idempotency_key) (invalid "idempotency_key required")
  reject_if (is_empty o.actor.id || is_empty o.actor.type) (invalid "actor required")
  reject_if (is_empty o.provenance.source) (invalid "provenance source required")

module _ {F : Type 0} where
  unfoldable pub event : Env → WriteOptions → String → String → String → ℕ → Payload F → Event F
  event env o agg_type agg_id type version payload = record {
    id = new_id "kevt" env.event_suffix;
    workspace_id = o.workspace_id;
    aggregate_type = agg_type;
    aggregate_id = agg_id;
    aggregate_version = version;
    type = type;
    actor = o.actor;
    provenance = o.provenance;
    idempotency_key = o.idempotency_key;
    payload = payload;
    occurred_at = env.occurred;
  }

  unfoldable pub replay : WriteOptions → Action (Tables F) (Option (Event F))
  unfolding validate_write
  replay o = do validate_write o; get_event_by_idempotency o.workspace_id o.idempotency_key

  -- `if old != nil { return … }`, and the rest of the method.
  abbrev pub choose :
      {A : Type 0}
      → (Event F → Action (Tables F) A)
      → Action (Tables F) A
      → Option (Event F)
      → Action (Tables F) A
  choose again fresh none = fresh
  choose again fresh (some old) = again old

  unfoldable pub once :
      {A : Type 0}
      → WriteOptions
      → (Event F → Action (Tables F) A)
      → Action (Tables F) A
      → Action (Tables F) A
  once o again fresh = do old ← replay o; choose again fresh old
