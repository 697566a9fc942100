-- ===== src/Tests/Data.antt =====
-- A small workspace: fixed-point numbers for float64, and a few objects, requests and options.
use Prim.Native.Nat.{◌+◌, ◌*◌, ◌-◌, ◌/◌}
use vessica_knowledge_server.Base.{pos}
use vessica_knowledge_server.Base.{
  ℕ, String, none, some, List, [], ◌∷◌, ltb, nat_eq, ◌&&◌, not, if◌then◌else◌,
}
use vessica_knowledge_server.Models.{
  Provenance, Scope, Entity, Artifact, Memory, Relationship, WriteOptions,
}
use vessica_knowledge_server.Models.Json.{string, json_object}
use vessica_knowledge_server.Models.Retrieval.{RankedMemory, ContextRequest}
use vessica_knowledge_server.Service.Host.{Host, Env, Service}

-- Thousandths, and the text itself for its hash.
instance abbrev pub thousandths : Host ℕ
thousandths = record {
  ratio = λ n d. n * 1000 / d;
  lt = ltb;
  eq = nat_eq;
  add = λ a b. a + b;
  sub = λ a b. a - b;
  mul = λ a b. a * b / 1000;
  div = λ a b. a * 1000 / b;
  sha256_hex = λ s. s;
  to_lower = λ c. if not (ltb c 65) && ltb c 91 then c + 32 else c;
}

abbrev pub plain_service : Service ℕ
plain_service = record { embedder = none; reranker = none }

abbrev pub env_at : ℕ → String → Env
env_at t suffix = record {
  created = t;
  occurred = t + 1;
  queued = t + 2;
  object_suffix = suffix;
  event_suffix = suffix;
}

abbrev pub by_hand : Provenance
by_hand = record { source = "api"; source_id = ""; source_url = ""; detail = none }

abbrev pub keyed : String → WriteOptions
keyed key = record {
  workspace_id = "w1";
  idempotency_key = key;
  actor = record { id = "u1"; type = "user" };
  provenance = by_hand;
}

abbrev pub team_scope : Scope
team_scope = record {
  id = "";
  workspace_id = "";
  parent_id = "";
  type = "team";
  name = "Core";
  canonical_key = "core";
  created_at = 0;
}

abbrev pub gateway : Entity
gateway = record {
  id = "e1";
  workspace_id = "w1";
  scope_id = "s1";
  version = 1;
  type = "service";
  display_name = "Gateway";
  aliases = "edge" ∷ [];
  external_refs = [];
  metadata = none;
  state = "";
  provenance = by_hand;
  created_at = 0;
  updated_at = 0;
}

abbrev pub runbook : Artifact
runbook = record {
  id = "a1";
  workspace_id = "w1";
  scope_id = "s1";
  version = 1;
  type = "runbook";
  title = "Restart the gateway";
  status = "active";
  content = "Drain the gateway and restart it";
  content_hash = "";
  source_ref = none;
  metadata = none;
  provenance = by_hand;
  created_at = 0;
  updated_at = 0;
}

abbrev pub memory_of : String → String → String → Memory ℕ
memory_of id type key = record {
  id = id;
  workspace_id = "w1";
  scope_id = "s1";
  version = 1;
  type = type;
  subject = "e1";
  predicate = "";
  object = "";
  title = "Gateway";
  content = "The gateway drains for a minute";
  importance = 500;
  confidence = 1000;
  confidence_source = "";
  valid_from = none;
  valid_until = none;
  state = "";
  embedding_state = "";
  metadata = some (json_object (("semantic_key", string key) ∷ []));
  provenance = by_hand;
  created_at = 0;
  updated_at = 0;
}

abbrev pub drains : Memory ℕ
drains = memory_of "m1" "fact" ""

abbrev pub runs_on : Relationship ℕ
runs_on = record {
  id = "";
  workspace_id = "";
  scope_id = "s1";
  version = 1;
  from_type = "entity";
  from_id = "e1";
  predicate = "documented_by";
  to_type = "artifact";
  to_id = "a1";
  confidence = 900;
  state = "";
  metadata = none;
  provenance = by_hand;
  created_at = 0;
}

abbrev pub ranked : Memory ℕ → RankedMemory ℕ
ranked m = record { memory = m; score = 1000; explanation = [] }

abbrev pub ranked_memories : List (RankedMemory ℕ)
ranked_memories =
    ranked (memory_of "m2" "instruction" "style")
    ∷ ranked (memory_of "m3" "instruction" "style")
    ∷ ranked drains
    ∷ ranked (memory_of "m4" "episode" "")
    ∷ []

abbrev pub question : ContextRequest
question = record {
  workspace_id = "w1";
  query = "restart gateway";
  scope_ids = "s1" ∷ [];
  entity_ids = "e1" ∷ [];
  artifact_selectors = record { type = "runbook"; status = ""; id = ""; version = 0 } ∷ [];
  token_budget = pos 40;
}
