-- ===== src/Client.antt =====
-- client/client.go: the request of each method, and how `do` reads the answer. `net/http`, `net/url` and
-- `encoding/json` are parameters.
pub mod Calls
use Prim.Native.String.{◌++◌}
use vessica_knowledge_server.Base.{
  ℕ, ℤ, String, Bool, true, false, Option, none, some, Result, ok, err, Error, api, other,
  if◌then◌else◌,
}
use vessica_knowledge_server.Models.{
  Actor, Scope, Entity, Artifact, Memory, Relationship, WorkflowEvent, Snapshot,
}
use vessica_knowledge_server.Models.Retrieval.{ContextRequest, MemoryRetrievalRequest}
use vessica_knowledge_server.Text.{trimmed}
use vessica_knowledge_server.Service.Workflow.{decimal}
use vessica_knowledge_server.Providers.{Response, trim_slashes}

-- `Client`, without its transport
pub record Client : Type 0 where
  pub base_url : String
  pub token : String
  pub actor : Actor

-- The values that a method sends.
pub data Body (F : Type 0) : Type 0 where
  question : ContextRequest → Body F
  retrieval : MemoryRetrievalRequest → Body F
  scope : Scope → Body F
  entity : Entity → Body F
  artifact : Artifact → Body F
  memory : Memory F → Body F
  relationship : Relationship F → Body F
  workflow : WorkflowEvent → Body F
  workspace_only : String → Body F
  snapshot : Snapshot F → Body F

-- What a method passes on to `do`.
pub record Call (F : Type 0) : Type 0 where
  pub method : String
  pub path : String
  pub key : String
  pub body : Option (Body F)

pub record HttpRequest : Type 0 where
  pub method : String
  pub url : String
  pub body : Option String
  pub authorization : String
  pub content_type : String
  pub idempotency_key : String
  pub actor_id : String
  pub actor_type : String
  pub provenance_source : String

-- The answer of the server: `ok`, `data` and `error`
pub record Envelope : Type 0 where
  pub succeeded : Bool
  pub data_text : String
  pub error : Option Error

module _ {F : Type 0} (marshal : Body F → String) where
  abbrev marshalled : Option (Body F) → Option String
  marshalled none = none
  marshalled (some v) = some (marshal v)

  abbrev pub request_of : Client → Call F → HttpRequest
  request_of c call = record {
    method = call.method;
    url = trim_slashes c.base_url ++ call.path;
    body = marshalled call.body;
    authorization = "Bearer " ++ c.token;
    content_type = "application/json";
    idempotency_key = call.key;
    actor_id = c.actor.id;
    actor_type = c.actor.type;
    provenance_source = "vessica_cli";
  }

-- The result of an envelope; `decode` is `json.Unmarshal` into the target.
read_reply : {A : Type 0} → (String → Result A) → ℕ → String → Result Envelope → Result A
read_reply decode status raw (err _) =
    err (other ("knowledge API " ++ decimal status ++ ": " ++ trimmed raw))
read_reply decode status raw (ok e) = if e.succeeded then decode e.data_text else elim e.error [
  | some failure ↦ err (api failure)
  | none ↦ err (other "knowledge API failed")
]

read_exchange :
    {A : Type 0} → (String → Result Envelope) → (String → Result A) → Result Response → Result A
unfolding read_reply
read_exchange envelope decode (err f) = err f
read_exchange envelope decode (ok r) = read_reply decode r.status r.body (envelope r.body)

-- `do`. `send` bounds the bytes that are read of the body.
unfoldable pub do_call :
    {F A : Type 0}
    → (Body F → String)
    → (ℕ → HttpRequest → Result Response)
    → (String → Result Envelope)
    → (String → Result A)
    → Client
    → Call F
    → Result A
unfolding read_exchange
do_call marshal send envelope decode c call =
    read_exchange envelope decode (send 16_777_216 (request_of marshal c call))
