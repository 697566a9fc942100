-- ===== src/Service/Workflow.antt =====
-- `IngestWorkflowEvent`, `meaningfulWorkflowEvent` and `workflowTitle` of knowledge/service.go.
pub mod Keeps
use Prim.Native.Char.{Char, code}
use Prim.Native.String
use Prim.Native.String.{◌++◌, slice}
use vessica_knowledge_server.Base.{
  ℕ, zero, suc, ◌+◌, ◌-◌, ◌/◌, ◌%◌, String, Bool, true, false, not, ◌&&◌, ◌||◌, none, some, List,
  [], ◌∷◌, ok, invalid, Action, reject_if, ◌>>=◌, ◌>>◌, ltb, leb, nat_eq, member, if◌then◌else◌,
}
use vessica_knowledge_server.Models.{
  Memory, Relationship, WorkflowEvent, WriteOptions, ExternalRef, Provenance,
}
use vessica_knowledge_server.Models.Json.{Value, Elements, json_object}
use vessica_knowledge_server.Store.Tables.{Tables}
use vessica_knowledge_server.Service.Host.{Host, Env, Service}
use vessica_knowledge_server.Service.Rules.{is_empty}
use vessica_knowledge_server.Service.Memories.{create_memory}
use vessica_knowledge_server.Service.Relationships.{create_relationship}

unfoldable pub meaningful_workflow_event : String → Bool
meaningful_workflow_event t = member t (
    "epic.accepted" ∷ "epic.planned" ∷ "epic.completed" ∷ "epic.failed" ∷ "epic.cancelled"
    ∷ "run.completed" ∷ "run.failed" ∷ "run.approved" ∷ "run.merged" ∷ "run.rolled_back"
    ∷ "run.cancelled" ∷ "run.refined" ∷ "ticket.completed" ∷ "ticket.blocked" ∷ "ticket.discovered"
    ∷ "sandbox.refined" ∷ [])

-- The upper case of an ASCII letter
upper : Char → String
upper c =
    if leb 97 (code c) && leb (code c) 122
    then slice "ABCDEFGHIJKLMNOPQRSTUVWXYZ" (code c - 97) (code c - 96)
    else String.◌∷◌ c String.[]

-- `strings.Title` of `strings.ReplaceAll(t, ".", " ")`, for ASCII texts without other separators: the
-- types that are meaningful. `first` says that a word begins.
title_from : Bool → String → String
unfolding upper
title_from first String.[] = String.[]
title_from first (String.◌∷◌ c s) =
    let rest = title_from false s in
    let next_word = title_from true s in
    if nat_eq (code c) 46
    then " " ++ next_word
    else if first
    then upper c ++ rest
    else String.◌∷◌ c rest

unfoldable pub workflow_title : String → String
unfolding title_from
workflow_title t = title_from true t

-- `%d`, on fuel: a number has no more digits than its successor.
digits : ℕ → ℕ → String
digits zero n = ""
digits (suc fuel) n =
    let front = digits fuel (n / 10) in
    let last = slice "0123456789" (n % 10) (n % 10 + 1) in if ltb n 10 then last else front ++ last

pub decimal : ℕ → String
unfolding digits
decimal n = digits (suc n) n

-- The JSON of the references: `omitempty` leaves out an empty url.
references_of : List ExternalRef → Elements
references_of [] = Elements.no_elements
references_of (r ∷ rs) =
    Elements.element
      (Value.object (
        json_object (
          ("system", Value.string r.system)
          ∷ ("id", Value.string r.id)
          ∷ (if is_empty r.url then [] else ("url", Value.string r.url) ∷ []))))
      (references_of rs)

unfoldable pub workflow_options : WriteOptions → WorkflowEvent → WriteOptions
workflow_options o w = record o {
  idempotency_key = "workflow:" ++ w.id;
  provenance = record {
    source = "vessica_workflow";
    source_id = w.id;
    source_url = "";
    detail = w.metadata;
  };
}

module _ {F : Type 0} ⦃host : Host F⦄ where
  unfoldable pub workflow_memory : WorkflowEvent → Memory F
  unfolding workflow_title references_of
  workflow_memory w = record {
    id = "";
    workspace_id = "";
    scope_id = w.repository_scope_id;
    version = 0;
    type = "episode";
    subject = "";
    predicate = "";
    object = "";
    title = workflow_title w.type;
    content = w.summary;
    importance = host.ratio 65 100;
    confidence = host.ratio 9 10;
    confidence_source = "observed";
    valid_from = none;
    valid_until = none;
    state = "";
    embedding_state = "";
    metadata = some (
        json_object (
          ("workflow_event_id", Value.string w.id)
          ∷ ("workflow_event_type", Value.string w.type)
          ∷ ("references", Value.array (references_of w.references))
          ∷ []));
    provenance = record { source = ""; source_id = ""; source_url = ""; detail = none };
    created_at = 0;
    updated_at = 0;
  }

  unfoldable pub workflow_reference : WorkflowEvent → String → ExternalRef → Relationship F
  workflow_reference w memory_id ref = record {
    id = "";
    workspace_id = "";
    scope_id = w.repository_scope_id;
    version = 0;
    from_type = "memory";
    from_id = memory_id;
    predicate = "references";
    to_type = "external";
    to_id = ref.system ++ ":" ++ ref.id;
    confidence = host.ratio 1 1;
    state = "";
    metadata = some (json_object (("url", Value.string ref.url) ∷ []));
    provenance = record { source = ""; source_id = ""; source_url = ""; detail = none };
    created_at = 0;
  }

  -- The loop over the references; a relationship that is refused is passed over.
  unfoldable pub link_references :
      (ℕ → Env) → WriteOptions → WorkflowEvent → String → ℕ → List ExternalRef → Tables F → Tables F
  unfolding workflow_reference decimal
  link_references envs o w memory_id i [] s = s
  link_references envs o w memory_id i (r ∷ rs) s =
      let keyed = record o { idempotency_key = "workflow:" ++ w.id ++ ":ref:" ++ decimal i } in
      link_references envs o w memory_id (suc i) rs
        (create_relationship (envs i) keyed (workflow_reference w memory_id r) s).1

  -- `envs` holds what each relationship reads from the world.
  unfoldable pub ingest_workflow_event :
      Service F → Env → (ℕ → Env) → WriteOptions → WorkflowEvent → Action (Tables F) (Memory F)
  unfolding workflow_memory workflow_options link_references meaningful_workflow_event
  ingest_workflow_event svc env envs o w = do
    reject_if (is_empty w.id || is_empty w.type || is_empty w.summary)
        (invalid "workflow event id, type, and summary required")
    reject_if (not (meaningful_workflow_event w.type))
        (invalid "workflow event is not knowledge-worthy")
    got ← create_memory svc env (workflow_options o w) (workflow_memory w)
    λ s. (ok got, link_references envs (workflow_options o w) w got.id 0 w.references s)
