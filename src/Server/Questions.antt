-- ===== src/Server/Questions.antt =====
-- The handlers of server/http.go that ask questions and report: `context`, `retrieveMemories`, `status`,
-- `embeddingBackfill` and `embeddingBackfillStatus`.
use Prim.Native.String.{◌++◌}
use vessica_knowledge_server.Base.{
  ℕ, String, Bool, true, false, not, ◌&&◌, ◌||◌, ◌==◌, Option, none, some, Result, ok, err, Failure,
  api, invalid, nat_eq, ltb, length, if◌then◌else◌,
}
use vessica_knowledge_server.Models.Retrieval.{
  ContextRequest, ContextResponse, MemoryRetrievalRequest, MemoryRetrievalResponse,
}
use vessica_knowledge_server.Text.{trimmed}
use vessica_knowledge_server.Store.Tables.{Tables}
use vessica_knowledge_server.Store.Jobs.{embedding_backlog}
use vessica_knowledge_server.Store.Backfill.{queue_embeddings, mode_or_missing}
use vessica_knowledge_server.Service.Host.{Host, Service}
use vessica_knowledge_server.Service.Rules.{is_empty}
use vessica_knowledge_server.Retrieval.Retrieve.{World, retrieve_memories}
use vessica_knowledge_server.Models.{api_version}
use vessica_knowledge_server.Context.Compose.{context}
use vessica_knowledge_server.Server.Options.{Settings, Headers, workspace, failure}
use vessica_knowledge_server.Server.Handlers.{Reply, answered, failed, respond}

abbrev pub forbidden : Failure
forbidden = api (record {
  code = "forbidden_workspace";
  message = "token is not scoped to this workspace";
  status = 403;
})

-- The workspace of a question: that of its body, or the default one.
abbrev asked_workspace : Settings → String → String
asked_workspace c w = if is_empty w then c.default_workspace else w

abbrev is_foreign : Settings → String → Bool
is_foreign c w =
    not (is_empty c.default_workspace) && not (asked_workspace c w == c.default_workspace)

-- `none` if the call does not end.
abbrev ended : {A : Type 0} → Option (Result A) → ℕ → Option (Reply A)
ended none status = none
ended (some r) status = some (respond r status)

module _ {F : Type 0} ⦃host : Host F⦄ (c : Settings) (svc : Service F) (world : World F)
    (s : Tables F) where
  unfoldable pub post_context : ContextRequest → Option (Reply (ContextResponse F))
  post_context r =
      if is_foreign c r.workspace_id
      then some (failed (failure forbidden))
      else ended
          (context svc world s (record r { workspace_id = asked_workspace c r.workspace_id })) 200

  unfoldable pub post_retrieval :
      MemoryRetrievalRequest → Option (Reply (MemoryRetrievalResponse F))
  post_retrieval r =
      if is_foreign c r.workspace_id
      then some (failed (failure forbidden))
      else if is_empty (trimmed r.query) || nat_eq (length r.scope_ids) 0
      then some (failed (failure (invalid "query and at least one scope are required")))
      else ended
          (retrieve_memories svc world s
            (record r { workspace_id = asked_workspace c r.workspace_id }))
          200

-- `Status` of knowledge/models.go
pub record Status : Type 0 where
  pub schema : String
  pub retrieval_mode : String
  pub embedding_state : String
  pub embedding_model : String
  pub embedding_backlog : ℕ
  pub index_fresh : Bool
  pub rerank_enabled : Bool
  pub rerank_model : String

-- `EmbeddingBackfill` of knowledge/models.go
pub record EmbeddingBackfill : Type 0 where
  pub job_id : String
  pub workspace_id : String
  pub mode : String
  pub queued : ℕ
  pub backlog : ℕ
  pub status : String

abbrev backfill_status : ℕ → String
backfill_status backlog = if ltb 0 backlog then "catching_up" else "completed"

module _ {F : Type 0} (c : Settings) (r : Headers) (s : Tables F) where
  unfoldable pub get_status : Service F → Reply Status
  get_status svc =
      let backlog = embedding_backlog (workspace r c.default_workspace) s.jobs in
      answered 200 (record {
        schema = api_version;
        retrieval_mode = elim svc.embedder [ none ↦ "lexical" | some _ ↦ "semantic_hybrid" ];
        embedding_state = elim svc.embedder [ none ↦ "not_configured" | some _ ↦ "configured" ];
        embedding_model = elim svc.embedder [ none ↦ "" | some e ↦ e.model ];
        embedding_backlog = backlog;
        index_fresh = nat_eq backlog 0;
        rerank_enabled = elim svc.reranker [ none ↦ false | some _ ↦ true ];
        rerank_model = elim svc.reranker [ none ↦ "" | some x ↦ x.model ];
      })

  unfoldable pub get_backfill_status : String → Reply EmbeddingBackfill
  get_backfill_status job_id =
      let w = workspace r c.default_workspace in
      let backlog = embedding_backlog w s.jobs in
      answered 200 (record {
        job_id = job_id;
        workspace_id = w;
        mode = "";
        queued = 0;
        backlog = backlog;
        status = backfill_status backlog;
      })

-- What `embeddingBackfill` answers when jobs were queued; `base36` is `strconv.FormatInt(_, 36)`.
abbrev queued_reply :
    {F : Type 0} → (ℕ → String) → ℕ → String → String → ℕ → Tables F → Reply EmbeddingBackfill
queued_reply base36 now w mode queued s =
    let backlog = embedding_backlog w s.jobs in
    answered 202 (record {
      job_id = "emb_" ++ base36 now;
      workspace_id = w;
      mode = mode_or_missing mode;
      queued = queued;
      backlog = backlog;
      status = backfill_status backlog;
    })

module _ {F : Type 0} (c : Settings) (base36 : ℕ → String) (now : ℕ) where
  -- The workspace and the mode are those of the body.
  unfoldable pub post_backfill : String → String → Tables F → Reply EmbeddingBackfill × Tables F
  post_backfill asked mode s =
      let w = asked_workspace c asked in
      if is_foreign c asked
      then (failed (failure forbidden), s)
      else let (queued, s2) = queue_embeddings w mode now s in
        elim queued [
          | err f ↦ (failed (failure f), s2)
          | ok n ↦ (queued_reply base36 now w mode n s2, s2)
        ]
