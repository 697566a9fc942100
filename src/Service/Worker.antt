-- ===== src/Service/Worker.antt =====
-- A round of the embedding worker of knowledge/service.go (`StartEmbeddingWorker`), and `PutEmbedding` and
-- `SetEmbeddingState` of knowledge/sqlstore.go. One worker runs, and its clock stands still in a round.
pub mod Tries
pub mod Bounded
use Prim.Native.String.{◌++◌}
use vessica_knowledge_server.Base.{
  ℕ, zero, suc, ◌+◌, String, Bool, true, false, ◌&&◌, Option, none, some, List, [], ◌∷◌, ◌==◌,
  Result, ok, err, Failure, leb, nat_eq, map, if◌then◌else◌,
}
use vessica_knowledge_server.Models.{Memory, EmbeddingJob}
use vessica_knowledge_server.Store.Table.{at_key}
use vessica_knowledge_server.Store.Tables.{Tables, Embedding, memory_row}
use vessica_knowledge_server.Store.Jobs.{claim_embedding, finish_embedding}
use vessica_knowledge_server.Service.Host.{Service, Embedder}

-- The text that is kept of a failed call.
abbrev failure_text : Failure → String
failure_text (Failure.api e) = e.code ++ ": " ++ e.message
failure_text (Failure.other text) = text

module _ {F : Type 0} where
  -- PRIMARY KEY(workspace_id,object_type,object_id,version)
  unfoldable pub put_embedding : Embedding F → List (Embedding F) → List (Embedding F)
  put_embedding e [] = e ∷ []
  put_embedding e (d ∷ ds) =
      let rest = put_embedding e ds in
      if d.workspace_id == e.workspace_id
        && d.object_type == e.object_type
        && d.object_id == e.object_id
        && nat_eq d.version e.version
      then e ∷ ds
      else d ∷ rest

  -- `UPDATE memories SET embedding_state=? WHERE workspace_id=? AND id=? AND version=?`
  unfoldable pub set_embedding_state : EmbeddingJob → String → Tables F → Tables F
  unfolding at_key
  set_embedding_state j state s = record s {
    memories = record s.memories {
      rows =
          map
            (λ (m : Memory F).
              if at_key j.workspace_id j.memory_id j.version m
              then record m { embedding_state = state }
              else m)
            s.memories.rows;
    };
  }

  -- What becomes of a claimed job.
  unfoldable pub embedded : Embedder F → ℕ → EmbeddingJob → Tables F → Tables F
  unfolding put_embedding set_embedding_state finish_embedding
  embedded embedder now j s = elim (embedder.embed j.text) [
    | err e ↦
        let finished = record s { jobs = finish_embedding j (some (failure_text e)) now s.jobs } in
        if leb 5 j.attempts then set_embedding_state j "failed" finished else finished
    | ok vector ↦
        let e : Embedding F = record {
          workspace_id = j.workspace_id;
          object_type = "memory";
          object_id = j.memory_id;
          version = j.version;
          vector = vector;
          provider = embedder.provider;
          model = embedder.model;
          created_at = now;
        } in
        let ready =
          set_embedding_state j "ready" (record s { embeddings = put_embedding e s.embeddings }) in
        record ready { jobs = finish_embedding j none now ready.jobs }
  ]

  -- One tick, with the texts of the times: whether a job was claimed, and the store after it.
  unfoldable pub worker_round : (ℕ → String) → Service F → ℕ → Tables F → Bool × Tables F
  unfolding claim_embedding embedded
  worker_round stamp svc now s = elim svc.embedder [
    | none ↦ (false, s)
    | some embedder ↦
        let (claim, jobs) = claim_embedding stamp now s.jobs in
        elim claim [
          | none ↦ (false, record s { jobs = jobs })
          | some j ↦ (true, embedded embedder now j (record s { jobs = jobs }))
        ]
  ]

  -- How many of the ticks claim a job. Each has its clock, and the service as its one call of the embedder
  -- meets it, so that the answers can differ from tick to tick.
  unfoldable pub claims_of : (ℕ → String) → List (Service F × ℕ) → Tables F → ℕ
  unfolding worker_round
  claims_of stamp [] s = 0
  claims_of stamp ((svc, now) ∷ later) s =
      let (busy, next) = worker_round stamp svc now s in
      (if busy then 1 else 0) + claims_of stamp later next
