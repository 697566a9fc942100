-- ===== src/Service/Snapshots.antt =====
-- `ImportSnapshot` of knowledge/service.go: the memories of an imported snapshot wait for their embeddings.
use Prim.Native.String.{◌++◌}
use vessica_knowledge_server.Base.{ℕ, List, [], ◌∷◌, none, some, ok, Action, ◌>>◌, String}
use vessica_knowledge_server.Models.{Memory, Snapshot, EmbeddingJob}
use vessica_knowledge_server.Store.Tables.{Tables}
use vessica_knowledge_server.Store.Jobs.{enqueue}
use vessica_knowledge_server.Store.Snapshots
use vessica_knowledge_server.Service.Host.{Host, Service}
use vessica_knowledge_server.Service.Worker.{set_embedding_state}

module _ {F : Type 0} where
  -- One turn of the loop: `SetEmbeddingState` and `EnqueueEmbedding`.
  unfoldable pub queue_memory : ℕ → Memory F → Tables F → Tables F
  unfolding set_embedding_state enqueue
  queue_memory now m s =
      let job : EmbeddingJob = record {
        workspace_id = m.workspace_id;
        memory_id = m.id;
        version = m.version;
        text = m.title ++ "\n" ++ m.content;
        attempts = 0;
      } in
      let pending = set_embedding_state job "pending" s in
      record pending { jobs = enqueue m.workspace_id m.id m.version job.text now pending.jobs }

  unfoldable pub queue_memories : ℕ → List (Memory F) → Tables F → Tables F
  unfolding queue_memory
  queue_memories now [] s = s
  queue_memories now (m ∷ ms) s = queue_memories now ms (queue_memory now m s)

  unfoldable pub import_snapshot :
      ⦃host : Host F⦄
      → (Snapshot F → String)
      → Service F
      → ℕ
      → ℕ
      → Snapshot F
      → Action (Tables F) (Unit {0})
  unfolding Snapshots.import_snapshot queue_memories
  import_snapshot marshal svc now checked snap =
      Snapshots.import_snapshot marshal now checked snap >> λ s.
      (ok tt, elim svc.embedder [ none ↦ s | some _ ↦ queue_memories now snap.memories s ])
