-- ===== src/Tests/Jobs.antt =====
-- A queue with two jobs that are due.
use vessica_knowledge_server.Base.{
  leb, if◌then◌else◌, ℕ, ◌≤◌, String, ◌≡◌, refl, some, none, List, [], ◌∷◌, err, other, ok, length,
  All, select, sort_by, insert_by,
}
use vessica_knowledge_server.Store.Tables.{Job, Tables, empty}
use vessica_knowledge_server.Service.Host.{Service}
use vessica_knowledge_server.Service.Worker.{claims_of}
use vessica_knowledge_server.Service.Worker.Tries.{all_tries}
use vessica_knowledge_server.Service.Worker.Bounded.{claims_of-tries}
use vessica_knowledge_server.Store.Jobs.{claim_embedding, embedding_backlog}
use vessica_knowledge_server.Store.Jobs.Claim.{Claims, claim_embedding_lem, claim_embedding-backlog}
use vessica_knowledge_server.Store.Backfill.{queue_embeddings, backfill_candidates, mode_or_missing}
use vessica_knowledge_server.Store.Backfill.Pending.{Starts, queue_embeddings-Starts}
use vessica_knowledge_server.Store.Queries.{joined}
use vessica_knowledge_server.Store.Table.Pointers.{current_version}
use vessica_knowledge_server.Tests.Data.{drains}

abbrev job : String → String → ℕ → Job
job id status updated = record {
  workspace_id = "w1";
  memory_id = id;
  version = 1;
  text = "The gateway drains for a minute";
  status = status;
  attempts = 1;
  available_at = 10;
  last_error = none;
  updated_at = updated;
}

abbrev queue : List Job
queue = job "m1" "pending" 9 ∷ job "m2" "retry" 8 ∷ job "m3" "running" 7 ∷ []

-- The text of a time, to the second
abbrev stamp : ℕ → String
stamp n = if leb 10 n then "2026-01-01T00:00:01Z" else "2026-01-01T00:00:00Z"

claim_embedding_lem_example : Claims stamp 20 queue (claim_embedding stamp 20 queue)
claim_embedding_lem_example = claim_embedding_lem stamp 20 queue

claim_embedding-backlog_example :
    embedding_backlog "w1" (claim_embedding stamp 20 queue).1 ≡ embedding_backlog "w1" queue
claim_embedding-backlog_example = claim_embedding-backlog stamp "w1" 20 queue

abbrev failing : Service ℕ
failing = record {
  embedder =
      some (record {
        embed = λ text. err (other "no connection");
        provider = "local";
        model = "none";
      });
  reranker = none;
}

abbrev queued : Tables ℕ
queued = record empty { jobs = queue }

-- The provider answers at the second tick.
abbrev answering : Service ℕ
answering = record {
  embedder = some (record { embed = λ text. ok (1 ∷ 2 ∷ []); provider = "local"; model = "small" });
  reranker = none;
}

abbrev ticks : List (Service ℕ × ℕ)
ticks = (failing, 20) ∷ (answering, 30) ∷ (failing, 10_000_000_000) ∷ []

claims_of-tries_example : claims_of stamp ticks queued ≤ all_tries queue
claims_of-tries_example =
    claims_of-tries stamp ticks queued ((refl, (refl, tt)), ((refl, tt), (tt, tt)))

-- A memory that was never embedded, and whose job has failed.
abbrev not_embedded : Tables ℕ
not_embedded = record empty {
  memories = record {
    rows = drains ∷ [];
    current = record { workspace_id = "w1"; id = "m1"; version = 1 } ∷ [];
  };
  jobs = job "m1" "failed" 9 ∷ [];
}

queue_embeddings-Starts_example :
    ((queue_embeddings "w1" "" 99 not_embedded).0
      ≡ ok (length (backfill_candidates "w1" (mode_or_missing "") not_embedded)))
    × All
        (λ c. Starts "w1" 99 c (queue_embeddings "w1" "" 99 not_embedded).1)
        (backfill_candidates "w1" (mode_or_missing "") not_embedded)
queue_embeddings-Starts_example = queue_embeddings-Starts "w1" "" 99 not_embedded refl

-- The memory is selected.
is_candidate : backfill_candidates "w1" (mode_or_missing "") not_embedded ≡ drains ∷ []
unfolding backfill_candidates joined select sort_by insert_by current_version
is_candidate = refl
