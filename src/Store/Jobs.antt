-- ===== src/Store/Jobs.antt =====
-- The embedding queue of knowledge/sqlstore.go, on the rows of `embedding_jobs`. The primary key is
-- (workspace_id, memory_id, version).
pub mod Claim
use vessica_knowledge_server.Base.{
  ℕ, ◌+◌, ◌*◌, String, Bool, not, text_lt, Option, none, some, List, [], ◌∷◌, ◌&&◌, ◌||◌, ◌==◌,
  nat_eq, leb, if◌then◌else◌,
}
use vessica_knowledge_server.Models.{EmbeddingJob}
use vessica_knowledge_server.Store.Tables.{Job}

abbrev pub is_job : String → String → ℕ → Job → Bool
is_job w id n j = j.workspace_id == w && j.memory_id == id && nat_eq j.version n

unfoldable pub find_job : String → String → ℕ → List Job → Option Job
find_job w id n [] = none
find_job w id n (j ∷ js) = if is_job w id n j then some j else find_job w id n js

-- `UPDATE embedding_jobs SET … WHERE workspace_id=? AND memory_id=? AND version=?`
unfoldable pub update_job : String → String → ℕ → (Job → Job) → List Job → List Job
update_job w id n f [] = []
update_job w id n f (j ∷ js) = (if is_job w id n j then f j else j) ∷ update_job w id n f js

-- The `INSERT … ON CONFLICT … DO UPDATE` of `PutMemory` and `EnqueueEmbedding`: a conflicting job is
-- pending again unless it is completed, and keeps its attempts.
requeued : String → ℕ → Job → Job
requeued text now j = record j {
  text = text;
  status = if j.status == "completed" then j.status else "pending";
  available_at = now;
  updated_at = now;
}

unfoldable pub enqueue : String → String → ℕ → String → ℕ → List Job → List Job
unfolding requeued
enqueue w id n text now [] =
    record {
      workspace_id = w;
      memory_id = id;
      version = n;
      text = text;
      status = "pending";
      attempts = 0;
      available_at = now;
      last_error = none;
      updated_at = now;
    }
    ∷ []
enqueue w id n text now (j ∷ js) =
    if is_job w id n j then requeued text now j ∷ js else j ∷ enqueue w id n text now js

-- The insert of `QueueEmbeddings`: a conflicting job starts again from nothing.
unfoldable pub restarted : String → ℕ → Job → Job
restarted text now j = record j {
  text = text;
  status = "pending";
  attempts = 0;
  available_at = now;
  last_error = none;
  updated_at = now;
}

unfoldable pub restart : String → String → ℕ → String → ℕ → List Job → List Job
unfolding restarted
restart w id n text now [] =
    record {
      workspace_id = w;
      memory_id = id;
      version = n;
      text = text;
      status = "pending";
      attempts = 0;
      available_at = now;
      last_error = none;
      updated_at = now;
    }
    ∷ []
restart w id n text now (j ∷ js) =
    if is_job w id n j then restarted text now j ∷ js else j ∷ restart w id n text now js

-- `status IN ('pending','retry')`
abbrev pub is_waiting : Job → Bool
is_waiting j = j.status == "pending" || j.status == "retry"

-- The columns of times hold texts: `stamp` is `UTC().Format(time.RFC3339Nano)`, and SQL compares the texts.
module _ (stamp : ℕ → String) where
  -- `status IN ('pending','retry') AND available_at<=?`
  abbrev pub is_due : ℕ → Job → Bool
  is_due now j = is_waiting j && not (text_lt (stamp now) (stamp j.available_at))

  -- `… ORDER BY updated_at LIMIT 1`
  unfoldable pub next_due : ℕ → List Job → Option Job
  next_due now [] = none
  next_due now (j ∷ js) =
      let rest = next_due now js in
      if is_due now j
      then elim rest [
        | none ↦ some j
        | some k ↦ if text_lt (stamp k.updated_at) (stamp j.updated_at) then some k else some j
      ]
      else rest

-- `UPDATE … SET status='running',attempts=attempts+1,… WHERE … AND status IN ('pending','retry')`
unfoldable pub claimed : ℕ → Job → Job
claimed now r =
    if is_waiting r
    then record r { status = "running"; attempts = r.attempts + 1; updated_at = now }
    else r

-- `ClaimEmbedding`: nobody else writes between its SELECT and its UPDATE here, so one row is affected.
unfoldable pub claim_embedding : (ℕ → String) → ℕ → List Job → Option EmbeddingJob × List Job
unfolding next_due update_job claimed
claim_embedding stamp now js = elim (next_due stamp now js) [
  | none ↦ (none, js)
  | some j ↦ (
    some (record {
      workspace_id = j.workspace_id;
      memory_id = j.memory_id;
      version = j.version;
      text = j.text;
      attempts = j.attempts + 1;
    }),
    update_job j.workspace_id j.memory_id j.version (claimed now) js,
  )
]

-- One second in nanoseconds, the unit of `available_at`.
abbrev pub second : ℕ
second = 1_000_000_000

-- `FinishEmbedding`; `failure` is the text of the error, if there is one.
unfoldable pub finish_embedding : EmbeddingJob → Option String → ℕ → List Job → List Job
unfolding update_job
finish_embedding j none now js =
    update_job j.workspace_id j.memory_id j.version
      (λ r. record r { status = "completed"; last_error = none; updated_at = now }) js
finish_embedding j (some failure) now js =
    update_job j.workspace_id j.memory_id j.version
      (λ r. record r {
        status = if leb 5 j.attempts then "failed" else "retry";
        last_error = some failure;
        available_at = now + j.attempts * j.attempts * second;
        updated_at = now;
      })
      js

-- `status IN ('pending','retry','running')`
abbrev pub is_open : Job → Bool
is_open j = is_waiting j || j.status == "running"

-- `EmbeddingBacklog`
unfoldable pub embedding_backlog : String → List Job → ℕ
embedding_backlog w [] = 0
embedding_backlog w (j ∷ js) =
    (if j.workspace_id == w && is_open j then 1 else 0) + embedding_backlog w js
