-- ===== src/Store/Backfill.antt =====
-- `QueueEmbeddings` of knowledge/sqlstore.go: the jobs of a backfill.
pub mod Pending
use Prim.Native.String.{◌++◌}
use vessica_knowledge_server.Base.{
  ℕ, String, Bool, false, ◌&&◌, ◌||◌, not, ◌==◌, nat_eq, ltb, text_lt, length, map, select, sort_by,
  List, [], ◌∷◌, Result, ok, err, Failure, Action, invalid, if◌then◌else◌,
}
use vessica_knowledge_server.Models.{Memory}
use vessica_knowledge_server.Store.Table.{at_key}
use vessica_knowledge_server.Store.Tables.{Tables, Embedding, Job, memory_row}
use vessica_knowledge_server.Store.Queries.{joined}
use vessica_knowledge_server.Store.Jobs.{restart}
use vessica_knowledge_server.Service.Rules.{is_empty}

abbrev pub mode_or_missing : String → String
mode_or_missing mode = if is_empty mode then "missing" else mode

abbrev pub is_mode : String → Bool
is_mode mode = mode == "missing" || mode == "all"

abbrev not_a_mode : Failure
not_a_mode = invalid "embedding backfill mode must be missing or all"

module _ {F : Type 0} where
  abbrev is_embedding_of : String → Memory F → Embedding F → Bool
  is_embedding_of w m e =
      e.workspace_id == w
      && e.object_type == "memory"
      && e.object_id == m.id
      && nat_eq e.version m.version

  -- `COALESCE(e.object_id,'')` of the LEFT JOIN
  abbrev embedded_id : String → Memory F → List (Embedding F) → String
  embedded_id w m es = if nat_eq (length (select (is_embedding_of w m) es)) 0 then "" else m.id

  -- `ORDER BY m.updated_at,m.id`
  abbrev updated_first : Memory F → Memory F → Bool
  updated_first a b =
      ltb a.updated_at b.updated_at || nat_eq a.updated_at b.updated_at && text_lt a.id b.id

  -- `m.state NOT IN ('archived','tombstoned')`
  abbrev is_kept : Memory F → Bool
  is_kept m = not (m.state == "archived" || m.state == "tombstoned")

  abbrev wants_embedding : String → String → List (Embedding F) → Memory F → Bool
  wants_embedding w mode es m =
      mode == "all"
      || is_empty (embedded_id w m es)
      || m.embedding_state == "not_configured"
      || m.embedding_state == "failed"

  unfoldable pub backfill_candidates : String → String → Tables F → List (Memory F)
  unfolding joined
  backfill_candidates w mode s =
      select (wants_embedding w mode s.embeddings)
        (sort_by updated_first (select is_kept (joined w s.memories)))

  -- `UPDATE memories SET embedding_state='pending' WHERE workspace_id=? AND id=? AND version=?`
  abbrev pend : String → Memory F → Memory F → Memory F
  pend w c m = if at_key w c.id c.version m then record m { embedding_state = "pending" } else m

  unfoldable requeue : String → ℕ → Memory F → Tables F → Tables F
  unfolding restart
  requeue w now c s = record s {
    memories = record s.memories { rows = map (pend w c) s.memories.rows };
    jobs = restart w c.id c.version (c.title ++ "\n" ++ c.content) now s.jobs;
  }

  unfoldable requeue_all : String → ℕ → List (Memory F) → Tables F → Tables F
  unfolding requeue
  requeue_all w now [] s = s
  requeue_all w now (c ∷ cs) s = requeue_all w now cs (requeue w now c s)

  -- How many jobs are queued. Without candidates no transaction begins.
  unfoldable pub queue_embeddings : String → String → ℕ → Action (Tables F) ℕ
  unfolding backfill_candidates requeue_all
  queue_embeddings w mode now s =
      let cs = backfill_candidates w (mode_or_missing mode) s in
      if not (is_mode (mode_or_missing mode))
      then (err not_a_mode, s)
      else (ok (length cs), requeue_all w now cs s)
