-- ===== src/Store/Backfill/Pending.antt =====
-- What `QueueEmbeddings` of knowledge/sqlstore.go leaves in the queue.
use Prim.Native.String.{◌++◌}
use vessica_knowledge_server.Base.{
  ℕ, String, true, ◌&&◌, ◌==◌, nat_eq, Option, none, some, List, [], ◌∷◌, All, ◌≡◌, refl, arith,
  eq_refl, Bool-cases, inl, inr, ok, length,
}
use vessica_knowledge_server.Models.{Memory}
use vessica_knowledge_server.Store.Tables.{Tables, Job}
use vessica_knowledge_server.Store.Jobs.{find_job, restart, restarted, is_job}
use vessica_knowledge_server.Store.Backfill.{
  requeue, requeue_all, queue_embeddings, backfill_candidates, mode_or_missing, is_mode,
}

-- The job is there, waits for its first attempt and is due.
StartsAt : ℕ → Option Job → Type 0
StartsAt now none = ⊥
StartsAt now (some j) = (j.status ≡ "pending") × (j.attempts ≡ 0) × (j.available_at ≡ now)

own_key : (w id : String) (n : ℕ) → (w == w && id == id && nat_eq n n) ≡ true
own_key w id n = ground (arith, eq_refl w, eq_refl id)

restart-own :
    (w id : String) (n : ℕ) (text : String) (now : ℕ) (js : List Job)
    → StartsAt now (find_job w id n (restart w id n text now js))
unfolding StartsAt find_job restart restarted
restart-own w id n text now [] = rw (own_key w id n) (refl, refl, refl)
restart-own w id n text now (j ∷ js) = elim (Bool-cases (is_job w id n j)) [
  | inl same ↦ rw (same, same) (refl, refl, refl)
  | inr apart ↦ rw (apart, apart) (restart-own w id n text now js)
]

-- A job that starts keeps to start when a job, of any key, is queued.
restart-StartsAt :
    (w id : String) (n : ℕ) (w2 id2 : String) (n2 : ℕ) (text : String) (now : ℕ) (js : List Job)
    → StartsAt now (find_job w id n js)
    → StartsAt now (find_job w id n (restart w2 id2 n2 text now js))
unfolding StartsAt find_job restart restarted
restart-StartsAt w id n w2 id2 n2 text now [] h = elim h [ ]
restart-StartsAt w id n w2 id2 n2 text now (j ∷ js) h =
    let rest = restart-StartsAt w id n w2 id2 n2 text now js in
    elim (Bool-cases (is_job w id n j)) [
      | inl same ↦ elim (Bool-cases (is_job w2 id2 n2 j)) [
        | inl own ↦ rw (own, same) (refl, refl, refl)
        | inr other ↦ rw (other, same) (rw same at h)
      ]
      | inr apart ↦ elim (Bool-cases (is_job w2 id2 n2 j)) [
        | inl own ↦ rw (own, apart) (rw apart at h)
        | inr other ↦ rw (other, apart) (rest (rw apart at h))
      ]
    ]

module _ {F : Type 0} (w : String) (now : ℕ) where
  pub Starts : Memory F → Tables F → Type 0
  Starts c s = StartsAt now (find_job w c.id c.version s.jobs)

  requeue_all-Keeps :
      (c : Memory F) (cs : List (Memory F)) (s : Tables F)
      → Starts c s
      → Starts c (requeue_all w now cs s)
  unfolding Starts requeue_all requeue
  requeue_all-Keeps c [] s h = h
  requeue_all-Keeps c (d ∷ cs) s h = requeue_all-Keeps c cs (requeue w now d s) (
      restart-StartsAt w c.id c.version w d.id d.version (d.title ++ "\n" ++ d.content) now s.jobs
        h)

  requeue_all-Starts :
      (cs : List (Memory F)) (s : Tables F) → All (λ c. Starts c (requeue_all w now cs s)) cs
  unfolding Starts requeue_all requeue
  requeue_all-Starts [] s = tt
  requeue_all-Starts (c ∷ cs) s = (
    requeue_all-Keeps c cs (requeue w now c s)
        (restart-own w c.id c.version (c.title ++ "\n" ++ c.content) now s.jobs),
    requeue_all-Starts cs (requeue w now c s),
  )

-- A backfill in one of the two modes, or in none, which means `missing`, answers with the number of memories
-- that it selects, which can be 0, and each of them has a job then that waits for its first attempt and
-- is due at once, whatever job it had before.
pub queue_embeddings-Starts :
    {F : Type 0} (w mode : String) (now : ℕ) (s : Tables F)
    → is_mode (mode_or_missing mode) ≡ true
    → ((queue_embeddings w mode now s).0
        ≡ ok (length (backfill_candidates w (mode_or_missing mode) s)))
      × All
          (λ c. Starts w now c (queue_embeddings w mode now s).1)
          (backfill_candidates w (mode_or_missing mode) s)
unfolding queue_embeddings
queue_embeddings-Starts w mode now s good =
    rw good (refl, requeue_all-Starts w now (backfill_candidates w (mode_or_missing mode) s) s)
