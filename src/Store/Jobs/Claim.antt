-- ===== src/Store/Jobs/Claim.antt =====
-- Which job `ClaimEmbedding` takes, and what it leaves.
use vessica_knowledge_server.Base.{
  ℕ, ◌+◌, String, Bool, true, false, not, ◌||◌, ◌≡◌, refl, Option, none, some, List, [], ◌∷◌, ◌++◌,
  All, text_lt, text_lt_trans, text_lt_asym, text_lt_irrefl, arith, Option-cases, Bool-cases, ap,
  if◌then◌else◌, inl, inr,
}
use mathlib.Core.Path.{subst}
use vessica_knowledge_server.Models.{EmbeddingJob}
use vessica_knowledge_server.Store.Tables.{Job}
use vessica_knowledge_server.Store.Jobs.{
  is_job, is_due, is_waiting, is_open, claimed, update_job, next_due, claim_embedding,
  embedding_backlog,
}

-- The job stands in the queue.
abbrev pub IsIn : Job → List Job → Type 0
IsIn j js = (before : List Job) × (after : List Job) × (js ≡ before ++ (j ∷ after))

IsIn-cons : (i j : Job) (js : List Job) → IsIn j js → IsIn j (i ∷ js)
IsIn-cons i j js (before, after, e) = (i ∷ before, after, ap (λ ks. i ∷ ks) e)

-- The job stands in the queue and waits, its time has come, and no other such job was updated before it,
-- as the texts of the times compare.
pub record IsOldestDue (stamp : ℕ → String) (now : ℕ) (js : List Job) (j : Job) : Type 0 where
  pub queued : IsIn j js
  pub due : is_due stamp now j ≡ true
  pub oldest :
      All
        (λ k.
          (not (is_due stamp now k) || not (text_lt (stamp k.updated_at) (stamp j.updated_at)))
          ≡ true)
        js

-- An older job is as good for all the others.
older_first :
    (stamp : ℕ → String) (now : ℕ) (js : List Job) (j k : Job)
    → text_lt (stamp k.updated_at) (stamp j.updated_at) ≡ false
    → All
        (λ i.
          (not (is_due stamp now i) || not (text_lt (stamp i.updated_at) (stamp k.updated_at)))
          ≡ true)
        js
    → All
        (λ i.
          (not (is_due stamp now i) || not (text_lt (stamp i.updated_at) (stamp j.updated_at)))
          ≡ true)
        js
older_first stamp now [] j k h all = tt
older_first stamp now (i ∷ js) j k h all = (
  ground (
    arith,
    h,
    all.0,
    text_lt_trans (stamp j.updated_at) (stamp k.updated_at) (stamp i.updated_at),
  ),
  older_first stamp now js j k h all.1,
)

-- No job is due.
abbrev pub IsIdle : (ℕ → String) → ℕ → List Job → Type 0
IsIdle stamp now js = All (λ i. is_due stamp now i ≡ false) js

idle_oldest :
    (stamp : ℕ → String) (now : ℕ) (js : List Job) (j : Job)
    → IsIdle stamp now js
    → All
        (λ i.
          (not (is_due stamp now i) || not (text_lt (stamp i.updated_at) (stamp j.updated_at)))
          ≡ true)
        js
idle_oldest stamp now [] j all = tt
idle_oldest stamp now (i ∷ js) j all = (ground (arith, all.0), idle_oldest stamp now js j all.1)

-- What `next_due` finds: a job that is due and the oldest, or none because none is due.
Finds : (ℕ → String) → ℕ → List Job → Option Job → Type 0
Finds stamp now js none = IsIdle stamp now js
Finds stamp now js (some j) = IsOldestDue stamp now js j

Finds-more :
    (stamp : ℕ → String) (now : ℕ) (i : Job) (js : List Job) (due : Bool) (rest : Option Job)
    (before : Job → Bool)
    → is_due stamp now i ≡ due
    → ((k : Job) → before k ≡ text_lt (stamp k.updated_at) (stamp i.updated_at))
    → Finds stamp now js rest
    → let found : Option Job =
        if due
        then elim rest [ none ↦ some i | some k ↦ if before k then some k else some i ]
        else rest in
      Finds stamp now (i ∷ js) found
unfolding Finds
Finds-more stamp now i js false none before e b h = (e, h)
Finds-more stamp now i js false (some k) before e b h = record {
  queued = IsIn-cons i k js h.queued;
  due = h.due;
  oldest = (ground (arith, e), h.oldest);
}
Finds-more stamp now i js true none before e b h = record {
  queued = ([], js, refl);
  due = e;
  oldest = (ground (arith, text_lt_irrefl (stamp i.updated_at)), idle_oldest stamp now js i h);
}
Finds-more stamp now i js true (some k) before e b h = elim (Bool-cases (before k)) [
  | inl first ↦ rw first (record {
    queued = IsIn-cons i k js h.queued;
    due = h.due;
    oldest = (
      ground (
        arith,
        text_lt_asym (stamp k.updated_at) (stamp i.updated_at) (ground (arith, first, b k)),
      ),
      h.oldest,
    );
  })
  | inr later ↦ rw later (record {
    queued = ([], js, refl);
    due = e;
    oldest = (
      ground (arith, text_lt_irrefl (stamp i.updated_at)),
      older_first stamp now js i k (ground (arith, later, b k)) h.oldest,
    );
  })
]

next_due-Finds :
    (stamp : ℕ → String) (now : ℕ) (js : List Job) → Finds stamp now js (next_due stamp now js)
unfolding Finds next_due
next_due-Finds stamp now [] = tt
next_due-Finds stamp now (i ∷ js) =
    Finds-more stamp now i js (is_due stamp now i) (next_due stamp now js)
      (λ k. text_lt (stamp k.updated_at) (stamp i.updated_at)) refl (λ k. refl)
      (next_due-Finds stamp now js)

claimed-open : (now : ℕ) (j : Job) → is_open (claimed now j) ≡ is_open j
unfolding claimed
claimed-open now j = elim (Bool-cases (is_waiting j)) [
  | inl waits ↦ rw (claimed, waits) refl
  | inr other ↦ let same : claimed now j ≡ j = rw (claimed, other) refl in ap (λ k. is_open k) same
]

claimed-workspace_id : (now : ℕ) (j : Job) → (claimed now j).workspace_id ≡ j.workspace_id
unfolding claimed
claimed-workspace_id now j = elim (Bool-cases (is_waiting j)) [
  | inl waits ↦ rw (claimed, waits) refl
  | inr other ↦ rw (claimed, other) refl
]

update_job-backlog :
    (w v id : String) (n now : ℕ) (js : List Job)
    → embedding_backlog w (update_job v id n (claimed now) js) ≡ embedding_backlog w js
unfolding update_job embedding_backlog
update_job-backlog w v id n now [] = refl
update_job-backlog w v id n now (j ∷ js) = elim (Bool-cases (is_job v id n j)) [
  | inl own ↦
      rw (own, claimed-workspace_id now j, claimed-open now j, update_job-backlog w v id n now js)
        refl
  | inr other ↦ rw (other, update_job-backlog w v id n now js) refl
]

-- A claim moves a job from waiting to running: the backlog of every workspace, which counts both, stays
-- what it is.
pub claim_embedding-backlog :
    (stamp : ℕ → String) (w : String) (now : ℕ) (js : List Job)
    → embedding_backlog w (claim_embedding stamp now js).1 ≡ embedding_backlog w js
unfolding claim_embedding
claim_embedding-backlog stamp w now js = elim (Option-cases (next_due stamp now js)) [
  | inl idle ↦ rw (claim_embedding, idle) refl
  | inr (j, found) ↦
      rw (claim_embedding, found) (update_job-backlog w j.workspace_id j.memory_id j.version now js)
]

-- What a claim answers: nothing, if no job is due; or an oldest job that is due, with one attempt more,
-- which is then running.
abbrev pub Claims : (ℕ → String) → ℕ → List Job → Option EmbeddingJob × List Job → Type 0
Claims stamp now js (none, js') = IsIdle stamp now js × (js' ≡ js)
Claims stamp now js (some c, js') =
    (j : Job) × IsOldestDue stamp now js j
    × (c ≡ record {
      workspace_id = j.workspace_id;
      memory_id = j.memory_id;
      version = j.version;
      text = j.text;
      attempts = j.attempts + 1;
    })
    × (js' ≡ update_job j.workspace_id j.memory_id j.version (claimed now) js)

-- If `ClaimEmbedding` answers nothing, then no job is due and none is changed. If it answers with a job,
-- then that is one of the queue that is due and that no other due job was updated before, as
-- the texts of the times compare, with one attempt more, and only jobs of its key are changed, to running if they wait.
pub claim_embedding_lem :
    (stamp : ℕ → String) (now : ℕ) (js : List Job)
    → Claims stamp now js (claim_embedding stamp now js)
unfolding Finds claim_embedding
claim_embedding_lem stamp now js = elim (Option-cases (next_due stamp now js)) [
  | inl idle ↦
      rw (claim_embedding, idle)
        (subst (Finds stamp now js) idle (next_due-Finds stamp now js), refl)
  | inr (j, found) ↦
      rw (claim_embedding, found)
        (j, subst (Finds stamp now js) found (next_due-Finds stamp now js), refl, refl)
]
