-- ===== src/Service/Worker/Tries.antt =====
-- How often the jobs of the embedding queue can still be claimed.
use mathlib.Core.Path.{subst}
use vessica_knowledge_server.Base.{
  ℕ, suc, ◌+◌, ◌*◌, ◌-◌, ◌≤◌, String, true, false, ◌≡◌, refl, sym, Option, none, some, List, [],
  ◌∷◌, ◌++◌, leb, eq_iff, eq_refl, arith, All, All-member, Member, Bool-cases, inl, inr,
  if◌then◌else◌,
}
use vessica_knowledge_server.Models.{EmbeddingJob}
use vessica_knowledge_server.Store.Tables.{Job}
use vessica_knowledge_server.Store.Jobs.{
  second, is_job, is_waiting, update_job, claimed, finish_embedding,
}
use vessica_knowledge_server.Store.Jobs.Claim.{Claims, IsIn}

-- How often a job can still be claimed: once more at least if it waits, and until its fifth attempt.
unfoldable pub tries : Job → ℕ
tries j = if is_waiting j then suc (4 - j.attempts) else 0

unfoldable pub all_tries : List Job → ℕ
unfolding tries
all_tries [] = 0
all_tries (j ∷ js) = tries j + all_tries js

-- No two jobs have the same key.
abbrev pub AreKeyed : List Job → Type 0
AreKeyed [] = Unit
AreKeyed (j ∷ js) =
    All (λ k. is_job j.workspace_id j.memory_id j.version k ≡ false) js × AreKeyed js

-- The key stays.
abbrev KeepsKey : (Job → Job) → Type 0
KeepsKey f =
    (r : Job)
    → ((f r).workspace_id ≡ r.workspace_id)
      × ((f r).memory_id ≡ r.memory_id)
      × ((f r).version ≡ r.version)

update_job-fused :
    (w i : String) (n : ℕ) (f g : Job → Job) (js : List Job)
    → KeepsKey g
    → update_job w i n f (update_job w i n g js) ≡ update_job w i n (λ r. f (g r)) js
unfolding update_job
update_job-fused w i n f g [] k = refl
update_job-fused w i n f g (j ∷ js) k =
    let (a, b, c) = k j in
    elim (Bool-cases (is_job w i n j)) [
      | inl e ↦ rw (e, a, b, c, e, update_job-fused w i n f g js k) refl
      | inr e ↦ rw (e, e, update_job-fused w i n f g js k) refl
    ]

update_job-none :
    (w i : String) (n : ℕ) (f : Job → Job) (js : List Job)
    → All (λ k. is_job w i n k ≡ false) js
    → update_job w i n f js ≡ js
unfolding update_job
update_job-none w i n f [] h = refl
update_job-none w i n f (j ∷ js) h = rw (h.0, update_job-none w i n f js h.1) refl

is_job-other :
    (j k : Job)
    → is_job k.workspace_id k.memory_id k.version j ≡ false
    → is_job j.workspace_id j.memory_id j.version k ≡ false
is_job-other j k h = ground (
  arith,
  h,
  eq_iff j.workspace_id k.workspace_id,
  eq_iff k.workspace_id j.workspace_id,
  eq_iff j.memory_id k.memory_id,
  eq_iff k.memory_id j.memory_id,
)

is_job-own : (j : Job) → is_job j.workspace_id j.memory_id j.version j ≡ true
is_job-own j = ground (arith, eq_refl j.workspace_id, eq_refl j.memory_id)

head_tries :
    (j : Job) (f : Job → Job) (js : List Job)
    → All (λ k. is_job j.workspace_id j.memory_id j.version k ≡ false) js
    → tries (f j) + 1 ≤ tries j
    → all_tries (update_job j.workspace_id j.memory_id j.version f (j ∷ js)) + 1
      ≤ all_tries (j ∷ js)
unfolding all_tries update_job
head_tries j f js others less =
    rw (is_job-own j, update_job-none j.workspace_id j.memory_id j.version f js others)
      (omega (arith, less))

update_job-tries :
    (j : Job) (f : Job → Job) (js : List Job)
    → AreKeyed js
    → Member j js
    → tries (f j) + 1 ≤ tries j
    → all_tries (update_job j.workspace_id j.memory_id j.version f js) + 1 ≤ all_tries js
unfolding all_tries update_job
update_job-tries j f [] keyed m less = elim m [ ]
update_job-tries j f (k ∷ js) keyed (inl e) less =
    subst
      (λ x.
        all_tries (update_job j.workspace_id j.memory_id j.version f (x ∷ js)) + 1
        ≤ all_tries (x ∷ js))
      (sym e) (head_tries j f js (rw e at keyed.0) less)
update_job-tries j f (k ∷ js) keyed (inr m) less =
    let other =
      is_job-other j k
        (All-member (λ x. is_job k.workspace_id k.memory_id k.version x ≡ false) j js keyed.0 m) in
    rw other (omega (arith, update_job-tries j f js keyed.1 m less))

-- The worker's two updates of a job, one after the other.
finished : ℕ → EmbeddingJob → Option String → Job → Job
finished now c none r = record r { status = "completed"; last_error = none; updated_at = now }
finished now c (some failure) r = record r {
  status = if leb 5 c.attempts then "failed" else "retry";
  last_error = some failure;
  available_at = now + c.attempts * c.attempts * second;
  updated_at = now;
}

finish_embedding-update_job :
    (c : EmbeddingJob) (failure : Option String) (now : ℕ) (js : List Job)
    → finish_embedding c failure now js
      ≡ update_job c.workspace_id c.memory_id c.version (finished now c failure) js
unfolding finish_embedding finished
finish_embedding-update_job c none now js = refl
finish_embedding-update_job c (some failure) now js = refl

-- A claimed job that is finished, with success or not, can be claimed less often than before.
finished-tries :
    (now : ℕ) (c : EmbeddingJob) (failure : Option String) (j : Job)
    → is_waiting j ≡ true
    → c.attempts ≡ j.attempts + 1
    → tries (finished now c failure (claimed now j)) + 1 ≤ tries j
unfolding tries finished claimed
finished-tries now c none j waits e = ground (arith, waits, e)
finished-tries now c (some failure) j waits e = elim (Bool-cases (leb 5 c.attempts)) [
  | inl last ↦ rw (waits, last) (omega arith)
  | inr more ↦ rw (waits, more) (ground (arith, more, e))
]

finished-KeepsKey :
    (now : ℕ) (c : EmbeddingJob) (failure : Option String)
    → KeepsKey (λ r. finished now c failure (claimed now r))
unfolding finished claimed
finished-KeepsKey now c none r = ground arith
finished-KeepsKey now c (some failure) r = ground arith

claimed-KeepsKey : (now : ℕ) → KeepsKey (claimed now)
unfolding claimed
claimed-KeepsKey now r = ground arith

-- An update that keeps the keys keeps them apart.
update_job-apart :
    (w i : String) (n : ℕ) (f : Job → Job) (js : List Job) (v j : String) (m : ℕ)
    → KeepsKey f
    → All (λ k. is_job v j m k ≡ false) js
    → All (λ k. is_job v j m k ≡ false) (update_job w i n f js)
unfolding update_job
update_job-apart w i n f [] v j m k h = tt
update_job-apart w i n f (x ∷ js) v j m k h =
    let (a, b, c) = k x in
    let rest = update_job-apart w i n f js v j m k h.1 in
    elim (Bool-cases (is_job w i n x)) [
      | inl e ↦ rw (e, a, b, c) (h.0, rest)
      | inr e ↦ rw e (h.0, rest)
    ]

update_job-AreKeyed :
    (w i : String) (n : ℕ) (f : Job → Job) (js : List Job)
    → KeepsKey f
    → AreKeyed js
    → AreKeyed (update_job w i n f js)
unfolding update_job
update_job-AreKeyed w i n f [] k h = tt
update_job-AreKeyed w i n f (x ∷ js) k h =
    let (a, b, c) = k x in
    let rest = update_job-AreKeyed w i n f js k h.1 in
    let apart = update_job-apart w i n f js x.workspace_id x.memory_id x.version k h.0 in
    elim (Bool-cases (is_job w i n x)) [
      | inl e ↦ rw (e, a, b, c) (apart, rest)
      | inr e ↦ rw e (apart, rest)
    ]

Member-middle : (j : Job) (xs ys : List Job) → Member j (xs ++ (j ∷ ys))
Member-middle j [] ys = inl refl
Member-middle j (x ∷ xs) ys = inr (Member-middle j xs ys)

-- The job that was claimed of a queue, as the worker knows it.
abbrev claim_of : Job → EmbeddingJob
claim_of j = record {
  workspace_id = j.workspace_id;
  memory_id = j.memory_id;
  version = j.version;
  text = j.text;
  attempts = j.attempts + 1;
}

claim_of-tries :
    (now : ℕ) (js : List Job) (j : Job) (failure : Option String)
    → IsIn j js
    → is_waiting j ≡ true
    → AreKeyed js
    → let js' =
        finish_embedding
          (claim_of j)
          failure
          now
          (update_job j.workspace_id j.memory_id j.version (claimed now) js) in
      (all_tries js' + 1 ≤ all_tries js) × AreKeyed js'
claim_of-tries now js j failure (before, behind, e) waits keyed =
    let both = λ (r : Job). finished now (claim_of j) failure (claimed now r) in
    rw
      (
        finish_embedding-update_job (claim_of j) failure now
            (update_job j.workspace_id j.memory_id j.version (claimed now) js),
        update_job-fused j.workspace_id j.memory_id j.version (finished now (claim_of j) failure)
            (claimed now) js (claimed-KeepsKey now),
      )
      (
        update_job-tries j both js keyed (rw e (Member-middle j before behind))
            (finished-tries now (claim_of j) failure j waits refl),
        update_job-AreKeyed j.workspace_id j.memory_id j.version both js
            (finished-KeepsKey now (claim_of j) failure) keyed,
      )

-- What the queue is after a round, if a job was claimed.
pub claim-tries :
    (stamp : ℕ → String) (now : ℕ) (js : List Job) (r : Option EmbeddingJob × List Job)
    (c : EmbeddingJob) (failure : Option String)
    → Claims stamp now js r
    → r.0 ≡ some c
    → AreKeyed js
    → (all_tries (finish_embedding c failure now r.1) + 1 ≤ all_tries js)
      × AreKeyed (finish_embedding c failure now r.1)
claim-tries stamp now js (none, js') c failure h e keyed = absurd cc
claim-tries stamp now js (some d, js') c failure (j, oldest, made, left) e keyed =
    let same : d ≡ c = cc in
    rw (← same, made, left)
      (claim_of-tries now js j failure oldest.queued (ground (arith, oldest.due)) keyed)
