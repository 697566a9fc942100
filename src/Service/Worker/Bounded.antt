-- ===== src/Service/Worker/Bounded.antt =====
-- The worker gives up: how often it can claim a job.
use vessica_knowledge_server.Base.{
  ℕ, ◌+◌, ◌≤◌, String, Bool, true, false, ◌≡◌, refl, Option, none, some, List, [], ◌∷◌,
  Result-cases, leb, arith, Bool-cases, Option-cases, inl, inr, if◌then◌else◌,
}
use vessica_knowledge_server.Models.{EmbeddingJob}
use vessica_knowledge_server.Store.Tables.{Tables, Job}
use vessica_knowledge_server.Store.Jobs.{claim_embedding, finish_embedding}
use vessica_knowledge_server.Store.Jobs.Claim.{Claims, claim_embedding_lem}
use vessica_knowledge_server.Service.Host.{Service, Embedder}
use vessica_knowledge_server.Service.Worker.{
  embedded, worker_round, claims_of, set_embedding_state, failure_text,
}
use vessica_knowledge_server.Service.Worker.Tries.{AreKeyed, all_tries, claim-tries}

module _ {F : Type 0} where
  -- The queue after a claimed job is dealt with.
  embedded-jobs :
      (embedder : Embedder F) (now : ℕ) (c : EmbeddingJob) (s : Tables F)
      → (failure : Option String) × ((embedded embedder now c s).jobs
          ≡ finish_embedding c failure now s.jobs)
  unfolding embedded set_embedding_state
  embedded-jobs embedder now c s = elim (Result-cases (embedder.embed c.text)) [
    | inl (vector, e) ↦ (none, rw (embedded, e) refl)
    | inr (f, e) ↦ elim (Bool-cases (leb 5 c.attempts)) [
      | inl last ↦ (some (failure_text f), rw (embedded, e, last) refl)
      | inr more ↦ (some (failure_text f), rw (embedded, e, more) refl)
    ]
  ]

  -- What a claim leaves to do, and fewer tries if there was one.
  served-tries :
      (stamp : ℕ → String) (embedder : Embedder F) (now : ℕ) (s : Tables F)
      (r : Option EmbeddingJob × List Job)
      → Claims stamp now s.jobs r
      → AreKeyed s.jobs
      → let out : Bool × Tables F = elim r.0 [
        | none ↦ (false, record s { jobs = r.1 })
        | some j ↦ (true, embedded embedder now j (record s { jobs = r.1 }))
      ] in
        (all_tries out.1.jobs + (if out.0 then 1 else 0) ≤ all_tries s.jobs) × AreKeyed out.1.jobs
  served-tries stamp embedder now s (none, js) (idle, same) keyed = rw same (omega arith, keyed)
  served-tries stamp embedder now s (some c, js) h keyed =
      let (failure, e) = embedded-jobs embedder now c (record s { jobs = js }) in
      rw e (claim-tries stamp now s.jobs (some c, js) c failure h refl keyed)

  -- A round that claims a job leaves fewer tries.
  round-tries :
      (stamp : ℕ → String) (svc : Service F) (now : ℕ) (s : Tables F)
      → AreKeyed s.jobs
      → (all_tries (worker_round stamp svc now s).1.jobs
            + (if (worker_round stamp svc now s).0 then 1 else 0)
          ≤ all_tries s.jobs)
        × AreKeyed (worker_round stamp svc now s).1.jobs
  unfolding worker_round
  round-tries stamp svc now s keyed = elim (Option-cases svc.embedder) [
    | inl absent ↦ rw (worker_round, absent) (omega arith, keyed)
    | inr (embedder, there) ↦
        rw (worker_round, there)
          (served-tries stamp embedder now s (claim_embedding stamp now s.jobs)
            (claim_embedding_lem stamp now s.jobs) keyed)
  ]

  -- If no two jobs have the same key, then over any ticks of the worker, whatever the embedder answers at
  -- each of them, at most as many claim a job as the waiting jobs have tries left: five for a job without
  -- attempts, one less for each attempt, and one at least.
  pub claims_of-tries :
      (stamp : ℕ → String) (ticks : List (Service F × ℕ)) (s : Tables F)
      → AreKeyed s.jobs
      → claims_of stamp ticks s ≤ all_tries s.jobs
  unfolding claims_of
  claims_of-tries stamp [] s keyed = omega arith
  claims_of-tries stamp ((svc, now) ∷ later) s keyed =
      let (fewer, still) = round-tries stamp svc now s keyed in
      omega (arith, fewer, claims_of-tries stamp later (worker_round stamp svc now s).1 still)
