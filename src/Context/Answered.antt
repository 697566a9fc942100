-- ===== src/Context/Answered.antt =====
-- What `Context` of knowledge/service.go answers with.
use vessica_knowledge_server.Base.{positive_or}
use vessica_knowledge_server.Base.{
  ◌≤◌, arith, String, true, false, ◌≡◌, refl, Option, none, some, List, [], Result, ok, err,
  Failure, All, All-self, Member, Bool-cases, inl, inr,
}
use vessica_knowledge_server.Models.{Memory}
use vessica_knowledge_server.Models.Retrieval.{
  ContextRequest, ContextResponse, MemoryRetrievalResponse,
}
use vessica_knowledge_server.Store.Tables.{Tables}
use vessica_knowledge_server.Store.Queries.{list_artifacts}
use vessica_knowledge_server.Service.Host.{Host, Service}
use vessica_knowledge_server.Service.Rules.{is_empty, default_string}
use vessica_knowledge_server.Retrieval.Available.{retrieve_memories-answers}
use vessica_knowledge_server.Context.Assembly.{token_budget}
use vessica_knowledge_server.Context.Budget.{context_budget}
use vessica_knowledge_server.Context.Compose.{
  assembled, context_response, context_in, context, memories_for,
}
use vessica_knowledge_server.Context.Drawn.{IsDrawn, assemble-IsDrawn}
use vessica_knowledge_server.Retrieval.Kept.{AllRanked}
use vessica_knowledge_server.Retrieval.Sound.{IsEligible}
use vessica_knowledge_server.Retrieval.Answers.{retrieve_memories-safe}
use vessica_knowledge_server.Retrieval.Retrieve.{World, expand_scopes, retrieve_memories}

-- The context is within its budget, and lists eligible memories and artifacts of the workspace in scope.
pub record IsSafe {F : Type 0} (world : World F) (s : Tables F) (r : ContextRequest)
    (response : ContextResponse F) : Type 0 where
  pub scopes : List String
  pub memory_scopes : List String
  pub expanded : expand_scopes world.fuel r.workspace_id r.scope_ids s ≡ some (ok scopes)
  pub expanded_again : expand_scopes world.fuel r.workspace_id scopes s ≡ some (ok memory_scopes)
  pub estimate : response.token_estimate ≤ token_budget r
  pub instructions :
      AllRanked (IsEligible s r.workspace_id world.now memory_scopes) response.instructions
  pub decisions : AllRanked (IsEligible s r.workspace_id world.now memory_scopes) response.decisions
  pub facts : AllRanked (IsEligible s r.workspace_id world.now memory_scopes) response.facts
  pub episodes : AllRanked (IsEligible s r.workspace_id world.now memory_scopes) response.episodes
  pub artifacts :
      All
        (λ a. Member a (list_artifacts r.workspace_id scopes r.artifact_selectors s))
        response.artifacts

outcome :
    {A B : Type 0} (v : Option (Result A)) (f : A → Option (Result B)) (b : B)
    → ◌≡◌ {A = Option (Result B)}
        (elim v [ none ↦ none | some (err e) ↦ some (err e) | some (ok a) ↦ f a ])
        (some (ok b))
    → (a : A) × (v ≡ some (ok a)) × (f a ≡ some (ok b))
outcome none f b h = absurd cc
outcome (some (err e)) f b h = absurd cc
outcome (some (ok a)) f b h = (a, refl, h)

same_response :
    {B : Type 0} {a b : B} → ◌≡◌ {A = Option (Result B)} (some (ok a)) (some (ok b)) → a ≡ b
same_response h = cc

refused :
    {B : Type 0} {e : Failure} {b : B}
    → ¬ (◌≡◌ {A = Option (Result B)} (some (err e)) (some (ok b)))
refused h = cc

module _ {F : Type 0} ⦃host : Host F⦄ (svc : Service F) (world : World F) (s : Tables F) where
  assembled-IsDrawn :
      (r : ContextRequest) (retrieval : MemoryRetrievalResponse F) (P : Memory F → Type 0)
      → AllRanked P retrieval.results
      → IsDrawn P
          (λ a. Member a (list_artifacts r.workspace_id r.scope_ids r.artifact_selectors s))
          (assembled svc world s r retrieval)
  unfolding assembled
  assembled-IsDrawn r retrieval P h = assemble-IsDrawn P _ r _ _ _ retrieval.results (All-self _) h

  assembled-budget :
      (r : ContextRequest) (retrieval : MemoryRetrievalResponse F)
      → (assembled svc world s r retrieval).used ≤ token_budget r
  unfolding assembled
  assembled-budget r retrieval = (context_budget r _ _ _ retrieval.results).0

  context_in-outcome :
      (r : ContextRequest) (response : ContextResponse F)
      → context_in svc world s r ≡ some (ok response)
      → (retrieval : MemoryRetrievalResponse F) × (retrieve_memories svc world s (memories_for r)
          ≡ some (ok retrieval))
        × (context_response svc world s r retrieval ≡ response)
  unfolding context_in
  context_in-outcome r response h =
      let (retrieval, e, same) =
        outcome (retrieve_memories svc world s (memories_for r))
          (λ a. some (ok (context_response svc world s r a))) response h in
      (retrieval, e, same_response same)

  context_in-IsSafe :
      (r : ContextRequest) (scopes : List String) (response : ContextResponse F)
      → expand_scopes world.fuel r.workspace_id r.scope_ids s ≡ some (ok scopes)
      → context_in svc world s (record r { scope_ids = scopes }) ≡ some (ok response)
      → IsSafe world s r response
  unfolding context_response IsDrawn token_budget
  context_in-IsSafe r scopes response e h =
      let q = record r { scope_ids = scopes } in
      let (retrieval, found, same) = context_in-outcome q response h in
      let (few, most, (memory_scopes, again, eligible)) =
        retrieve_memories-safe svc world s (memories_for q) retrieval found in
      let (i, d, f, p, a) =
        assembled-IsDrawn q retrieval (IsEligible s r.workspace_id world.now memory_scopes)
          eligible in
      rw (← same) (record {
        scopes = scopes;
        memory_scopes = memory_scopes;
        expanded = e;
        expanded_again = again;
        estimate = assembled-budget q retrieval;
        instructions = i;
        decisions = d;
        facts = f;
        episodes = p;
        artifacts = a;
      })

  -- If `Context` answers, its token estimate is within the budget of the request, the instructions,
  -- decisions, facts and episodes are current memories of the workspace, active, valid at the time and in
  -- the scopes that the expanded scopes of the request expand to again, and the artifacts are among those
  -- that `ListArtifacts` lists for the expanded scopes.
  pub context-IsSafe :
      (r : ContextRequest) (response : ContextResponse F)
      → context svc world s r ≡ some (ok response)
      → IsSafe world s r response
  unfolding context
  context-IsSafe r response h = elim (Bool-cases (is_empty r.workspace_id)) [
    | inl blank ↦ absurd (refused (rw (context, blank) at h))
    | inr named ↦
        let (scopes, e, inside) =
          outcome (expand_scopes world.fuel r.workspace_id r.scope_ids s)
            (λ xs. context_in svc world s (record r { scope_ids = xs })) response
            (rw (context, named) at h) in
        context_in-IsSafe r scopes response e inside
  ]

  -- On SQLite, `Context` answers each request that names a workspace and gives no scopes: neither the
  -- full-text index nor the embedder nor the reranker can make it fail.
  pub context-answers :
      (r : ContextRequest)
      → is_empty r.workspace_id ≡ false
      → r.scope_ids ≡ []
      → world.engine.sqlite ≡ true
      → (response : ContextResponse F) × (context svc world s r ≡ some (ok response))
  unfolding context context_in expand_scopes default_string positive_or
  context-answers r named bare lite =
      let q = record r { scope_ids = [] } in
      let (retrieval, e) =
        retrieve_memories-answers svc world s (memories_for q) (named, omega arith, refl) refl
          lite in
      (context_response svc world s q retrieval, rw (context, named, bare, context_in, e) refl)
