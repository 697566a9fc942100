-- ===== src/Context/Budget.antt =====
-- A context response stays within the token budget of its request.
use Prim.Native.Nat.{max}
use vessica_knowledge_server.Base.{ℕ, ◌/◌, ◌≤◌, String, Bool, ◌≡◌, List, [], ◌∷◌, arith}
use vessica_knowledge_server.Models.{Artifact}
use vessica_knowledge_server.Models.Retrieval.{RankedMemory, ContextRequest}
use vessica_knowledge_server.Service.Host.{Host}
use vessica_knowledge_server.Context.Assembly.{
  Assembly, each, explicit_step, relevant_step, memory_step, episode_step, assemble, token_budget,
  nothing_selected,
}
use vessica_knowledge_server.Context.Cost.{
  artifacts_cost, memories_cost, listed_cost, artifacts_cost-append, memories_cost-append,
}

pub record IsWithin {F : Type 0} (budget : ℕ) (st : Assembly F) : Type 0 where
  pub total : st.used ≤ budget
  pub charged : listed_cost st ≤ st.used
  pub artifact_share : artifacts_cost st.artifacts ≡ st.artifact_used
  pub episode_share : memories_cost st.episodes ≡ st.episode_used
  pub episode_limit : st.episode_used ≤ budget / 5

module _ {F : Type 0} (P : Assembly F → Type 0) where
  pub each_keeps :
      {A : Type 0} (step : A → Assembly F → Assembly F)
      → ((a : A) (st : Assembly F) → P st → P (step a st))
      → (xs : List A) (st : Assembly F) → P st
      → P (each step xs st)
  unfolding each
  each_keeps step keep [] st h = h
  each_keeps step keep (x ∷ xs) st h = each_keeps step keep xs (step x st) (keep x st h)

module _ {F : Type 0} ⦃host : Host F⦄ (r : ContextRequest) (budget : ℕ) (entities : List String)
    (related : String → Bool) where
  explicit_step-IsWithin :
      (a : Artifact) (st : Assembly F)
      → IsWithin budget st
      → IsWithin budget (explicit_step r budget entities related a st)
  unfolding explicit_step
  explicit_step-IsWithin a st h = ground (arith, artifacts_cost-append st.artifacts a)

  relevant_step-IsWithin :
      (a : Artifact) (st : Assembly F)
      → IsWithin budget st
      → IsWithin budget (relevant_step r budget entities related a st)
  unfolding relevant_step
  relevant_step-IsWithin a st h = ground (arith, artifacts_cost-append st.artifacts a)

module _ {F : Type 0} (budget : ℕ) where
  memory_step-IsWithin :
      (m : RankedMemory F) (st : Assembly F)
      → IsWithin budget st
      → IsWithin budget (memory_step budget m st)
  unfolding memory_step
  memory_step-IsWithin m st h = ground (
    arith,
    memories_cost-append st.instructions m,
    memories_cost-append st.decisions m,
    memories_cost-append st.facts m,
  )

  episode_step-IsWithin :
      (m : RankedMemory F) (st : Assembly F)
      → IsWithin budget st
      → IsWithin budget (episode_step budget m st)
  unfolding episode_step
  episode_step-IsWithin m st h = ground (arith, memories_cost-append st.episodes m)

-- The bound of the third loop, whatever the artifacts cost when it begins.
IsCapped : {F : Type 0} → ℕ → Assembly F → Type 0
IsCapped cap st = st.artifact_used ≤ cap

module _ {F : Type 0} ⦃host : Host F⦄ (r : ContextRequest) (budget : ℕ) (entities : List String)
    (related : String → Bool) where
  relevant_step-IsCapped :
      (cap : ℕ)
      → budget / 2 ≤ cap
      → (a : Artifact) (st : Assembly F) → IsCapped cap st
      → IsCapped cap (relevant_step r budget entities related a st)
  unfolding relevant_step IsCapped
  relevant_step-IsCapped cap half a st h = ground arith

module _ {F : Type 0} (budget : ℕ) where
  memory_step-IsCapped :
      (cap : ℕ) (m : RankedMemory F) (st : Assembly F)
      → IsCapped cap st
      → IsCapped cap (memory_step budget m st)
  unfolding memory_step IsCapped
  memory_step-IsCapped cap m st h = ground arith

  episode_step-IsCapped :
      (cap : ℕ) (m : RankedMemory F) (st : Assembly F)
      → IsCapped cap st
      → IsCapped cap (episode_step budget m st)
  unfolding episode_step IsCapped
  episode_step-IsCapped cap m st h = ground arith

module _ {F : Type 0} ⦃host : Host F⦄ (r : ContextRequest) (entities : List String)
    (related : String → Bool) (arts : List Artifact) (results : List (RankedMemory F)) where
  assemble-IsWithin : IsWithin (token_budget r) (assemble r entities related arts results)
  unfolding assemble artifacts_cost memories_cost
  assemble-IsWithin =
      let b = token_budget r in
      let start : IsWithin b (nothing_selected {F = F}) = omega arith in
      each_keeps (IsWithin b) (episode_step b) (episode_step-IsWithin b) results _ (
        each_keeps (IsWithin b) (relevant_step r b entities related)
          (relevant_step-IsWithin r b entities related) arts _
          (each_keeps (IsWithin b) (memory_step b) (memory_step-IsWithin b) results _ (
            each_keeps (IsWithin b) (explicit_step r b entities related)
              (explicit_step-IsWithin r b entities related) arts _ start)))

  -- The token estimate of a context is at most the budget of its request (12000 if that is zero or negative), the
  -- tokens of all listed artifacts and memories are at most the estimate, and those of the episodes are
  -- at most a fifth of the budget.
  pub context_budget :
      let st = assemble r entities related arts results in
      (st.used ≤ token_budget r)
      × (listed_cost st ≤ st.used)
      × (memories_cost st.episodes ≤ token_budget r / 5)
  context_budget =
      let h = assemble-IsWithin in
      (h.total, h.charged, omega (arith, h.episode_share, h.episode_limit))

  -- The selected artifacts cost at most half of the budget, or what the explicitly selected ones among
  -- them cost if that is more.
  pub artifact_budget :
      artifacts_cost (assemble r entities related arts results).artifacts
      ≤ max
          (artifacts_cost
            (each
              (explicit_step r (token_budget r) entities related)
              arts
              (nothing_selected {F = F})).artifacts)
          (token_budget r / 2)
  unfolding assemble artifacts_cost memories_cost IsCapped
  artifact_budget =
      let b = token_budget r in
      let first : Assembly F = each (explicit_step r b entities related) arts nothing_selected in
      let start : IsWithin b (nothing_selected {F = F}) = omega arith in
      let after : IsWithin b first =
        each_keeps (IsWithin b) (explicit_step r b entities related)
          (explicit_step-IsWithin r b entities related) arts _ start in
      let cap = max (artifacts_cost first.artifacts) (b / 2) in
      let capped : IsCapped cap first = omega (arith, after.artifact_share) in
      let last : IsCapped cap (assemble r entities related arts results) =
        each_keeps (IsCapped cap) (episode_step b) (episode_step-IsCapped b cap) results _ (
          each_keeps (IsCapped cap) (relevant_step r b entities related)
            (relevant_step-IsCapped r b entities related cap (omega arith)) arts _
            (each_keeps (IsCapped cap) (memory_step b) (memory_step-IsCapped b cap) results _
              capped)) in
      omega (arith, assemble-IsWithin.artifact_share, last)
