-- ===== src/Tests/Contexts.antt =====
-- The context of one question over a runbook and four memories.
use Prim.Native.Nat.{max}
use vessica_knowledge_server.Base.{ℕ, ◌/◌, ◌≤◌, String, Bool, false, ◌≡◌, refl, [], ◌∷◌}
use vessica_knowledge_server.Service.Rules.{memory_types}
use vessica_knowledge_server.Context.Assembly.{
  Assembly, assemble, token_budget, each, explicit_step, nothing_selected,
}
use vessica_knowledge_server.Context.Cost.{artifacts_cost, memories_cost, listed_cost}
use vessica_knowledge_server.Context.Budget.{context_budget, artifact_budget}
use vessica_knowledge_server.Context.Accounting.{entries, context_accounting}
use vessica_knowledge_server.Context.Overrides.{HasDistinctKeys, context_overrides}
use vessica_knowledge_server.Tests.Data.{thousandths, question, ranked_memories, runbook}

abbrev unrelated : String → Bool
unrelated id = false

abbrev answer : Assembly ℕ
answer = assemble question ("e1" ∷ []) unrelated (runbook ∷ []) ranked_memories

context_budget_example :
    (answer.used ≤ token_budget question)
    × (listed_cost answer ≤ answer.used)
    × (memories_cost answer.episodes ≤ token_budget question / 5)
context_budget_example =
    context_budget question ("e1" ∷ []) unrelated (runbook ∷ []) ranked_memories

artifact_budget_example :
    artifacts_cost answer.artifacts
    ≤ max
        (artifacts_cost
          (each
            (explicit_step question (token_budget question) ("e1" ∷ []) unrelated)
            (runbook ∷ [])
            (nothing_selected {F = ℕ})).artifacts)
        (token_budget question / 2)
artifact_budget_example =
    artifact_budget question ("e1" ∷ []) unrelated (runbook ∷ []) ranked_memories

context_accounting_example : entries answer ≡ 5
unfolding memory_types
context_accounting_example =
    context_accounting question ("e1" ∷ []) unrelated (runbook ∷ []) ranked_memories
      (refl, (refl, (refl, (refl, tt))))

context_overrides_example : HasDistinctKeys answer.instructions
context_overrides_example =
    context_overrides question ("e1" ∷ []) unrelated (runbook ∷ []) ranked_memories
