-- ===== src/Context/Cost.antt =====
-- What the selected items cost.
use vessica_knowledge_server.Base.{ℕ, ◌+◌, ◌≡◌, List, [], ◌∷◌, arith}
use vessica_knowledge_server.Models.{Artifact}
use vessica_knowledge_server.Models.Retrieval.{RankedMemory}
use vessica_knowledge_server.Context.Assembly.{Assembly, artifact_cost, memory_cost, ◌▹◌}

unfoldable pub artifacts_cost : List Artifact → ℕ
artifacts_cost [] = 0
artifacts_cost (a ∷ rest) = artifact_cost a + artifacts_cost rest

module _ {F : Type 0} where
  unfoldable pub memories_cost : List (RankedMemory F) → ℕ
  memories_cost [] = 0
  memories_cost (m ∷ ms) = memory_cost m + memories_cost ms

  pub memories_cost-append :
      (ms : List (RankedMemory F)) (m : RankedMemory F)
      → memories_cost (ms ▹ m) ≡ memories_cost ms + memory_cost m
  unfolding memories_cost
  memories_cost-append [] m = omega arith
  memories_cost-append (x ∷ ms) m = omega (arith, memories_cost-append ms m)

  -- The tokens of everything that the response lists.
  abbrev pub listed_cost : Assembly F → ℕ
  listed_cost st =
      artifacts_cost st.artifacts
      + memories_cost st.instructions
      + memories_cost st.decisions
      + memories_cost st.facts
      + memories_cost st.episodes

pub artifacts_cost-append :
    (rest : List Artifact) (a : Artifact)
    → artifacts_cost (rest ▹ a) ≡ artifacts_cost rest + artifact_cost a
unfolding artifacts_cost
artifacts_cost-append [] a = omega arith
artifacts_cost-append (x ∷ rest) a = omega (arith, artifacts_cost-append rest a)
