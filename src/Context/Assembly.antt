-- ===== src/Context/Assembly.antt =====
-- The four loops of `Context` of knowledge/service.go over the artifacts and the ranked memories.
use Prim.Native.String.{◌++◌}
use mathlib.Core.List
use vessica_knowledge_server.Base.{positive_or}
use vessica_knowledge_server.Base.{
  ℕ, ◌+◌, ◌/◌, String, Bool, not, List, [], ◌∷◌, ◌==◌, ltb, member, if◌then◌else◌,
}
use vessica_knowledge_server.Models.{Artifact}
use vessica_knowledge_server.Models.Json.{string_at}
use vessica_knowledge_server.Models.Retrieval.{RankedMemory, ContextRequest, ArtifactExplanation}
use vessica_knowledge_server.Service.Host.{Host}
use vessica_knowledge_server.Service.Rules.{is_empty}
use vessica_knowledge_server.Text.{tokens}
use vessica_knowledge_server.Context.Artifacts.{
  explicit_artifact, artifact_relevant, artifact_reasons,
}

-- The local variables of `Context` and the lists of its response.
pub record Assembly (F : Type 0) : Type 0 where
  pub used : ℕ
  pub artifact_used : ℕ
  pub episode_used : ℕ
  pub instruction_keys : List String
  pub artifacts : List Artifact
  pub artifact_explanations : List ArtifactExplanation
  pub instructions : List (RankedMemory F)
  pub decisions : List (RankedMemory F)
  pub facts : List (RankedMemory F)
  pub episodes : List (RankedMemory F)
  pub omissions : List String

abbrev pub nothing_selected : {F : Type 0} → Assembly F
nothing_selected = record {
  used = 0;
  artifact_used = 0;
  episode_used = 0;
  instruction_keys = [];
  artifacts = [];
  artifact_explanations = [];
  instructions = [];
  decisions = [];
  facts = [];
  episodes = [];
  omissions = [];
}

-- `append(list, item)`
infixl 66 ◌▹◌
abbrev pub ◌▹◌ : {A : Type 0} → List A → A → List A
xs ▹ x = List.◌++◌ xs (x ∷ [])

abbrev pub artifact_cost : Artifact → ℕ
artifact_cost a = tokens (a.title ++ a.content)

-- `r.TokenBudget <= 0` asks for the default.
unfoldable pub token_budget : ContextRequest → ℕ
unfolding positive_or
token_budget r = positive_or 12000 r.token_budget

module _ {F : Type 0} where
  abbrev pub memory_cost : RankedMemory F → ℕ
  memory_cost m = tokens (m.memory.title ++ m.memory.content)

  abbrev pub omit : String → Assembly F → Assembly F
  omit reason st = record st { omissions = st.omissions ▹ reason }

  abbrev pub take_artifact : Artifact → List String → Assembly F → Assembly F
  take_artifact a reasons st = record st {
    artifacts = st.artifacts ▹ a;
    artifact_explanations =
        st.artifact_explanations ▹ record { artifact_id = a.id; reasons = reasons };
    used = st.used + artifact_cost a;
    artifact_used = st.artifact_used + artifact_cost a;
  }

  -- A loop over a slice.
  unfoldable pub each :
      {A : Type 0} → (A → Assembly F → Assembly F) → List A → Assembly F → Assembly F
  each step [] st = st
  each step (x ∷ xs) st = each step xs (step x st)

-- `entities` are the keys of `entitySet`; `related` answers `relatedToAny` for an artifact's id.
module _ {F : Type 0} (r : ContextRequest) (budget : ℕ) (entities : List String)
    (related : String → Bool) where
  unfoldable pub explicit_step : Artifact → Assembly F → Assembly F
  explicit_step a st =
      if not (explicit_artifact a r.artifact_selectors)
      then st
      else if ltb budget (st.used + artifact_cost a)
      then omit ("artifact:token_budget:" ++ a.id) st
      else take_artifact a (artifact_reasons a r entities (related a.id)) st

module _ {F : Type 0} ⦃host : Host F⦄ (r : ContextRequest) (budget : ℕ) (entities : List String)
    (related : String → Bool) where
  unfoldable pub relevant_step : Artifact → Assembly F → Assembly F
  relevant_step a st =
      if explicit_artifact a r.artifact_selectors
      then st
      else if not (artifact_relevant host a r.query (related a.id))
      then omit ("artifact:irrelevant:" ++ a.id) st
      else if ltb (budget / 2) (st.artifact_used + artifact_cost a)
      then omit ("artifact:type_budget:" ++ a.id) st
      else if ltb budget (st.used + artifact_cost a)
      then omit ("artifact:token_budget:" ++ a.id) st
      else take_artifact a (artifact_reasons a r entities (related a.id)) st

module _ {F : Type 0} where
  unfoldable pub semantic_key : RankedMemory F → String
  semantic_key m = string_at "semantic_key" m.memory.metadata

  -- `case "instruction"`: an instruction whose key is taken is omitted, at no cost.
  unfoldable pub instruction_step : RankedMemory F → Assembly F → Assembly F
  unfolding semantic_key
  instruction_step m st =
      if is_empty (semantic_key m)
      then record st { instructions = st.instructions ▹ m; used = st.used + memory_cost m }
      else if member (semantic_key m) st.instruction_keys
      then omit ("instruction_override:" ++ m.memory.id) st
      else record st {
        instruction_keys = semantic_key m ∷ st.instruction_keys;
        instructions = st.instructions ▹ m;
        used = st.used + memory_cost m;
      }

module _ {F : Type 0} (budget : ℕ) where
  -- The body of the second loop. A memory of an unknown type is charged and listed nowhere.
  unfoldable pub memory_step : RankedMemory F → Assembly F → Assembly F
  unfolding instruction_step
  memory_step m st =
      if m.memory.type == "episode"
      then st
      else if ltb budget (st.used + memory_cost m)
      then omit ("memory:token_budget:" ++ m.memory.id) st
      else if m.memory.type == "instruction"
      then instruction_step m st
      else if m.memory.type == "decision"
      then record st { decisions = st.decisions ▹ m; used = st.used + memory_cost m }
      else if m.memory.type == "fact"
      then record st { facts = st.facts ▹ m; used = st.used + memory_cost m }
      else record st { used = st.used + memory_cost m }

  unfoldable pub episode_step : RankedMemory F → Assembly F → Assembly F
  episode_step m st =
      if not (m.memory.type == "episode")
      then st
      else if ltb (budget / 5) (st.episode_used + memory_cost m)
      then omit ("memory:type_budget:" ++ m.memory.id) st
      else if ltb budget (st.used + memory_cost m)
      then omit ("memory:token_budget:" ++ m.memory.id) st
      else record st {
        episodes = st.episodes ▹ m;
        used = st.used + memory_cost m;
        episode_used = st.episode_used + memory_cost m;
      }

-- The loops, one after the other.
module _ {F : Type 0} ⦃host : Host F⦄ where
  unfoldable pub assemble :
      ContextRequest
      → List String
      → (String → Bool)
      → List Artifact
      → List (RankedMemory F)
      → Assembly F
  unfolding each
  assemble r entities related arts results =
      let budget = token_budget r in
      each (episode_step budget) results (
        each (relevant_step r budget entities related) arts (
          each (memory_step budget) results
            (each (explicit_step r budget entities related) arts nothing_selected)))
