-- ===== src/Context/Drawn.antt =====
-- What a context lists is what was found for it.
use vessica_knowledge_server.Base.{
  ℕ, ◌+◌, ◌/◌, String, Bool, true, false, not, List, [], ◌∷◌, ◌==◌, ltb, member, All, All-append,
  if◌then◌else◌,
}
use vessica_knowledge_server.Models.{Artifact, Memory}
use vessica_knowledge_server.Models.Retrieval.{RankedMemory, ContextRequest}
use vessica_knowledge_server.Service.Host.{Host}
use vessica_knowledge_server.Service.Rules.{is_empty}
use vessica_knowledge_server.Retrieval.Kept.{AllRanked}
use vessica_knowledge_server.Context.Artifacts.{explicit_artifact, artifact_relevant}
use vessica_knowledge_server.Context.Assembly.{
  Assembly, each, explicit_step, relevant_step, memory_step, instruction_step, episode_step,
  assemble, token_budget, nothing_selected, memory_cost, artifact_cost, semantic_key, ◌▹◌,
}

module _ {F : Type 0} (P : Memory F → Type 0) (Q : Artifact → Type 0) where
  -- The listed instructions, decisions, facts, episodes and artifacts have the properties.
  unfoldable pub IsDrawn : Assembly F → Type 0
  IsDrawn st =
      AllRanked P st.instructions
      × AllRanked P st.decisions
      × AllRanked P st.facts
      × AllRanked P st.episodes
      × All Q st.artifacts

  nothing-IsDrawn : IsDrawn nothing_selected
  unfolding IsDrawn
  nothing-IsDrawn = (tt, tt, tt, tt, tt)

  choice-IsDrawn :
      (b : Bool) (x y : Assembly F) → IsDrawn x → IsDrawn y → IsDrawn (if b then x else y)
  choice-IsDrawn true x y h k = h
  choice-IsDrawn false x y h k = k

  each-IsDrawn :
      {A : Type 0} (R : A → Type 0) (step : A → Assembly F → Assembly F)
      → ((a : A) (st : Assembly F) → R a → IsDrawn st → IsDrawn (step a st))
      → (xs : List A) (st : Assembly F) → All R xs
      → IsDrawn st
      → IsDrawn (each step xs st)
  unfolding each
  each-IsDrawn R step keep [] st a h = h
  each-IsDrawn R step keep (x ∷ xs) st a h =
      each-IsDrawn R step keep xs (step x st) a.1 (keep x st a.0 h)

  longer :
      (xs : List (RankedMemory F)) (m : RankedMemory F)
      → P m.memory
      → AllRanked P xs
      → AllRanked P (xs ▹ m)
  longer xs m p h = All-append (λ x. P x.memory) xs (m ∷ []) h (p, tt)

  module _ (budget : ℕ) where
    instruction_step-IsDrawn :
        (m : RankedMemory F) (st : Assembly F)
        → P m.memory
        → IsDrawn st
        → IsDrawn (instruction_step m st)
    unfolding instruction_step IsDrawn
    instruction_step-IsDrawn m st p (i, d, f, e, a) =
        let more = longer st.instructions m p i in
        choice-IsDrawn (is_empty (semantic_key m)) _ _ (more, d, f, e, a)
          (choice-IsDrawn (member (semantic_key m) st.instruction_keys) _ _ (i, d, f, e, a)
            (more, d, f, e, a))

    memory_step-IsDrawn :
        (m : RankedMemory F) (st : Assembly F)
        → P m.memory
        → IsDrawn st
        → IsDrawn (memory_step budget m st)
    unfolding memory_step IsDrawn
    memory_step-IsDrawn m st p (i, d, f, e, a) =
        let h : IsDrawn st = (i, d, f, e, a) in
        choice-IsDrawn (m.memory.type == "episode") _ _ h (
          choice-IsDrawn (ltb budget (st.used + memory_cost m)) _ _ h (
            choice-IsDrawn (m.memory.type == "instruction") _ _ (instruction_step-IsDrawn m st p h)
              (choice-IsDrawn (m.memory.type == "decision") _ _
                (i, longer st.decisions m p d, f, e, a)
                (choice-IsDrawn (m.memory.type == "fact") _ _ (i, d, longer st.facts m p f, e, a)
                  h))))

    episode_step-IsDrawn :
        (m : RankedMemory F) (st : Assembly F)
        → P m.memory
        → IsDrawn st
        → IsDrawn (episode_step budget m st)
    unfolding episode_step IsDrawn
    episode_step-IsDrawn m st p (i, d, f, e, a) =
        let h : IsDrawn st = (i, d, f, e, a) in
        choice-IsDrawn (not (m.memory.type == "episode")) _ _ h (
          choice-IsDrawn (ltb (budget / 5) (st.episode_used + memory_cost m)) _ _ h (
            choice-IsDrawn (ltb budget (st.used + memory_cost m)) _ _ h
              (i, d, f, longer st.episodes m p e, a)))

  module _ ⦃host : Host F⦄ (r : ContextRequest) (budget : ℕ) (entities : List String)
      (related : String → Bool) where
    explicit_step-IsDrawn :
        (x : Artifact) (st : Assembly F)
        → Q x
        → IsDrawn st
        → IsDrawn (explicit_step r budget entities related x st)
    unfolding explicit_step IsDrawn
    explicit_step-IsDrawn x st q (i, d, f, e, a) =
        let h : IsDrawn st = (i, d, f, e, a) in
        choice-IsDrawn (not (explicit_artifact x r.artifact_selectors)) _ _ h (
          choice-IsDrawn (ltb budget (st.used + artifact_cost x)) _ _ h
            (i, d, f, e, All-append Q st.artifacts (x ∷ []) a (q, tt)))

    relevant_step-IsDrawn :
        (x : Artifact) (st : Assembly F)
        → Q x
        → IsDrawn st
        → IsDrawn (relevant_step r budget entities related x st)
    unfolding relevant_step IsDrawn
    relevant_step-IsDrawn x st q (i, d, f, e, a) =
        let h : IsDrawn st = (i, d, f, e, a) in
        choice-IsDrawn (explicit_artifact x r.artifact_selectors) _ _ h (
          choice-IsDrawn (not (artifact_relevant host x r.query (related x.id))) _ _ h (
            choice-IsDrawn (ltb (budget / 2) (st.artifact_used + artifact_cost x)) _ _ h (
              choice-IsDrawn (ltb budget (st.used + artifact_cost x)) _ _ h
                (i, d, f, e, All-append Q st.artifacts (x ∷ []) a (q, tt)))))

  -- What holds of the candidates holds of all that is listed.
  pub assemble-IsDrawn :
      ⦃host : Host F⦄ (r : ContextRequest) (entities : List String) (related : String → Bool)
      (arts : List Artifact) (results : List (RankedMemory F))
      → All Q arts
      → AllRanked P results
      → IsDrawn (assemble r entities related arts results)
  unfolding assemble
  assemble-IsDrawn r entities related arts results q p =
      let b = token_budget r in
      let R = λ (m : RankedMemory F). P m.memory in
      each-IsDrawn R (episode_step b) (episode_step-IsDrawn b) results _ p (
        each-IsDrawn Q (relevant_step r b entities related)
          (relevant_step-IsDrawn r b entities related) arts _ q
          (each-IsDrawn R (memory_step b) (memory_step-IsDrawn b) results _ p (
            each-IsDrawn Q (explicit_step r b entities related)
              (explicit_step-IsDrawn r b entities related) arts _ q nothing-IsDrawn)))
