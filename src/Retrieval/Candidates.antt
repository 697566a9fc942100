-- ===== src/Retrieval/Candidates.antt =====
-- The candidates of `RetrieveMemories` of knowledge/retrieval.go and their ranks. The map `candidates` is
-- a list without two memories of one id; the code visits a map in any order, and sorts what comes of it.
use vessica_knowledge_server.Base.{
  ℕ, suc, String, Bool, true, false, not, ◌&&◌, ◌||◌, none, some, List, [], ◌∷◌, ◌++◌, ◌==◌, ok,
  err, map, nat_eq, select, sort_by, text_lt, if◌then◌else◌,
}
use vessica_knowledge_server.Models.{Memory, Entity}
use vessica_knowledge_server.Store.Table.{get_current}
use vessica_knowledge_server.Store.Tables.{Tables, entity_row, memory_row}
use vessica_knowledge_server.Store.Queries.{get_current_memories}
use vessica_knowledge_server.Service.Host.{Host, Service}
use vessica_knowledge_server.Service.Rules.{is_empty}
use vessica_knowledge_server.Retrieval.Rerank.{retrieval_eligible}
use vessica_knowledge_server.Retrieval.Search.{Engine, search_embeddings}

contains_entity : List Entity → String → Bool
contains_entity [] id = false
contains_entity (e ∷ es) id = e.id == id || contains_entity es id

-- `semanticRank[id]`: the position in the ids, from 1; 0 for none.
unfoldable pub semantic_rank : ℕ → List String → String → ℕ
semantic_rank i [] id = 0
semantic_rank i (x ∷ xs) id =
    let later = semantic_rank (suc i) xs id in if x == id then suc i else later

-- What the embedder adds: the scores by id, the mode and the model.
pub record Semantic (F : Type 0) : Type 0 where
  pub scores : List (String × F)
  pub hybrid : Bool
  pub model : String

abbrev pub lexical_only : {F : Type 0} → Semantic F
lexical_only = record { scores = []; hybrid = false; model = "" }

module _ {F : Type 0} where
  -- The loop over `request.EntityIDs`: an entity that is found is appended, once.
  unfoldable pub add_entities : String → List String → Tables F → List Entity → List Entity
  unfolding contains_entity
  add_entities w [] s entities = entities
  add_entities w (id ∷ ids) s entities = elim (get_current w id s.entities) [
    | none ↦ add_entities w ids s entities
    | some e ↦
        add_entities w ids s
          (if contains_entity entities id then entities else entities ++ (e ∷ []))
  ]

  -- `candidates[memory.ID] = memory`
  unfoldable pub put_candidate : Memory F → List (Memory F) → List (Memory F)
  put_candidate m [] = m ∷ []
  put_candidate m (c ∷ cs) =
      let rest = put_candidate m cs in if c.id == m.id then m ∷ cs else c ∷ rest

  unfoldable pub add_eligible :
      ℕ → List String → List (Memory F) → List (Memory F) → List (Memory F)
  unfolding put_candidate
  add_eligible now scopes [] cs = cs
  add_eligible now scopes (m ∷ ms) cs =
      add_eligible now scopes ms
        (if retrieval_eligible m scopes now then put_candidate m cs else cs)

  -- `lexicalRank[id]`: the position of the last eligible memory with the id, from 1; 0 for none.
  unfoldable pub lexical_rank : ℕ → List String → ℕ → List (Memory F) → String → ℕ
  lexical_rank now scopes i [] id = 0
  lexical_rank now scopes i (m ∷ ms) id =
      let later = lexical_rank now scopes (suc i) ms id in
      if not (nat_eq later 0)
      then later
      else if retrieval_eligible m scopes now && m.id == id
      then suc i
      else 0

  has_id : String → List (Memory F) → Bool
  has_id id [] = false
  has_id id (c ∷ cs) = c.id == id || has_id id cs

module _ {F : Type 0} ⦃host : Host F⦄ where
  -- An error of the embedder or of the search leaves the lexical mode.
  unfoldable pub semantic_scores :
      Service F → Engine F → ℕ → String → List String → String → Tables F → Semantic F
  unfolding search_embeddings
  semantic_scores svc engine now w scopes query s = elim svc.embedder [
    | none ↦ lexical_only
    | some embedder ↦ if is_empty query then lexical_only else elim (embedder.embed query) [
      | err _ ↦ lexical_only
      | ok vector ↦ elim (search_embeddings engine now w scopes vector 50 s) [
        | err _ ↦ lexical_only
        | ok scores ↦ record { scores = scores; hybrid = true; model = embedder.model }
      ]
    ]
  ]

  abbrev higher : String × F → String × F → Bool
  higher (i, a) (j, b) = if host.eq a b then text_lt i j else host.lt b a

  unfoldable pub semantic_ids : Semantic F → List String
  semantic_ids sem = map (λ p. p.0) (sort_by higher sem.scores)

  -- The eligible lexical results, then the eligible current memories that only the vectors found.
  unfoldable pub candidates :
      ℕ → String → List String → List (Memory F) → Semantic F → Tables F → List (Memory F)
  unfolding add_eligible has_id semantic_ids
  candidates now w scopes lexical sem s =
      let first = add_eligible now scopes lexical [] in
      let missing = select (λ id. not (has_id id first)) (semantic_ids sem) in
      add_eligible now scopes (get_current_memories w missing s) first
