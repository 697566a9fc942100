-- ===== src/Retrieval/Memories.antt =====
-- `SearchMemories` of knowledge/sqlstore.go, on the engine of the other searches.
use Prim.Native.Char.{code}
use Prim.Native.String.{String, ◌++◌}
use vessica_knowledge_server.Base.{
  ℕ, Bool, not, ◌&&◌, ◌||◌, none, some, List, ◌==◌, nat_eq, ltb, take, select, sort_by,
  if◌then◌else◌,
}
use vessica_knowledge_server.Models.{Memory}
use vessica_knowledge_server.Text.{runes, is_space, trimmed, fields}
use vessica_knowledge_server.Context.Artifacts.{includes}
use vessica_knowledge_server.Store.Tables.{Tables, memory_row}
use vessica_knowledge_server.Store.Queries.{joined}
use vessica_knowledge_server.Service.Rules.{is_empty}
use vessica_knowledge_server.Retrieval.Search.{Engine, FullText}

-- The first of the fields of a trimmed text, or the empty text
first_word : String → String
first_word String.[] = String.[]
first_word (String.◌∷◌ c s) =
    let rest = first_word s in if is_space (code c) then String.[] else String.◌∷◌ c rest

module _ {F : Type 0} (engine : Engine F) where
  -- `m.state NOT IN ('archived','tombstoned')`
  abbrev is_listed : Memory F → Bool
  is_listed m = not (m.state == "archived" || m.state == "tombstoned")

  -- `updated_at DESC`
  abbrev updated_last : Memory F → Memory F → Bool
  updated_last a b = ltb b.updated_at a.updated_at

  abbrev matched_first : FullText F → Memory F → Memory F → Bool
  matched_first index a b = index.better a b || not (index.better b a) && updated_last a b

  -- The limit counts the rows before the scopes are looked at.
  abbrev indexed_memories : String → List String → ℕ → FullText F → Tables F → List (Memory F)
  indexed_memories w scopes n index s =
      select (λ m. includes scopes m.scope_id)
        (take n (
          sort_by (matched_first index)
            (select index.matches (select is_listed (joined w s.memories)))))

  abbrev like_memories : String → List String → ℕ → String → Tables F → List (Memory F)
  like_memories w scopes n term s =
      let pattern = "%" ++ term ++ "%" in
      select (λ m. includes scopes m.scope_id)
        (take n (
          sort_by updated_last (
            select
              (λ m. engine.database.like m.title pattern || engine.database.like m.content pattern)
              (select is_listed (joined w s.memories)))))

  unfoldable pub search_memories : String → List String → String → ℕ → Tables F → List (Memory F)
  unfolding joined first_word
  search_memories w scopes query limit s =
      let n = if nat_eq limit 0 then 100 else limit in
      let term = trimmed query in
      let plain = like_memories w scopes n (first_word term) s in
      if engine.sqlite && not (is_empty term)
      then elim (engine.full_text (fields (runes term))) [
        | some index ↦ indexed_memories w scopes n index s
        | none ↦ plain
      ]
      else plain
