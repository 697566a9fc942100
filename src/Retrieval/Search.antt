-- ===== src/Retrieval/Search.antt =====
-- `SearchMemoryCandidates`, `SearchEmbeddings`, `cosine`, `sqrt` and `postgresTSQuery` of
-- knowledge/sqlstore.go. The clause of `sqlScopeClause` is the test `includes`.
use Prim.Native.String.{◌++◌}
use vessica_knowledge_server.Base.{
  ℕ, zero, suc, String, Bool, false, not, ◌&&◌, ◌||◌, Option, none, some, List, [], ◌∷◌, ◌==◌,
  Result, ok, err, Failure, map, nat_eq, ltb, length, take, select, sort_by, text_lt, if◌then◌else◌,
}
use vessica_knowledge_server.Models.{Memory}
use vessica_knowledge_server.Text.{runes, trimmed, fields, fields_func, same_runes}
use vessica_knowledge_server.Context.Artifacts.{includes, lower}
use vessica_knowledge_server.Store.Table.{get_current}
use vessica_knowledge_server.Store.Tables.{Tables, Embedding, memory_row}
use vessica_knowledge_server.Store.Queries.{Database, joined}
use vessica_knowledge_server.Service.Host.{Host}
use vessica_knowledge_server.Service.Rules.{is_empty}
use vessica_knowledge_server.Retrieval.Rerank.{not_after, not_before}

-- The rows that match a full-text query, and the order of their rank.
pub record FullText (F : Type 0) : Type 0 where
  pub matches : Memory F → Bool
  pub better : Memory F → Memory F → Bool

-- What the search uses of the database: which one it is, its full-text index (asked for texts that begin
-- with one of the words; `none` if it refuses the query, with the failure), the distance of two vectors,
-- and the product of two float32 numbers as a float64.
pub record Engine (F : Type 0) : Type 0 where
  pub database : Database
  pub sqlite : Bool
  pub full_text : List (List ℕ) → Option (FullText F)
  pub refused : Failure
  pub letter_or_digit : ℕ → Bool
  pub distance : List F → List F → F
  pub product : F → F → F

has_term : List ℕ → List (List ℕ) → Bool
unfolding same_runes
has_term t [] = false
has_term t (u ∷ us) = same_runes t u || has_term t us

-- The loop over `parts`, with the terms so far in `seen`.
new_terms : List (List ℕ) → List (List ℕ) → List (List ℕ)
unfolding has_term
new_terms seen [] = []
new_terms seen (t ∷ ts) =
    let rest = new_terms (t ∷ seen) ts in
    let skipped = new_terms seen ts in if has_term t seen then skipped else t ∷ rest

module _ {F : Type 0} where
  unfoldable pub in_force : ℕ → List String → Memory F → Bool
  unfolding not_after not_before
  in_force now scopes m =
      m.state == "active"
      && not_after now m.valid_from
      && not_before now m.valid_until
      && includes scopes m.scope_id

  -- `m.title || ' ' || …`
  abbrev searched_text : Memory F → String
  searched_text m =
      m.title ++ " " ++ m.subject ++ " " ++ m.predicate ++ " " ++ m.object ++ " " ++ m.content

module _ {F : Type 0} ⦃host : Host F⦄ (engine : Engine F) where
  -- The terms of `postgresTSQuery`, each a prefix, one of which is to be there.
  unfoldable pub postgres_ts_query : String → List (List ℕ)
  unfolding new_terms
  postgres_ts_query query =
      new_terms [] (fields_func (λ c. not (engine.letter_or_digit c)) (lower host.to_lower query))

  -- `m.importance DESC,m.updated_at DESC,m.id`
  abbrev more_important : Memory F → Memory F → Bool
  more_important a b =
      host.lt b.importance a.importance
      || host.eq a.importance b.importance
        && (ltb b.updated_at a.updated_at || nat_eq a.updated_at b.updated_at && text_lt a.id b.id)

  abbrev ranked_first : FullText F → Memory F → Memory F → Bool
  ranked_first index a b = index.better a b || not (index.better b a) && more_important a b

  -- The current rows in force that match, the best first.
  unfoldable pub matching_rows :
      ℕ → String → List String → ℕ → FullText F → Tables F → List (Memory F)
  unfolding joined in_force
  matching_rows now w scopes limit index s = take limit (
      sort_by (ranked_first index)
        (select index.matches (select (in_force now scopes) (joined w s.memories))))

  -- The same without the full-text index: those that contain the term, the most important first.
  unfoldable pub plain_rows : ℕ → String → List String → ℕ → String → Tables F → List (Memory F)
  unfolding joined in_force
  plain_rows now w scopes limit term s = take limit (
      sort_by more_important (
        select (λ m. is_empty term || engine.database.like (searched_text m) ("%" ++ term ++ "%"))
          (select (in_force now scopes) (joined w s.memories))))

  unfoldable pub search_memory_candidates :
      ℕ → String → List String → String → ℕ → Tables F → Result (List (Memory F))
  unfolding matching_rows plain_rows postgres_ts_query
  search_memory_candidates now w scopes query limit s =
      let n = if nat_eq limit 0 then 100 else limit in
      let term = trimmed query in
      if engine.sqlite && is_empty term
      then ok (plain_rows now w scopes n term s)
      else if engine.sqlite
      then elim (engine.full_text (fields (runes term))) [
        | some index ↦ ok (matching_rows now w scopes n index s)
        | none ↦ ok (plain_rows now w scopes n term s)
      ]
      else elim (postgres_ts_query term) [
        | [] ↦ ok (plain_rows now w scopes n "" s)
        | t ∷ ts ↦ elim (engine.full_text (t ∷ ts)) [
          | some index ↦ ok (matching_rows now w scopes n index s)
          | none ↦ err engine.refused
        ]
      ]

  -- `sqrt`: 20 steps from `v`
  newton : ℕ → F → F → F
  newton zero v z = z
  newton (suc n) v z =
      let next = newton n v (host.div (host.add z (host.div v z)) (host.ratio 2 1)) in
      if host.eq z (host.ratio 0 1) then host.ratio 0 1 else next

  unfoldable pub sqrt : F → F
  unfolding newton
  sqrt v = newton 20 v v

  -- The loop of `cosine` for one of its sums.
  dot : F → List F → List F → F
  dot sum (x ∷ xs) (y ∷ ys) = dot (host.add sum (engine.product x y)) xs ys
  dot sum _ _ = sum

  unfoldable pub cosine : List F → List F → F
  unfolding sqrt dot
  cosine a b =
      if nat_eq (length a) 0 || not (nat_eq (length a) (length b))
      then host.ratio 0 1
      else let zero = host.ratio 0 1 in
        let aa = dot zero a a in
        let bb = dot zero b b in
        if host.eq aa zero || host.eq bb zero
        then zero
        else host.div (dot zero a b) (host.mul (sqrt aa) (sqrt bb))

  -- The joins and the conditions on a row of `embeddings`.
  abbrev pub is_searchable : ℕ → String → List String → Tables F → Embedding F → Bool
  is_searchable now w scopes s e =
      e.workspace_id == w
      && e.object_type == "memory"
      && elim (get_current w e.object_id s.memories) [
        | none ↦ false
        | some m ↦
            nat_eq m.version e.version && m.embedding_state == "ready" && in_force now scopes m
      ]

  -- The map from ids to scores.
  unfoldable pub search_embeddings :
      ℕ → String → List String → List F → ℕ → Tables F → Result (List (String × F))
  unfolding cosine in_force
  search_embeddings now w scopes query limit s =
      let rows = select (is_searchable now w scopes s) s.embeddings in
      if engine.sqlite
      then ok (map (λ e. (e.object_id, cosine query e.vector)) rows)
      else let n = if nat_eq limit 0 then 200 else limit in
        let nearer = λ (a : Embedding F) (b : Embedding F).
          host.lt (engine.distance a.vector query) (engine.distance b.vector query) in
        ok (
          map (λ e. (e.object_id, host.sub (host.ratio 1 1) (engine.distance e.vector query)))
            (take n (sort_by nearer rows)))
