-- ===== src/Retrieval/Sound.antt =====
-- What `RetrieveMemories` answers with: current, eligible memories of the workspace, within the limit.
use vessica_knowledge_server.Base.{
  ℕ, String, Bool, true, false, ◌&&◌, ◌≡◌, Option, none, some, List, [], ◌∷◌, ◌==◌, Result, ok, err,
  nat_eq, member, All, All-take, All-self, All-select, All-sort_by, Member, Bool-cases, inl, inr,
  if◌then◌else◌,
}
use vessica_knowledge_server.Models.{Memory}
use vessica_knowledge_server.Text.{trimmed, fields, runes}
use vessica_knowledge_server.Service.Rules.{is_empty}
use vessica_knowledge_server.Store.Tables.{Tables, memory_row}
use vessica_knowledge_server.Store.Queries.{joined, get_current_memories}
use vessica_knowledge_server.Service.Host.{Host}
use vessica_knowledge_server.Retrieval.Search.{
  Engine, FullText, search_memory_candidates, matching_rows, plain_rows, in_force,
  postgres_ts_query,
}
use vessica_knowledge_server.Retrieval.Candidates.{
  Semantic, put_candidate, add_eligible, candidates,
}
use vessica_knowledge_server.Retrieval.Rerank.{retrieval_eligible}

module _ {F : Type 0} (s : Tables F) (w : String) where
  -- A row of the workspace that its current version points to.
  abbrev pub IsCurrent : Memory F → Type 0
  IsCurrent m = Member m (joined w s.memories)

  get_current_memories-All : (ids : List String) → All IsCurrent (get_current_memories w ids s)
  unfolding get_current_memories
  get_current_memories-All ids =
      All-select (λ m. member m.id ids) IsCurrent (joined w s.memories)
        (All-self (joined w s.memories))

  -- A search that fails finds nothing.
  AllFound : Result (List (Memory F)) → Type 0
  AllFound (ok ms) = All (IsCurrent) ms
  AllFound (err e) = Unit

  with_index-AllFound :
      (index : Option (FullText F)) (found : FullText F → List (Memory F))
      (other : Result (List (Memory F)))
      → ((i : FullText F) → All (IsCurrent) (found i))
      → AllFound other
      → AllFound (elim index [ some i ↦ ok (found i) | none ↦ other ])
  unfolding AllFound
  with_index-AllFound none found other h k = k
  with_index-AllFound (some i) found other h k = h i

  with_terms-AllFound :
      (terms : List (List ℕ)) (plain : List (Memory F))
      (ask : List (List ℕ) → Result (List (Memory F)))
      → All (IsCurrent) plain
      → ((ts : List (List ℕ)) → AllFound (ask ts))
      → AllFound (elim terms [ [] ↦ ok plain | t ∷ ts ↦ ask (t ∷ ts) ])
  unfolding AllFound
  with_terms-AllFound [] plain ask h k = h
  with_terms-AllFound (t ∷ ts) plain ask h k = k (t ∷ ts)

  choice-AllFound :
      (b : Bool) (x y : Result (List (Memory F)))
      → AllFound x
      → AllFound y
      → AllFound (if b then x else y)
  choice-AllFound true x y h k = h
  choice-AllFound false x y h k = k

  module _ (now : ℕ) (scopes : List String) where
    -- A current memory that is active, in one of the scopes and valid at the time.
    abbrev pub IsEligible : Memory F → Type 0
    IsEligible m = IsCurrent m × (retrieval_eligible m scopes now ≡ true)

    put_candidate-All :
        (m : Memory F) (cs : List (Memory F))
        → IsEligible m
        → All IsEligible cs
        → All IsEligible (put_candidate m cs)
    unfolding put_candidate
    put_candidate-All m [] h k = (h, tt)
    put_candidate-All m (c ∷ cs) h k = elim (Bool-cases (c.id == m.id)) [
      | inl e ↦ rw e (h, k.1)
      | inr e ↦ rw e (k.0, put_candidate-All m cs h k.1)
    ]

    add_eligible-All :
        (ms cs : List (Memory F))
        → All IsCurrent ms
        → All IsEligible cs
        → All IsEligible (add_eligible now scopes ms cs)
    unfolding add_eligible
    add_eligible-All [] cs h k = k
    add_eligible-All (m ∷ ms) cs h k = elim (Bool-cases (retrieval_eligible m scopes now)) [
      | inl e ↦
          rw e (add_eligible-All ms (put_candidate m cs) h.1 (put_candidate-All m cs (h.0, e) k))
      | inr e ↦ rw e (add_eligible-All ms cs h.1 k)
    ]

module _ {F : Type 0} ⦃host : Host F⦄ (engine : Engine F) (s : Tables F) (w : String) where
  pub candidates-All :
      (now : ℕ) (scopes : List String) (lexical : List (Memory F)) (sem : Semantic F)
      → All (IsCurrent s w) lexical
      → All (IsEligible s w now scopes) (candidates now w scopes lexical sem s)
  unfolding candidates
  candidates-All now scopes lexical sem h =
      add_eligible-All s w now scopes _ _ (get_current_memories-All s w _)
        (add_eligible-All s w now scopes lexical [] h tt)

  matching_rows-All :
      (now : ℕ) (scopes : List String) (n : ℕ) (index : FullText F)
      → All (IsCurrent s w) (matching_rows engine now w scopes n index s)
  unfolding matching_rows
  matching_rows-All now scopes n index = All-take _ n _ (
      All-sort_by _ (IsCurrent s w) _ (
        All-select index.matches (IsCurrent s w) _
          (All-select (in_force now scopes) (IsCurrent s w) _ (All-self _))))

  plain_rows-All :
      (now : ℕ) (scopes : List String) (n : ℕ) (term : String)
      → All (IsCurrent s w) (plain_rows engine now w scopes n term s)
  unfolding plain_rows
  plain_rows-All now scopes n term = All-take _ n _ (
      All-sort_by _ (IsCurrent s w) _ (
        All-select _ (IsCurrent s w) _
          (All-select (in_force now scopes) (IsCurrent s w) _ (All-self _))))

  search-AllFound :
      (now : ℕ) (scopes : List String) (query : String) (limit : ℕ)
      → AllFound s w (search_memory_candidates engine now w scopes query limit s)
  unfolding search_memory_candidates AllFound
  search-AllFound now scopes query limit =
      let n = if nat_eq limit 0 then 100 else limit in
      let term = trimmed query in
      let matching = matching_rows-All now scopes n in
      let plain = plain_rows-All now scopes n in
      choice-AllFound s w (engine.sqlite && is_empty term) _ _ (plain term) (
        choice-AllFound s w engine.sqlite _ _
          (with_index-AllFound s w (engine.full_text (fields (runes term)))
            (λ i. matching_rows engine now w scopes n i s)
            (ok (plain_rows engine now w scopes n term s)) matching (plain term))
          (with_terms-AllFound s w (postgres_ts_query engine term)
            (plain_rows engine now w scopes n "" s) _ (plain "")
            (λ ts.
              with_index-AllFound s w (engine.full_text ts)
                (λ i. matching_rows engine now w scopes n i s) (err engine.refused) matching tt)))

  pub search-All :
      (now : ℕ) (scopes : List String) (query : String) (limit : ℕ) (ms : List (Memory F))
      → search_memory_candidates engine now w scopes query limit s ≡ ok ms
      → All (IsCurrent s w) ms
  unfolding AllFound
  search-All now scopes query limit ms h = rw h at (search-AllFound now scopes query limit)
