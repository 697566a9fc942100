-- ===== src/Retrieval/Available.antt =====
-- `RetrieveMemories` of knowledge/retrieval.go answers, whatever the index and the providers do.
use vessica_knowledge_server.Base.{pos}
use vessica_knowledge_server.Base.{
  ℕ, ◌≤◌, String, Bool, true, false, ◌&&◌, ◌≡◌, refl, ap, Option, none, some, List, [], ◌∷◌, Result,
  ok, nat_eq, member, arith, if◌then◌else◌,
}
use vessica_knowledge_server.Text.{trimmed, fields, runes}
use vessica_knowledge_server.Models.Retrieval.{MemoryRetrievalRequest, MemoryRetrievalResponse}
use vessica_knowledge_server.Store.Tables.{Tables}
use vessica_knowledge_server.Service.Host.{Host, Service}
use vessica_knowledge_server.Service.Rules.{is_empty, default_string}
use vessica_knowledge_server.Retrieval.Search.{
  Engine, FullText, search_memory_candidates, matching_rows, plain_rows,
}
use vessica_knowledge_server.Retrieval.Candidates.{semantic_scores}
use vessica_knowledge_server.Retrieval.Answers.{limit_of}
use vessica_knowledge_server.Retrieval.Retrieve.{
  World, check_request, expand_scopes, retrieve_in, ranked_candidates, retrieval_response,
  retrieve_memories,
}

-- The request names a workspace, at most 100 results, and one of the three modes of reranking, if any.
abbrev pub IsValid : MemoryRetrievalRequest → Type 0
IsValid r =
    (is_empty r.workspace_id ≡ false)
    × (limit_of r ≤ 100)
    × (member (default_string r.rerank "auto") ("auto" ∷ "never" ∷ "always" ∷ []) ≡ true)

abbrev checked : MemoryRetrievalRequest → MemoryRetrievalRequest
checked r = record r {
  query = trimmed r.query;
  limit = pos (limit_of r);
  rerank = default_string r.rerank "auto";
}

check_request-valid : (r : MemoryRetrievalRequest) → IsValid r → check_request r ≡ ok (checked r)
unfolding check_request
check_request-valid r h = ground (arith, h)

-- The call succeeded.
abbrev IsOk : {A : Type 0} → Result A → Type 0
IsOk {A} r = (a : A) × (r ≡ ok a)

choice-IsOk : {A : Type 0} (b : Bool) (x y : Result A) → IsOk x → IsOk y → IsOk (if b then x else y)
choice-IsOk true x y h k = h
choice-IsOk false x y h k = k

first-IsOk :
    {A : Type 0} (b : Bool) (x y : Result A) → b ≡ true → IsOk x → IsOk (if b then x else y)
first-IsOk true x y e h = h
first-IsOk false x y e h = cc

index-IsOk :
    {F A : Type 0} (index : Option (FullText F)) (found : FullText F → A) (plain : A)
    → IsOk {A = A} (elim index [ some i ↦ ok (found i) | none ↦ ok plain ])
index-IsOk none found plain = (plain, refl)
index-IsOk (some i) found plain = (found i, refl)

module _ {F : Type 0} ⦃host : Host F⦄ where
  -- SQLite falls back to LIKE.
  search-IsOk :
      (engine : Engine F) (now : ℕ) (w : String) (scopes : List String) (query : String) (limit : ℕ)
      (s : Tables F)
      → engine.sqlite ≡ true
      → IsOk (search_memory_candidates engine now w scopes query limit s)
  unfolding search_memory_candidates
  search-IsOk engine now w scopes query limit s lite =
      let n = if nat_eq limit 0 then 100 else limit in
      let term = trimmed query in
      choice-IsOk (engine.sqlite && is_empty term) _ _
        (plain_rows engine now w scopes n term s, refl)
        (first-IsOk engine.sqlite _ _ lite (
          index-IsOk (engine.full_text (fields (runes term)))
            (λ i. matching_rows engine now w scopes n i s)
            (plain_rows engine now w scopes n term s)))

  module _ (svc : Service F) (world : World F) where
    retrieve_in-IsOk :
        (s : Tables F) (r : MemoryRetrievalRequest)
        → world.engine.sqlite ≡ true
        → IsOk (retrieve_in svc world s r)
    unfolding retrieve_in
    retrieve_in-IsOk s r lite =
        let (lexical, e) =
          search-IsOk world.engine world.now r.workspace_id r.scope_ids r.query 50 s lite in
        let sem = semantic_scores svc world.engine world.now r.workspace_id r.scope_ids r.query s in
        (
          retrieval_response svc world s r sem (ranked_candidates svc world s r lexical sem),
          rw (retrieve_in, e) refl,
        )

    -- On SQLite, `RetrieveMemories` answers each request that names a workspace, asks for at most 100
    -- results and for a known mode of reranking, and gives no scopes: neither the full-text index nor the
    -- embedder nor the reranker can make it fail.
    pub retrieve_memories-answers :
        (s : Tables F) (request : MemoryRetrievalRequest)
        → IsValid request
        → request.scope_ids ≡ []
        → world.engine.sqlite ≡ true
        → (response : MemoryRetrievalResponse F) × (retrieve_memories svc world s request
            ≡ some (ok response))
    unfolding retrieve_memories expand_scopes
    retrieve_memories-answers s request valid bare lite =
        let (response, e) = retrieve_in-IsOk s (record (checked request) { scope_ids = [] }) lite in
        (response, rw (retrieve_memories, check_request-valid request valid, bare) (ap some e))
