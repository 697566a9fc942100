-- ===== src/Retrieval/Rerank.antt =====
-- `retrievalEligible`, `reciprocalRank`, `canonicalSubjectMatch` and `maybeRerank` of
-- knowledge/retrieval.go. The memories of a response have distinct ids there, as the keys of the map
-- `candidates`.
use Prim.Native.Nat.{min}
use mathlib.Core.List
use vessica_knowledge_server.Base.{
  ℕ, ◌+◌, String, Bool, true, false, not, ◌&&◌, ◌||◌, Option, none, some, List, [], ◌∷◌, ◌==◌,
  Result, ok, err, map, ltb, leb, nat_eq, length, take, member, if◌then◌else◌,
}
use vessica_knowledge_server.Models.{Memory}
use vessica_knowledge_server.Models.Retrieval.{RankedMemory, MemoryRetrievalRequest, RerankMetadata}
use vessica_knowledge_server.Service.Host.{Host, Service, Reranker, RerankResult}
use vessica_knowledge_server.Text.{contains, trim_space}
use vessica_knowledge_server.Context.Artifacts.{includes, lower}

unfoldable pub not_after : ℕ → Option ℕ → Bool
not_after now none = true
not_after now (some t) = leb t now

unfoldable pub not_before : ℕ → Option ℕ → Bool
not_before now none = true
not_before now (some t) = leb now t

unfoldable pub retrieval_eligible : {F : Type 0} → Memory F → List String → ℕ → Bool
unfolding not_after not_before
retrieval_eligible m scopes now =
    if not (m.state == "active") || not (includes scopes m.scope_id)
    then false
    else not_after now m.valid_from && not_before now m.valid_until

-- The fields of `MemoryRetrievalResponse` that `maybeRerank` reads and changes.
pub record Answer (F : Type 0) : Type 0 where
  pub results : List (RankedMemory F)
  pub rerank : RerankMetadata

-- The loop over `result.IDs`: the ids seen, the last one first, and `ordered`.
pub record Placing (F : Type 0) : Type 0 where
  pub seen : List String
  pub ordered : List (RankedMemory F)

abbrev pub nothing_placed : {F : Type 0} → Placing F
nothing_placed = record { seen = []; ordered = [] }

module _ {F : Type 0} where
  -- `byID[id]`
  unfoldable pub by_id : String → List (RankedMemory F) → Option (RankedMemory F)
  by_id id [] = none
  by_id id (x ∷ xs) = if x.memory.id == id then some x else by_id id xs

  -- The items whose id is not in `seen`.
  unfoldable pub unseen : List String → List (RankedMemory F) → List (RankedMemory F)
  unseen seen [] = []
  unseen seen (x ∷ xs) =
      let rest = unseen seen xs in if member x.memory.id seen then rest else x ∷ rest

  abbrev pub with_reason : String → Answer F → Answer F
  with_reason reason a = record a { rerank = record a.rerank { reason = reason } }

-- An assignment to a key of a map.
abbrev pub set_entry : {F : Type 0} → String → F → List (String × F) → List (String × F)
set_entry key v [] = (key, v) ∷ []
set_entry key v ((k, w) ∷ r) = if k == key then (k, v) ∷ r else (k, w) ∷ set_entry key v r

module _ {F : Type 0} ⦃host : Host F⦄ where
  unfoldable pub reciprocal_rank : ℕ → F
  reciprocal_rank rank =
      if nat_eq rank 0
      then host.ratio 0 1
      else host.div (host.ratio 61 1) (host.ratio (60 + rank) 1)

  unfoldable pub canonical_subject_match : String → Memory F → Bool
  canonical_subject_match query m =
      let occurs = λ (text : String).
        let candidate = trim_space (lower host.to_lower text) in
        not (nat_eq (length candidate) 0) && contains (lower host.to_lower query) candidate in
      occurs m.subject || occurs m.title

  -- `item.Explanation["reranker"] = reciprocalRank(index + 1)`
  unfoldable pub explained : ℕ → RankedMemory F → RankedMemory F
  explained rank x = record x {
    explanation = set_entry "reranker" (reciprocal_rank rank) x.explanation;
  }

  unfoldable pub rescored : ℕ → RankedMemory F → RankedMemory F
  unfolding explained
  rescored rank x = record (explained rank x) {
    score =
        host.add (host.mul (host.ratio 7 10) (reciprocal_rank rank))
          (host.mul (host.ratio 3 10) x.score);
  }

  -- The loop from the index `length seen` on; false if an id is unknown or repeated.
  unfoldable pub place : List (RankedMemory F) → List String → Placing F → Bool × Placing F
  unfolding by_id rescored
  place candidates [] st = (true, st)
  place candidates (id ∷ ids) st = elim (by_id id candidates) [
    | none ↦ (false, st)
    | some item ↦
        if member id st.seen
        then (false, st)
        else place candidates ids (record {
          seen = id ∷ st.seen;
          ordered = List.◌++◌ st.ordered (rescored (length st.seen + 1) item ∷ []);
        })
  ]

  -- The explanation of an item is a map that its copies share: it keeps the rank of a placed item also if
  -- the loop gives up. `seen` has the last id first.
  unfoldable pub mark : List String → RankedMemory F → RankedMemory F
  unfolding explained
  mark [] x = x
  mark (id ∷ ids) x =
      let rest = mark ids x in if x.memory.id == id then explained (length ids + 1) x else rest

  -- `request.Rerank == "auto"` asks no provider if the first result leads clearly and is named in the query.
  unfoldable pub confident : String → List (RankedMemory F) → Bool
  unfolding canonical_subject_match
  confident query (x ∷ y ∷ rest) =
      let margin = host.sub x.score y.score in
      (host.lt (host.ratio 8 100) margin || host.eq (host.ratio 8 100) margin)
      && canonical_subject_match query x.memory
  confident query _ = false

  -- What the answer of the provider does to the results; `n` is the number of candidates.
  unfoldable pub reorder : Reranker F → ℕ → ℕ → Result RerankResult → Answer F → Answer F
  unfolding place unseen mark
  reorder provider latency n (err _) a = record a {
    rerank = record {
      applied = false;
      model = provider.model;
      reason = "provider_error";
      candidate_count = n;
      latency_ms = latency;
      input_tokens = 0;
      output_tokens = 0;
    };
  }
  reorder provider latency n (ok result) a =
      let (valid, st) = place (take n a.results) result.ids nothing_placed in
      if not valid || nat_eq (length st.ordered) 0
      then record {
        results = map (mark st.seen) a.results;
        rerank = record {
          applied = false;
          model = provider.model;
          reason = "invalid_provider_result";
          candidate_count = n;
          latency_ms = latency;
          input_tokens = 0;
          output_tokens = 0;
        };
      }
      else record {
        results = List.◌++◌ st.ordered (unseen st.seen a.results);
        rerank = record {
          applied = true;
          model = provider.model;
          reason = "ambiguous_hybrid_candidates";
          candidate_count = n;
          latency_ms = latency;
          input_tokens = result.input_tokens;
          output_tokens = result.output_tokens;
        };
      }

  unfoldable pub asked_provider : Reranker F → ℕ → MemoryRetrievalRequest → Answer F → Answer F
  unfolding confident reorder
  asked_provider provider latency r a =
      let n = min (length a.results) 12 in
      if ltb n 3
      then with_reason "insufficient_candidates" a
      else if r.rerank == "auto" && confident r.query a.results
      then with_reason "confident_hybrid_match" a
      else reorder provider latency n
          (provider.rerank r.query (map (λ x. x.memory) (take n a.results))) a

  -- `latency` is the time that the provider takes.
  unfoldable pub maybe_rerank : Service F → ℕ → MemoryRetrievalRequest → Answer F → Answer F
  unfolding asked_provider
  maybe_rerank svc latency r a =
      if r.rerank == "never"
      then with_reason "request_disabled" a
      else elim svc.reranker [ none ↦ a | some provider ↦ asked_provider provider latency r a ]
