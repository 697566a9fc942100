-- ===== src/Retrieval/Kept.antt =====
-- A property of the memories that holds of all ranked memories holds of all that `maybeRerank` answers.
use Prim.Native.Nat.{min}
use vessica_knowledge_server.Base.{
  ℕ, ◌+◌, String, Bool, true, false, not, ◌||◌, ◌&&◌, ◌≡◌, refl, Option, none, some, List, [], ◌∷◌,
  ◌++◌, ◌==◌, Result, ok, err, map, ltb, nat_eq, length, take, member, All, All-append, All-take,
  Bool-cases, Option-cases, inl, inr, if◌then◌else◌,
}
use vessica_knowledge_server.Models.{Memory}
use vessica_knowledge_server.Models.Retrieval.{RankedMemory, MemoryRetrievalRequest}
use vessica_knowledge_server.Service.Host.{Host, Service, Reranker, RerankResult}
use vessica_knowledge_server.Retrieval.Rerank.{
  Answer, Placing, nothing_placed, by_id, unseen, explained, rescored, place, mark, confident,
  reorder, asked_provider, maybe_rerank,
}
use vessica_knowledge_server.Retrieval.Conserved.{mark-memory}

same_item : {F : Type 0} {x y : RankedMemory F} → some x ≡ some y → x ≡ y
same_item e = cc

module _ {F : Type 0} (P : Memory F → Type 0) where
  abbrev pub AllRanked : List (RankedMemory F) → Type 0
  AllRanked xs = All (λ x. P x.memory) xs

  unseen-All :
      (seen : List String) (xs : List (RankedMemory F)) → AllRanked xs → AllRanked (unseen seen xs)
  unfolding unseen
  unseen-All seen [] h = tt
  unseen-All seen (x ∷ xs) h = elim (Bool-cases (member x.memory.id seen)) [
    | inl e ↦ rw e (unseen-All seen xs h.1)
    | inr e ↦ rw e (h.0, unseen-All seen xs h.1)
  ]

  by_id-All :
      (id : String) (xs : List (RankedMemory F)) (item : RankedMemory F)
      → AllRanked xs
      → by_id id xs ≡ some item
      → P item.memory
  unfolding by_id
  by_id-All id [] item h e = cc
  by_id-All id (x ∷ xs) item h e = elim (Bool-cases (x.memory.id == id)) [
    | inl here ↦ let same : some x ≡ some item = rw here at e in rw (← same_item same) h.0
    | inr past ↦ by_id-All id xs item h.1 (rw past at e)
  ]

module _ {F : Type 0} ⦃host : Host F⦄ (P : Memory F → Type 0) where
  mark-All :
      (seen : List String) (xs : List (RankedMemory F))
      → AllRanked P xs
      → AllRanked P (map (mark seen) xs)
  mark-All seen [] h = tt
  mark-All seen (x ∷ xs) h = (rw (mark-memory seen x) h.0, mark-All seen xs h.1)

  place_next-All :
      (cands : List (RankedMemory F)) (st : Placing F) (id : String)
      (found : Option (RankedMemory F)) (old : Bool) (rest : Placing F → Bool × Placing F)
      → AllRanked P st.ordered
      → ((item : RankedMemory F) → found ≡ some item → P item.memory)
      → ((st' : Placing F) → AllRanked P st'.ordered → AllRanked P (rest st').1.ordered)
      → let after : Bool × Placing F = elim found [
        | none ↦ (false, st)
        | some item ↦
            if old
            then (false, st)
            else rest (record {
              seen = id ∷ st.seen;
              ordered = st.ordered ++ (rescored (length st.seen + 1) item ∷ []);
            })
      ] in
        AllRanked P after.1.ordered
  unfolding rescored explained
  place_next-All cands st id none old rest h k next = h
  place_next-All cands st id (some item) true rest h k next = h
  place_next-All cands st id (some item) false rest h k next =
      next _ (All-append (λ x. P x.memory) st.ordered _ h (k item refl, tt))

  place-All :
      (cands : List (RankedMemory F)) (ids : List String) (st : Placing F)
      → AllRanked P cands
      → AllRanked P st.ordered
      → AllRanked P (place cands ids st).1.ordered
  unfolding place
  place-All cands [] st c h = h
  place-All cands (id ∷ ids) st c h =
      place_next-All cands st id (by_id id cands) (member id st.seen) (place cands ids) h
        (λ item e. by_id-All P id cands item c e) (λ st' k. place-All cands ids st' c k)

  reorder-All :
      (provider : Reranker F) (latency n : ℕ) (answer : Result RerankResult) (a : Answer F)
      → AllRanked P a.results
      → AllRanked P (reorder provider latency n answer a).results
  unfolding reorder
  reorder-All provider latency n (err f) a h = h
  reorder-All provider latency n (ok result) a h =
      let placed = place (take n a.results) result.ids nothing_placed in
      elim (Bool-cases (not placed.0 || nat_eq (length placed.1.ordered) 0)) [
        | inl bad ↦ rw bad (mark-All placed.1.seen a.results h)
        | inr good ↦ rw good (
            All-append (λ x. P x.memory) placed.1.ordered _
              (place-All (take n a.results) result.ids nothing_placed (All-take _ n a.results h) tt)
              (unseen-All P placed.1.seen a.results h))
      ]

  asked_provider-All :
      (provider : Reranker F) (latency : ℕ) (r : MemoryRetrievalRequest) (a : Answer F)
      → AllRanked P a.results
      → AllRanked P (asked_provider provider latency r a).results
  unfolding asked_provider
  asked_provider-All provider latency r a h =
      let n = min (length a.results) 12 in
      elim (Bool-cases (ltb n 3)) [
        | inl few ↦ rw few h
        | inr enough ↦ elim (Bool-cases (r.rerank == "auto" && confident r.query a.results)) [
          | inl sure ↦ rw (enough, sure) h
          | inr unsure ↦ rw (enough, unsure) (reorder-All provider latency n _ a h)
        ]
      ]

  pub maybe_rerank-All :
      (svc : Service F) (latency : ℕ) (r : MemoryRetrievalRequest) (a : Answer F)
      → AllRanked P a.results
      → AllRanked P (maybe_rerank svc latency r a).results
  unfolding maybe_rerank
  maybe_rerank-All svc latency r a h = elim (Bool-cases (r.rerank == "never")) [
    | inl never ↦ rw never h
    | inr asked ↦ elim (Option-cases svc.reranker) [
      | inl absent ↦ rw (asked, absent) h
      | inr (provider, there) ↦ rw (asked, there) (asked_provider-All provider latency r a h)
    ]
  ]
