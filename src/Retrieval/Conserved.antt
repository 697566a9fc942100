-- ===== src/Retrieval/Conserved.antt =====
-- Whatever the provider answers, no memory is lost, added or repeated.
use Prim.Native.Nat.{min}
use vessica_knowledge_server.Base.{
  ℕ, zero, suc, ◌+◌, ◌≤◌, String, Bool, true, false, not, ◌||◌, ◌≡◌, refl, Option, none, some, List,
  [], ◌∷◌, ◌++◌, ◌==◌, Result, ok, err, map, ltb, nat_eq, length, take, member, eq_iff, arith,
  Bool-cases, Option-cases, inl, inr, ◌&&◌, if◌then◌else◌,
}
use vessica_knowledge_server.Models.Retrieval.{RankedMemory, MemoryRetrievalRequest}
use vessica_knowledge_server.Service.Host.{Host, Service, Reranker, RerankResult}
use vessica_knowledge_server.Retrieval.Rerank.{
  Answer, Placing, nothing_placed, by_id, unseen, explained, rescored, place, mark, confident,
  reorder, asked_provider, maybe_rerank,
}

unfoldable pub one_when : Bool → ℕ
one_when true = 1
one_when false = 0

module _ {F : Type 0} where
  -- How many items have the id.
  unfoldable pub occurrences : String → List (RankedMemory F) → ℕ
  unfolding one_when
  occurrences id [] = 0
  occurrences id (x ∷ xs) = one_when (x.memory.id == id) + occurrences id xs

  occurrences-append :
      (id : String) (xs ys : List (RankedMemory F))
      → occurrences id (xs ++ ys) ≡ occurrences id xs + occurrences id ys
  unfolding occurrences
  occurrences-append id [] ys = omega arith
  occurrences-append id (x ∷ xs) ys = omega (arith, occurrences-append id xs ys)

  occurrences-take :
      (id : String) (n : ℕ) (xs : List (RankedMemory F))
      → occurrences id (take n xs) ≤ occurrences id xs
  unfolding occurrences
  occurrences-take id zero xs = omega arith
  occurrences-take id (suc n) [] = omega arith
  occurrences-take id (suc n) (x ∷ xs) = omega (arith, occurrences-take id n xs)

  occurrences-unseen :
      (id : String) (seen : List String) (xs : List (RankedMemory F))
      → occurrences id (unseen seen xs) ≡ (if member id seen then 0 else occurrences id xs)
  unfolding occurrences unseen one_when
  occurrences-unseen id seen [] = ground arith
  occurrences-unseen id seen (x ∷ xs) =
      ground (arith, occurrences-unseen id seen xs, eq_iff x.memory.id id)

  by_id-occurrences :
      (id : String) (xs : List (RankedMemory F)) (item : RankedMemory F)
      → by_id id xs ≡ some item
      → (item.memory.id ≡ id) × (1 ≤ occurrences id xs)
  unfolding by_id occurrences one_when
  by_id-occurrences id [] item h = cc
  by_id-occurrences id (x ∷ xs) item h =
      ground (arith, h, by_id-occurrences id xs item, eq_iff x.memory.id id)

module _ {F : Type 0} ⦃host : Host F⦄ where
  pub mark-memory : (seen : List String) (x : RankedMemory F) → (mark seen x).memory ≡ x.memory
  unfolding mark explained
  mark-memory [] x = refl
  mark-memory (id ∷ ids) x = ground (arith, mark-memory ids x)

  occurrences-mark :
      (id : String) (seen : List String) (xs : List (RankedMemory F))
      → occurrences id (map (mark seen) xs) ≡ occurrences id xs
  unfolding occurrences
  occurrences-mark id seen [] = refl
  occurrences-mark id seen (x ∷ xs) = rw (mark-memory seen x, occurrences-mark id seen xs) refl

  -- The placed items are those seen, once each, and are candidates.
  IsPlaced : List (RankedMemory F) → Placing F → Type 0
  IsPlaced cands st =
      (id : String)
      → (occurrences id st.ordered ≡ one_when (member id st.seen))
        × (one_when (member id st.seen) ≤ occurrences id cands)

  place_one :
      (cands : List (RankedMemory F)) (st : Placing F) (id : String) (item : RankedMemory F)
      → by_id id cands ≡ some item
      → member id st.seen ≡ false
      → IsPlaced cands st
      → IsPlaced cands (record {
        seen = id ∷ st.seen;
        ordered = st.ordered ++ (rescored (length st.seen + 1) item ∷ []);
      })
  unfolding IsPlaced occurrences one_when rescored explained
  place_one cands st id item found new h k =
      let (same, there) = by_id-occurrences id cands item found in
      ground (
        arith,
        h k,
        same,
        there,
        new,
        occurrences-append k st.ordered (rescored (length st.seen + 1) item ∷ []),
        eq_iff id k,
        eq_iff item.memory.id k,
      )

  -- The rest of the loop, behind the look-up of one id.
  place_next :
      (cands : List (RankedMemory F)) (id : String) (st : Placing F)
      (rest : Placing F → Bool × Placing F) (found : Option (RankedMemory F)) (old : Bool)
      → ((st' : Placing F) → IsPlaced cands st' → IsPlaced cands (rest st').1)
      → IsPlaced cands st
      → by_id id cands ≡ found
      → member id st.seen ≡ old
      → let after : Bool × Placing F = elim found [
        | none ↦ (false, st)
        | some item ↦
            if old
            then (false, st)
            else rest (record {
              seen = id ∷ st.seen;
              ordered = st.ordered ++ (rescored (length st.seen + 1) item ∷ []);
            })
      ] in
        IsPlaced cands after.1
  place_next cands id st rest none old k h e new = h
  place_next cands id st rest (some item) true k h e new = h
  place_next cands id st rest (some item) false k h e new = k _ (place_one cands st id item e new h)

  place-IsPlaced :
      (cands : List (RankedMemory F)) (ids : List String) (st : Placing F)
      → IsPlaced cands st
      → IsPlaced cands (place cands ids st).1
  unfolding place
  place-IsPlaced cands [] st h = h
  place-IsPlaced cands (id ∷ ids) st h =
      place_next cands id st (place cands ids) (by_id id cands) (member id st.seen)
        (place-IsPlaced cands ids) h refl refl

  nothing-IsPlaced : (cands : List (RankedMemory F)) → IsPlaced cands nothing_placed
  unfolding IsPlaced occurrences one_when
  nothing-IsPlaced cands id = (refl, omega arith)

  -- The placed items and the others behind them.
  placed-occurrences :
      (xs : List (RankedMemory F)) (n : ℕ) (st : Placing F) (id : String)
      → occurrences id xs ≤ 1
      → IsPlaced (take n xs) st
      → occurrences id (st.ordered ++ unseen st.seen xs) ≡ occurrences id xs
  unfolding IsPlaced one_when
  placed-occurrences xs n st id once h = ground (
    arith,
    once,
    h id,
    occurrences-append id st.ordered (unseen st.seen xs),
    occurrences-unseen id st.seen xs,
    occurrences-take id n xs,
  )

  reorder-occurrences :
      (provider : Reranker F) (latency n : ℕ) (answer : Result RerankResult) (a : Answer F)
      (id : String)
      → occurrences id a.results ≤ 1
      → occurrences id (reorder provider latency n answer a).results ≡ occurrences id a.results
  unfolding reorder
  reorder-occurrences provider latency n (err f) a id once = refl
  reorder-occurrences provider latency n (ok result) a id once =
      let placed = place (take n a.results) result.ids nothing_placed in
      let h =
        place-IsPlaced (take n a.results) result.ids nothing_placed
          (nothing-IsPlaced (take n a.results)) in
      elim (Bool-cases (not placed.0 || nat_eq (length placed.1.ordered) 0)) [
        | inl bad ↦ rw bad (occurrences-mark id placed.1.seen a.results)
        | inr good ↦ rw good (placed-occurrences a.results n placed.1 id once h)
      ]

  asked_provider-occurrences :
      (provider : Reranker F) (latency : ℕ) (r : MemoryRetrievalRequest) (a : Answer F)
      (id : String)
      → occurrences id a.results ≤ 1
      → occurrences id (asked_provider provider latency r a).results ≡ occurrences id a.results
  unfolding asked_provider
  asked_provider-occurrences provider latency r a id once =
      let n = min (length a.results) 12 in
      elim (Bool-cases (ltb n 3)) [
        | inl few ↦ rw few refl
        | inr enough ↦ elim (Bool-cases (r.rerank == "auto" && confident r.query a.results)) [
          | inl sure ↦ rw (enough, sure) refl
          | inr unsure ↦ rw (enough, unsure) (reorder-occurrences provider latency n _ a id once)
        ]
      ]

module _ {F : Type 0} ⦃host : Host F⦄ (svc : Service F) (latency : ℕ) (r : MemoryRetrievalRequest)
    (a : Answer F) where
  -- Whatever the provider answers and whatever the request asks: an id that occurs at most once in the
  -- results occurs as often after `maybeRerank` as before it.
  pub maybe_rerank-occurrences :
      (id : String)
      → occurrences id a.results ≤ 1
      → occurrences id (maybe_rerank svc latency r a).results ≡ occurrences id a.results
  unfolding maybe_rerank
  maybe_rerank-occurrences id once = elim (Bool-cases (r.rerank == "never")) [
    | inl never ↦ rw never refl
    | inr asked ↦ elim (Option-cases svc.reranker) [
      | inl absent ↦ rw (asked, absent) refl
      | inr (provider, there) ↦
          rw (asked, there) (asked_provider-occurrences provider latency r a id once)
    ]
  ]
