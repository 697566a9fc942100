-- ===== src/Context/Overrides.antt =====
-- The instructions of a context override one another by their semantic key.
use vessica_knowledge_server.Base.{
  ℕ, String, Bool, true, false, ◌||◌, ◌≡◌, ◌⊎◌, inr, refl, ◌==◌, List, [], ◌∷◌, arith, member,
  eq_iff,
}
use vessica_knowledge_server.Models.{Artifact}
use vessica_knowledge_server.Models.Retrieval.{RankedMemory, ContextRequest}
use vessica_knowledge_server.Service.Host.{Host}
use vessica_knowledge_server.Service.Rules.{is_empty}
use vessica_knowledge_server.Context.Assembly.{
  Assembly, explicit_step, relevant_step, memory_step, episode_step, assemble, token_budget,
  nothing_selected, semantic_key, ◌▹◌,
}
use vessica_knowledge_server.Context.Budget.{each_keeps}

module _ {F : Type 0} where
  -- An instruction of the list has the key.
  pub has_key : String → List (RankedMemory F) → Bool
  has_key k [] = false
  has_key k (m ∷ ms) = semantic_key m == k || has_key k ms

  -- Two instructions of the list never share a key, other than the empty one.
  abbrev pub HasDistinctKeys : List (RankedMemory F) → Type 0
  HasDistinctKeys [] = Unit
  HasDistinctKeys (m ∷ ms) =
      ((is_empty (semantic_key m) ≡ true) ⊎ (has_key (semantic_key m) ms ≡ false))
      × HasDistinctKeys ms

  has_key-append :
      (k : String) (ms : List (RankedMemory F)) (m : RankedMemory F)
      → has_key k (ms ▹ m) ≡ (has_key k ms || semantic_key m == k)
  unfolding has_key
  has_key-append k [] m = ground arith
  has_key-append k (x ∷ ms) m = ground (arith, has_key-append k ms m)

  append-HasDistinctKeys :
      (ms : List (RankedMemory F)) (m : RankedMemory F)
      → HasDistinctKeys ms
      → (is_empty (semantic_key m) ≡ true) ⊎ (has_key (semantic_key m) ms ≡ false)
      → HasDistinctKeys (ms ▹ m)
  unfolding has_key
  append-HasDistinctKeys [] m h new = (inr refl, tt)
  append-HasDistinctKeys (x ∷ ms) m h new = ground (
    arith,
    has_key-append (semantic_key x) ms m,
    eq_iff (semantic_key m) (semantic_key x),
    eq_iff (semantic_key x) (semantic_key m),
    eq_iff (semantic_key m) "",
    eq_iff (semantic_key x) "",
    append-HasDistinctKeys ms m h.1,
  )

  -- The keys that `instructionKeys` holds are those of the listed instructions.
  record IsOverriding (st : Assembly F) : Type 0 where
    distinct : HasDistinctKeys st.instructions
    recorded :
        (k : String) → is_empty k ≡ false → has_key k st.instructions ≡ member k st.instruction_keys

  -- The parts of a step that the invariant reads.
  SameInstructions : Assembly F → Assembly F → Type 0
  SameInstructions st st' =
      (st'.instructions ≡ st.instructions) × (st'.instruction_keys ≡ st.instruction_keys)

  same-IsOverriding :
      (st st' : Assembly F) → SameInstructions st st' → IsOverriding st → IsOverriding st'
  unfolding SameInstructions
  same-IsOverriding st st' same h = record {
    distinct = rw same.0 h.distinct;
    recorded = λ k e. rw (same.0, same.1) (h.recorded k e);
  }

module _ {F : Type 0} ⦃host : Host F⦄ (r : ContextRequest) (budget : ℕ) (entities : List String)
    (related : String → Bool) where
  explicit_step-same :
      (a : Artifact) (st : Assembly F)
      → SameInstructions st (explicit_step r budget entities related a st)
  unfolding explicit_step SameInstructions
  explicit_step-same a st = ground arith

  relevant_step-same :
      (a : Artifact) (st : Assembly F)
      → SameInstructions st (relevant_step r budget entities related a st)
  unfolding relevant_step SameInstructions
  relevant_step-same a st = ground arith

module _ {F : Type 0} (budget : ℕ) where
  episode_step-same :
      (m : RankedMemory F) (st : Assembly F) → SameInstructions st (episode_step budget m st)
  unfolding episode_step SameInstructions
  episode_step-same m st = ground arith

  memory_step-IsOverriding :
      (m : RankedMemory F) (st : Assembly F)
      → IsOverriding st
      → IsOverriding (memory_step budget m st)
  unfolding memory_step
  memory_step-IsOverriding m st h = record {
    distinct =
        ground
          (arith, append-HasDistinctKeys st.instructions m h.distinct, h.recorded (semantic_key m));
    recorded = λ k e. ground (
      arith,
      h.recorded k,
      has_key-append k st.instructions m,
      eq_iff (semantic_key m) k,
      eq_iff (semantic_key m) "",
      eq_iff k "",
    );
  }

module _ {F : Type 0} ⦃host : Host F⦄ (r : ContextRequest) (entities : List String)
    (related : String → Bool) (arts : List Artifact) (results : List (RankedMemory F)) where
  -- The instructions of a context never share a semantic key: of those that declare the same one, at
  -- most one is listed.
  pub context_overrides : HasDistinctKeys (assemble r entities related arts results).instructions
  unfolding assemble has_key
  context_overrides =
      let b = token_budget r in
      let start : IsOverriding (nothing_selected {F = F}) = record {
        distinct = tt;
        recorded = λ k e. refl;
      } in
      let last : IsOverriding (assemble r entities related arts results) =
        each_keeps IsOverriding (episode_step b)
          (λ m st. same-IsOverriding st _ (episode_step-same b m st)) results _
          (each_keeps IsOverriding (relevant_step r b entities related)
            (λ a st. same-IsOverriding st _ (relevant_step-same r b entities related a st)) arts _
            (each_keeps IsOverriding (memory_step b) (memory_step-IsOverriding b) results _ (
              each_keeps IsOverriding (explicit_step r b entities related)
                (λ a st. same-IsOverriding st _ (explicit_step-same r b entities related a st)) arts
                _ start))) in
      last.distinct
