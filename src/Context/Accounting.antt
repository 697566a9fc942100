-- ===== src/Context/Accounting.antt =====
-- No candidate of a context is dropped in silence.
use Prim.Native.String.{◌++◌}
use vessica_knowledge_server.Base.{
  ℕ, ◌+◌, String, Bool, true, false, not, ◌≡◌, ◌==◌, List, [], ◌∷◌, arith, length, All,
  length-append, eq_iff, ◌⊎◌,
}
use vessica_knowledge_server.Models.{Artifact}
use vessica_knowledge_server.Models.Retrieval.{RankedMemory, ContextRequest}
use vessica_knowledge_server.Service.Host.{Host}
use vessica_knowledge_server.Service.Rules.{memory_types}
use vessica_knowledge_server.Context.Artifacts.{explicit_artifact}
use vessica_knowledge_server.Context.Assembly.{
  Assembly, each, explicit_step, relevant_step, memory_step, episode_step, assemble, token_budget,
  nothing_selected, ◌▹◌,
}

length-▹ : {A : Type 0} (xs : List A) (x : A) → length (xs ▹ x) ≡ length xs + 1
length-▹ xs x = length-append xs (x ∷ [])

-- What a response lists and what it reports as omitted.
abbrev pub entries : {F : Type 0} → Assembly F → ℕ
entries st =
    length st.artifacts
    + length st.instructions
    + length st.decisions
    + length st.facts
    + length st.episodes
    + length st.omissions

one_if : Bool → ℕ
one_if true = 1
one_if false = 0

-- The number of elements that pass a test.
count : {A : Type 0} → (A → Bool) → List A → ℕ
unfolding one_if
count p [] = 0
count p (x ∷ xs) = one_if (p x) + count p xs

count-complement :
    {A : Type 0} (p : A → Bool) (xs : List A) → count p xs + count (λ x. not (p x)) xs ≡ length xs
unfolding count one_if
count-complement p [] = omega arith
count-complement p (x ∷ xs) = ground (arith, count-complement p xs)

-- A loop whose steps each add one entry for an element that passes, and none for another.
each-entries :
    {F A : Type 0} (Q : A → Type 0) (p : A → Bool) (step : A → Assembly F → Assembly F)
    → ((a : A) (st : Assembly F) → Q a → entries (step a st) ≡ entries st + one_if (p a))
    → (xs : List A) (st : Assembly F) → All Q xs
    → entries (each step xs st) ≡ entries st + count p xs
unfolding each count
each-entries Q p step adds [] st q = omega arith
each-entries Q p step adds (x ∷ xs) st q =
    omega (arith, each-entries Q p step adds xs (step x st) q.1, adds x st q.0)

-- The memory has one of the four types that `CreateMemory` admits.
abbrev pub IsKnown : {F : Type 0} → RankedMemory F → Type 0
IsKnown m = memory_types m.memory.type ≡ true

abbrev is_episode : {F : Type 0} → RankedMemory F → Bool
is_episode m = m.memory.type == "episode"

units : {A : Type 0} (xs : List A) → All (λ _. Unit {0}) xs
units [] = tt
units (x ∷ xs) = (tt, units xs)

module _ {F : Type 0} ⦃host : Host F⦄ (r : ContextRequest) (budget : ℕ) (entities : List String)
    (related : String → Bool) where
  explicit_step-entries :
      (a : Artifact) (st : Assembly F)
      → entries (explicit_step r budget entities related a st)
        ≡ entries st + one_if (explicit_artifact a r.artifact_selectors)
  unfolding explicit_step one_if
  explicit_step-entries a st = grind (arith, length-▹)

  relevant_step-entries :
      (a : Artifact) (st : Assembly F)
      → entries (relevant_step r budget entities related a st)
        ≡ entries st + one_if (not (explicit_artifact a r.artifact_selectors))
  unfolding relevant_step one_if
  relevant_step-entries a st = grind (arith, length-▹)

-- The types by name, in the order that the second loop tests them.
known-cases :
    (t : String)
    → memory_types t ≡ true
    → (t == "episode" ≡ true)
      ⊎ ((t == "instruction" ≡ true) ⊎ ((t == "decision" ≡ true) ⊎ (t == "fact" ≡ true)))
unfolding memory_types
known-cases t h = ground (
  arith,
  eq_iff t "episode",
  eq_iff t "instruction",
  eq_iff t "decision",
  eq_iff t "fact",
  eq_iff "episode" t,
  eq_iff "instruction" t,
  eq_iff "decision" t,
  eq_iff "fact" t,
)

module _ {F : Type 0} (budget : ℕ) where
  memory_step-entries :
      (m : RankedMemory F) (st : Assembly F)
      → IsKnown m
      → entries (memory_step budget m st) ≡ entries st + one_if (not (is_episode m))
  unfolding memory_step one_if
  memory_step-entries m st h = ground (
    arith,
    known-cases m.memory.type h,
    length-▹ st.instructions m,
    length-▹ st.decisions m,
    length-▹ st.facts m,
    length-▹ st.omissions ("memory:token_budget:" ++ m.memory.id),
    length-▹ st.omissions ("instruction_override:" ++ m.memory.id),
  )

  episode_step-entries :
      (m : RankedMemory F) (st : Assembly F)
      → entries (episode_step budget m st) ≡ entries st + one_if (is_episode m)
  unfolding episode_step one_if
  episode_step-entries m st = grind (arith, length-▹)

module _ {F : Type 0} ⦃host : Host F⦄ (r : ContextRequest) (entities : List String)
    (related : String → Bool) (arts : List Artifact) (results : List (RankedMemory F)) where
  -- If every ranked memory has one of the four types, then each candidate artifact and each ranked
  -- memory is accounted for: the lists of the response and its omissions have as many entries together
  -- as there were candidates.
  pub context_accounting :
      All IsKnown results
      → entries (assemble r entities related arts results) ≡ length arts + length results
  unfolding assemble
  context_accounting known =
      let b = token_budget r in
      let explicit = λ (a : Artifact). explicit_artifact a r.artifact_selectors in
      let start : Assembly F = nothing_selected in
      let s1 = each (explicit_step r b entities related) arts start in
      let s2 = each (memory_step b) results s1 in
      let s3 = each (relevant_step r b entities related) arts s2 in
      omega (
        arith,
        each-entries (λ _. Unit {0}) explicit (explicit_step r b entities related)
            (λ a st _. explicit_step-entries r b entities related a st) arts start (units arts),
        each-entries IsKnown (λ m. not (is_episode m)) (memory_step b) (memory_step-entries b)
            results s1 known,
        each-entries (λ _. Unit {0}) (λ a. not (explicit a)) (relevant_step r b entities related)
            (λ a st _. relevant_step-entries r b entities related a st) arts s2 (units arts),
        each-entries (λ _. Unit {0}) is_episode (episode_step b)
            (λ m st _. episode_step-entries b m st) results s3 (units results),
        count-complement explicit arts,
        count-complement is_episode results,
      )
