-- ===== src/Retrieval/Subjects.antt =====
-- What the names in a query say about the candidates: `memoryMentionsEntity`,
-- `ambiguousCandidateSubjects` and `canonicalCandidateSubject` of knowledge/retrieval.go. A subject is
-- trimmed and in lower case where it is compared.
use Prim.Native.String.{◌++◌}
use vessica_knowledge_server.Base.{
  ℕ, String, Bool, true, false, not, ◌&&◌, ◌||◌, Option, none, some, List, [], ◌∷◌, ◌==◌, ltb,
  length, map, if◌then◌else◌,
}
use vessica_knowledge_server.Models.{Memory, Entity}
use vessica_knowledge_server.Models.Retrieval.{RankedMemory}
use vessica_knowledge_server.Text.{runes, contains, trim_space, same_runes}
use vessica_knowledge_server.Context.Artifacts.{lower}
use vessica_knowledge_server.Service.Host.{Host}

abbrev pub no_runes : List ℕ → Bool
no_runes [] = true
no_runes (c ∷ cs) = false

-- An assignment to a key of a map from texts to texts.
abbrev put_match : List ℕ → List ℕ → List (List ℕ × List ℕ) → List (List ℕ × List ℕ)
put_match key v [] = (key, v) ∷ []
put_match key v ((k, u) ∷ rest) =
    if same_runes k key then (k, v) ∷ rest else (k, u) ∷ put_match key v rest

module _ {F : Type 0} (host : Host F) where
  -- The name in lower case, if it is not blank and stands in the text.
  names_in : List ℕ → List String → Bool
  names_in text [] = false
  names_in text (n ∷ ns) =
      let name = trim_space (lower host.to_lower n) in
      not (no_runes name) && contains text name || names_in text ns

  any_named : List ℕ → List Entity → Bool
  unfolding names_in
  any_named text [] = false
  any_named text (e ∷ es) = names_in text (e.display_name ∷ e.aliases) || any_named text es

  unfoldable pub memory_mentions_entity : Memory F → List Entity → Bool
  unfolding any_named
  memory_mentions_entity m entities =
      any_named (lower host.to_lower (m.subject ++ " " ++ m.title ++ " " ++ m.content)) entities

  -- The loop over `candidates`; `matches` maps a subject in lower case to the subject.
  subject_matches : List ℕ → List (Memory F) → List (List ℕ × List ℕ) → List (List ℕ × List ℕ)
  subject_matches query [] matches = matches
  subject_matches query (m ∷ ms) matches =
      let subject = trim_space (runes m.subject) in
      let key = map host.to_lower subject in
      subject_matches query ms (
        if not (no_runes subject) && contains query key
        then put_match key subject matches
        else matches)

  -- The one subject that the query names; no runes if it names none or several.
  unfoldable pub canonical_candidate_subject : String → List (Memory F) → List ℕ
  unfolding subject_matches
  canonical_candidate_subject query candidates =
      elim (subject_matches (lower host.to_lower query) candidates []) [
        | [] ↦ []
        | (key, subject) ∷ rest ↦ elim rest [ [] ↦ subject | _ ∷ _ ↦ [] ]
      ]

  add_subject : List ℕ → List (List ℕ) → List (List ℕ)
  add_subject s [] = s ∷ []
  add_subject s (t ∷ ts) = if same_runes t s then t ∷ ts else t ∷ add_subject s ts

  -- The loop over `ranked`: `none` if a subject stands in the query.
  unnamed_subjects : List ℕ → List (RankedMemory F) → List (List ℕ) → Option (List (List ℕ))
  unfolding add_subject
  unnamed_subjects query [] subjects = some subjects
  unnamed_subjects query (x ∷ xs) subjects =
      let subject = trim_space (lower host.to_lower x.memory.subject) in
      let skipped = unnamed_subjects query xs subjects in
      let added = unnamed_subjects query xs (add_subject subject subjects) in
      if x.memory.type == "episode" || no_runes subject
      then skipped
      else if contains query subject
      then none
      else added

  unfoldable pub ambiguous_candidate_subjects : String → List (RankedMemory F) → Bool
  unfolding unnamed_subjects
  ambiguous_candidate_subjects query ranked =
      elim (unnamed_subjects (lower host.to_lower query) ranked []) [
        | none ↦ false
        | some subjects ↦ ltb 1 (length subjects)
      ]
