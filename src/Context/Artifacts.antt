-- ===== src/Context/Artifacts.antt =====
-- Which artifacts are explicit or relevant, and why one was taken: `explicitArtifact`,
-- `artifactRelevant`, `artifactReasons`, `lexicalScore` of knowledge/service.go, `includes` and
-- `matchesArtifact` of knowledge/sqlstore.go.
use Prim.Native.String.{◌++◌}
use vessica_knowledge_server.Base.{
  ℕ, suc, String, Bool, true, false, not, ◌&&◌, ◌||◌, List, [], ◌∷◌, map, ◌==◌, nat_eq, ltb, length,
  member, if◌then◌else◌,
}
use vessica_knowledge_server.Models.{Artifact, ArtifactSelector}
use vessica_knowledge_server.Models.Retrieval.{ContextRequest}
use vessica_knowledge_server.Service.Host.{Host}
use vessica_knowledge_server.Service.Rules.{is_empty}
use vessica_knowledge_server.Text.{runes, fields, contains}

unfoldable pub includes : List String → String → Bool
includes [] s = true
includes (x ∷ xs) s = member s (x ∷ xs)

abbrev selects : Artifact → ArtifactSelector → Bool
selects a s =
    (is_empty s.id || s.id == a.id)
    && (is_empty s.type || s.type == a.type)
    && (is_empty s.status || s.status == a.status)
    && (nat_eq s.version 0 || nat_eq s.version a.version)

any_selects : Artifact → List ArtifactSelector → Bool
any_selects a [] = false
any_selects a (s ∷ ss) = selects a s || any_selects a ss

unfoldable pub matches_artifact : Artifact → List ArtifactSelector → Bool
unfolding any_selects
matches_artifact a [] = true
matches_artifact a (s ∷ ss) = any_selects a (s ∷ ss)

unfoldable pub explicit_artifact : Artifact → List ArtifactSelector → Bool
explicit_artifact a [] = false
explicit_artifact a (s ∷ ss) =
    not (is_empty s.id) && s.id == a.id
    || ltb 0 s.version && nat_eq s.version a.version
    || explicit_artifact a ss

-- One more reason, if the test holds.
abbrev because : Bool → String → List String → List String
because true reason rest = reason ∷ rest
because false reason rest = rest

selector_reasons : Artifact → List ArtifactSelector → List String → List String
selector_reasons a [] rest = rest
selector_reasons a (s ∷ ss) rest = because (s.id == a.id) "explicit_id" (
    because (nat_eq s.version a.version && ltb 0 s.version) "explicit_version" (
      because (s.type == a.type && not (is_empty s.type)) ("type:" ++ a.type) (
        because (s.status == a.status && not (is_empty s.status)) ("status:" ++ a.status)
          (selector_reasons a ss rest))))

unfoldable pub artifact_reasons : Artifact → ContextRequest → List String → Bool → List String
unfolding selector_reasons includes
artifact_reasons a r entities related =
    "deterministic_artifact_selection"
    ∷ selector_reasons a r.artifact_selectors (
        because (includes r.scope_ids a.scope_id) "applicable_scope"
          (because (ltb 0 (length entities) && related) "entity_relationship" []))

-- `strings.ToLower`, by the table of `unicode.ToLower`
abbrev pub lower : (ℕ → ℕ) → String → List ℕ
lower to_lower s = map to_lower (runes s)

count_hits : List ℕ → List (List ℕ) → ℕ
count_hits text [] = 0
count_hits text (w ∷ ws) =
    let rest = count_hits text ws in if contains text w then suc rest else rest

module _ {F : Type 0} (host : Host F) where
  unfoldable pub lexical_score : String → String → F
  unfolding count_hits
  lexical_score q text =
      let words = fields (lower host.to_lower q) in
      if nat_eq (length words) 0
      then host.ratio 1 10
      else host.div (host.ratio (count_hits (lower host.to_lower text) words) 1)
          (host.ratio (length words) 1)

  unfoldable pub artifact_relevant : Artifact → String → Bool → Bool
  unfolding lexical_score
  artifact_relevant a query related =
      related || host.lt (host.ratio 0 1) (lexical_score query (a.title ++ " " ++ a.content))
