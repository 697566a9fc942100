-- ===== src/Service/Rules.antt =====
-- The value rules of knowledge/service.go.
use vessica_knowledge_server.Base.{String, Bool, none, some, [], ◌∷◌, ◌==◌, member, if◌then◌else◌}
use vessica_knowledge_server.Models.Json.{Metadata, no_members}

abbrev pub is_empty : String → Bool
is_empty s = s == ""

unfoldable pub default_string : String → String → String
default_string a b = if is_empty a then b else a

unfoldable pub valid_object_state : String → Bool
valid_object_state v = member v ("active" ∷ "superseded" ∷ "archived" ∷ "tombstoned" ∷ [])

unfoldable pub valid_artifact_status : String → Bool
valid_artifact_status v = member v ("draft" ∷ "active" ∷ "superseded" ∷ "archived" ∷ [])

unfoldable pub memory_types : String → Bool
memory_types v = member v ("instruction" ∷ "fact" ∷ "decision" ∷ "episode" ∷ [])

unfoldable pub confidence_sources : String → Bool
confidence_sources v =
    member v
      ("human_confirmed" ∷ "agent_inferred" ∷ "imported" ∷ "external_system" ∷ "observed" ∷ [])

unfoldable pub normalize_maps : Metadata → Metadata
normalize_maps none = some no_members
normalize_maps (some m) = some m
