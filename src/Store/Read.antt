-- ===== src/Store/Read.antt =====
-- The queries by key of knowledge/sqlstore.go.
use vessica_knowledge_server.Base.{
  ℕ, zero, suc, String, Option, none, some, List, [], ◌∷◌, ◌&&◌, ◌==◌, Result, ok, err, not_found,
  Action, if◌then◌else◌,
}
use vessica_knowledge_server.Models.{Scope, Entity, Artifact, Memory, Relationship, Event}
use vessica_knowledge_server.Store.Table.{Row, Table, find_row, get_current}
use vessica_knowledge_server.Store.Tables.{
  Tables, entity_row, artifact_row, memory_row, relationship_row,
}

-- `sql.ErrNoRows` becomes a `NotFound`.
abbrev pub or_missing : {A : Type 0} → String → Option A → Result A
or_missing m none = err (not_found m)
or_missing m (some v) = ok v

module _ {A : Type 0} ⦃row : Row A⦄ where
  -- A version of 0 asks for the current one.
  unfoldable pub get_version : String → String → ℕ → Table A → Option A
  unfolding get_current find_row
  get_version w i zero t = get_current w i t
  get_version w i (suc n) t = find_row w i (suc n) t.rows

unfoldable pub find_by_id : String → String → List Scope → Option Scope
find_by_id w i [] = none
find_by_id w i (v ∷ vs) = if v.workspace_id == w && v.id == i then some v else find_by_id w i vs

unfoldable pub find_by_key : String → String → List Scope → Option Scope
find_by_key w i [] = none
find_by_key w i (v ∷ vs) =
    if v.workspace_id == w && v.canonical_key == i then some v else find_by_key w i vs

abbrev pub or_else : {A : Type 0} → Option A → Option A → Option A
or_else (some v) later = some v
or_else none later = later

-- `id=? OR canonical_key=?` without ORDER BY: SQLite looks the ids up first, then the keys.
unfoldable pub find_scope : String → String → List Scope → Option Scope
unfolding find_by_id find_by_key
find_scope w i vs = or_else (find_by_id w i vs) (find_by_key w i vs)

module _ {F : Type 0} where
  -- `GetScope`, by id or canonical key.
  unfoldable pub get_scope : String → String → Action (Tables F) Scope
  get_scope w i s = (or_missing "scope not found" (find_scope w i s.scopes), s)

  unfoldable pub get_entity : String → String → Action (Tables F) Entity
  get_entity w i s = (or_missing "entity not found" (get_current w i s.entities), s)

  unfoldable pub get_artifact : String → String → ℕ → Action (Tables F) Artifact
  get_artifact w i n s = (or_missing "artifact not found" (get_version w i n s.artifacts), s)

  unfoldable pub get_memory : String → String → ℕ → Action (Tables F) (Memory F)
  get_memory w i n s = (or_missing "memory not found" (get_version w i n s.memories), s)

  unfoldable pub get_relationship : String → String → Action (Tables F) (Relationship F)
  get_relationship w i s =
      (or_missing "relationship not found" (get_current w i s.relationships), s)

  unfoldable pub find_event : String → String → List (Event F) → Option (Event F)
  find_event w k [] = none
  find_event w k (e ∷ es) =
      if e.workspace_id == w && e.idempotency_key == k then some e else find_event w k es

  -- `GetEventByIdempotency`: a missing event is a nil pointer, no error.
  unfoldable pub get_event_by_idempotency : String → String → Action (Tables F) (Option (Event F))
  get_event_by_idempotency w k s = (ok (find_event w k s.events), s)
