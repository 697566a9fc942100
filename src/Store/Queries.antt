-- ===== src/Store/Queries.antt =====
-- The queries of knowledge/sqlstore.go that list rows. A query answers with a list: failures of the
-- database are not modelled. Rows that ORDER BY does not tell apart come in the order of the table, the
-- newest first.
pub mod Current
pub mod Versions
pub mod Related
use Prim.Native.String.{◌++◌}
use vessica_knowledge_server.Base.{
  ℕ, String, Bool, true, false, not, ◌&&◌, ◌||◌, Option, none, some, List, [], ◌∷◌, ◌==◌, nat_eq,
  ltb, take, member, select, sort_by, text_lt, if◌then◌else◌,
}
use vessica_knowledge_server.Models.{
  Scope, Entity, Artifact, Memory, Relationship, Event, ArtifactSelector,
}
use vessica_knowledge_server.Context.Artifacts.{includes, matches_artifact}
use vessica_knowledge_server.Service.Rules.{is_empty}
use vessica_knowledge_server.Store.Table.{Row, Table}
use vessica_knowledge_server.Store.Table.Pointers.{current_version}
use vessica_knowledge_server.Store.Table.Numbered.{is_object}
use vessica_knowledge_server.Store.Tables.{
  Tables, entity_row, artifact_row, memory_row, relationship_row,
}

-- What the queries use of the database: `LOWER(text) LIKE LOWER(pattern)`, and the text of a JSON column
-- that holds a list of texts.
pub record Database : Type 0 where
  pub like : String → String → Bool
  pub json_texts : List String → String

module _ {A : Type 0} ⦃row : Row A⦄ where
  abbrev pub points_to : A → Option ℕ → Bool
  points_to x none = false
  points_to x (some n) = nat_eq n (row.version_of x)

  -- `JOIN …_current c ON c.workspace_id=… AND c.id=… AND c.version=… WHERE workspace_id=?`
  abbrev pub is_current : String → Table A → A → Bool
  is_current w t x =
      row.workspace_of x == w
      && points_to x (current_version (row.workspace_of x) (row.id_of x) t.current)

  unfoldable pub joined : String → Table A → List A
  joined w t = select (is_current w t) t.rows

  -- `WHERE workspace_id=? AND id=? ORDER BY version DESC`
  abbrev pub newer : A → A → Bool
  newer a b = ltb (row.version_of b) (row.version_of a)

  unfoldable pub list_versions : String → String → Table A → List A
  list_versions w i t = sort_by newer (select (is_object w i) t.rows)

  -- `WHERE workspace_id=? ORDER BY id,version`
  abbrev before_key : A → A → Bool
  before_key a b =
      text_lt (row.id_of a) (row.id_of b)
      || row.id_of a == row.id_of b && ltb (row.version_of a) (row.version_of b)

  unfoldable pub all_rows : String → Table A → List A
  all_rows w t = sort_by before_key (select (λ x. row.workspace_of x == w) t.rows)

-- `ORDER BY updated_at DESC,id`
abbrev later_entity : Entity → Entity → Bool
later_entity a b =
    ltb b.updated_at a.updated_at || nat_eq a.updated_at b.updated_at && text_lt a.id b.id

abbrev pub has_entity : List String → String → String → Entity → Bool
has_entity scopes type state v =
    includes scopes v.scope_id
    && (is_empty type || v.type == type)
    && (is_empty state || v.state == state)

-- `if !entities[id] { out[id] = true }`
add_other : List String → String → List String → List String
add_other entities id out = if member id entities then out else id ∷ out

module _ {F : Type 0} where
  unfoldable pub list_entities : String → List String → String → String → Tables F → List Entity
  list_entities w scopes type state s =
      select (has_entity scopes type state) (sort_by later_entity (joined w s.entities))

  -- At most 50 entities match, before the scopes are looked at.
  unfoldable pub resolve_entities :
      Database → String → List String → String → Tables F → List Entity
  resolve_entities db w scopes query s =
      let pattern = "%" ++ query ++ "%" in
      select (λ v. includes scopes v.scope_id)
        (take 50 (
          sort_by (λ a b. ltb b.updated_at a.updated_at)
            (select
              (λ v. db.like v.display_name pattern || db.like (db.json_texts v.aliases) pattern)
              (joined w s.entities))))

  unfoldable pub list_artifact_versions : String → String → Tables F → List Artifact
  unfolding list_versions
  list_artifact_versions w i s = list_versions w i s.artifacts

  unfoldable pub list_artifacts :
      String → List String → List ArtifactSelector → Tables F → List Artifact
  list_artifacts w scopes selectors s =
      select (λ a. includes scopes a.scope_id && matches_artifact a selectors)
        (sort_by (λ a b. ltb b.updated_at a.updated_at) (joined w s.artifacts))

  unfoldable pub list_memory_versions : String → String → Tables F → List (Memory F)
  unfolding list_versions
  list_memory_versions w i s = list_versions w i s.memories

  unfoldable pub get_current_memories : String → List String → Tables F → List (Memory F)
  get_current_memories w ids s = select (λ m. member m.id ids) (joined w s.memories)

  unfoldable pub list_relationships : String → String → Tables F → List (Relationship F)
  list_relationships w id s =
      select (λ r. r.from_id == id || r.to_id == id) (joined w s.relationships)

  others : List String → List (Relationship F) → List String
  unfolding add_other
  others entities [] = []
  others entities (r ∷ rs) =
      add_other entities r.from_id (add_other entities r.to_id (others entities rs))

  -- The keys of the map, an id perhaps more than once.
  unfoldable pub related_object_ids : String → List String → Tables F → List String
  unfolding others
  related_object_ids w entities s = others entities (
      select (λ r. r.state == "active" && (member r.from_id entities || member r.to_id entities))
        (joined w s.relationships))

  -- `relatedToAny` of knowledge/service.go
  touches : List String → List (Relationship F) → Bool
  touches ids [] = false
  touches ids (r ∷ rs) = member r.from_id ids || member r.to_id ids || touches ids rs

  unfoldable pub related_to_any : String → String → List String → Tables F → Bool
  unfolding touches
  related_to_any w object ids s = touches ids (list_relationships w object s)

  abbrev earlier_event : Event F → Event F → Bool
  earlier_event a b =
      ltb a.occurred_at b.occurred_at || nat_eq a.occurred_at b.occurred_at && text_lt a.id b.id

  unfoldable pub list_events : String → Tables F → List (Event F)
  list_events w s = sort_by earlier_event (select (λ e. e.workspace_id == w) s.events)

  unfoldable pub all_scopes : String → Tables F → List Scope
  all_scopes w s = sort_by (λ a b. text_lt a.id b.id) (select (λ v. v.workspace_id == w) s.scopes)
