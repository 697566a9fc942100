-- ===== src/Store/Table.antt =====
-- The versioned tables of knowledge/sqlstore.go: `entities` with `entity_current`, and so on. A table
-- of immutable rows with the primary key (workspace_id, id, version), and a table of current versions
-- with the primary key (workspace_id, id). A query by key never depends on the order of rows.
pub mod Pointers
pub mod Laws
pub mod Rebuild
pub mod History
pub mod Numbered
use vessica_knowledge_server.Base.{
  ℕ, String, Bool, Option, none, some, List, [], ◌∷◌, ◌++◌, ◌&&◌, ◌==◌, nat_eq, if◌then◌else◌,
}
use Pointers.{Current, current_version, upsert_current, delete_workspace, raise_max}

-- The key columns of a table's rows.
pub record Row (A : Type 0) : Type 0 where
  pub workspace_of : A → String
  pub id_of : A → String
  pub version_of : A → ℕ

pub record Table (A : Type 0) : Type 0 where
  pub rows : List A
  pub current : List Current

abbrev pub no_table : {A : Type 0} → Table A
no_table = record { rows = []; current = [] }

module _ {A : Type 0} ⦃row : Row A⦄ where
  unfoldable pub at_key : String → String → ℕ → A → Bool
  at_key w i n x = row.workspace_of x == w && row.id_of x == i && nat_eq (row.version_of x) n

  -- `SELECT … WHERE workspace_id=? AND id=? AND version=?`
  unfoldable pub find_row : String → String → ℕ → List A → Option A
  unfolding at_key
  find_row w i n [] = none
  find_row w i n (x ∷ xs) = if at_key w i n x then some x else find_row w i n xs

  -- `SELECT … JOIN …_current c ON … c.version=… WHERE workspace_id=? AND id=?`
  unfoldable pub get_current : String → String → Table A → Option A
  get_current w i t = elim (current_version w i t.current) [
    | none ↦ none
    | some n ↦ find_row w i n t.rows
  ]

  -- `INSERT INTO …` and `upsertCurrent`: `none` if the primary key is taken.
  unfoldable pub put_row : A → Table A → Option (Table A)
  put_row x t =
      let w = row.workspace_of x in
      let i = row.id_of x in
      elim (find_row w i (row.version_of x) t.rows) [
        | some _ ↦ none
        | none ↦ some (record {
          rows = x ∷ t.rows;
          current = upsert_current w i (row.version_of x) t.current;
        })
      ]

  -- `SELECT workspace_id,id,MAX(version) … WHERE workspace_id=? GROUP BY workspace_id,id`
  unfoldable pub max_versions : String → List A → List Current
  max_versions w [] = []
  max_versions w (x ∷ xs) =
      let rest = max_versions w xs in
      if row.workspace_of x == w then raise_max w (row.id_of x) (row.version_of x) rest else rest

  -- One table of `RebuildProjections`: delete the workspace's current rows, insert the maxima.
  unfoldable pub rebuild : String → Table A → Table A
  unfolding max_versions
  rebuild w t = record t { current = max_versions w t.rows ++ delete_workspace w t.current }
