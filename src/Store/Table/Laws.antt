-- ===== src/Store/Table/Laws.antt =====
-- What a table answers after `put_row`, and the invariant that ties the current versions to the rows.
use vessica_knowledge_server.Base.{
  ℕ, ◌≤◌, ◌<◌, String, true, false, none, some, List, [], ◌∷◌, ◌≡◌, ◌≢◌, ◌&&◌, ◌==◌, eq_iff, arith,
  inl, inr, Bool-cases, Option-cases, if◌then◌else◌,
}
use vessica_knowledge_server.Store.Table.{Row, Table, at_key, find_row, get_current, put_row}
use vessica_knowledge_server.Store.Table.Pointers.{current_version, current_version-upsert_current}

module _ {A : Type 0} ⦃row : Row A⦄ where
  -- The rows after a write: the new one, and all that were there.
  pub find_row-put_row :
      (x : A) (t : Table A) {t' : Table A} (w i : String) (n : ℕ)
      → put_row x t ≡ some t'
      → find_row w i n t'.rows ≡ (if at_key w i n x then some x else find_row w i n t.rows)
  unfolding put_row find_row
  find_row-put_row x t w i n h = ground arith

  -- A write never changes or drops a row that was there.
  pub find_row-put_row_old :
      (x : A) (t : Table A) {t' : Table A} (w i : String) (n : ℕ) {y : A}
      → put_row x t ≡ some t'
      → find_row w i n t.rows ≡ some y
      → find_row w i n t'.rows ≡ some y
  unfolding put_row find_row at_key
  find_row-put_row_old x t w i n h k =
      ground (arith, eq_iff (row.workspace_of x) w, eq_iff (row.id_of x) i)

  pub current_version-put_row :
      (x : A) (t : Table A) {t' : Table A} (w i : String)
      → put_row x t ≡ some t'
      → current_version w i t'.current ≡ (
          if row.workspace_of x == w && row.id_of x == i
          then some (row.version_of x)
          else current_version w i t.current)
  unfolding put_row
  current_version-put_row x t w i h = ground (
    arith,
    current_version-upsert_current (row.workspace_of x) (row.id_of x) w i (row.version_of x)
        t.current,
  )

  pub get_current-put_row :
      (x : A) (t : Table A) {t' : Table A} (w i : String)
      → put_row x t ≡ some t'
      → get_current w i t'
        ≡ (if row.workspace_of x == w && row.id_of x == i then some x else get_current w i t)
  unfolding put_row get_current find_row at_key
  get_current-put_row x t w i h = ground (
    arith,
    eq_iff (row.workspace_of x) w,
    eq_iff (row.id_of x) i,
    current_version-upsert_current (row.workspace_of x) (row.id_of x) w i (row.version_of x)
        t.current,
  )

module _ {A : Type 0} ⦃row : Row A⦄ where
  find_row-version :
      (w i : String) (n : ℕ) (xs : List A) (x : A)
      → find_row w i n xs ≡ some x
      → row.version_of x ≡ n
  unfolding find_row
  find_row-version w i n [] x h = cc
  find_row-version w i n (y ∷ xs) x h = ground (arith, find_row-version w i n xs x)

  -- The current row has the current version.
  pub get_current-version :
      (w i : String) (t : Table A) {x : A}
      → get_current w i t ≡ some x
      → current_version w i t.current ≡ some (row.version_of x)
  unfolding get_current
  get_current-version w i t {x} h = elim (Option-cases (current_version w i t.current)) [
    | inl e ↦ ground arith
    | inr (n, e) ↦ ground (arith, find_row-version w i n t.rows x)
  ]

-- Every current version is a row, and no row is newer than the current version of its object.
pub record IsCoherent {A : Type 0} ⦃row : Row A⦄ (t : Table A) : Type 0 where
  pub pointed :
      (w i : String) (n : ℕ) → current_version w i t.current ≡ some n → find_row w i n t.rows ≢ none
  pub newest :
      (w i : String) (m : ℕ)
      → find_row w i m t.rows ≢ none
      → (n : ℕ) × (current_version w i t.current ≡ some n) × (m ≤ n)

module _ {A : Type 0} ⦃row : Row A⦄ where
  -- The version of `x` is above the current one, if its object has one.
  abbrev pub IsNext : A → Table A → Type 0
  IsNext x t =
      (n : ℕ)
      → current_version (row.workspace_of x) (row.id_of x) t.current ≡ some n
      → n < row.version_of x

  newest_old :
      (x : A) (t : Table A)
      → IsCoherent t
      → IsNext x t
      → (w i : String) (m : ℕ) → row.workspace_of x ≡ w
      → row.id_of x ≡ i
      → find_row w i m t.rows ≢ none
      → m ≤ row.version_of x
  newest_old x t c next w i m ew ei k =
      let (n, e, le) = c.newest w i m k in omega (arith, next n (rw (ew, ei) e))

  newest_of :
      (x : A) (t : Table A)
      → IsCoherent t
      → IsNext x t
      → (w i : String) (m : ℕ) → row.workspace_of x == w && row.id_of x == i ≡ true
      → (if at_key w i m x then some x else find_row w i m t.rows) ≢ none
      → m ≤ row.version_of x
  unfolding at_key
  newest_of x t c next w i m same k =
      ground
        (arith, eq_iff (row.workspace_of x) w, eq_iff (row.id_of x) i, newest_old x t c next w i m)

  other_row :
      (x : A) (t : Table A) (w i : String) (m : ℕ)
      → row.workspace_of x == w && row.id_of x == i ≡ false
      → (if at_key w i m x then some x else find_row w i m t.rows) ≢ none
      → find_row w i m t.rows ≢ none
  unfolding at_key
  other_row x t w i m other k = rw other at k

  pub put_row-IsCoherent :
      (x : A) (t : Table A) {t' : Table A}
      → IsCoherent t
      → IsNext x t
      → put_row x t ≡ some t'
      → IsCoherent t'
  unfolding at_key
  put_row-IsCoherent x t c next h = record {
    pointed = λ w i n k.
        ground
          (arith, current_version-put_row x t w i h, find_row-put_row x t w i n h, c.pointed w i n);
    newest = λ w i m k. elim (Bool-cases (row.workspace_of x == w && row.id_of x == i)) [
      | inl same ↦ (
        row.version_of x,
        rw (current_version-put_row x t w i h, same),
        newest_of x t c next w i m same (rw (find_row-put_row x t w i m h) at k),
      )
      | inr other ↦
          rw (current_version-put_row x t w i h, other)
            (c.newest w i m (other_row x t w i m other (rw (find_row-put_row x t w i m h) at k)))
    ];
  }
