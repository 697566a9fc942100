-- ===== src/Store/Table/Rebuild.antt =====
-- `RebuildProjections` on one versioned table.
use vessica_knowledge_server.Base.{
  ℕ, ◌≤◌, String, Option, none, some, List, [], ◌∷◌, ◌≡◌, ◌≢◌, refl, ◌&&◌, ◌==◌, eq_iff, arith, inl,
  inr, Bool-cases, Option-cases, ap, if◌then◌else◌,
}
use vessica_knowledge_server.Store.Table.{
  Row, Table, at_key, find_row, max_versions, rebuild, get_current,
}
use vessica_knowledge_server.Store.Table.Laws.{IsCoherent}
use vessica_knowledge_server.Store.Table.Pointers.{
  current_version, delete_workspace, max_with, current_version-raise_max,
  current_version-delete_workspace, current_version-append,
}

module _ {A : Type 0} ⦃row : Row A⦄ where
  -- The greatest version of an object among the rows.
  max_version : String → String → List A → Option ℕ
  max_version v j [] = none
  max_version v j (x ∷ xs) =
      let rest = max_version v j xs in
      if row.workspace_of x == v && row.id_of x == j
      then some (max_with (row.version_of x) rest)
      else rest

  current_version-max_versions :
      (w v j : String) (xs : List A)
      → current_version v j (max_versions w xs) ≡ (if w == v then max_version v j xs else none)
  unfolding current_version max_versions max_version
  current_version-max_versions w v j [] = ground arith
  current_version-max_versions w v j (x ∷ xs) = ground (
    arith,
    eq_iff w v,
    eq_iff (row.workspace_of x) w,
    eq_iff (row.workspace_of x) v,
    eq_iff (row.id_of x) j,
    current_version-raise_max (row.workspace_of x) (row.id_of x) v j (row.version_of x)
        (max_versions w xs),
    current_version-raise_max w (row.id_of x) v j (row.version_of x) (max_versions w xs),
    current_version-max_versions w (row.workspace_of x) (row.id_of x) xs,
    current_version-max_versions w v j xs,
  )

  max_version-IsRow :
      (v j : String) (n : ℕ) (xs : List A) → max_version v j xs ≡ some n → find_row v j n xs ≢ none
  unfolding max_version find_row at_key
  max_version-IsRow v j n [] h = cc
  max_version-IsRow v j n (x ∷ xs) h = ground (arith, max_version-IsRow v j n xs)

  same_object :
      (v j : String) (m : ℕ) (x : A) (xs : List A)
      → find_row v j m (x ∷ xs) ≢ none
      → (find_row v j m xs ≢ none → (n : ℕ) × (max_version v j xs ≡ some n) × (m ≤ n))
      → m ≤ max_with (row.version_of x) (max_version v j xs)
  unfolding find_row
  same_object v j m x xs h ih = ground arith

  row-le-max_version :
      (v j : String) (m : ℕ) (xs : List A)
      → find_row v j m xs ≢ none
      → (n : ℕ) × (max_version v j xs ≡ some n) × (m ≤ n)
  unfolding max_version find_row at_key
  row-le-max_version v j m [] h = absurd (h refl)
  row-le-max_version v j m (x ∷ xs) h =
      elim (Bool-cases (row.workspace_of x == v && row.id_of x == j)) [
        | inl same ↦ (
          max_with (row.version_of x) (max_version v j xs),
          rw same,
          same_object v j m x xs h (row-le-max_version v j m xs),
        )
        | inr other ↦ rw other (row-le-max_version v j m xs (rw other at h))
      ]

  no_current :
      (v j : String) (t : Table A)
      → IsCoherent t
      → max_version v j t.rows ≡ none
      → current_version v j t.current ≡ max_version v j t.rows
  no_current v j t c empty = elim (Option-cases (current_version v j t.current)) [
    | inl e ↦ rw (e, empty)
    | inr (n, en) ↦ let (k, ek, le) = row-le-max_version v j n t.rows (c.pointed v j n en) in cc
  ]

  current_version-eq-max_version :
      (v j : String) (t : Table A)
      → IsCoherent t
      → current_version v j t.current ≡ max_version v j t.rows
  current_version-eq-max_version v j t c = elim (Option-cases (max_version v j t.rows)) [
    | inl empty ↦ no_current v j t c empty
    | inr (m, em) ↦
        let (n, en, le) = c.newest v j m (max_version-IsRow v j m t.rows em) in
        let (k, ek, le') = row-le-max_version v j n t.rows (c.pointed v j n en) in
        rw (en, em) (ap some (ground arith))
  ]

  -- On a coherent table a rebuild changes no answer.
  pub current_version-rebuild :
      (w v j : String) (t : Table A)
      → IsCoherent t
      → current_version v j (rebuild w t).current ≡ current_version v j t.current
  unfolding rebuild
  current_version-rebuild w v j t c = ground (
    arith,
    current_version-append v j (max_versions w t.rows) (delete_workspace w t.current),
    current_version-max_versions w v j t.rows,
    current_version-delete_workspace w v j t.current,
    current_version-eq-max_version v j t c,
  )

  pub get_current-rebuild :
      (w v j : String) (t : Table A)
      → IsCoherent t
      → get_current v j (rebuild w t) ≡ get_current v j t
  unfolding get_current rebuild
  get_current-rebuild w v j t c = ground (arith, current_version-rebuild w v j t c)
