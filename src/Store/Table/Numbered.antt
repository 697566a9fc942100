-- ===== src/Store/Table/Numbered.antt =====
-- The rows of an object are its versions, one each, the newest first.
use mathlib.Core.List.{map}
use vessica_knowledge_server.Base.{
  ℕ, zero, suc, String, Bool, Option, none, some, List, [], ◌∷◌, ◌≡◌, inl, inr, refl, ◌&&◌, ◌==◌,
  arith, Bool-cases, select,
}
use vessica_knowledge_server.Store.Table.{Row, Table, no_table, put_row}
use vessica_knowledge_server.Store.Table.Pointers.{current_version}
use vessica_knowledge_server.Store.Table.Laws.{current_version-put_row}
use vessica_knowledge_server.Store.Table.History.{
  IsHistory, Follows, Precedes, Follows-Precedes, same_object, put_row-IsHistory,
  no_table-IsHistory,
}

-- n, n - 1, …, 1
abbrev pub countdown : ℕ → List ℕ
countdown zero = []
countdown (suc n) = suc n ∷ countdown n

abbrev pub or_zero : Option ℕ → ℕ
or_zero none = 0
or_zero (some n) = n

countdown_step : (v m : ℕ) → v ≡ suc m → v ∷ countdown m ≡ countdown v
countdown_step v m e = rw e refl

module _ {A : Type 0} ⦃row : Row A⦄ where
  abbrev pub is_object : String → String → A → Bool
  is_object w i x = row.workspace_of x == w && row.id_of x == i

  pub record IsNumbered (t : Table A) : Type 0 where
    pub history : IsHistory t
    pub versions :
        (w i : String)
        → map row.version_of (select (is_object w i) t.rows)
          ≡ countdown (or_zero (current_version w i t.current))

  put_row-rows : (x : A) (t : Table A) {t' : Table A} → put_row x t ≡ some t' → t'.rows ≡ x ∷ t.rows
  unfolding put_row
  put_row-rows x t h = ground arith

  -- The new version is one more than the current one, or the first.
  next_version : (x : A) (o : Option ℕ) → Precedes x o → row.version_of x ≡ suc (or_zero o)
  unfolding Precedes
  next_version x none p = omega (arith, p)
  next_version x (some n) p = omega (arith, p)

  put_row-versions :
      (x : A) (t : Table A) {t' : Table A} (w i : String)
      → IsNumbered t
      → Follows x t
      → put_row x t ≡ some t'
      → map row.version_of (select (is_object w i) t'.rows)
        ≡ countdown (or_zero (current_version w i t'.current))
  unfolding select
  put_row-versions x t w i h f put = elim (Bool-cases (is_object w i x)) [
    | inl own ↦
        let (ew, ei) = same_object x w i own in
        let p : Precedes x (current_version w i t.current) =
          rw (← ew, ← ei) (Follows-Precedes x t h.history f put) in
        rw (put_row-rows x t put, current_version-put_row x t w i put, own, h.versions w i)
          (countdown_step (row.version_of x) _ (next_version x _ p))
    | inr other ↦
        rw (put_row-rows x t put, current_version-put_row x t w i put, other) (h.versions w i)
  ]

  pub put_row-IsNumbered :
      (x : A) (t : Table A) {t' : Table A}
      → IsNumbered t
      → Follows x t
      → put_row x t ≡ some t'
      → IsNumbered t'
  put_row-IsNumbered x t h f put = record {
    history = put_row-IsHistory x t h.history f put;
    versions = λ w i. put_row-versions x t w i h f put;
  }

  pub no_table-IsNumbered : IsNumbered (no_table {A = A})
  unfolding select current_version
  no_table-IsNumbered = record { history = no_table-IsHistory; versions = λ w i. refl }
