-- ===== src/Store/Table/History.antt =====
-- The versions of an object in a versioned table are 1 up to its current version, without a gap.
use vessica_knowledge_server.Base.{
  ℕ, ◌+◌, ◌≤◌, String, true, false, Option, none, some, ◌≡◌, ◌≢◌, ◌⊎◌, inl, inr, refl, ◌&&◌, ◌==◌,
  nat_eq, eq_iff, arith, Bool-cases, Option-cases,
}
use vessica_knowledge_server.Store.Table.{Row, Table, no_table, at_key, find_row, put_row}
use vessica_knowledge_server.Store.Table.Pointers.{current_version}
use vessica_knowledge_server.Store.Table.Laws.{
  IsCoherent, find_row-put_row, current_version-put_row,
}

pub record IsHistory {A : Type 0} ⦃row : Row A⦄ (t : Table A) : Type 0 where
  -- Every version up to the current one is a row.
  pub complete :
      (w i : String) (n m : ℕ)
      → current_version w i t.current ≡ some n
      → 1 ≤ m
      → m ≤ n
      → find_row w i m t.rows ≢ none
  -- Every row lies between version 1 and the current version of its object.
  pub bounded :
      (w i : String) (m : ℕ)
      → find_row w i m t.rows ≢ none
      → (n : ℕ) × (current_version w i t.current ≡ some n) × (1 ≤ m) × (m ≤ n)
  pub positive : (w i : String) (n : ℕ) → current_version w i t.current ≡ some n → 1 ≤ n

module _ {A : Type 0} ⦃row : Row A⦄ where
  pub IsHistory-IsCoherent : (t : Table A) → IsHistory t → IsCoherent t
  IsHistory-IsCoherent t h = record {
    pointed = λ w i n e. h.complete w i n n e (h.positive w i n e) (omega arith);
    newest = λ w i m e. let (n, en, pos, le) = h.bounded w i m e in (n, en, le);
  }

  -- `x` is a first version, or the one after the current version of its object.
  abbrev pub Follows : A → Table A → Type 0
  Follows x t =
      (row.version_of x ≡ 1)
      ⊎ ((n : ℕ) × (current_version (row.workspace_of x) (row.id_of x) t.current ≡ some n)
          × (row.version_of x ≡ n + 1))

  put_row-free :
      (x : A) (t : Table A) {t' : Table A}
      → put_row x t ≡ some t'
      → find_row (row.workspace_of x) (row.id_of x) (row.version_of x) t.rows ≡ none
  unfolding put_row
  put_row-free x t h = ground arith

  -- The current version before the write is one less than the new version; 0 stands for none.
  unfoldable pub Precedes : A → Option ℕ → Type 0
  Precedes x none = row.version_of x ≡ 1
  Precedes x (some n) = row.version_of x ≡ n + 1

  pub Follows-Precedes :
      (x : A) (t : Table A) {t' : Table A}
      → IsHistory t
      → Follows x t
      → put_row x t ≡ some t'
      → Precedes x (current_version (row.workspace_of x) (row.id_of x) t.current)
  unfolding Precedes
  Follows-Precedes x t h (inr (n, e, next)) put = rw e next
  Follows-Precedes x t h (inl first) put =
      elim (Option-cases (current_version (row.workspace_of x) (row.id_of x) t.current)) [
        | inl e ↦ rw e first
        | inr (n, e) ↦ absurd (
            h.complete (row.workspace_of x) (row.id_of x) n 1 e (omega arith)
              (h.positive (row.workspace_of x) (row.id_of x) n e)
              (rw first at (put_row-free x t put)))
      ]

  self_complete :
      (x : A) (t : Table A)
      → IsHistory t
      → (w i : String) (m : ℕ) → Precedes x (current_version w i t.current)
      → 1 ≤ m
      → m ≤ row.version_of x
      → (row.version_of x ≡ m) ⊎ (find_row w i m t.rows ≢ none)
  unfolding Precedes
  self_complete x t h w i m p pos le = elim (Option-cases (current_version w i t.current)) [
    | inl e ↦ inl (omega (arith, rw e at p))
    | inr (n, e) ↦ elim (Bool-cases (nat_eq (row.version_of x) m)) [
      | inl top ↦ inl (ground arith)
      | inr below ↦
          let next : row.version_of x ≡ n + 1 = rw e at p in
          inr (h.complete w i n m e pos (ground arith))
    ]
  ]

  self_bounded :
      (x : A) (t : Table A)
      → IsHistory t
      → (w i : String) (m : ℕ) → Precedes x (current_version w i t.current)
      → find_row w i m t.rows ≢ none
      → (1 ≤ m) × (m ≤ row.version_of x)
  unfolding Precedes
  self_bounded x t h w i m p k =
      let (n, e, pos, le) = h.bounded w i m k in
      let next : row.version_of x ≡ n + 1 = rw e at p in (pos, omega arith)

  Precedes-pos : (x : A) (o : Option ℕ) → Precedes x o → 1 ≤ row.version_of x
  unfolding Precedes
  Precedes-pos x none p = omega arith
  Precedes-pos x (some n) p = omega arith

  pub same_object :
      (x : A) (w i : String)
      → row.workspace_of x == w && row.id_of x == i ≡ true
      → (row.workspace_of x ≡ w) × (row.id_of x ≡ i)
  same_object x w i same = ground (arith, eq_iff (row.workspace_of x) w, eq_iff (row.id_of x) i)

  at_key-same :
      (x : A) (w i : String) (m : ℕ)
      → row.workspace_of x == w && row.id_of x == i ≡ true
      → at_key w i m x ≡ nat_eq (row.version_of x) m
  unfolding at_key
  at_key-same x w i m same = rw same

  at_key-other :
      (x : A) (w i : String) (m : ℕ)
      → row.workspace_of x == w && row.id_of x == i ≡ false
      → at_key w i m x ≡ false
  unfolding at_key
  at_key-other x w i m other = rw other

  -- A write of a first or a next version keeps the history whole.
  pub put_row-IsHistory :
      (x : A) (t : Table A) {t' : Table A}
      → IsHistory t
      → Follows x t
      → put_row x t ≡ some t'
      → IsHistory t'
  put_row-IsHistory x t {t'} h f put = record {
    complete = λ w i n m e pos le. elim (Bool-cases (row.workspace_of x == w && row.id_of x == i)) [
      | inl same ↦
          let (ew, ei) = same_object x w i same in
          ground (
            arith,
            current_version-put_row x t w i put,
            find_row-put_row x t w i m put,
            at_key-same x w i m same,
            self_complete x t h w i m (rw (ew, ei) at (Follows-Precedes x t h f put)) pos,
          )
      | inr other ↦ ground (
        arith,
        current_version-put_row x t w i put,
        find_row-put_row x t w i m put,
        at_key-other x w i m other,
        h.complete w i n m,
      )
    ];
    bounded = λ w i m k. elim (Bool-cases (row.workspace_of x == w && row.id_of x == i)) [
      | inl same ↦
          let (ew, ei) = same_object x w i same in
          (
            row.version_of x,
            ground (arith, current_version-put_row x t w i put),
            ground (
              arith,
              find_row-put_row x t w i m put,
              at_key-same x w i m same,
              Precedes-pos x _ (Follows-Precedes x t h f put),
              self_bounded x t h w i m (rw (ew, ei) at (Follows-Precedes x t h f put)),
            ),
            ground (
              arith,
              find_row-put_row x t w i m put,
              at_key-same x w i m same,
              self_bounded x t h w i m (rw (ew, ei) at (Follows-Precedes x t h f put)),
            ),
          )
      | inr other ↦
          rw (current_version-put_row x t w i put, other)
            (h.bounded w i m (rw (find_row-put_row x t w i m put, at_key-other x w i m other) at k))
    ];
    positive = λ w i n e. ground (
      arith,
      current_version-put_row x t w i put,
      Precedes-pos x _ (Follows-Precedes x t h f put),
      h.positive w i n,
    );
  }

  pub no_table-IsHistory : IsHistory {A = A} no_table
  unfolding find_row current_version
  no_table-IsHistory = record {
    complete = λ w i n m e pos le. cc;
    bounded = λ w i m k. absurd (k refl);
    positive = λ w i n e. cc;
  }
