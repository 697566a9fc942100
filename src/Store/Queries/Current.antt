-- ===== src/Store/Queries/Current.antt =====
-- What the queries that join a table with its current versions answer.
use vessica_knowledge_server.Base.{
  ℕ, zero, suc, ◌≤◌, String, Bool, true, false, Option, none, some, List, [], ◌∷◌, ◌≡◌, ◌↔◌, inl,
  inr, refl, ap, eq_iff, eq_refl, arith, All, Member, select, sort_by, Bool-cases, Option-cases,
  select-Member, sort_by-Member, select-All, Member-select, Member-sort_by,
}
use vessica_knowledge_server.Store.Table.{Row, Table, at_key, find_row, get_current}
use vessica_knowledge_server.Store.Table.Pointers.{current_version}
use vessica_knowledge_server.Store.Table.Numbered.{IsNumbered, is_object}
use vessica_knowledge_server.Store.Queries.{is_current, points_to, joined}
use vessica_knowledge_server.Store.Queries.Versions.{Counts, Counts-head, Counts-tail}

module _ {A : Type 0} ⦃row : Row A⦄ where
  some_same : {a b : A} → some a ≡ some b → a ≡ b
  some_same e = cc

  none-some : {a : A} → ¬ (none ≡ some a)
  none-some e = cc

  -- A row that is found is a row.
  find_row-Member :
      (w i : String) (n : ℕ) (xs : List A) (x : A)
      → find_row w i n xs ≡ some x
      → Member x xs × (at_key w i n x ≡ true)
  unfolding find_row
  find_row-Member w i n [] x h = cc
  find_row-Member w i n (y ∷ ys) x h = elim (Bool-cases (at_key w i n y)) [
    | inl here ↦ let same : y ≡ x = some_same (rw here at h) in (inl same, rw (← same) here)
    | inr past ↦ let (m, k) = find_row-Member w i n ys x (rw past at h) in (inr m, k)
  ]

  -- The rows of one object answer for it.
  find_row-select :
      (w i : String) (n : ℕ) (xs : List A)
      → find_row w i n xs ≡ find_row w i n (select (is_object w i) xs)
  unfolding find_row select at_key
  find_row-select w i n [] = refl
  find_row-select w i n (x ∷ xs) = ground (arith, find_row-select w i n xs)

  -- In a list that counts down each row is found by its version.
  Counts-found :
      (w i : String) (n : ℕ) (xs : List A) (x : A)
      → All (λ y. is_object w i y ≡ true) xs
      → Counts n xs
      → Member x xs
      → (find_row w i (row.version_of x) xs ≡ some x) × (row.version_of x ≤ n)
  unfolding find_row at_key
  Counts-found w i n [] x all h m = elim m [ ]
  Counts-found w i zero (y ∷ ys) x all h m = absurd (omega (arith, (Counts-head 0 y ys h).1))
  Counts-found w i (suc n) (y ∷ ys) x all h (inl e) =
      let (ey, pos) = Counts-head (suc n) y ys h in
      let own : at_key w i (row.version_of x) y ≡ true = rw (← e) (ground (arith, all.0)) in
      (rw own (ap some e), rw (← e) (ground arith))
  Counts-found w i (suc n) (y ∷ ys) x all h (inr m) =
      let (ey, pos) = Counts-head (suc n) y ys h in
      let (found, le) = Counts-found w i n ys x all.1 (Counts-tail n y ys h) m in
      let other : at_key w i (row.version_of x) y ≡ false = ground (arith, ey, le) in
      (rw other found, ground (arith, le))

  points_to-version : (x : A) (o : Option ℕ) → points_to x o ≡ true → o ≡ some (row.version_of x)
  points_to-version x none h = cc
  points_to-version x (some n) h = ground (arith, h)

  is_current-current :
      (w : String) (t : Table A) (x : A)
      → is_current w t x ≡ true
      → (row.workspace_of x ≡ w)
        × (current_version w (row.id_of x) t.current ≡ some (row.version_of x))
  is_current-current w t x h =
      let own : row.workspace_of x ≡ w = ground (arith, h, eq_iff (row.workspace_of x) w) in
      (
        own,
        rw own at (
            points_to-version x (current_version (row.workspace_of x) (row.id_of x) t.current)
              (ground (arith, h))),
      )

  -- A row that the join lists is the current version of its object.
  pub joined-get_current :
      (w : String) (t : Table A) (x : A)
      → IsNumbered t
      → Member x (joined w t)
      → (row.workspace_of x ≡ w) × (get_current w (row.id_of x) t ≡ some x)
  unfolding joined get_current Counts
  joined-get_current w t x h m =
      let (k, e) = select-Member (is_current w t) x t.rows m in
      let (own, current) = is_current-current w t x e in
      let i = row.id_of x in
      let mine : is_object w i x ≡ true = rw (own, eq_refl w) (eq_refl i) in
      let (found, le) =
        Counts-found w i _ (select (is_object w i) t.rows) x (select-All (is_object w i) t.rows)
          (h.versions w i) (Member-select (is_object w i) x t.rows mine k) in
      (own, rw (get_current, current, find_row-select w i (row.version_of x) t.rows) found)

  -- The current version of an object is a row that the join lists.
  pub get_current-joined :
      (w i : String) (t : Table A) (x : A)
      → get_current w i t ≡ some x
      → Member x (joined w t) × (row.id_of x ≡ i)
  unfolding joined get_current at_key
  get_current-joined w i t x h = elim (Option-cases (current_version w i t.current)) [
    | inl e ↦ absurd (none-some (rw (get_current, e) at h))
    | inr (n, e) ↦
        let (m, k) = find_row-Member w i n t.rows x (rw (get_current, e) at h) in
        let own : row.workspace_of x ≡ w = ground (arith, k, eq_iff (row.workspace_of x) w) in
        let same : row.id_of x ≡ i = ground (arith, k, eq_iff (row.id_of x) i) in
        let here : row.version_of x ≡ n = ground (arith, k) in
        let current : is_current w t x ≡ true =
          rw (own, same, e) (ground (arith, eq_refl w, here)) in
        (Member-select (is_current w t) x t.rows current m, same)
  ]

  -- A list of `WHERE` and `ORDER BY` over the join has the current versions that pass, and no others.
  pub listed_iff :
      (w : String) (t : Table A) (less : A → A → Bool) (p : A → Bool) (x : A)
      → IsNumbered t
      → Member x (select p (sort_by less (joined w t)))
        ↔ ((row.workspace_of x ≡ w) × (get_current w (row.id_of x) t ≡ some x) × (p x ≡ true))
  listed_iff w t less p x h = (
    λ m.
        let (k, e) = select-Member p x _ m in
        let (own, current) = joined-get_current w t x h (sort_by-Member less x _ k) in
        (own, current, e),
    λ (own, current, e).
        Member-select p x _ e
          (Member-sort_by less x _ (get_current-joined w (row.id_of x) t x current).0),
  )
