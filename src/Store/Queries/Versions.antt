-- ===== src/Store/Queries/Versions.antt =====
-- What `ListArtifactVersions` and `ListMemoryVersions` list.
use vessica_knowledge_server.Base.{
  ℕ, zero, suc, ◌≤◌, String, false, List, [], ◌∷◌, ◌≡◌, map, arith, All, IsSorted, select,
  sort_by-IsSorted,
}
use vessica_knowledge_server.Store.Table.{Row, Table}
use vessica_knowledge_server.Store.Table.Pointers.{current_version}
use vessica_knowledge_server.Store.Table.Numbered.{IsNumbered, is_object, countdown, or_zero}
use vessica_knowledge_server.Store.Queries.{newer, list_versions}

module _ {A : Type 0} ⦃row : Row A⦄ where
  -- The versions of a list that counts down.
  unfoldable pub Counts : ℕ → List A → Type 0
  Counts n xs = map row.version_of xs ≡ countdown n

  pub Counts-head :
      (n : ℕ) (x : A) (xs : List A) → Counts n (x ∷ xs) → (row.version_of x ≡ n) × (1 ≤ n)
  unfolding Counts
  Counts-head zero x xs h = cc
  Counts-head (suc n) x xs h = ground (arith, h)

  pub Counts-tail : (n : ℕ) (x : A) (xs : List A) → Counts (suc n) (x ∷ xs) → Counts n xs
  unfolding Counts
  Counts-tail n x xs h = cc

  below-All :
      (n v : ℕ) (xs : List A) (x : A)
      → row.version_of x ≡ v
      → n ≤ v
      → Counts n xs
      → All (λ y. newer y x ≡ false) xs
  below-All n v [] x e le h = tt
  below-All zero v (y ∷ ys) x e le h = absurd (omega (arith, (Counts-head 0 y ys h).1))
  below-All (suc n) v (y ∷ ys) x e le h =
      let (ey, pos) = Counts-head (suc n) y ys h in
      (ground (arith, ey, e, le), below-All n v ys x e (omega arith) (Counts-tail n y ys h))

  Counts-IsSorted : (n : ℕ) (xs : List A) → Counts n xs → IsSorted newer xs
  Counts-IsSorted n [] h = tt
  Counts-IsSorted zero (y ∷ ys) h = absurd (omega (arith, (Counts-head 0 y ys h).1))
  Counts-IsSorted (suc n) (y ∷ ys) h =
      let (ey, pos) = Counts-head (suc n) y ys h in
      let tail = Counts-tail n y ys h in
      (below-All n (suc n) ys y ey (omega arith) tail, Counts-IsSorted n ys tail)

  pub list_versions-countdown :
      (w i : String) (t : Table A)
      → IsNumbered t
      → map row.version_of (list_versions w i t)
        ≡ countdown (or_zero (current_version w i t.current))
  unfolding list_versions Counts
  list_versions-countdown w i t h =
      let counts = h.versions w i in
      rw (sort_by-IsSorted newer (select (is_object w i) t.rows) (Counts-IsSorted _ _ counts))
        counts
