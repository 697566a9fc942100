-- ===== src/Store/Ancestors/Ends.antt =====
-- `ScopeAncestors` ends where the parents are older and no name stands for two scopes.
use vessica_knowledge_server.Base.{
  ℕ, zero, suc, ◌+◌, ◌≤◌, String, Bool, true, false, ◌&&◌, ◌||◌, none, some, List, [], ◌∷◌, ◌≡◌,
  ◌≢◌, ◌⊎◌, inl, inr, refl, ap, sym, ◌∙◌, ◌==◌, ok, err, length, member, eq_iff, arith, Bool-cases,
  Option-cases,
}
use vessica_knowledge_server.Models.{Scope}
use vessica_knowledge_server.Store.Read.{find_scope, find_by_id, find_by_key, or_else}
use vessica_knowledge_server.Service.Rules.{is_empty}
use vessica_knowledge_server.Store.Ancestors.{
  Visit, append_id, visit, visit_all, enough, IsRooted, IsUnambiguous,
}

abbrev names : String → String → Scope → Bool
names w i v = v.workspace_id == w && (v.id == i || v.canonical_key == i)

none-some : {u : Scope} → ¬ (none ≡ some u)
none-some e = cc

either_name :
    (i : String) (v : Scope)
    → v.id == i || v.canonical_key == i ≡ true
    → (v.id ≡ i) ⊎ (v.canonical_key ≡ i)
either_name i v h = ground (arith, h, eq_iff v.id i, eq_iff v.canonical_key i)

-- A name that stands for an older scope is not one of the newer scope's.
not_named :
    (w i : String) (v u : Scope) (vs : List Scope)
    → IsUnambiguous (v ∷ vs)
    → find_scope w i vs ≡ some u
    → names w i v ≡ false
not_named w i v u vs (id_new, key_new, _) e = elim (Bool-cases (names w i v)) [
  | inr f ↦ f
  | inl f ↦
      let own : v.workspace_id ≡ w = ground (arith, f, eq_iff v.workspace_id w) in
      elim (either_name i v (ground (arith, f))) [
        | inl same ↦ absurd (none-some (sym (rw (own, same) at id_new) ∙ e))
        | inr same ↦ absurd (none-some (sym (rw (own, same) at key_new) ∙ e))
      ]
]

-- The id and the key of another scope are passed over.
find_by_id-other :
    (w i : String) (v : Scope) (vs : List Scope)
    → v.workspace_id == w && v.id == i ≡ false
    → find_by_id w i (v ∷ vs) ≡ find_by_id w i vs
unfolding find_by_id
find_by_id-other w i v vs f = rw f refl

find_by_key-other :
    (w i : String) (v : Scope) (vs : List Scope)
    → v.workspace_id == w && v.canonical_key == i ≡ false
    → find_by_key w i (v ∷ vs) ≡ find_by_key w i vs
unfolding find_by_key
find_by_key-other w i v vs f = rw f refl

find_scope-other :
    (w i : String) (v : Scope) (vs : List Scope)
    → names w i v ≡ false
    → find_scope w i (v ∷ vs) ≡ find_scope w i vs
unfolding find_scope
find_scope-other w i v vs f =
    ap (λ o. or_else o (find_by_key w i (v ∷ vs))) (find_by_id-other w i v vs (ground (arith, f)))
    ∙ ap (λ o. or_else (find_by_id w i vs) o) (find_by_key-other w i v vs (ground (arith, f)))

find_by_id-own :
    (w i : String) (v : Scope) (vs : List Scope)
    → v.workspace_id == w && v.id == i ≡ true
    → find_by_id w i (v ∷ vs) ≡ some v
unfolding find_by_id
find_by_id-own w i v vs f = rw f refl

find_by_key-own :
    (w i : String) (v : Scope) (vs : List Scope)
    → v.workspace_id == w && v.canonical_key == i ≡ true
    → find_by_key w i (v ∷ vs) ≡ some v
unfolding find_by_key
find_by_key-own w i v vs f = rw f refl

find_by_id-none :
    (w i : String) (vs : List Scope) → find_scope w i vs ≡ none → find_by_id w i vs ≡ none
unfolding find_scope
find_by_id-none w i vs h = elim (Option-cases (find_by_id w i vs)) [
  | inl absent ↦ absent
  | inr (v, found) ↦ absurd (none-some (sym (rw (find_scope, found) at h)))
]

-- A scope that the name fits is found, if its key names no older one.
find_scope-first :
    (w i : String) (v : Scope) (vs : List Scope)
    → v.workspace_id ≡ w
    → v.id == i || v.canonical_key == i ≡ true
    → find_scope w v.canonical_key vs ≡ none
    → find_scope w i (v ∷ vs) ≡ some v
unfolding find_scope
find_scope-first w i v vs own fits fresh = elim (Bool-cases (v.id == i)) [
  | inl same ↦
      let id : v.workspace_id == w && v.id == i ≡ true =
        ground (arith, same, own, eq_iff v.workspace_id w) in
      ap (λ o. or_else o (find_by_key w i (v ∷ vs))) (find_by_id-own w i v vs id)
  | inr apart ↦
      let id : v.workspace_id == w && v.id == i ≡ false = ground (arith, apart) in
      let key : v.workspace_id == w && v.canonical_key == i ≡ true =
        ground (arith, apart, fits, own, eq_iff v.workspace_id w) in
      let name : v.canonical_key ≡ i = ground (arith, apart, fits, eq_iff v.canonical_key i) in
      ap (λ o. or_else o (find_by_key w i (v ∷ vs)))
        (find_by_id-other w i v vs id ∙ find_by_id-none w i vs (rw name at fresh))
      ∙ find_by_key-own w i v vs key
]

find_scope-older :
    (w i : String) (v u : Scope) (vs : List Scope)
    → IsUnambiguous (v ∷ vs)
    → find_scope w i vs ≡ some u
    → find_scope w i (v ∷ vs) ≡ some u
find_scope-older w i v u vs h e = find_scope-other w i v vs (not_named w i v u vs h e) ∙ e

append_id-some : (id : String) (r : Visit) → r ≢ none → append_id id r ≢ none
append_id-some id none h = absurd (h refl)
append_id-some id (some (err e)) h = λ k. cc
append_id-some id (some (ok out)) h = λ k. cc

module _ (w : String) (all : List Scope) where
  -- What an older part of the list finds, the whole list finds.
  Extends : List Scope → Type 0
  Extends xs = (i : String) (u : Scope) → find_scope w i xs ≡ some u → find_scope w i all ≡ some u

  visit-blank :
      (n : ℕ) (id : String) (out : List String)
      → 1 ≤ n
      → is_empty id ≡ true
      → visit w all n id out ≢ none
  unfolding visit
  visit-blank zero id out le blank = absurd (omega arith)
  visit-blank (suc n) id out le blank = rw blank (λ k. cc)

  visit-found :
      (n : ℕ) (id : String) (v : Scope) (out : List String)
      → find_scope w id all ≡ some v
      → visit w all n v.parent_id out ≢ none
      → visit w all (suc n) id out ≢ none
  unfolding visit
  visit-found n id v out e h = elim (Bool-cases (is_empty id || member id out)) [
    | inl stop ↦ rw stop (λ k. cc)
    | inr go ↦ rw (go, e) (append_id-some v.id (visit w all n v.parent_id out) h)
  ]

  visit_ends :
      (xs : List Scope)
      → IsRooted xs
      → IsUnambiguous xs
      → Extends xs
      → (n : ℕ) (id : String) (out : List String) → length xs + 1 ≤ n
      → find_scope w id xs ≢ none
      → visit w all n id out ≢ none
  unfolding Extends find_scope find_by_id find_by_key
  visit_ends [] rooted clear ext n id out le h = absurd (h refl)
  visit_ends (v ∷ vs) rooted clear ext zero id out le h = absurd (omega (arith, le))
  visit_ends (v ∷ vs) (parent, rooted) clear ext (suc n) id out le h =
      let older : Extends vs = λ i u e. ext i u (find_scope-older w i v u vs clear e) in
      let ends = visit_ends vs rooted clear.2 older in
      elim (Bool-cases (names w id v)) [
        | inr f ↦ ends (suc n) id out (omega (arith, le)) (rw (find_scope-other w id v vs f) at h)
        | inl f ↦
            let own : v.workspace_id ≡ w = ground (arith, f, eq_iff v.workspace_id w) in
            visit-found n id v out
              (ext id v (find_scope-first w id v vs own (ground (arith, f)) (rw own at clear.1)))
              (elim parent [
                | inl blank ↦ visit-blank n v.parent_id out (omega (arith, le)) blank
                | inr found ↦ ends n v.parent_id out (omega (arith, le)) (rw own at found)
              ])
      ]

  -- An id that names no scope ends at once.
  visit-unknown :
      (n : ℕ) (id : String) (out : List String)
      → 1 ≤ n
      → find_scope w id all ≡ none
      → visit w all n id out ≢ none
  unfolding visit
  visit-unknown zero id out le e = absurd (omega (arith, le))
  visit-unknown (suc n) id out le e = elim (Bool-cases (is_empty id || member id out)) [
    | inl stop ↦ rw stop (λ k. cc)
    | inr go ↦ rw (go, e) (λ k. cc)
  ]

next :
    (r : Visit) {f : List String → Visit}
    → r ≢ none
    → ((out : List String) → f out ≢ none)
    → ◌≢◌ {A = Visit}
        (elim r [ none ↦ none | some (err e) ↦ some (err e) | some (ok out) ↦ f out ])
        none
next none h k = absurd (h refl)
next (some (err e)) h k = λ e. cc
next (some (ok out)) h k = k out

module _ (w : String) (scopes : List Scope) (rooted : IsRooted scopes)
    (clear : IsUnambiguous scopes) where
  visit-ends :
      (n : ℕ) (id : String) (out : List String) → enough scopes ≤ n → visit w scopes n id out ≢ none
  unfolding Extends
  visit-ends n id out le = elim (Option-cases (find_scope w id scopes)) [
    | inl e ↦ visit-unknown w scopes n id out (omega (arith, le)) e
    | inr (u, e) ↦
        visit_ends w scopes scopes rooted clear (λ i v k. k) n id out (omega (arith, le))
          (λ k. none-some (sym k ∙ e))
  ]

  pub visit_all-ends :
      (n : ℕ) (ids out : List String) → enough scopes ≤ n → visit_all w scopes n ids out ≢ none
  unfolding visit_all
  visit_all-ends n [] out le = λ k. cc
  visit_all-ends n (id ∷ ids) out le =
      next (visit w scopes n id out) (visit-ends n id out le) (λ out2. visit_all-ends n ids out2 le)
