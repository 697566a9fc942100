-- ===== src/Store/Ancestors/Closed.antt =====
-- What `ScopeAncestors` answers holds the scopes asked for, and with a scope its parent.
use vessica_knowledge_server.Base.{
  ℕ, zero, suc, String, true, ◌||◌, none, some, List, [], ◌∷◌, ◌++◌, ◌≡◌, ◌⊎◌, inl, inr, refl, ok,
  err, Failure, All, All-map, All-append, member, eq_refl, arith, Bool-cases, Option-cases,
}
use vessica_knowledge_server.Models.{Scope}
use vessica_knowledge_server.Store.Read.{find_scope}
use vessica_knowledge_server.Store.Tables.{Tables}
use vessica_knowledge_server.Service.Rules.{is_empty}
use vessica_knowledge_server.Store.Ancestors.{Visit, append_id, visit, visit_all, scope_ancestors}

Grows : List String → List String → Type 0
Grows xs ys = (i : String) → member i xs ≡ true → member i ys ≡ true

member-append :
    (i : String) (xs ys : List String) → member i (xs ++ ys) ≡ (member i xs || member i ys)
member-append i [] ys = refl
member-append i (x ∷ xs) ys = ground (arith, member-append i xs ys)

Grows-append : (xs ys : List String) → Grows xs (xs ++ ys)
unfolding Grows
Grows-append xs ys i h = rw (member-append i xs ys, h) refl

Grows-trans : (xs ys zs : List String) → Grows xs ys → Grows ys zs → Grows xs zs
unfolding Grows
Grows-trans xs ys zs f g i h = g i (f i h)

failed : {e : Failure} {xs : List String} → ¬ (◌≡◌ {A = Visit} (some (err e)) (some (ok xs)))
failed h = cc

append_id-ok :
    (id : String) (r : Visit) (out2 : List String)
    → append_id id r ≡ some (ok out2)
    → (out : List String) × (r ≡ some (ok out)) × (out ++ (id ∷ []) ≡ out2)
append_id-ok id none out2 h = absurd cc
append_id-ok id (some (err e)) out2 h = absurd cc
append_id-ok id (some (ok out)) out2 h = (out, refl, cc)

next-ok :
    (r : Visit) (f : List String → Visit) (out2 : List String)
    → ◌≡◌ {A = Visit}
        (elim r [ none ↦ none | some (err e) ↦ some (err e) | some (ok out) ↦ f out ])
        (some (ok out2))
    → (out : List String) × (r ≡ some (ok out)) × (f out ≡ some (ok out2))
next-ok none f out2 h = absurd cc
next-ok (some (err e)) f out2 h = absurd (failed h)
next-ok (some (ok out)) f out2 h = (out, refl, h)

last-member : (xs : List String) (i : String) → member i (xs ++ (i ∷ [])) ≡ true
last-member xs i = rw (member-append i xs (i ∷ []), eq_refl i) (ground arith)

same_answer : {xs ys : List String} → ◌≡◌ {A = Visit} (some (ok xs)) (some (ok ys)) → xs ≡ ys
same_answer h = cc

module _ (w : String) (scopes : List Scope) where
  -- The name is blank, an id of the answer, or finds a scope whose id is there.
  abbrev pub IsPresent : List String → String → Type 0
  IsPresent out id =
      (is_empty id || member id out ≡ true)
      ⊎ ((v : Scope) × (find_scope w id scopes ≡ some v) × (member v.id out ≡ true))

  -- Each id of the answer is that of a scope which a name finds, and its parent is present.
  abbrev pub IsClosed : List String → Type 0
  IsClosed out =
      All
        (λ i.
          (name : String) × (v : Scope) × (find_scope w name scopes ≡ some v)
          × (v.id ≡ i)
          × IsPresent out v.parent_id)
        out

  IsPresent-Grows :
      (xs ys : List String) (id : String) → Grows xs ys → IsPresent xs id → IsPresent ys id
  unfolding Grows
  IsPresent-Grows xs ys id g (inl h) = inl (ground (arith, h, g id))
  IsPresent-Grows xs ys id g (inr (v, e, m)) = inr (v, e, g v.id m)

  -- What a visit makes of an answer.
  record Step (id : String) (out out2 : List String) : Type 0 where
    grows : Grows out out2
    closed : IsClosed out2
    present : IsPresent out2 id

  IsClosed-append :
      (name : String) (v : Scope) (out : List String)
      → find_scope w name scopes ≡ some v
      → IsClosed out
      → IsPresent out v.parent_id
      → IsClosed (out ++ (v.id ∷ []))
  IsClosed-append name v out e c p =
      let wider = Grows-append out (v.id ∷ []) in
      All-append _ out (v.id ∷ [])
        (All-map _ _ (λ i (k, u, f, same, q). (k, u, f, same, IsPresent-Grows _ _ _ wider q)) out c)
        ((name, v, e, refl, IsPresent-Grows _ _ _ wider p), tt)

  stopped :
      (id : String) (out : List String)
      → is_empty id || member id out ≡ true
      → IsClosed out
      → Step id out out
  unfolding Grows
  stopped id out stop c = record { grows = λ i h. h; closed = c; present = inl stop }

  appended :
      (id : String) (v : Scope) (out mid : List String)
      → find_scope w id scopes ≡ some v
      → Step v.parent_id out mid
      → Step id out (mid ++ (v.id ∷ []))
  appended id v out mid e step = record {
    grows = Grows-trans out mid _ step.grows (Grows-append mid (v.id ∷ []));
    closed = IsClosed-append id v mid e step.closed step.present;
    present = inr (v, e, last-member mid v.id);
  }

  visit-Step :
      (n : ℕ) (id : String) (out out2 : List String)
      → IsClosed out
      → visit w scopes n id out ≡ some (ok out2)
      → Step id out out2
  unfolding visit
  visit-Step zero id out out2 c h = absurd cc
  visit-Step (suc n) id out out2 c h = elim (Bool-cases (is_empty id || member id out)) [
    | inl stop ↦
        let same : out ≡ out2 = same_answer (rw stop at h) in rw (← same) (stopped id out stop c)
    | inr go ↦ elim (Option-cases (find_scope w id scopes)) [
      | inl e ↦ absurd (failed (rw (go, e) at h))
      | inr (v, e) ↦
          let (mid, visited, last) =
            append_id-ok v.id (visit w scopes n v.parent_id out) out2 (rw (go, e) at h) in
          rw (← last) (appended id v out mid e (visit-Step n v.parent_id out mid c visited))
    ]
  ]

  visit_all-Step :
      (n : ℕ) (ids out out2 : List String)
      → IsClosed out
      → visit_all w scopes n ids out ≡ some (ok out2)
      → Grows out out2 × IsClosed out2 × All (IsPresent out2) ids
  unfolding visit_all Grows
  visit_all-Step n [] out out2 c h =
      let same = same_answer h in ((λ i k. rw (← same) k), rw (← same) c, tt)
  visit_all-Step n (id ∷ ids) out out2 c h =
      let (mid, visited, rest) =
        next-ok (visit w scopes n id out) (visit_all w scopes n ids) out2 h in
      let step = visit-Step n id out mid c visited in
      let (wider, closed, present) = visit_all-Step n ids mid out2 step.closed rest in
      (
        Grows-trans out mid out2 step.grows wider,
        closed,
        (IsPresent-Grows mid out2 id wider step.present, present),
      )

-- If `ScopeAncestors` answers, each scope that was asked for is in the answer, each id of the answer is
-- that of a scope of the workspace, and the scope's parent is in the answer as well.
pub scope_ancestors-IsClosed :
    {F : Type 0} (fuel : ℕ) (w : String) (ids out : List String) (s : Tables F)
    → scope_ancestors fuel w ids s ≡ some (ok out)
    → IsClosed w s.scopes out × All (IsPresent w s.scopes out) ids
unfolding scope_ancestors
scope_ancestors-IsClosed fuel w ids out s h =
    let (_, closed, present) = visit_all-Step w s.scopes fuel ids [] out tt h in (closed, present)
