-- ===== src/Store/Ancestors.antt =====
-- `ScopeAncestors` of knowledge/sqlstore.go. The map `seen` and the slice `out` hold the same ids. The
-- recursion is on fuel: `none` says that the code goes on.
pub mod Ends
pub mod Endless
pub mod Closed
use vessica_knowledge_server.Base.{
  ℕ, zero, suc, ◌+◌, String, true, ◌||◌, Option, none, some, List, [], ◌∷◌, ◌++◌, ◌≡◌, ◌≢◌, ◌⊎◌,
  Result, ok, err, not_found, length, member, if◌then◌else◌,
}
use vessica_knowledge_server.Models.{Scope}
use vessica_knowledge_server.Store.Read.{find_scope}
use vessica_knowledge_server.Store.Tables.{Tables}
use vessica_knowledge_server.Service.Rules.{is_empty}

abbrev pub Visit : Type 0
Visit = Option (Result (List String))

-- `seen[v.ID] = true; out = append(out, v.ID)`, unless the parents fail.
abbrev pub append_id : String → Visit → Visit
append_id id none = none
append_id id (some (err e)) = some (err e)
append_id id (some (ok out)) = some (ok (out ++ (id ∷ [])))

module _ (w : String) (scopes : List Scope) where
  unfoldable pub visit : ℕ → String → List String → Visit
  visit zero id out = none
  visit (suc n) id out =
      if is_empty id || member id out then some (ok out) else elim (find_scope w id scopes) [
        | none ↦ some (err (not_found "scope not found"))
        | some v ↦ append_id v.id (visit n v.parent_id out)
      ]

  unfoldable pub visit_all : ℕ → List String → List String → Visit
  unfolding visit
  visit_all n [] out = some (ok out)
  visit_all n (id ∷ ids) out = elim (visit n id out) [
    | none ↦ none
    | some (err e) ↦ some (err e)
    | some (ok out2) ↦ visit_all n ids out2
  ]

unfoldable pub scope_ancestors : {F : Type 0} → ℕ → String → List String → Tables F → Visit
unfolding visit_all
scope_ancestors fuel w ids s = visit_all w s.scopes fuel ids []

-- Enough for every scope on a path of parents, and its end.
abbrev pub enough : List Scope → ℕ
enough scopes = length scopes + 2

-- A scope of the workspace has no parent, or one that the list holds.
abbrev pub HasParent : String → String → List Scope → Type 0
HasParent w p scopes = (is_empty p ≡ true) ⊎ (find_scope w p scopes ≢ none)

-- The parents are older than their scopes.
abbrev pub IsRooted : List Scope → Type 0
IsRooted [] = Unit
IsRooted (v ∷ vs) = HasParent v.workspace_id v.parent_id vs × IsRooted vs

-- The id and the key of a scope name no older scope of its workspace.
abbrev pub IsUnambiguous : List Scope → Type 0
IsUnambiguous [] = Unit
IsUnambiguous (v ∷ vs) =
    (find_scope v.workspace_id v.id vs ≡ none)
    × (find_scope v.workspace_id v.canonical_key vs ≡ none)
    × IsUnambiguous vs
