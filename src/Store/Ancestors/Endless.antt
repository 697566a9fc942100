-- ===== src/Store/Ancestors/Endless.antt =====
-- `ScopeAncestors` goes on for ever where a scope is found by the name of its own parent.
use vessica_knowledge_server.Base.{
  ℕ, zero, suc, String, false, none, some, List, [], ◌∷◌, ◌≡◌, refl, ap,
}
use vessica_knowledge_server.Models.{Scope}
use vessica_knowledge_server.Store.Read.{find_scope}
use vessica_knowledge_server.Store.Tables.{Tables}
use vessica_knowledge_server.Service.Rules.{is_empty}
use vessica_knowledge_server.Store.Ancestors.{visit, visit_all, append_id, scope_ancestors}

visit-endless :
    (w : String) (scopes : List Scope) (v : Scope) (n : ℕ)
    → find_scope w v.parent_id scopes ≡ some v
    → is_empty v.parent_id ≡ false
    → visit w scopes n v.parent_id [] ≡ none
unfolding visit
visit-endless w scopes v zero own given = refl
visit-endless w scopes v (suc n) own given =
    rw (given, own) (ap (append_id v.id) (visit-endless w scopes v n own given))

-- If the name that a scope gives for its parent finds that scope itself, then `ScopeAncestors`, asked
-- about this name, does not end: no fuel is enough.
pub scope_ancestors-endless :
    {F : Type 0} (w : String) (s : Tables F) (v : Scope) (fuel : ℕ)
    → find_scope w v.parent_id s.scopes ≡ some v
    → is_empty v.parent_id ≡ false
    → scope_ancestors fuel w (v.parent_id ∷ []) s ≡ none
unfolding scope_ancestors visit_all
scope_ancestors-endless w s v fuel own given =
    rw (scope_ancestors, visit_all, visit-endless w s.scopes v fuel own given) refl
