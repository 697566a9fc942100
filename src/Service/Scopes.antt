-- ===== src/Service/Scopes.antt =====
-- `CreateScope` of knowledge/service.go
pub mod Parent
use vessica_knowledge_server.Base.{
  ℕ, String, Bool, true, false, ◌||◌, Result, ok, err, invalid, Action, pure, raise, reject_if,
  ◌>>=◌, ◌>>◌, if◌then◌else◌,
}
use vessica_knowledge_server.Models.{Scope, WriteOptions, Payload}
use vessica_knowledge_server.Store.Tables.{Tables}
use vessica_knowledge_server.Store.Read.{get_scope}
use vessica_knowledge_server.Store.Write
use vessica_knowledge_server.Service.Host.{Env, new_id}
use vessica_knowledge_server.Service.Rules.{is_empty}
use vessica_knowledge_server.Service.Writing.{event, once}

unfoldable pub new_scope : Env → WriteOptions → Scope → Scope
new_scope env o v = record v {
  id = if is_empty v.id then new_id "scope" env.object_suffix else v.id;
  workspace_id = o.workspace_id;
  created_at = env.created;
}

module _ {F : Type 0} where
  -- A failed look-up of the parent becomes an `Invalid`.
  unfoldable pub check_parent : String → String → Action (Tables F) (Unit {0})
  check_parent w p s = if is_empty p then (ok tt, s) else elim (get_scope w p s).0 [
    | ok _ ↦ (ok tt, s)
    | err _ ↦ (err (invalid "parent scope does not exist in workspace"), s)
  ]

  unfoldable pub create_scope : Env → WriteOptions → Scope → Action (Tables F) Scope
  unfolding check_parent new_scope
  create_scope env o v =
      once o (λ old. get_scope o.workspace_id old.aggregate_id)
        do
          reject_if (is_empty v.type || is_empty v.name || is_empty v.canonical_key)
              (invalid "scope type, name, and canonical_key required")
          check_parent o.workspace_id v.parent_id
          let u = new_scope env o v
          Write.create_scope u (event env o "scope" u.id "scope.created" 1 (Payload.scope u))
