-- ===== src/Tests/Scopes.antt =====
-- Scopes with parents, and one that stands for its own parent.
use vessica_knowledge_server.Base.{
  ℕ, ◌≤◌, String, ◌≡◌, ◌≢◌, refl, List, [], ◌∷◌, none, some, ok, arith, All, ◌>>=◌, reject_if,
}
use vessica_knowledge_server.Models.{Scope}
use vessica_knowledge_server.Store.Tables.{Tables, empty}
use vessica_knowledge_server.Store.Read.{
  find_scope, find_by_id, find_by_key, find_event, get_event_by_idempotency, get_scope,
}
use vessica_knowledge_server.Store.Write
use vessica_knowledge_server.Store.Write.{event_tx, event_clash, scope_clash}
use vessica_knowledge_server.Store.Ancestors.{
  IsUnambiguous, enough, scope_ancestors, visit, visit_all,
}
use vessica_knowledge_server.Store.Ancestors.Closed.{IsClosed, IsPresent, scope_ancestors-IsClosed}
use vessica_knowledge_server.Store.Ancestors.Endless.{scope_ancestors-endless}
use vessica_knowledge_server.Service.Scopes.{new_scope, check_parent, create_scope}
use vessica_knowledge_server.Service.Writing.{event, once, replay, validate_write}
use vessica_knowledge_server.Service.Run.{Request, Write, run, perform}
use vessica_knowledge_server.Service.Rooted.{scope_ancestors-ends}
use vessica_knowledge_server.Tests.Data.{thousandths, env_at, keyed}
use vessica_knowledge_server.Tests.History.{request}

abbrev scope : String → String → String → Scope
scope id key parent = record {
  id = id;
  workspace_id = "w1";
  parent_id = parent;
  type = "repository";
  name = key;
  canonical_key = key;
  created_at = 0;
}

abbrev pub family : List (Request ℕ)
family =
    request 10 "k1" (Write.scope (scope "s1" "org" ""))
    ∷ request 20 "k2" (Write.scope (scope "s2" "repo" "org"))
    ∷ []

abbrev pub scopes : Tables ℕ
scopes = run family empty

-- The second scope takes the canonical key of the first as its id, and names it as its parent.
abbrev twisted : Tables ℕ
twisted =
    run
      (request 10 "k1" (Write.scope (scope "s1" "org" ""))
        ∷ request 20 "k2" (Write.scope (scope "org" "repo" "org"))
        ∷ [])
      empty

abbrev own_parent : Scope
own_parent = new_scope (env_at 20 "k2") (keyed "k2") (scope "org" "repo" "org")

pub record Found : Type 0 where
  pub own : find_scope "w1" "org" twisted.scopes ≡ some own_parent
  pub closed : scope_ancestors 4 "w1" ("repo" ∷ []) scopes ≡ some (ok ("s1" ∷ "s2" ∷ []))
  pub room : enough scopes.scopes ≤ 1000
  pub little : enough scopes.scopes ≤ 10
  pub clear : IsUnambiguous scopes.scopes

pub found : Found
unfolding run perform create_scope new_scope check_parent once replay validate_write event
    get_event_by_idempotency find_event ◌>>=◌ reject_if Write.create_scope event_tx event_clash
    scope_clash find_scope find_by_id find_by_key get_scope scope_ancestors visit visit_all
found = record {
  own = refl;
  closed = refl;
  room = omega arith;
  little = omega arith;
  clear = (refl, refl, (refl, refl, tt));
}

scope_ancestors-endless_example : scope_ancestors 1000 "w1" ("org" ∷ []) twisted ≡ none
unfolding new_scope
scope_ancestors-endless_example =
    scope_ancestors-endless "w1" twisted own_parent 1000 found.own refl

scope_ancestors-IsClosed_example :
    IsClosed "w1" scopes.scopes ("s1" ∷ "s2" ∷ [])
    × All (IsPresent "w1" scopes.scopes ("s1" ∷ "s2" ∷ [])) ("repo" ∷ [])
scope_ancestors-IsClosed_example =
    scope_ancestors-IsClosed 4 "w1" ("repo" ∷ []) ("s1" ∷ "s2" ∷ []) scopes found.closed

scope_ancestors-ends_example : scope_ancestors 1000 "w1" ("repo" ∷ "org" ∷ []) scopes ≢ none
scope_ancestors-ends_example =
    scope_ancestors-ends family "w1" ("repo" ∷ "org" ∷ []) 1000 found.clear found.room
