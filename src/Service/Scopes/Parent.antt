-- ===== src/Service/Scopes/Parent.antt =====
-- The check of a new scope's parent passes or refuses, and changes nothing.
use vessica_knowledge_server.Base.{
  String, ◌≡◌, refl, ◌⊎◌, inl, inr, Result, ok, err, Option, none, some, ◌≢◌, Failure, invalid,
  Bool-cases,
}
use vessica_knowledge_server.Models.{Scope}
use vessica_knowledge_server.Store.Tables.{Tables}
use vessica_knowledge_server.Store.Read.{get_scope, find_scope, or_missing}
use vessica_knowledge_server.Store.Ancestors.{HasParent}
use vessica_knowledge_server.Service.Rules.{is_empty}
use vessica_knowledge_server.Service.Scopes.{check_parent}

module _ {F : Type 0} where
  parent_found :
      (m : String) (r : Option Scope) (s : Tables F)
      → let q = elim (or_missing m r) as (λ _. Result (Unit {0}) × Tables F) [
        | ok _ ↦ (ok tt, s)
        | err _ ↦ (err (invalid "parent scope does not exist in workspace"), s)
      ] in
        ((q ≡ (ok tt, s)) × (r ≢ none)) ⊎ ((f : Failure) × (q ≡ (err f, s)))
  parent_found m (some v) s = inl (refl, λ e. cc)
  parent_found m none s = inr (_, refl)

  pub check_parent-Passes :
      (w p : String) (s : Tables F)
      → ((check_parent w p s ≡ (ok tt, s)) × HasParent w p s.scopes)
        ⊎ ((f : Failure) × (check_parent w p s ≡ (err f, s)))
  unfolding check_parent get_scope
  check_parent-Passes w p s = elim (Bool-cases (is_empty p)) [
    | inl none_given ↦ inl (rw none_given refl, inl none_given)
    | inr given ↦ rw given (elim (parent_found "scope not found" (find_scope w p s.scopes) s) [
      | inl (passed, found) ↦ inl (passed, inr found)
      | inr bad ↦ inr bad
    ])
  ]
