-- ===== src/Store/Queries/Related.antt =====
-- `RelatedObjectIDs` against `relatedToAny`.
use vessica_knowledge_server.Base.{
  String, Bool, true, false, ◌&&◌, ◌||◌, List, [], ◌∷◌, ◌≡◌, ◌==◌, arith, member, select, eq_iff,
  Bool-cases, inl, inr, if◌then◌else◌, ◌⊎◌,
}
use vessica_knowledge_server.Models.{Relationship}
use vessica_knowledge_server.Store.Tables.{Tables, relationship_row}
use vessica_knowledge_server.Store.Queries.{
  add_other, others, touches, joined, list_relationships, related_object_ids, related_to_any,
}

member-add_other :
    (entities : List String) (id x : String) (out : List String)
    → member x (add_other entities id out) ≡ true
    → ((id ≡ x) × (member x entities ≡ false)) ⊎ (member x out ≡ true)
unfolding add_other
member-add_other entities id x out h = ground (arith, h, eq_iff id x)

module _ {F : Type 0} (entities : List String) where
  abbrev leads : Relationship F → Bool
  leads r = r.state == "active" && (member r.from_id entities || member r.to_id entities)

  abbrev about : String → Relationship F → Bool
  about id r = r.from_id == id || r.to_id == id

  -- One relationship more in front, which leads somewhere.
  leading_step :
      (id : String) (r : Relationship F) (rest : List String) (met : Bool)
      → leads r ≡ true
      → member id (add_other entities r.from_id (add_other entities r.to_id rest)) ≡ true
      → (member id rest ≡ true → (met ≡ true) × (member id entities ≡ false))
      → ((if about id r then member r.from_id entities || member r.to_id entities || met else met)
          ≡ true)
        × (member id entities ≡ false)
  leading_step id r rest met lead h k = ground (
    arith,
    lead,
    k,
    member-add_other entities r.from_id id (add_other entities r.to_id rest) h,
    member-add_other entities r.to_id id rest,
    eq_iff r.from_id id,
    eq_iff r.to_id id,
  )

  touches-about :
      (id : String) (r : Relationship F) (rs : List (Relationship F))
      → touches entities (select (about id) (r ∷ rs)) ≡ (
          if about id r
          then member r.from_id entities
            || member r.to_id entities
            || touches entities (select (about id) rs)
          else touches entities (select (about id) rs))
  unfolding touches select
  touches-about id r rs = ground arith

  -- An id that the active relationships lead to is touched by one of all that are about it.
  others-touches :
      (id : String) (rs : List (Relationship F))
      → member id (others entities (select leads rs)) ≡ true
      → (touches entities (select (about id) rs) ≡ true) × (member id entities ≡ false)
  unfolding others select
  others-touches id [] h = cc
  others-touches id (r ∷ rs) h = elim (Bool-cases (leads r)) [
    | inl lead ↦ rw (touches-about id r rs) (
        leading_step id r (others entities (select leads rs)) _ lead (rw lead at h)
          (others-touches id rs))
    | inr idle ↦
        let ih = others-touches id rs (rw idle at h) in
        rw (touches-about id r rs) (ground (arith, ih))
  ]

module _ {F : Type 0} (w : String) (entities : List String) (s : Tables F) where
  -- Each id that `RelatedObjectIDs` answers with is no entity of the question itself, and `relatedToAny`
  -- says of it that it is related to one of them.
  pub related_object_ids-related_to_any :
      (id : String)
      → member id (related_object_ids w entities s) ≡ true
      → (related_to_any w id entities s ≡ true) × (member id entities ≡ false)
  unfolding related_object_ids related_to_any list_relationships
  related_object_ids-related_to_any id h = others-touches entities id (joined w s.relationships) h
