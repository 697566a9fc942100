-- ===== src/Models/Json.antt =====
-- Go's `map[string]any` as `encoding/json` fills it.
use vessica_knowledge_server.Base.{
  String, Bool, Option, none, some, List, [], ◌∷◌, ◌==◌, if◌then◌else◌,
}

-- A number is kept as its literal.
mutual
  pub data Value : Type 0 where
    null : Value
    boolean : Bool → Value
    number : String → Value
    string : String → Value
    array : Elements → Value
    object : Members → Value

  pub data Elements : Type 0 where
    no_elements : Elements
    element : Value → Elements → Elements

  pub data Members : Type 0 where
    no_members : Members
    member_of : String → Value → Members → Members

-- A `map[string]any`; `none` is the nil map.
abbrev pub Metadata : Type 0
Metadata = Option Members

members_get : String → Members → Option Value
members_get k no_members = none
members_get k (member_of j v m) = if j == k then some v else members_get k m

-- `text, _ := metadata[key].(string)`: the empty text if the key is missing or no text.
pub string_at : String → Metadata → String
unfolding members_get
string_at k none = ""
string_at k (some m) = elim (members_get k m) [ some (string s) ↦ s | _ ↦ "" ]

-- `map[string]any{"k1": v1, …}`
abbrev pub json_object : List (String × Value) → Members
json_object [] = no_members
json_object ((k, v) ∷ r) = member_of k v (json_object r)
