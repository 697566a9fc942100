-- ===== src/Store/Table/Pointers.antt =====
-- The tables `entity_current`, `artifact_current`, `memory_current`, `relationship_current`.
use vessica_knowledge_server.Base.{
  ℕ, String, Bool, Option, none, some, List, [], ◌∷◌, ◌++◌, ◌≡◌, refl, ◌&&◌, ◌==◌, eq_iff, arith,
  leb, if◌then◌else◌,
}

pub record Current : Type 0 where
  pub workspace_id : String
  pub id : String
  pub version : ℕ

abbrev pub is_for : String → String → Current → Bool
is_for w i c = c.workspace_id == w && c.id == i

unfoldable pub current_version : String → String → List Current → Option ℕ
current_version w i [] = none
current_version w i (c ∷ cs) = if is_for w i c then some c.version else current_version w i cs

-- `INSERT … ON CONFLICT(workspace_id,id) DO UPDATE SET version=excluded.version`
unfoldable pub upsert_current : String → String → ℕ → List Current → List Current
upsert_current w i n [] = (record { workspace_id = w; id = i; version = n }) ∷ []
upsert_current w i n (c ∷ cs) =
    if is_for w i c then record c { version = n } ∷ cs else c ∷ upsert_current w i n cs

-- `DELETE FROM … WHERE workspace_id=?`
pub delete_workspace : String → List Current → List Current
delete_workspace w [] = []
delete_workspace w (c ∷ cs) =
    let rest = delete_workspace w cs in if c.workspace_id == w then rest else c ∷ rest

-- One more row of a group of `MAX(version) … GROUP BY workspace_id,id`.
pub raise_max : String → String → ℕ → List Current → List Current
raise_max w i n [] = (record { workspace_id = w; id = i; version = n }) ∷ []
raise_max w i n (c ∷ cs) =
    if is_for w i c
    then record c { version = if leb n c.version then c.version else n } ∷ cs
    else c ∷ raise_max w i n cs

abbrev pub max_with : ℕ → Option ℕ → ℕ
max_with n none = n
max_with n (some m) = if leb n m then m else n

module _ (w i v j : String) where
  pub current_version-upsert_current :
      (n : ℕ) (cs : List Current)
      → current_version v j (upsert_current w i n cs)
        ≡ (if w == v && i == j then some n else current_version v j cs)
  unfolding current_version upsert_current
  current_version-upsert_current n [] = refl
  current_version-upsert_current n (c ∷ cs) = ground (
    arith,
    eq_iff w v,
    eq_iff i j,
    eq_iff c.workspace_id w,
    eq_iff c.workspace_id v,
    eq_iff c.id i,
    eq_iff c.id j,
    current_version-upsert_current n cs,
  )

  pub current_version-raise_max :
      (n : ℕ) (cs : List Current)
      → current_version v j (raise_max w i n cs) ≡ (
          if w == v && i == j
          then some (max_with n (current_version w i cs))
          else current_version v j cs)
  unfolding current_version raise_max
  current_version-raise_max n [] = refl
  current_version-raise_max n (c ∷ cs) = ground (
    arith,
    eq_iff w v,
    eq_iff i j,
    eq_iff c.workspace_id w,
    eq_iff c.workspace_id v,
    eq_iff c.id i,
    eq_iff c.id j,
    current_version-raise_max n cs,
  )

pub current_version-delete_workspace :
    (w v j : String) (cs : List Current)
    → current_version v j (delete_workspace w cs)
      ≡ (if w == v then none else current_version v j cs)
unfolding current_version delete_workspace
current_version-delete_workspace w v j [] = ground arith
current_version-delete_workspace w v j (c ∷ cs) = ground (
  arith,
  eq_iff w v,
  eq_iff c.workspace_id w,
  eq_iff c.workspace_id v,
  current_version-delete_workspace w v j cs,
)

pub current_version-append :
    (v j : String) (cs ds : List Current)
    → current_version v j (cs ++ ds)
      ≡ elim (current_version v j cs) [ none ↦ current_version v j ds | some n ↦ some n ]
unfolding current_version
current_version-append v j [] ds = refl
current_version-append v j (c ∷ cs) ds = ground (arith, current_version-append v j cs ds)
