-- ===== src/Server/Snapshots.antt =====
-- The handlers `export`, `importSnapshot` and `importStatus` of server/http.go.
use Prim.Native.String.{◌++◌}
use vessica_knowledge_server.Base.{
  ℕ, ℤ, String, Bool, true, false, not, ◌&&◌, ◌==◌, Option, none, some, List, [], ◌∷◌, Result, ok,
  err, not_found, if◌then◌else◌,
}
use vessica_knowledge_server.Models.{Snapshot}
use vessica_knowledge_server.Store.Tables.{Tables}
use vessica_knowledge_server.Store.Snapshots.{export}
use vessica_knowledge_server.Service.Host.{Host, Service}
use vessica_knowledge_server.Service.Rules.{is_empty}
use vessica_knowledge_server.Service.Snapshots.{import_snapshot}
use vessica_knowledge_server.Server.Options.{Settings, failure}
use vessica_knowledge_server.Server.Handlers.{Reply, answered, failed}
use vessica_knowledge_server.Server.Questions.{forbidden}

-- What `importSnapshot` answers and keeps of an import.
pub record ImportStatus : Type 0 where
  pub id : String
  pub status : String
  pub imported : Bool
  pub counts : List (String × ℤ)
  pub checksum : String

-- `Server.imports`
abbrev pub Imports : Type 0
Imports = List ImportStatus

-- `s.imports[id] = status`
unfoldable pub set_import : ImportStatus → Imports → Imports
set_import v [] = v ∷ []
set_import v (u ∷ us) = let rest = set_import v us in if u.id == v.id then v ∷ us else u ∷ rest

unfoldable pub find_import : String → Imports → Option ImportStatus
find_import id [] = none
find_import id (u ∷ us) = if u.id == id then some u else find_import id us

-- Here an empty workspace is not replaced by the default one.
abbrev is_other : Settings → String → Bool
is_other c w = not (is_empty c.default_workspace) && not (w == c.default_workspace)

abbrev succeeded : {A : Type 0} → Result A → Bool
succeeded (ok _) = true
succeeded (err _) = false

abbrev status_of : {F : Type 0} → Snapshot F → Bool → ImportStatus
status_of v imported = record {
  id = "import-" ++ v.checksum;
  status = if imported then "completed" else "failed";
  imported = imported;
  counts = v.counts;
  checksum = v.checksum;
}

-- The answer with the status, or with the error of the import.
abbrev import_reply : Result (Unit {0}) → ImportStatus → Reply ImportStatus
import_reply (ok _) status = answered 201 status
import_reply (err f) status = failed (failure f)

module _ {F : Type 0} ⦃host : Host F⦄ (marshal : Snapshot F → String) (c : Settings) where
  unfoldable pub post_export : ℕ → String → Tables F → Reply (Snapshot F)
  unfolding export
  post_export now w s =
      if is_other c w then failed (failure forbidden) else answered 200 (export marshal now w s)

  unfoldable pub post_import :
      Service F
      → ℕ
      → ℕ
      → Snapshot F
      → Imports × Tables F
      → Reply ImportStatus × (Imports × Tables F)
  unfolding import_snapshot set_import
  post_import svc now checked v (imports, s) =
      if is_other c v.workspace_id
      then (failed (failure forbidden), (imports, s))
      else let (r, s2) = import_snapshot marshal svc now checked v s in
        let status = status_of v (succeeded r) in
        (import_reply r status, (set_import status imports, s2))

unfoldable pub get_import_status : String → Imports → Reply ImportStatus
unfolding find_import
get_import_status id imports = elim (find_import id imports) [
  | none ↦ failed (failure (not_found "import not found"))
  | some v ↦ answered 200 v
]
