-- ===== src/Tests/Snapshots.antt =====
-- A snapshot of a store with an entity, an artifact and a memory.
use Prim.Native.String.{◌++◌}
use vessica_knowledge_server.Base.{ℕ, String, ◌≡◌, ok}
use vessica_knowledge_server.Models.{Snapshot}
use vessica_knowledge_server.Store.Snapshots.{export, import_snapshot}
use vessica_knowledge_server.Store.Snapshots.Again.{import_snapshot-export}
use vessica_knowledge_server.Tests.Data.{thousandths}
use vessica_knowledge_server.Tests.History.{filled}

abbrev marshal : Snapshot ℕ → String
marshal snap = snap.workspace_id ++ snap.high_watermark ++ snap.checksum

import_snapshot-export_example :
    import_snapshot marshal 60 61 (export marshal 59 "w1" filled) filled ≡ (ok tt, filled)
import_snapshot-export_example = import_snapshot-export marshal 59 60 61 "w1" filled
