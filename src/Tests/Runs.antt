-- ===== src/Tests/Runs.antt =====
-- The theorems on any writes, at those of the history.
use vessica_knowledge_server.Base.{◌≡◌, List, ok}
use vessica_knowledge_server.Store.Tables.{empty, entity_row, artifact_row, memory_row}
use vessica_knowledge_server.Store.Consistent.{IsConsistent}
use vessica_knowledge_server.Store.Projections.{rebuild_projections, SameCurrent}
use vessica_knowledge_server.Store.Replay.{replay_events}
use vessica_knowledge_server.Store.Tables.{Job}
use vessica_knowledge_server.Service.Replayed.{oldest_first, replay_events-run}
use vessica_knowledge_server.Service.Run.{run-IsConsistent, rebuild_after_run}
use vessica_knowledge_server.Tests.Data.{thousandths}
use vessica_knowledge_server.Tests.History.{history, filled}

run-IsConsistent_example : IsConsistent filled
run-IsConsistent_example = run-IsConsistent history

rebuild_after_run_example : SameCurrent filled (rebuild_projections "w1" filled).1
rebuild_after_run_example = rebuild_after_run history "w1"

replay_events-run_example :
    (jobs : List Job) × (replay_events 99 (oldest_first filled.events) empty
      ≡ (ok tt, record filled { jobs = jobs }))
replay_events-run_example = replay_events-run 99 history
