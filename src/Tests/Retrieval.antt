-- ===== src/Tests/Retrieval.antt =====
-- A provider that reverses its candidates.
use vessica_knowledge_server.Base.{pos}
use vessica_knowledge_server.Base.{ℕ, ◌≤◌, ◌≡◌, some, none, false, [], ok, arith, map, reverse}
use vessica_knowledge_server.Models.Retrieval.{MemoryRetrievalRequest}
use vessica_knowledge_server.Service.Host.{Service, Reranker}
use vessica_knowledge_server.Retrieval.Rerank.{Answer, maybe_rerank}
use vessica_knowledge_server.Retrieval.Conserved.{occurrences, one_when, maybe_rerank-occurrences}
use vessica_knowledge_server.Tests.Data.{thousandths, ranked_memories}

abbrev backwards : Reranker ℕ
backwards = record {
  rerank = λ query ms.
      ok (record { ids = reverse (map (λ m. m.id) ms); input_tokens = 10; output_tokens = 2 });
  model = "backwards";
}

abbrev reordering : Service ℕ
reordering = record { embedder = none; reranker = some backwards }

abbrev retrieval : MemoryRetrievalRequest
retrieval = record {
  workspace_id = "w1";
  query = "drain";
  scope_ids = [];
  entity_ids = [];
  limit = pos 20;
  rerank = "always";
}

abbrev found : Answer ℕ
found = record {
  results = ranked_memories;
  rerank = record {
    applied = false;
    model = "";
    reason = "disabled";
    candidate_count = 4;
    latency_ms = 0;
    input_tokens = 0;
    output_tokens = 0;
  };
}

once_each : occurrences "m3" found.results ≤ 1
unfolding occurrences one_when
once_each = omega arith

maybe_rerank-occurrences_example :
    occurrences "m3" (maybe_rerank reordering 5 retrieval found).results
    ≡ occurrences "m3" found.results
maybe_rerank-occurrences_example =
    maybe_rerank-occurrences reordering 5 retrieval found "m3" once_each
