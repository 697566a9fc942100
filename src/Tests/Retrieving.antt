-- ===== src/Tests/Retrieving.antt =====
-- One question to the memories of the history.
use vessica_knowledge_server.Base.{positive_or}
use vessica_knowledge_server.Base.{negsuc}
use vessica_knowledge_server.Base.{
  ℕ, ◌≤◌, String, true, ◌≡◌, refl, none, some, List, [], ok, other, length, arith,
}
use vessica_knowledge_server.Models.Retrieval.{
  MemoryRetrievalRequest, MemoryRetrievalResponse, ContextRequest, ContextResponse,
}
use vessica_knowledge_server.Context.Compose.{context}
use vessica_knowledge_server.Context.Answered.{IsSafe, context-answers, context-IsSafe}
use vessica_knowledge_server.Text.{same_runes}
use vessica_knowledge_server.Service.Rules.{default_string}
use vessica_knowledge_server.Retrieval.Search.{Engine}
use vessica_knowledge_server.Retrieval.Kept.{AllRanked}
use vessica_knowledge_server.Retrieval.Sound.{IsEligible}
use vessica_knowledge_server.Retrieval.Answers.{limit_of, retrieve_memories-safe}
use vessica_knowledge_server.Retrieval.Available.{IsValid, retrieve_memories-answers}
use vessica_knowledge_server.Retrieval.Retrieve.{World, expand_scopes, retrieve_memories}
use vessica_knowledge_server.Tests.Data.{thousandths, plain_service, question}
use vessica_knowledge_server.Tests.History.{filled}

-- A database without a full-text index, which finds every text like every pattern.
abbrev engine : Engine ℕ
engine = record {
  database = record { like = λ text pattern. true; json_texts = λ xs. "" };
  sqlite = true;
  full_text = λ words. none;
  refused = other "no index";
  letter_or_digit = λ c. true;
  distance = λ a b. 0;
  product = λ a b. 0;
}

abbrev world : World ℕ
world = record { engine = engine; equal_fold = same_runes; now = 100; latency = 0; fuel = 10 }

abbrev asked : MemoryRetrievalRequest
asked = record {
  workspace_id = "w1";
  query = "drain";
  scope_ids = [];
  entity_ids = [];
  limit = negsuc 4;
  rerank = "";
}

asked-IsValid : IsValid asked
unfolding default_string positive_or
asked-IsValid = (refl, omega arith, refl)

retrieve_memories-answers_example :
    (response : MemoryRetrievalResponse ℕ) × (retrieve_memories plain_service world filled asked
      ≡ some (ok response))
retrieve_memories-answers_example =
    retrieve_memories-answers plain_service world filled asked asked-IsValid refl refl

-- What the call answers with.
record Answer : Type 0 where
  response : MemoryRetrievalResponse ℕ
  given : retrieve_memories plain_service world filled asked ≡ some (ok response)

answer : Answer
answer =
    let (response, given) =
      retrieve_memories-answers plain_service world filled asked asked-IsValid refl refl in
    record { response = response; given = given }

retrieve_memories-safe_example :
    (length answer.response.results ≤ limit_of asked)
    × (limit_of asked ≤ 100)
    × ((found_scopes : List String) × (expand_scopes 10 "w1" [] filled ≡ some (ok found_scopes))
        × AllRanked (IsEligible filled "w1" 100 found_scopes) answer.response.results)
retrieve_memories-safe_example =
    retrieve_memories-safe plain_service world filled asked answer.response answer.given

abbrev wide : ContextRequest
wide = record question { scope_ids = [] }

context-answers_example :
    (response : ContextResponse ℕ) × (context plain_service world filled wide ≡ some (ok response))
context-answers_example = context-answers plain_service world filled wide refl refl refl

-- The context of the same question.
record Context : Type 0 where
  response : ContextResponse ℕ
  given : context plain_service world filled wide ≡ some (ok response)

found_context : Context
found_context =
    let (response, given) = context-answers plain_service world filled wide refl refl refl in
    record { response = response; given = given }

context-IsSafe_example : IsSafe world filled wide found_context.response
context-IsSafe_example =
    context-IsSafe plain_service world filled wide found_context.response found_context.given
