-- ===== src/Providers.antt =====
-- The providers over HTTP, of knowledge/embedder.go and knowledge/reranker.go: what they send, and how they
-- read the answer. The exchange itself and `encoding/json` are parameters.
pub mod Embedder
pub mod Reranker
use Prim.Native.String.{String, ◌++◌}
use Prim.Native.Char.{code}
use vessica_knowledge_server.Base.{ℕ, nat_eq, leb, ◌&&◌, ◌==◌, Result, err, other, if◌then◌else◌}
use vessica_knowledge_server.Service.Workflow.{decimal}

-- A POST with the two headers that the providers set.
pub record Request : Type 0 where
  pub url : String
  pub authorization : String
  pub content_type : String
  pub body : String

pub record Response : Type 0 where
  pub status : ℕ
  pub body : String

-- `http.NewRequestWithContext` and `Client.Do`; the number bounds the bytes that are read of the body.
abbrev pub Transport : Type 0
Transport = ℕ → Request → Result Response

-- `strings.TrimRight(s, "/")`
pub trim_slashes : String → String
trim_slashes String.[] = String.[]
trim_slashes (String.◌∷◌ c s) =
    let rest = trim_slashes s in
    if nat_eq (code c) 0x2f && rest == "" then String.[] else String.◌∷◌ c rest

abbrev pub or_openai : String → String
or_openai base = if base == "" then "https://api.openai.com/v1" else base

-- The request to a path below the base URL.
abbrev pub request_to : String → String → String → String → Request
request_to base_url path api_key body = record {
  url = or_openai (trim_slashes base_url) ++ path;
  authorization = "Bearer " ++ api_key;
  content_type = "application/json";
  body = body;
}

-- A status of 300 or more fails.
abbrev pub failed_status : {A : Type 0} → String → ℕ → Result A → Result A
failed_status provider status read =
    if leb 300 status
    then err (other (provider ++ " provider failed (" ++ decimal status ++ ")"))
    else read
