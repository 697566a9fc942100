-- ===== src/Providers/Embedder.antt =====
-- `HTTPEmbedder` of knowledge/embedder.go
use Prim.Native.String.{String}
use vessica_knowledge_server.Base.{
  Bool, true, ◌&&◌, List, [], ◌∷◌, ◌==◌, Result, ok, err, other, if◌then◌else◌,
}
use vessica_knowledge_server.Models.Json.{Value, json_object}
use vessica_knowledge_server.Service.Host.{Embedder}
use vessica_knowledge_server.Providers.{Response, Transport, request_to, failed_status}

pub record HttpEmbedder : Type 0 where
  pub api_key : String
  pub base_url : String
  pub model_name : String

-- `json.Marshal`, and `json.Unmarshal` into the vectors of `data`; whether a float32 is a number and finite.
pub record Json (F : Type 0) : Type 0 where
  pub marshal : Value → String
  pub vectors : String → Result (List (List F))
  pub is_finite : F → Bool

abbrev input_of : String → String → Value
input_of model text =
    Value.object (json_object (("model", Value.string model) ∷ ("input", Value.string text) ∷ []))

module _ {F : Type 0} (json : Json F) where
  all_finite : List F → Bool
  all_finite [] = true
  all_finite (x ∷ xs) = json.is_finite x && all_finite xs

  -- The checks of a decoded answer, in their order
  unfoldable pub first_vector : List (List F) → Result (List F)
  unfolding all_finite
  first_vector [] = err (other "embedding provider returned no data")
  first_vector ([] ∷ _) = err (other "embedding provider returned an empty vector")
  first_vector ((x ∷ xs) ∷ _) =
      if all_finite (x ∷ xs)
      then ok (x ∷ xs)
      else err (other "embedding provider returned a malformed vector")

  read_vectors : Result (List (List F)) → Result (List F)
  unfolding first_vector
  read_vectors (err e) = err e
  read_vectors (ok vectors) = first_vector vectors

  read_answer : Result Response → Result (List F)
  unfolding read_vectors
  read_answer (err e) = err e
  read_answer (ok r) = failed_status "embedding" r.status (read_vectors (json.vectors r.body))

  unfoldable pub embed : Transport → HttpEmbedder → String → Result (List F)
  unfolding read_answer
  embed send e text =
      if e.api_key == ""
      then err (other "embedding API key required")
      else read_answer (
          send 2_097_152 (
            request_to e.base_url "/embeddings" e.api_key
              (json.marshal (input_of e.model_name text))))

  -- As the service uses it.
  abbrev pub http_embedder : Transport → HttpEmbedder → Embedder F
  http_embedder send e = record {
    embed = embed send e;
    provider = "openai_compatible";
    model = e.model_name;
  }
