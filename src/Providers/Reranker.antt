-- ===== src/Providers/Reranker.antt =====
-- `HTTPReranker` of knowledge/reranker.go
use Prim.Native.String.{String, ◌++◌}
use vessica_knowledge_server.Base.{
  ℕ, true, false, ◌||◌, Option, none, some, List, [], ◌∷◌, ◌==◌, Result, ok, err, other,
  if◌then◌else◌,
}
use vessica_knowledge_server.Models.{Memory}
use vessica_knowledge_server.Models.Json.{Value, Elements, json_object}
use vessica_knowledge_server.Service.Host.{Reranker, RerankResult}
use vessica_knowledge_server.Providers.{Response, Transport, request_to, failed_status}

pub record HttpReranker : Type 0 where
  pub api_key : String
  pub base_url : String
  pub model_name : String

-- `Content` of the answer's envelope
pub record Content : Type 0 where
  pub type : String
  pub text : String

pub record Envelope : Type 0 where
  pub output : List (List Content)
  pub input_tokens : ℕ
  pub output_tokens : ℕ

-- `json.Marshal`, and `json.Unmarshal` into the envelope and into the `ids` of its text.
pub record Json : Type 0 where
  pub marshal : Value → String
  pub envelope : String → Result Envelope
  pub ranking : String → Option (List String)

abbrev object_of : List (String × Value) → Value
object_of fields = Value.object (json_object fields)

candidates_of : {F : Type 0} → List (Memory F) → Elements
candidates_of [] = Elements.no_elements
candidates_of (m ∷ ms) =
    Elements.element
      (object_of (
        ("id", Value.string m.id)
        ∷ ("title", Value.string m.title)
        ∷ ("content", Value.string m.content)
        ∷ []))
      (candidates_of ms)

-- The schema that the answer has to follow: an object with `ids`, a list of texts.
abbrev ranking_schema : Value
ranking_schema = object_of (
    ("type", Value.string "object")
    ∷ ("additionalProperties", Value.boolean false)
    ∷ ("required", Value.array (Elements.element (Value.string "ids") Elements.no_elements))
    ∷ (
      "properties",
      object_of (
          (
            "ids",
            object_of (
                ("type", Value.string "array")
                ∷ ("items", object_of (("type", Value.string "string") ∷ []))
                ∷ []),
          )
          ∷ []),
    )
    ∷ [])

abbrev ranking_format : Value
ranking_format = object_of (
    ("type", Value.string "json_schema")
    ∷ ("name", Value.string "memory_ranking")
    ∷ ("strict", Value.boolean true)
    ∷ ("schema", ranking_schema)
    ∷ [])

abbrev prompt_of : String → String → String
prompt_of query candidates =
    "Rank only the supplied memory IDs by relevance to the query. Omit irrelevant IDs. Never invent an ID or fact.\nQuery: "
    ++ query ++ "\nCandidates: " ++ candidates

abbrev question_of : String → String → Value
question_of model prompt = object_of (
    ("model", Value.string model)
    ∷ ("store", Value.boolean false)
    ∷ ("reasoning", object_of (("effort", Value.string "none") ∷ []))
    ∷ ("input", Value.string prompt)
    ∷ ("text", object_of (("format", ranking_format) ∷ []))
    ∷ [])

-- The inner loop stops at the first text of an output.
first_text : String → List Content → String
first_text text [] = text
first_text text (c ∷ cs) =
    let rest = first_text text cs in if c.type == "output_text" then c.text else rest

-- The outer loop goes on: the last output that has a text gives it.
unfoldable pub output_text : String → List (List Content) → String
unfolding first_text
output_text text [] = text
output_text text (o ∷ os) = output_text (first_text text o) os

module _ (json : Json) where
  abbrev unstructured : Result RerankResult
  unstructured = err (other "reranker returned invalid structured output")

  ranked_ids : Envelope → Option (List String) → Result RerankResult
  ranked_ids e none = unstructured
  ranked_ids e (some []) = unstructured
  ranked_ids e (some (id ∷ ids)) =
      ok (record { ids = id ∷ ids; input_tokens = e.input_tokens; output_tokens = e.output_tokens })

  read_envelope : Result Envelope → Result RerankResult
  unfolding ranked_ids output_text
  read_envelope (err f) = err f
  read_envelope (ok e) =
      let text = output_text "" e.output in
      if text == "" then unstructured else ranked_ids e (json.ranking text)

  read_ranking : Result Response → Result RerankResult
  unfolding read_envelope
  read_ranking (err f) = err f
  read_ranking (ok r) = failed_status "reranker" r.status (read_envelope (json.envelope r.body))

  module _ {F : Type 0} where
    unfoldable pub rerank :
        Transport → HttpReranker → String → List (Memory F) → Result RerankResult
    unfolding read_ranking candidates_of
    rerank send r query memories =
        if r.api_key == "" || r.model_name == ""
        then err (other "reranker API key and model required")
        else let candidates = json.marshal (Value.array (candidates_of memories)) in
          read_ranking (
            send 1_048_576 (
              request_to r.base_url "/responses" r.api_key
                (json.marshal (question_of r.model_name (prompt_of query candidates)))))

    -- As the service uses it.
    abbrev pub http_reranker : Transport → HttpReranker → Reranker F
    http_reranker send r = record { rerank = rerank send r; model = r.model_name }
