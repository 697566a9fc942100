-- ===== src/Service/Host.antt =====
-- What the service stands on: Go's float64 arithmetic and SHA-256, the clock and the random source, and
-- the providers that a deployment configures.
use Prim.Native.String.{◌++◌}
use vessica_knowledge_server.Base.{ℕ, String, Bool, Option, List, Result}
use vessica_knowledge_server.Models.{Memory}

-- `ratio n d` is the float64 literal that is nearest to n / d.
pub record Host (F : Type 0) : Type 0 where
  pub ratio : ℕ → ℕ → F
  pub lt : F → F → Bool
  pub eq : F → F → Bool
  pub add : F → F → F
  pub sub : F → F → F
  pub mul : F → F → F
  pub div : F → F → F
  pub sha256_hex : String → String
  -- `unicode.ToLower` of a rune
  pub to_lower : ℕ → ℕ

-- What one call reads from the world: the clock at three moments, and what `NewID` draws for the
-- object and for its event.
pub record Env : Type 0 where
  pub created : ℕ
  pub occurred : ℕ
  pub queued : ℕ
  pub object_suffix : String
  pub event_suffix : String

abbrev pub new_id : String → String → String
new_id prefix suffix = prefix ++ "_" ++ suffix

-- The interface `Embedder`, as one call of a method of the service meets it: no method embeds twice, and the
-- answers to another call are those of another `Embedder`.
pub record Embedder (F : Type 0) : Type 0 where
  pub embed : String → Result (List F)
  pub provider : String
  pub model : String

pub record RerankResult : Type 0 where
  pub ids : List String
  pub input_tokens : ℕ
  pub output_tokens : ℕ

-- The interface `Reranker`
pub record Reranker (F : Type 0) : Type 0 where
  pub rerank : String → List (Memory F) → Result RerankResult
  pub model : String

-- `Service`, without its store; `none` is a nil interface.
pub record Service (F : Type 0) : Type 0 where
  pub embedder : Option (Embedder F)
  pub reranker : Option (Reranker F)
