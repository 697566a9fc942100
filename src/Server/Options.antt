-- ===== src/Server/Options.antt =====
-- Credentials and write options of server/http.go: `exportCredential`, `token`, `authWith`, `opts`,
-- `workspace` and `failure`.
pub mod Valid
use vessica_knowledge_server.Base.{
  ℕ, String, Bool, true, false, not, ◌&&◌, ◌||◌, ◌==◌, List, [], ◌∷◌, Option, none, some, Error,
  Failure, api, other, Result, ok, err, invalid, nat_eq, drop, length, if◌then◌else◌,
}
use vessica_knowledge_server.Models.{WriteOptions}
use vessica_knowledge_server.Service.Rules.{is_empty}
use vessica_knowledge_server.Text.{same_runes, runes, has_prefix, trim_space}
use vessica_knowledge_server.Server.Rates.{Rates, allow}

-- The fields of `Server` that the functions here read.
pub record Settings : Type 0 where
  pub token : String
  pub export_token : String
  pub default_workspace : String

-- The headers of a request, "" for one that is missing, and the query's `workspace_id`.
pub record Headers : Type 0 where
  pub authorization : String
  pub idempotency_key : String
  pub actor_id : String
  pub actor_type : String
  pub provenance_source : String
  pub provenance_id : String
  pub query_workspace : String

unfoldable pub export_credential : Settings → String
export_credential s = if is_empty s.export_token then s.token else s.export_token

-- `strings.TrimPrefix`
trim_prefix : List ℕ → List ℕ → List ℕ
trim_prefix s prefix = if has_prefix s prefix then drop (length prefix) s else s

-- Texts are equal if their UTF-8 bytes are, so the check of the lengths decides nothing more.
unfoldable pub token : String → String → Bool
unfolding same_runes trim_prefix
token header want =
    same_runes (trim_space (trim_prefix (runes header) (runes "Bearer "))) (runes want)

unauthorized : Failure
unauthorized =
    api (record { code = "unauthorized"; message = "invalid bearer token"; status = 401 })

rate_limited : Failure
rate_limited =
    api (record { code = "rate_limited"; message = "request rate limit exceeded"; status = 429 })

-- `authWith`: `ok` hands the request on.
unfoldable pub auth_with : String → Headers → ℕ → Rates → Result (Unit {0}) × Rates
unfolding unauthorized rate_limited
auth_with required r now rates =
    let counted = allow r.authorization now rates in
    if not (is_empty required) && not (token r.authorization required)
    then (err unauthorized, rates)
    else if not counted.0
    then (err rate_limited, counted.1)
    else (ok tt, counted.1)

unfoldable pub opts : Settings → Headers → String → Result WriteOptions
opts s r asked =
    let workspace = if is_empty asked then s.default_workspace else asked in
    if not (is_empty s.default_workspace) && not (workspace == s.default_workspace)
    then err (
        api (record {
          code = "forbidden_workspace";
          message = "token is not scoped to this workspace";
          status = 403;
        }))
    else if is_empty r.actor_id || is_empty r.actor_type
    then err (invalid "X-Actor-ID and X-Actor-Type headers required")
    else if is_empty r.provenance_source
    then err (invalid "X-Provenance-Source header required")
    else if is_empty r.idempotency_key
    then err (invalid "Idempotency-Key header required")
    else ok (record {
      workspace_id = workspace;
      idempotency_key = r.idempotency_key;
      actor = record { id = r.actor_id; type = r.actor_type };
      provenance = record {
        source = r.provenance_source;
        source_id = r.provenance_id;
        source_url = "";
        detail = none;
      };
    })

unfoldable pub workspace : Headers → String → String
workspace r default = if is_empty default then r.query_workspace else default

-- The error that `failure` answers with.
unfoldable pub failure : Failure → Error
failure (api e) = e
failure (other text) = record { code = "internal"; message = text; status = 500 }
