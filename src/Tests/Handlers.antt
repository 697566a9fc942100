-- ===== src/Tests/Handlers.antt =====
-- A request to the server of one workspace.
use vessica_knowledge_server.Base.{◌≡◌, ◌≢◌, refl, eq_iff, arith}
use vessica_knowledge_server.Server.Options.{Settings, Headers}
use vessica_knowledge_server.Server.Handlers.Tenant.{Post, serve, log_of, serve-log_of}
use vessica_knowledge_server.Tests.Data.{thousandths, plain_service, env_at, gateway}
use vessica_knowledge_server.Tests.History.{filled}

abbrev settings : Settings
settings = record { token = "t"; export_token = ""; default_workspace = "w2" }

abbrev headers : Headers
headers = record {
  authorization = "Bearer t";
  idempotency_key = "k9";
  actor_id = "u1";
  actor_type = "user";
  provenance_source = "api";
  provenance_id = "";
  query_workspace = "";
}

other_workspace : settings.default_workspace ≢ "w1"
other_workspace = λ e. ground (arith, e, eq_iff settings.default_workspace "w1")

serve-log_of_example :
    log_of "w1" (serve settings headers plain_service (env_at 60 "k9") (Post.entity gateway) filled)
    ≡ log_of "w1" filled
serve-log_of_example =
    serve-log_of settings headers plain_service (env_at 60 "k9") (Post.entity gateway) filled "w1"
      refl other_workspace
