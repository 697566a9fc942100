-- ===== src/Server/Options/Valid.antt =====
-- The options that the server accepts are those that the service accepts, within the workspace of the
-- server.
use vessica_knowledge_server.Base.{
  String, true, false, ◌≡◌, ◌⊎◌, ok, reject_if, ◌>>=◌, arith, eq_iff,
}
use vessica_knowledge_server.Models.{WriteOptions}
use vessica_knowledge_server.Service.Rules.{is_empty}
use vessica_knowledge_server.Service.Writing.{validate_write}
use vessica_knowledge_server.Server.Options.{Settings, Headers, opts}

-- If the server has a default workspace or the request names one, then the service's own check accepts
-- the options that the server builds, in any state, and they are for the default workspace if there is
-- one.
pub opts-validate_write :
    {S : Type 0} (c : Settings) (r : Headers) (asked : String) (o : WriteOptions) (s : S)
    → (is_empty c.default_workspace ≡ false) ⊎ (is_empty asked ≡ false)
    → opts c r asked ≡ ok o
    → (validate_write o s ≡ (ok tt, s))
      × ((is_empty c.default_workspace ≡ true) ⊎ (o.workspace_id ≡ c.default_workspace))
unfolding opts validate_write reject_if ◌>>=◌
opts-validate_write c r asked o s named done = ground (
  arith,
  named,
  done,
  eq_iff asked c.default_workspace,
  eq_iff asked "",
  eq_iff c.default_workspace "",
  eq_iff o.workspace_id c.default_workspace,
)
