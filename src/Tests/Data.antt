-- ===== src/Tests/Data.antt =====
-- Documents, stores and requests for the runs.
use sclawion.Prelude.{String, false, some, none, List, [], ◌∷◌, ◌==◌, if◌then◌else◌}
use sclawion.Bytes.{bytes}
use sclawion.Prelude.Int.{pos}
use sclawion.Sorting.Insertion.{by_insertion}
use sclawion.Event.{slack}
use sclawion.Config.Errors.{ok, err, not_found}
use sclawion.Config.Types.{
  Tenant, ConnectorConfig, AgentProfile, SwarmDef, AdminUser, AuditEntry, no_ref, role_owner,
  kind_signing,
}
use sclawion.Config.MemStore.{MemStore, new_mem_store, mem_store}
use sclawion.Config.MemStore.View.{Op, put_tenant, delete_tenant, put_connector, put_audit}
use sclawion.Config.World.{Host, World, Writer}
use sclawion.Config.Audit.{blank}
use sclawion.Config.Secrets.{SecretRotator}
use sclawion.Config.Rbac.{IapAuthConfig, IapClaims}
use sclawion.Admin.Http.{Request, respond, text}
use sclawion.Admin.Ui.Routes.{Assets}
use sclawion.Admin.Deps.{Deps, Decoders}

abbrev pub acme : Tenant
acme = record {
  id = "acme-corp";
  display_name = "Acme";
  created_at = pos 0;
  updated_at = pos 0;
  disabled = false;
}

abbrev pub beta : Tenant
beta = record acme { id = "beta"; display_name = "Beta" }

abbrev pub acme_slack : ConnectorConfig
acme_slack = record {
  tenant_id = "acme-corp";
  platform = slack;
  webhook_path = "/v1/slack";
  allowed_channels = none;
  signing_secret_ref = no_ref;
  oauth_token_ref = no_ref;
  rate_limit_per_conv = pos 60;
  replay_cache_enabled = false;
  updated_at = pos 0;
  updated_by = "";
}

abbrev pub builder : AgentProfile
builder = record {
  tenant_id = "acme-corp";
  id = "builder";
  name = "Builder";
  model = "gemini-2.5-pro";
  mcp_servers = none;
  skills = none;
  memory_scope = "user";
  budget_usd_per_hour = pos 0;
  updated_at = pos 0;
  updated_by = "";
}

abbrev pub squad : SwarmDef
squad = record {
  tenant_id = "acme-corp";
  id = "squad";
  topology = "hierarchical";
  roster = some ("coder" ∷ []);
  budget_envelope = record { max_tokens = pos 1000; max_wall_clock = pos 0; max_deploys = pos 1 };
  updated_at = pos 0;
  updated_by = "";
}

abbrev pub ann : AdminUser
ann = record { email = "ann@acme.io"; role = role_owner; added_by = ""; added_at = pos 0 }

abbrev pub entry_of : String → AuditEntry
entry_of who = record blank { actor = who; tenant_id = "acme-corp" }

abbrev pub busy_ops : List Op
busy_ops =
    put_tenant beta
    ∷ put_tenant acme
    ∷ put_connector acme_slack
    ∷ delete_tenant "beta"
    ∷ put_audit (entry_of "ann@acme.io")
    ∷ put_audit (entry_of "bob@acme.io")
    ∷ []

abbrev pub admin_store : MemStore
admin_store = record new_mem_store {
  admins = ("ann@acme.io", ann) ∷ [];
  conns = ("acme-corp", (slack, acme_slack) ∷ []) ∷ [];
}

abbrev pub host : Host
host = record {
  clock = λ n. pos n;
  random_bytes = λ n.
      1 ∷ 35 ∷ 69 ∷ 103 ∷ 137 ∷ 171 ∷ 205 ∷ 239 ∷ 1 ∷ 35 ∷ 69 ∷ 103 ∷ 137 ∷ 171 ∷ 205 ∷ 239 ∷ [];
}

-- A Secret Manager that keeps the latest value.
abbrev pub vault : Writer String
vault = record { add_version = λ name value v. (ok (record { name = name; version = "1" }), value) }

abbrev pub rotator : SecretRotator MemStore String
rotator = record { project_id = "my-proj"; writer = some vault; store = mem_store by_insertion }

-- Every body reads as the document of its type.
abbrev pub json : Decoders
json = record {
  tenant = λ s. ok acme;
  connector = λ s. ok acme_slack;
  agent = λ s. ok builder;
  swarm = λ s. ok squad;
  admin_user = λ s. ok ann;
  marshal = λ v. ok (bytes "{}");
  rotate_request = λ s. ok (record { kind = kind_signing; value = s; reason = "leak" });
}

abbrev pub deps : Deps MemStore String
deps = record {
  store = mem_store by_insertion;
  recorder = record { store = some (mem_store by_insertion) };
  rotator = some rotator;
  host = host;
  json = json;
  env = "prod";
}

abbrev pub world : World MemStore String
world = record { store = admin_store; vault = "old"; log = []; readings = 0; ids = 0 }

abbrev pub claims : IapClaims
claims = record { email = "ann@acme.io"; sub = "accounts.google.com:1" }

abbrev pub cfg : IapAuthConfig MemStore
cfg = record {
  verifier = some (λ token audience. if token == "t" then ok claims else err not_found);
  audience = "aud";
  store = mem_store by_insertion;
  env = "prod";
  bypass_email = "";
}

abbrev pub create_request : Request
create_request = record {
  method = "POST";
  path = "/v1/tenants";
  query = λ q. "";
  jwt = "t";
  body = "{}";
  caller = none;
}

abbrev pub owner_request : Request
owner_request = record create_request {
  caller = some (record { email = "ann@acme.io"; role = role_owner });
}

-- A template writes its name; there are no files.
abbrev pub assets : Assets
assets = record {
  templates = λ name p. record { written = name; problem = none };
  static = λ r. respond 404 (text "404 page not found");
}
