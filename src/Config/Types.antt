-- ===== src/Config/Types.antt =====
-- pkg/config/types.go and pkg/secrets/writer.go: the records of the configuration. A slice that can
-- be nil is an `Option`. A `float64` is an exact multiple of its smallest positive value, 2^-1074,
-- and is modelled by that multiple.
use sclawion.Prelude.{String, Bool, Option, List}
use sclawion.Prelude.Int.{ℤ}
use sclawion.Bytes.{Bytes}
use sclawion.Event.{Platform, Time}

pub record SecretRef : Type 0 where
  pub name : String
  pub version : String

abbrev pub no_ref : SecretRef
no_ref = record { name = ""; version = "" }

pub record Tenant : Type 0 where
  pub id : String
  pub display_name : String
  pub created_at : Time
  pub updated_at : Time
  pub disabled : Bool

pub record ConnectorConfig : Type 0 where
  pub tenant_id : String
  pub platform : Platform
  pub webhook_path : String
  pub allowed_channels : Option (List String)
  pub signing_secret_ref : SecretRef
  pub oauth_token_ref : SecretRef
  pub rate_limit_per_conv : ℤ
  pub replay_cache_enabled : Bool
  pub updated_at : Time
  pub updated_by : String

pub record AgentProfile : Type 0 where
  pub tenant_id : String
  pub id : String
  pub name : String
  pub model : String
  pub mcp_servers : Option (List String)
  pub skills : Option (List String)
  pub memory_scope : String
  pub budget_usd_per_hour : ℤ
  pub updated_at : Time
  pub updated_by : String

pub record BudgetEnvelope : Type 0 where
  pub max_tokens : ℤ
  pub max_wall_clock : ℤ
  pub max_deploys : ℤ

pub record SwarmDef : Type 0 where
  pub tenant_id : String
  pub id : String
  pub topology : String
  pub roster : Option (List String)
  pub budget_envelope : BudgetEnvelope
  pub updated_at : Time
  pub updated_by : String

-- `type Role string`: a stored role may be any text.
abbrev pub Role : Type 0
Role = String

abbrev pub role_owner : Role
role_owner = "owner"

abbrev pub role_operator : Role
role_operator = "operator"

abbrev pub role_viewer : Role
role_viewer = "viewer"

pub record AdminUser : Type 0 where
  pub email : String
  pub role : Role
  pub added_by : String
  pub added_at : Time

abbrev pub SecretKind : Type 0
SecretKind = String

abbrev pub kind_signing : SecretKind
kind_signing = "signing_secret"

abbrev pub kind_oauth : SecretKind
kind_oauth = "oauth_token"

-- json.RawMessage
abbrev pub RawMessage : Type 0
RawMessage = Bytes

-- What the handlers hand to Redact for the audit log.
pub data Snapshot : Type 0 where
  of_tenant : Tenant → Snapshot
  of_connector : ConnectorConfig → Snapshot
  of_agent : AgentProfile → Snapshot
  of_swarm : SwarmDef → Snapshot
  of_admin_user : AdminUser → Snapshot
  of_rotation : (kind reason version : String) → Snapshot

pub record AuditEntry : Type 0 where
  pub id : String
  pub actor : String
  pub actor_role : Role
  pub action : String
  pub resource_type : String
  pub resource_id : String
  pub tenant_id : String
  pub before : Option RawMessage
  pub after : Option RawMessage
  pub at : Time
  pub trace_id : String
  pub span_id : String
  pub request_id : String
  pub result : String
  pub error : String
