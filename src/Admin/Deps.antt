-- ===== src/Admin/Deps.antt =====
-- handlers.Deps: what every handler is given; and `ownerOnly`.
use sclawion.Prelude.{String, Option, none, some, ◌==◌, if◌then◌else◌}
use sclawion.Config.Errors.{Result}
use sclawion.Config.Types.{
  Tenant, ConnectorConfig, AgentProfile, SwarmDef, AdminUser, AuditEntry, SecretKind, Snapshot,
  RawMessage, role_owner,
}
use sclawion.Config.Store.{Store}
use sclawion.Config.World.{Host}
use sclawion.Config.Audit.{Recorder, blank}
use sclawion.Config.Secrets.{SecretRotator}
use sclawion.Admin.Http.{Caller, text}
use sclawion.Admin.Act.{Handler, answer}

-- rotateRequest of connectors.go
pub record RotateRequest : Type 0 where
  pub kind : SecretKind
  pub value : String
  pub reason : String

-- readJSON at each type: encoding/json with unknown fields refused, from the body's text.
pub record Decoders : Type 0 where
  pub tenant : String → Result Tenant
  pub connector : String → Result ConnectorConfig
  pub agent : String → Result AgentProfile
  pub swarm : String → Result SwarmDef
  pub admin_user : String → Result AdminUser
  pub rotate_request : String → Result RotateRequest
  -- json.Marshal of what the audit log keeps
  pub marshal : Snapshot → Result RawMessage

pub record Deps (S V : Type 0) : Type 0 where
  pub store : Store S
  pub recorder : Recorder S
  pub rotator : Option (SecretRotator S V)
  pub host : Host
  pub json : Decoders
  pub env : String

-- The entry of a successful call of `caller`, before its fields are filled in.
abbrev pub entry_by : Caller → AuditEntry
entry_by caller = record blank { actor = caller.email; actor_role = caller.role }

module _ {S V : Type 0} where
  unfoldable pub owner_only : Handler S V → Handler S V
  unfolding answer
  owner_only h r = elim r.caller [
    | none ↦ answer 401 (text "no caller")
    | some c ↦ if c.role == role_owner then h r else answer 403 (text "owner required")
  ]
