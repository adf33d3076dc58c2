-- ===== src/Config/Store.antt =====
-- pkg/config/store.go: the persistence interface. An operation that writes returns the new state
-- beside its error.
use sclawion.Prelude.{String, List}
use sclawion.Prelude.Int.{ℤ}
use sclawion.Event.{Platform}
use sclawion.Config.Errors.{Result}
use sclawion.Config.Types.{Tenant, ConnectorConfig, AgentProfile, SwarmDef, AdminUser, AuditEntry}

pub record AuditFilter : Type 0 where
  pub tenant_id : String
  pub actor : String
  pub resource_type : String
  pub limit : ℤ

abbrev pub Write : Type 0 → Type 0
Write S = S → Result (Unit {0}) × S

pub record Store (S : Type 0) : Type 0 where
  pub list_tenants : S → Result (List Tenant)
  pub get_tenant : String → S → Result Tenant
  pub put_tenant : Tenant → Write S
  pub delete_tenant : String → Write S
  pub list_connectors : String → S → Result (List ConnectorConfig)
  pub get_connector : String → Platform → S → Result ConnectorConfig
  pub put_connector : ConnectorConfig → Write S
  pub list_agents : String → S → Result (List AgentProfile)
  pub get_agent : String → String → S → Result AgentProfile
  pub put_agent : AgentProfile → Write S
  pub delete_agent : String → String → Write S
  pub list_swarms : String → S → Result (List SwarmDef)
  pub get_swarm : String → String → S → Result SwarmDef
  pub put_swarm : SwarmDef → Write S
  pub delete_swarm : String → String → Write S
  pub list_admin_users : S → Result (List AdminUser)
  pub get_admin_user : String → S → Result AdminUser
  pub put_admin_user : AdminUser → Write S
  pub delete_admin_user : String → Write S
  pub put_audit : AuditEntry → Write S
  pub list_audit : AuditFilter → S → Result (List AuditEntry)
