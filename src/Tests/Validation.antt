-- ===== src/Tests/Validation.antt =====
-- Runs of the validators.
use sclawion.Prelude.{◌≡◌, ◌↔◌, refl}
use sclawion.Text.{is_blank, is_space}
use sclawion.Config.Errors.{ok}
use sclawion.Config.Validate.{
  validate_tenant, validate_connector, validate_agent, validate_swarm, validate_admin_user,
  id_pattern, contains,
}
use sclawion.Config.Validate.Accepts.{
  IsTenant, IsConnector, IsAgent, IsSwarm, IsAdminUser, validate_tenant_iff, validate_connector_iff,
  validate_agent_iff, validate_swarm_iff, validate_admin_user_iff,
}
use sclawion.Tests.Data.{acme, acme_slack, builder, squad, ann}

validate_tenant_iff_example : (validate_tenant acme ≡ ok tt) ↔ IsTenant acme
validate_tenant_iff_example = validate_tenant_iff acme

-- An identifier may end in a hyphen, which a DNS label may not.
trailing_test : validate_tenant (record acme { id = "a-" }) ≡ ok tt
unfolding validate_tenant id_pattern is_blank is_space
trailing_test = refl

-- A reference that names no secret at all is not looked at.
unnamed_test :
    validate_connector
      (record acme_slack { signing_secret_ref = record { name = ""; version = "9" } })
    ≡ ok tt
unfolding validate_connector id_pattern contains
unnamed_test = refl

validate_connector_iff_example : (validate_connector acme_slack ≡ ok tt) ↔ IsConnector acme_slack
validate_connector_iff_example = validate_connector_iff acme_slack

validate_agent_iff_example : (validate_agent builder ≡ ok tt) ↔ IsAgent builder
validate_agent_iff_example = validate_agent_iff builder

validate_swarm_iff_example : (validate_swarm squad ≡ ok tt) ↔ IsSwarm squad
validate_swarm_iff_example = validate_swarm_iff squad

validate_admin_user_iff_example : (validate_admin_user ann ≡ ok tt) ↔ IsAdminUser ann
validate_admin_user_iff_example = validate_admin_user_iff ann
