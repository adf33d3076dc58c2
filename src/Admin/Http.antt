-- ===== src/Admin/Http.antt =====
-- Requests and responses as the handlers of cmd/admin-api/handlers see them, and the statuses that
-- they answer with. `http.ServeMux` hands a handler a path in canonical form.
use sclawion.Prelude.{ℕ, String, Option, none, some, List}
use sclawion.Event.{Time}
use sclawion.Config.Errors.{
  Error, not_found, secret_missing, signature_mismatch, timestamp_skew, malformed, invalid, plain,
  wrapped,
}
use sclawion.Config.Types.{
  SecretRef, Tenant, ConnectorConfig, AgentProfile, SwarmDef, Role, AdminUser, AuditEntry,
}

-- config.Caller: the principal that `IAPAuth` puts into the request's context.
pub record Caller : Type 0 where
  pub email : String
  pub role : Role

-- `query` is `r.URL.Query().Get`, `jwt` the IAP header, each "" where it is missing.
pub record Request : Type 0 where
  pub method : String
  pub path : String
  pub query : String → String
  pub jwt : String
  pub body : String
  pub caller : Option Caller

-- What a response carries: the text of an error, or the value that `writeJSON` encodes.
pub data Body : Type 0 where
  nothing : Body
  text : String → Body
  failure : Error → Body
  tenants : List Tenant → Body
  tenant : Tenant → Body
  connectors : List ConnectorConfig → Body
  connector : ConnectorConfig → Body
  agents : List AgentProfile → Body
  agent : AgentProfile → Body
  swarms : List SwarmDef → Body
  swarm : SwarmDef → Body
  admin_users : List AdminUser → Body
  admin_user : AdminUser → Body
  audit : List AuditEntry → Body
  rotated : SecretRef → Time → Body
  page : String → Body
  broken_page : String → Error → Body

pub record Response : Type 0 where
  pub status : ℕ
  pub body : Body

abbrev pub respond : ℕ → Body → Response
respond status body = record { status = status; body = body }

-- httpStatusFor: `errors.Is` looks through the wrapping.
unfoldable pub http_status_for : Error → ℕ
http_status_for not_found = 404
http_status_for (invalid r) = 400
http_status_for secret_missing = 409
http_status_for signature_mismatch = 500
http_status_for timestamp_skew = 500
http_status_for malformed = 500
http_status_for (plain s) = 500
http_status_for (wrapped s e) = http_status_for e

-- `caller, _ := config.CallerFromContext(r.Context())`: the zero value where there is none.
abbrev pub caller_or_zero : Option Caller → Caller
caller_or_zero none = record { email = ""; role = "" }
caller_or_zero (some c) = c

abbrev pub caller_of : Request → Caller
caller_of r = caller_or_zero r.caller
