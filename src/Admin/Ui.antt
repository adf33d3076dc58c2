-- ===== src/Admin/Ui.antt =====
-- cmd/admin-api/handlers/ui.go: the data of the pages of the user interface, and their rendering. The
-- templates are embedded assets and a parameter: from the name of one and the data to what its
-- execution writes and the error that ended it.
pub mod Views
pub mod Routes
pub mod Every
pub mod Reads
pub mod Unguarded
use sclawion.Prelude.{ℕ, String, ◌==◌, Option, none, some, List, [], ◌∷◌, if◌then◌else◌}
use sclawion.Event.{Platform, slack, discord, gchat, whatsapp, imessage}
use sclawion.Config.Errors.{Result, ok, err, Error}
use sclawion.Config.Types.{Tenant, ConnectorConfig, AgentProfile, SwarmDef, AdminUser, AuditEntry}
use sclawion.Admin.Http.{Request, Response, Caller, caller_of, respond, page, broken_page}

pub record PageData : Type 0 where
  pub caller : Caller
  pub env : String
  pub title : String
  pub active_nav : String
  pub tenant_id : String
  pub tenants : List Tenant
  pub tenant : Option Tenant
  pub connectors : List ConnectorConfig
  pub agents : List AgentProfile
  pub swarms : List SwarmDef
  pub admins : List AdminUser
  pub audit : List AuditEntry
  pub platforms : List Platform
  pub topologies : List String
  pub roles : List String
  pub memories : List String

-- `env` is the field Env of Deps.
unfoldable pub base_page : String → Request → String → String → PageData
base_page env r title active = record {
  caller = caller_of r;
  env = env;
  title = title;
  active_nav = active;
  tenant_id = "";
  tenants = [];
  tenant = none;
  connectors = [];
  agents = [];
  swarms = [];
  admins = [];
  audit = [];
  platforms = slack ∷ discord ∷ gchat ∷ whatsapp ∷ imessage ∷ [];
  topologies = "pipeline" ∷ "fanout" ∷ "mesh" ∷ "hierarchical" ∷ [];
  roles = "planner" ∷ "coder" ∷ "reviewer" ∷ "deployer" ∷ "monitor" ∷ [];
  memories = "conversation" ∷ "user" ∷ [];
}

-- What the execution of a template wrote, and its error.
pub record Executed : Type 0 where
  pub written : String
  pub problem : Option Error

abbrev pub Templates : Type 0
Templates = String → PageData → Executed

-- The status 500 comes too late where something was written before the error.
abbrev pub shown : String → Option Error → Response
shown written none = respond 200 (page written)
shown written (some e) = respond (if written == "" then 500 else 200) (broken_page written e)

unfoldable pub render : Templates → String → PageData → Response
render templates name p = let out = templates name p in shown out.written out.problem

-- `if xs, err := ...; err == nil { p.Field = xs }`: the field keeps its zero value on an error.
abbrev pub or_empty {ℓ} : {A : Type ℓ} → Result (List A) → List A
or_empty (ok xs) = xs
or_empty (err e) = []

abbrev pub or_nil {ℓ} : {A : Type ℓ} → Result A → Option A
or_nil (ok x) = some x
or_nil (err e) = none
