-- ===== src/Config/Validate.antt =====
-- pkg/config/validate.go: the shape of identifiers and e-mail addresses, the closed sets, and the
-- checks on each record before it is written.
pub mod Shapes
pub mod Accepts
use sclawion.Prelude.{
  ℕ, String, Bool, true, false, not, ◌&&◌, ◌||◌, Option, none, some, List, [], ◌∷◌, ◌==◌, leb,
  nat_eq, length, all, if◌then◌else◌,
}
use Prim.Native.String
use sclawion.Prelude.Int.{ℤ, pos, ltb_ℤ}
use sclawion.Text.{codes, is_blank}
use sclawion.Event.{slack, discord, gchat, whatsapp, imessage}
use sclawion.Config.Errors.{
  Result, ok, ◌>>=◌, ◌>>◌, require, tenant_id_must_match, tenant_id_invalid, agent_id_invalid,
  swarm_id_invalid, platform_unknown, webhook_path_must_be, topology_unknown, role_unknown,
  email_invalid, admin_role_unknown, rate_limit_out_of_range, display_name_required, name_required,
  model_required, memory_scope_unknown, budget_negative, roster_empty, counts_negative,
}
use sclawion.Config.Types.{
  Tenant, ConnectorConfig, AgentProfile, SwarmDef, AdminUser, role_owner, role_operator,
  role_viewer,
}

is_lower : ℕ → Bool
is_lower c = leb b'a' c && leb c b'z'

-- [a-z0-9-]
is_id_char : ℕ → Bool
unfolding is_lower
is_id_char c = is_lower c || (leb b'0' c && leb c b'9') || nat_eq c b'-'

id_codes : List ℕ → Bool
unfolding is_id_char
id_codes [] = false
id_codes (c ∷ r) = is_lower c && leb 1 (length r) && leb (length r) 62 && all is_id_char r

-- ^[a-z][a-z0-9-]{1,62}$
unfoldable pub id_pattern : String → Bool
unfolding id_codes
id_pattern s = id_codes (codes s)

-- [^@\s], where \s is [\t\n\f\r ]
is_plain : ℕ → Bool
is_plain c =
    not (nat_eq c b'@' || nat_eq c 9 || nat_eq c 10 || nat_eq c 12 || nat_eq c 13 || nat_eq c 0x20)

-- [^@\s]*\.[^@\s]+ to the end of the text
dotted : List ℕ → Bool
unfolding is_plain
dotted [] = false
dotted (c ∷ r) = (nat_eq c b'.' && leb 1 (length r) && all is_plain r) || (is_plain c && dotted r)

-- [^@\s]+\.[^@\s]+ to the end of the text
domain : List ℕ → Bool
unfolding dotted
domain [] = false
domain (c ∷ r) = is_plain c && dotted r

-- [^@\s]*@[^@\s]+\.[^@\s]+ to the end of the text
local_rest : List ℕ → Bool
unfolding domain
local_rest [] = false
local_rest (c ∷ r) = (nat_eq c b'@' && domain r) || (is_plain c && local_rest r)

email_codes : List ℕ → Bool
unfolding local_rest
email_codes [] = false
email_codes (c ∷ r) = is_plain c && local_rest r

-- ^[^@\s]+@[^@\s]+\.[^@\s]+$
unfoldable pub email_pattern : String → Bool
unfolding email_codes
email_pattern s = email_codes (codes s)

-- _, ok := set[s]
unfoldable pub contains : List String → String → Bool
contains [] s = false
contains (x ∷ xs) s = x == s || contains xs s

abbrev pub valid_platforms : List String
valid_platforms = slack ∷ discord ∷ gchat ∷ whatsapp ∷ imessage ∷ []

abbrev pub valid_topologies : List String
valid_topologies = "pipeline" ∷ "fanout" ∷ "mesh" ∷ "hierarchical" ∷ []

abbrev pub valid_roles : List String
valid_roles = "planner" ∷ "coder" ∷ "reviewer" ∷ "deployer" ∷ "monitor" ∷ []

abbrev pub valid_memory_scopes : List String
valid_memory_scopes = "conversation" ∷ "user" ∷ []

-- The elements of a slice that may be nil.
abbrev pub elements {ℓ} : {A : Type ℓ} → Option (List A) → List A
elements none = []
elements (some xs) = xs

abbrev is_empty {ℓ} : {A : Type ℓ} → List A → Bool
is_empty [] = true
is_empty (x ∷ xs) = false

unfoldable pub validate_tenant : Tenant → Result (Unit {0})
validate_tenant t = do
  require (id_pattern t.id) (tenant_id_must_match t.id)
  require (not (is_blank t.display_name)) display_name_required

abbrev pub want_path : String → String
want_path p = String.◌++◌ "/v1/" p

unfoldable pub validate_connector : ConnectorConfig → Result (Unit {0})
validate_connector c = do
  require (id_pattern c.tenant_id) (tenant_id_invalid c.tenant_id)
  require (contains valid_platforms c.platform) (platform_unknown c.platform)
  require (c.webhook_path == "" || c.webhook_path == want_path c.platform)
      (webhook_path_must_be (want_path c.platform))
  require (not (ltb_ℤ c.rate_limit_per_conv (pos 0) || ltb_ℤ (pos 600) c.rate_limit_per_conv))
      (rate_limit_out_of_range c.rate_limit_per_conv)

unfoldable pub validate_agent : AgentProfile → Result (Unit {0})
validate_agent a = do
  require (id_pattern a.tenant_id) (tenant_id_invalid a.tenant_id)
  require (id_pattern a.id) (agent_id_invalid a.id)
  require (not (is_blank a.name)) name_required
  require (not (is_blank a.model)) model_required
  require (a.memory_scope == "" || contains valid_memory_scopes a.memory_scope) memory_scope_unknown
  require (not (ltb_ℤ a.budget_usd_per_hour (pos 0))) budget_negative

-- The loop over the roster.
unfoldable pub check_roles : List String → Result (Unit {0})
check_roles [] = ok tt
check_roles (r ∷ rs) =
    let later = check_roles rs in do require (contains valid_roles r) (role_unknown r); later

unfoldable pub validate_swarm : SwarmDef → Result (Unit {0})
validate_swarm s = do
  require (id_pattern s.tenant_id) (tenant_id_invalid s.tenant_id)
  require (id_pattern s.id) (swarm_id_invalid s.id)
  require (contains valid_topologies s.topology) (topology_unknown s.topology)
  require (not (is_empty (elements s.roster))) roster_empty
  check_roles (elements s.roster)
  require
      (not
        (ltb_ℤ s.budget_envelope.max_tokens (pos 0) || ltb_ℤ s.budget_envelope.max_deploys (pos 0)))
      counts_negative

unfoldable pub validate_admin_user : AdminUser → Result (Unit {0})
validate_admin_user u = do
  require (email_pattern u.email) (email_invalid u.email)
  require (u.role == role_owner || u.role == role_operator || u.role == role_viewer)
      (admin_role_unknown u.role)
