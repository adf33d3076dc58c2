-- ===== src/Config/Validate/Accepts.antt =====
-- Which records the validators of validate.go accept: a record is accepted exactly when it meets
-- every condition on its fields.
use sclawion.Prelude.{
  ◌≡◌, ◌↔◌, ◌⊎◌, refl, String, true, not, ◌||◌, List, [], ◌∷◌, ◌==◌, eq_iff, ◌≢◌, inl, inr, All, In,
  Bool-cases, text-cases, arith,
}
use sclawion.Prelude.Int.{pos, ◌≤ℤ◌}
use sclawion.Text.{codes, is_blank, is_space}
use sclawion.Config.Errors.{ok}
use sclawion.Config.Types.{
  Tenant, ConnectorConfig, AgentProfile, SwarmDef, AdminUser, role_owner, role_operator,
  role_viewer,
}
use sclawion.Config.Validate.{
  contains, valid_platforms, valid_topologies, valid_roles, valid_memory_scopes, elements,
  want_path, validate_tenant, validate_connector, validate_agent, check_roles, validate_swarm,
  validate_admin_user,
}
use sclawion.Config.Validate.Shapes.{
  IsIdentifier, IsEmail, id_pattern_iff, email_pattern_iff, is_blank_iff, contains_iff,
}

-- Something besides white space.
abbrev pub HasText : String → Type 0
HasText s = ¬ All (λ c. is_space c ≡ true) (codes s)

HasText-iff : (s : String) → (not (is_blank s) ≡ true) ↔ HasText s
HasText-iff s =
    let (to, from) = is_blank_iff s in
    (
      λ h p. ground (arith, from p),
      λ h. elim (Bool-cases (is_blank s)) [ inl e ↦ absurd (h (to e)) | inr e ↦ rw e ],
    )

-- An optional field: absent, or a member of the set.
optional_iff :
    (s : String) (xs : List String) → ((s == "" || contains xs s) ≡ true) ↔ ((s ≡ "") ⊎ In s xs)
optional_iff s xs = (
  λ h. elim (text-cases s "") [
    | inl e ↦ inl e
    | inr e ↦ inr ((contains_iff xs s).0 (ground arith))
  ],
  λ h. elim h [
    | inl e ↦ ground (arith, eq_iff s "")
    | inr i ↦ ground (arith, (contains_iff xs s).1 i)
  ],
)

abbrev pub admin_roles : List String
admin_roles = role_owner ∷ role_operator ∷ role_viewer ∷ []

pub record IsTenant (t : Tenant) : Type 0 where
  pub identifier : IsIdentifier (codes t.id)
  pub named : HasText t.display_name

pub record IsConnector (c : ConnectorConfig) : Type 0 where
  pub identifier : IsIdentifier (codes c.tenant_id)
  pub known : In c.platform valid_platforms
  pub path : (c.webhook_path ≡ "") ⊎ (c.webhook_path ≡ want_path c.platform)
  pub least : pos 0 ≤ℤ c.rate_limit_per_conv
  pub most : c.rate_limit_per_conv ≤ℤ pos 600

pub record IsAgent (a : AgentProfile) : Type 0 where
  pub tenant : IsIdentifier (codes a.tenant_id)
  pub identifier : IsIdentifier (codes a.id)
  pub named : HasText a.name
  pub modelled : HasText a.model
  pub scope : (a.memory_scope ≡ "") ⊎ In a.memory_scope valid_memory_scopes
  pub budget : pos 0 ≤ℤ a.budget_usd_per_hour

pub record IsSwarm (s : SwarmDef) : Type 0 where
  pub tenant : IsIdentifier (codes s.tenant_id)
  pub identifier : IsIdentifier (codes s.id)
  pub topology : In s.topology valid_topologies
  pub staffed : elements s.roster ≢ []
  pub roles : All (λ r. In r valid_roles) (elements s.roster)
  pub tokens : pos 0 ≤ℤ s.budget_envelope.max_tokens
  pub deploys : pos 0 ≤ℤ s.budget_envelope.max_deploys

pub record IsAdminUser (u : AdminUser) : Type 0 where
  pub address : IsEmail (codes u.email)
  pub role : In u.role admin_roles

-- A tenant is accepted exactly when its id is an identifier and its display name is not blank.
pub validate_tenant_iff : (t : Tenant) → (validate_tenant t ≡ ok tt) ↔ IsTenant t
unfolding validate_tenant
validate_tenant_iff t =
    let (id_to, id_from) = id_pattern_iff t.id in
    let (text_to, text_from) = HasText-iff t.display_name in
    (
      λ h. record { identifier = id_to (ground arith); named = text_to (ground arith) },
      λ w. ground (arith, id_from w.identifier, text_from w.named),
    )

-- A connector is accepted exactly when its tenant id is an identifier, its platform is supported, its
-- webhook path is empty or the platform's own, and its rate limit lies in 0..600.
pub validate_connector_iff : (c : ConnectorConfig) → (validate_connector c ≡ ok tt) ↔ IsConnector c
unfolding validate_connector
validate_connector_iff c =
    let (id_to, id_from) = id_pattern_iff c.tenant_id in
    let (set_to, set_from) = contains_iff valid_platforms c.platform in
    (
      λ h. record {
        identifier = id_to (ground arith);
        known = set_to (ground arith);
        path =
            ground (arith, eq_iff c.webhook_path "", eq_iff c.webhook_path (want_path c.platform));
        least = ground arith;
        most = ground arith;
      },
      λ w. ground (
        arith,
        id_from w.identifier,
        set_from w.known,
        eq_iff c.webhook_path "",
        eq_iff c.webhook_path (want_path c.platform),
        w.path,
        w.least,
        w.most,
      ),
    )

-- An agent profile is accepted exactly when both ids are identifiers, its name and model are not
-- blank, its memory scope is empty or a known one, and its budget is not negative.
pub validate_agent_iff : (a : AgentProfile) → (validate_agent a ≡ ok tt) ↔ IsAgent a
unfolding validate_agent
validate_agent_iff a =
    let (tenant_to, tenant_from) = id_pattern_iff a.tenant_id in
    let (id_to, id_from) = id_pattern_iff a.id in
    let (name_to, name_from) = HasText-iff a.name in
    let (model_to, model_from) = HasText-iff a.model in
    let (scope_to, scope_from) = optional_iff a.memory_scope valid_memory_scopes in
    (
      λ h. record {
        tenant = tenant_to (ground arith);
        identifier = id_to (ground arith);
        named = name_to (ground arith);
        modelled = model_to (ground arith);
        scope = scope_to (ground arith);
        budget = ground arith;
      },
      λ w. ground (
        arith,
        tenant_from w.tenant,
        id_from w.identifier,
        name_from w.named,
        model_from w.modelled,
        scope_from w.scope,
        w.budget,
      ),
    )

check_roles_iff : (rs : List String) → (check_roles rs ≡ ok tt) ↔ All (λ r. In r valid_roles) rs
unfolding check_roles
check_roles_iff [] = (λ h. tt, λ h. refl)
check_roles_iff (r ∷ rs) =
    let (to, from) = check_roles_iff rs in
    let (set_to, set_from) = contains_iff valid_roles r in
    (λ h. (set_to (ground arith), to (ground arith)), λ (p, q). ground (arith, set_from p, from q))

-- A swarm is accepted exactly when both ids are identifiers, its topology is a known one, its roster
-- is not empty and names known roles only, and its token and deploy counts are not negative.
pub validate_swarm_iff : (s : SwarmDef) → (validate_swarm s ≡ ok tt) ↔ IsSwarm s
unfolding validate_swarm
validate_swarm_iff s =
    let (tenant_to, tenant_from) = id_pattern_iff s.tenant_id in
    let (id_to, id_from) = id_pattern_iff s.id in
    let (set_to, set_from) = contains_iff valid_topologies s.topology in
    let (roles_to, roles_from) = check_roles_iff (elements s.roster) in
    (
      λ h. record {
        tenant = tenant_to (ground arith);
        identifier = id_to (ground arith);
        topology = set_to (ground arith);
        staffed = ground arith;
        roles = roles_to (ground arith);
        tokens = ground arith;
        deploys = ground arith;
      },
      λ w. ground (
        arith,
        tenant_from w.tenant,
        id_from w.identifier,
        set_from w.topology,
        w.staffed,
        roles_from w.roles,
        w.tokens,
        w.deploys,
      ),
    )

eq_sym : (s t : String) → (s == t) ≡ (t == s)
eq_sym s t = ground (arith, eq_iff s t, eq_iff t s)

role_test :
    (r : String)
    → (r == role_owner || r == role_operator || r == role_viewer) ≡ contains admin_roles r
unfolding contains
role_test r = ground (arith, eq_sym r role_owner, eq_sym r role_operator, eq_sym r role_viewer)

-- An admin user is accepted exactly when the e-mail is an address and the role one of the three.
pub validate_admin_user_iff : (u : AdminUser) → (validate_admin_user u ≡ ok tt) ↔ IsAdminUser u
unfolding validate_admin_user
validate_admin_user_iff u =
    let (to, from) = email_pattern_iff u.email in
    let (set_to, set_from) = contains_iff admin_roles u.role in
    (
      λ h. record { address = to (ground arith); role = set_to (ground (arith, role_test u.role)) },
      λ w. ground (arith, from w.address, set_from w.role, role_test u.role),
    )
