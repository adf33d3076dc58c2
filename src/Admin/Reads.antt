-- ===== src/Admin/Reads.antt =====
-- Programs that read only, and the handlers that are such: run alone or among others, they leave the
-- world exactly as it is.
use sclawion.Prelude.{ℕ, ◌≡◌, refl, ◌∙◌, String}
use sclawion.Event.{Platform}
use sclawion.Config.Errors.{Result}
use sclawion.Config.World.{World}
use sclawion.Admin.Http.{Request, Response, Body}
use sclawion.Admin.Act.{
  Act, Outcome, go, answered, ended, step, continue, ◌>>=◌, answer, fetch, peek, reply, run, ◌▷◌,
}
use sclawion.Admin.Deps.{Deps}
use sclawion.Admin.Tenants.{list_tenants, get_tenant}
use sclawion.Admin.Agents.{list_agents, get_agent}
use sclawion.Admin.Swarms.{list_swarms, get_swarm}
use sclawion.Admin.Connectors.{list_connectors, get_connector}
use sclawion.Admin.AdminUsers.{list_admin_users}
use sclawion.Admin.AuditLog.{list_audit}

module _ {S V : Type 0} where
  unfoldable pub Still : {A : Type 0} → Act S V A → Type 0
  Still (ended o) = Unit
  Still (step u k) = (w : World S V) → (u w ≡ w) × Still (k w)

  -- No step changes the world.
  pub record Reading {A : Type 0} (m : Act S V A) : Type 0 where
    pub still : Still m

  Still-outcome :
      {A B : Type 0} (o : Outcome A) (f : A → Act S V B)
      → ((a : A) → Reading (f a))
      → Still (continue o f)
  unfolding Still
  Still-outcome (go a) f q = (q a).still
  Still-outcome (answered r) f q = tt

  Still-bind :
      {A B : Type 0} (m : Act S V A) (f : A → Act S V B)
      → Still m
      → ((a : A) → Reading (f a))
      → Still (m >>= f)
  unfolding Still ◌>>=◌
  Still-bind (ended o) f p q = Still-outcome o f q
  Still-bind (step u k) f p q = λ w. ((p w).0, Still-bind (k w) f (p w).1 q)

  run-Still : {A : Type 0} (m : Act S V A) (w : World S V) → Still m → (run m w).1 ≡ w
  unfolding Still run
  run-Still (ended o) w p = refl
  run-Still (step u k) w p = run-Still (k w) (u w) (p w).1 ∙ (p w).0

module _ {S V : Type 0} where
  pub Reading-bind :
      {A B : Type 0} {m : Act S V A} {f : A → Act S V B}
      → Reading m
      → ((a : A) → Reading (f a))
      → Reading (m >>= f)
  Reading-bind {m = m} {f = f} p q = record { still = Still-bind m f p.still q }

  pub Reading-answer : (status : ℕ) (body : Body) → Reading {S = S} {V = V} (answer status body)
  unfolding Still answer
  Reading-answer status body = record { still = tt }

  pub Reading-reply : (r : Response) → Reading {S = S} {V = V} (reply r)
  unfolding Still reply
  Reading-reply r = record { still = tt }

  pub Reading-peek : {A : Type 0} (read : S → A) → Reading {V = V} (peek read)
  unfolding Still peek
  Reading-peek read = record { still = λ w. (refl, tt) }

  pub Reading-fetch : {A : Type 0} (read : S → Result A) → Reading {V = V} (fetch read)
  unfolding Still fetch
  Reading-fetch read = record { still = λ w. (refl, tt) }

  -- Run alone, a program that reads only leaves the world as it was.
  pub Reading-world : (m : Act S V Response) (w : World S V) → Reading m → (m ▷ w).1 ≡ w
  unfolding ◌▷◌
  Reading-world m w p = run-Still m w p.still

module _ {S V : Type 0} (d : Deps S V) (r : Request) where
  pub list_tenants-Reading : Reading (list_tenants d r)
  unfolding list_tenants
  list_tenants-Reading = Reading-bind (Reading-fetch _) λ a. Reading-answer _ _

  pub get_tenant-Reading : (tid : String) → Reading (get_tenant d tid r)
  unfolding get_tenant
  get_tenant-Reading tid = Reading-bind (Reading-fetch _) λ a. Reading-answer _ _

  pub list_connectors-Reading : (tid : String) → Reading (list_connectors d tid r)
  unfolding list_connectors
  list_connectors-Reading tid = Reading-bind (Reading-fetch _) λ a. Reading-answer _ _

  pub get_connector-Reading : (tid : String) (p : Platform) → Reading (get_connector d tid p r)
  unfolding get_connector
  get_connector-Reading tid p = Reading-bind (Reading-fetch _) λ a. Reading-answer _ _

  pub list_agents-Reading : (tid : String) → Reading (list_agents d tid r)
  unfolding list_agents
  list_agents-Reading tid = Reading-bind (Reading-fetch _) λ a. Reading-answer _ _

  pub get_agent-Reading : (tid id : String) → Reading (get_agent d tid id r)
  unfolding get_agent
  get_agent-Reading tid id = Reading-bind (Reading-fetch _) λ a. Reading-answer _ _

  pub list_swarms-Reading : (tid : String) → Reading (list_swarms d tid r)
  unfolding list_swarms
  list_swarms-Reading tid = Reading-bind (Reading-fetch _) λ a. Reading-answer _ _

  pub get_swarm-Reading : (tid id : String) → Reading (get_swarm d tid id r)
  unfolding get_swarm
  get_swarm-Reading tid id = Reading-bind (Reading-fetch _) λ a. Reading-answer _ _

  pub list_admin_users-Reading : Reading (list_admin_users d r)
  unfolding list_admin_users
  list_admin_users-Reading = Reading-bind (Reading-fetch _) λ a. Reading-answer _ _

  pub list_audit-Reading : Reading (list_audit d r)
  unfolding list_audit
  list_audit-Reading = Reading-bind (Reading-fetch _) λ a. Reading-answer _ _
