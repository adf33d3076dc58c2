-- ===== src/Admin/Agents.antt =====
-- cmd/admin-api/handlers/agents.go
use sclawion.Prelude.{String, ◌==◌, Option, none, some, List, if◌then◌else◌}
use sclawion.Prelude.Int.{pos, eqb_ℤ}
use sclawion.Config.Audit.{redact}
use sclawion.Config.Types.{AgentProfile, of_agent}
use sclawion.Config.Validate.{validate_agent}
use sclawion.Admin.Recording.{recording}
use sclawion.Admin.Http.{nothing, agents, agent, caller_of}
use sclawion.Admin.Act.{Handler, ◌>>=◌, ◌>>◌, answer, check, fetch, save, time_now}
use sclawion.Admin.Deps.{Deps, entry_by}

-- `if src != "" { dst = src }`
abbrev pub or_text : String → String → String
or_text src dst = if src == "" then dst else src

-- `if src != nil { dst = src }`
abbrev pub or_slice : {A : Type 0} → Option (List A) → Option (List A) → Option (List A)
or_slice none dst = dst
or_slice (some xs) dst = some xs

unfoldable pub merge_agent : AgentProfile → AgentProfile → AgentProfile
merge_agent dst src = record dst {
  name = or_text src.name dst.name;
  model = or_text src.model dst.model;
  mcp_servers = or_slice src.mcp_servers dst.mcp_servers;
  skills = or_slice src.skills dst.skills;
  memory_scope = or_text src.memory_scope dst.memory_scope;
  budget_usd_per_hour =
      if eqb_ℤ src.budget_usd_per_hour (pos 0)
      then dst.budget_usd_per_hour
      else src.budget_usd_per_hour;
}

module _ {S V : Type 0} (d : Deps S V) where
  unfoldable pub list_agents : String → Handler S V
  list_agents tid r = do as' ← fetch (d.store.list_agents tid); answer 200 (agents as')

  unfoldable pub get_agent : String → String → Handler S V
  get_agent tid id r = do a ← fetch (d.store.get_agent tid id); answer 200 (agent a)

  unfoldable pub create_agent : String → Handler S V
  create_agent tid r = do
    body ← check (d.json.agent r.body)
    let a = record body { tenant_id = tid }
    check (validate_agent a)
    now ← time_now d.host
    let a' = record a { updated_at = now; updated_by = (caller_of r).email }
    save (d.store.put_agent a')
    recording d.host d.recorder (record (entry_by (caller_of r)) {
      action = "agent.create";
      resource_type = "agent";
      resource_id = a'.id;
      tenant_id = tid;
      after = some (redact d.json.marshal (of_agent a'));
    })
    answer 201 (agent a')

  unfoldable pub patch_agent : String → String → Handler S V
  patch_agent tid id r = do
    existing ← fetch (d.store.get_agent tid id)
    patch ← check (d.json.agent r.body)
    now ← time_now d.host
    let updated = record (merge_agent existing patch) {
      updated_at = now;
      updated_by = (caller_of r).email;
    }
    check (validate_agent updated)
    save (d.store.put_agent updated)
    recording d.host d.recorder (record (entry_by (caller_of r)) {
      action = "agent.patch";
      resource_type = "agent";
      resource_id = id;
      tenant_id = tid;
      before = some (redact d.json.marshal (of_agent existing));
      after = some (redact d.json.marshal (of_agent updated));
    })
    answer 200 (agent updated)

  unfoldable pub delete_agent : String → String → Handler S V
  delete_agent tid id r = do
    save (d.store.delete_agent tid id)
    recording d.host d.recorder (record (entry_by (caller_of r)) {
      action = "agent.delete";
      resource_type = "agent";
      resource_id = id;
      tenant_id = tid;
    })
    answer 204 nothing
