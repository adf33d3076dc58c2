-- ===== src/Admin/Swarms.antt =====
-- cmd/admin-api/handlers/swarms.go
use sclawion.Prelude.{String, some, if◌then◌else◌}
use sclawion.Prelude.Int.{ℤ, pos, eqb_ℤ}
use sclawion.Config.Audit.{redact}
use sclawion.Config.Types.{SwarmDef, BudgetEnvelope, of_swarm}
use sclawion.Config.Validate.{validate_swarm}
use sclawion.Admin.Recording.{recording}
use sclawion.Admin.Http.{nothing, swarms, swarm, caller_of}
use sclawion.Admin.Act.{Handler, ◌>>=◌, ◌>>◌, answer, check, fetch, save, time_now}
use sclawion.Admin.Agents.{or_text, or_slice}
use sclawion.Admin.Deps.{Deps, entry_by}

-- `if src != 0 { dst = src }`
abbrev or_number : ℤ → ℤ → ℤ
or_number src dst = if eqb_ℤ src (pos 0) then dst else src

unfoldable pub patched_envelope : BudgetEnvelope → BudgetEnvelope → BudgetEnvelope
patched_envelope dst src = record dst {
  max_tokens = or_number src.max_tokens dst.max_tokens;
  max_wall_clock = or_number src.max_wall_clock dst.max_wall_clock;
  max_deploys = or_number src.max_deploys dst.max_deploys;
}

-- The fields of the patch that are set replace those of the swarm.
unfoldable pub patched_swarm : SwarmDef → SwarmDef → SwarmDef
unfolding patched_envelope
patched_swarm existing patch = record existing {
  topology = or_text patch.topology existing.topology;
  roster = or_slice patch.roster existing.roster;
  budget_envelope = patched_envelope existing.budget_envelope patch.budget_envelope;
}

module _ {S V : Type 0} (d : Deps S V) where
  unfoldable pub list_swarms : String → Handler S V
  list_swarms tid r = do ss ← fetch (d.store.list_swarms tid); answer 200 (swarms ss)

  unfoldable pub get_swarm : String → String → Handler S V
  get_swarm tid id r = do sw ← fetch (d.store.get_swarm tid id); answer 200 (swarm sw)

  unfoldable pub create_swarm : String → Handler S V
  create_swarm tid r = do
    body ← check (d.json.swarm r.body)
    let sw = record body { tenant_id = tid }
    check (validate_swarm sw)
    now ← time_now d.host
    let sw' = record sw { updated_at = now; updated_by = (caller_of r).email }
    save (d.store.put_swarm sw')
    recording d.host d.recorder (record (entry_by (caller_of r)) {
      action = "swarm.create";
      resource_type = "swarm";
      resource_id = sw'.id;
      tenant_id = tid;
      after = some (redact d.json.marshal (of_swarm sw'));
    })
    answer 201 (swarm sw')

  unfoldable pub patch_swarm : String → String → Handler S V
  patch_swarm tid id r = do
    existing ← fetch (d.store.get_swarm tid id)
    patch ← check (d.json.swarm r.body)
    now ← time_now d.host
    let updated = record (patched_swarm existing patch) {
      updated_at = now;
      updated_by = (caller_of r).email;
    }
    check (validate_swarm updated)
    save (d.store.put_swarm updated)
    recording d.host d.recorder (record (entry_by (caller_of r)) {
      action = "swarm.patch";
      resource_type = "swarm";
      resource_id = id;
      tenant_id = tid;
      before = some (redact d.json.marshal (of_swarm existing));
      after = some (redact d.json.marshal (of_swarm updated));
    })
    answer 200 (swarm updated)

  unfoldable pub delete_swarm : String → String → Handler S V
  delete_swarm tid id r = do
    save (d.store.delete_swarm tid id)
    recording d.host d.recorder (record (entry_by (caller_of r)) {
      action = "swarm.delete";
      resource_type = "swarm";
      resource_id = id;
      tenant_id = tid;
    })
    answer 204 nothing
